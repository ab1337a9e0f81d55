-- ===== src/Tests/BuildEvents.antt =====
-- .devkit/scripts/bep.py at concrete inputs.
use encrypted_zone_sdk.Base.{◌≡◌, refl, Bool, true, false, List, [], ◌∷◌, text_eq}
use encrypted_zone_sdk.Base.Text.{Text, codes}
use encrypted_zone_sdk.FilePath.{FilePath, path_of}
use encrypted_zone_sdk.Bep.{Command, Effect, Ran, completed, failed, sanitized_target_name}

-- Two commands succeed, and no third one.
abbrev run_two : List Effect → Command → Ran
run_two (a ∷ b ∷ c ∷ d ∷ e ∷ f ∷ log) command = failed 1
run_two log command = completed []

abbrev can_make : List Effect → FilePath → Bool
can_make log path = true

abbrev out : FilePath
out = path_of false (codes "bazel-bep" ∷ [])

abbrev temp : Text → Text × Text
temp target = (codes "/tmp/a", codes "/tmp/b")

abbrev targets : List Text
targets = codes "//b:y" ∷ codes "//c:z" ∷ []

name_of_x : sanitized_target_name (codes "//a/b:x") ≡ codes "b_x"
unfolding sanitized_target_name
name_of_x = refl
