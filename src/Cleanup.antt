-- ===== src/Cleanup.antt =====
-- .devkit/scripts/docker_cleanup.py
pub mod Pattern
pub mod Loop
pub mod Selected
pub mod Batches
pub mod Main
pub mod Sparing
pub mod Current
use encrypted_zone_sdk.Base.{
  ℕ, ◌&&◌, ◌||◌, leb, Bool, true, false, not, Option, none, some, List, [], ◌∷◌, ◌++◌, keep,
  contains, text_eq, if◌then◌else◌, eqb,
}
use encrypted_zone_sdk.Base.Result.{Result, ok, raise, ◌>>=◌}
use encrypted_zone_sdk.Base.Decimal.{show_ℤ}
use encrypted_zone_sdk.Base.Int.{ℤ, pos, ◌*ℤ◌}
use encrypted_zone_sdk.Base.Lines.{splitlines}
use encrypted_zone_sdk.Base.Text.{Text, codes, strip}
use encrypted_zone_sdk.Cleanup.Pattern.{image_name_of}

abbrev pub allowed_image_names : List Text
allowed_image_names =
    codes "build-env"
    ∷ codes "build-env-debian"
    ∷ codes "build-env-rockylinux"
    ∷ codes "clion-ide"
    ∷ codes "dev-env"
    ∷ codes "gcloud-env"
    ∷ codes "goland-ide"
    ∷ codes "ide-env"
    ∷ codes "intellij-ide"
    ∷ codes "nitro-cli-linux6"
    ∷ codes "pycharm-ide"
    ∷ codes "tool-env"
    ∷ codes "vscode-ide"
    ∷ codes "vscode-server"
    ∷ []

abbrev pub names_allowed : Option Text → Bool
names_allowed none = false
names_allowed (some image_name) = contains allowed_image_names image_name

-- The test of `filter_allowed_images` on one image.
unfoldable pub is_allowed : Text → Bool
unfolding image_name_of
is_allowed img = names_allowed (image_name_of img)

unfoldable pub filter_allowed_images : List Text → List Text
filter_allowed_images images = keep is_allowed images

-- How the calculation of all current tags ends: with the tags, with an exception that is caught,
-- or with the `SystemExit` of `sys.exit`, which is none of `Exception`.
pub data TagsOutcome : Type 0 where
  all_tags : List Text → TagsOutcome
  exception system_exit : TagsOutcome

-- What ends the clean-up before its time: `sys.exit(1)`, or an exception that nothing catches.
pub data Failure : Type 0 where
  system_exit_1 uncaught_exception : Failure

unfoldable pub get_ignored_images : TagsOutcome → Result Failure (List Text)
get_ignored_images (all_tags tags) = ok tags
get_ignored_images exception = ok []
get_ignored_images system_exit = raise system_exit_1

-- `all_to_cleanup`
abbrev pub without : List Text → List Text → List Text
without ignored images = keep (λ img. not (contains ignored img)) images

-- What is selected of the allowed images. The current tags are calculated only if there is one.
unfoldable pub select_images : List Text → TagsOutcome → Result Failure (List Text)
unfolding get_ignored_images
select_images [] tags = ok []
select_images (img ∷ imgs) tags =
    get_ignored_images tags >>= λ ignored. ok (without ignored (img ∷ imgs))

-- From the images that docker lists, and the outcome of the calculation of the current tags.
unfoldable pub get_images_to_cleanup : List Text → TagsOutcome → Result Failure (List Text)
unfolding filter_allowed_images select_images
get_images_to_cleanup all_images tags = select_images (filter_allowed_images all_images) tags

-- The command that lists the images; `threshold_days` is turned to hours.
unfoldable pub images_command : Text → ℤ → List Text
unfolding show_ℤ ◌*ℤ◌
images_command image_prefix threshold_days =
    codes "docker"
    ∷ codes "images"
    ∷ codes "--filter"
    ∷ (codes "reference=" ++ (image_prefix ++ codes "/*"))
    ∷ codes "--filter"
    ∷ (codes "until=" ++ (show_ℤ (threshold_days *ℤ pos 24) ++ codes "h"))
    ∷ codes "--format"
    ∷ codes "{{.Repository}}:{{.Tag}}"
    ∷ []

-- `get_images`: what `docker images` prints, or `none` where it fails or is not there.
unfoldable pub get_images : Option Text → List Text
unfolding splitlines strip
get_images none = []
get_images (some stdout) = splitlines (strip stdout)
