-- ===== src/Bep.antt =====
-- .devkit/scripts/bep.py. What a command does, and whether a directory
-- can be made, may depend on all that was done before.
pub mod Names
pub mod Targets
use encrypted_zone_sdk.Base.{
  ℕ, Bool, true, false, ◌==◌, List, [], ◌∷◌, ◌++◌, if◌then◌else◌, text_eq,
}
use encrypted_zone_sdk.Base.Result.{Result, ok, raise}
use encrypted_zone_sdk.Base.Text.{Text, codes, strip, split, replace}
use encrypted_zone_sdk.FilePath.{FilePath, child, components, path_of, show_path}
use encrypted_zone_sdk.FindRoot.{RootError}

abbrev pub Command : Type 0
Command = List Text

pub data Effect : Type 0 where
  made_dir : FilePath → Effect
  ran : Command → Effect

-- What `subprocess.run` does: the output, the exit status of a failure, or `FileNotFoundError`.
pub data Ran : Type 0 where
  completed : Text → Ran
  failed : ℕ → Ran
  not_found : Ran

-- `sys.exit(1)`, the `FileNotFoundError` of `find_project_root`, and the `OSError` of `mkdir`; the
-- latter two are not caught.
pub data BepError : Type 0 where
  exit_status_1 file_not_found_error os_error : BepError

-- An action adds to the effects so far.
abbrev pub Bep : Type 0 → Type 0
Bep A = List Effect → Result BepError A × List Effect

abbrev pub followed :
    {A B : Type 0} → (A → Bep B) → Result BepError A × List Effect → Result BepError B × List Effect
followed f (ok a, log) = f a log
followed f (raise e, log) = (raise e, log)

infixl 5 ◌>>=◌ ◌>>◌
abbrev pub ◌>>=◌ : {A B : Type 0} → Bep A → (A → Bep B) → Bep B
m >>= f = λ log. followed f (m log)

abbrev pub ◌>>◌ : {A B : Type 0} → Bep A → Bep B → Bep B
m >> n = m >>= λ _. n

abbrev pub pure : {A : Type 0} → A → Bep A
pure a log = (ok a, log)

abbrev pub output_of : Bool → Ran → Result BepError Text
output_of capture_output (completed stdout) = ok (if capture_output then strip stdout else [])
output_of capture_output (failed n) = raise exit_status_1
output_of capture_output not_found = raise exit_status_1

abbrev last : List Text → Text
last [] = []
last (p ∷ []) = p
last (p ∷ q ∷ ps) = last (q ∷ ps)

-- `bazel_target.replace(":", "_").split("/")[-1]`
unfoldable pub sanitized_target_name : Text → Text
unfolding replace split
sanitized_target_name bazel_target =
    last (split b'/' (replace bazel_target (codes ":") (codes "_")))

-- The directory of the output file of a target.
unfoldable pub target_dir : FilePath → Text → FilePath
unfolding sanitized_target_name components
target_dir output_dir bazel_target =
    path_of output_dir.absolute
      (output_dir.parts ++ components (sanitized_target_name bazel_target ∷ []))

abbrev pub bep_json : FilePath → FilePath
bep_json dir = child dir (codes "bep.json")

-- `run` is `subprocess.run`, `makes` says whether `mkdir` makes a directory, `root` what `find_project_root` gives, and `temp` names the two temporary
-- directories.
module _ (run : List Effect → Command → Ran) (makes : List Effect → FilePath → Bool)
    (root : Result RootError FilePath) (temp : Text → Text × Text) where
  unfoldable pub mkdir : FilePath → Bep (Unit {0})
  mkdir path log = elim (makes log path) [
    | true ↦ (ok tt, log ++ (made_dir path ∷ []))
    | false ↦ (raise os_error, log)
  ]

  unfoldable pub run_command : Command → Bool → Bep Text
  run_command cmd_args capture_output log =
      (output_of capture_output (run log cmd_args), log ++ (ran cmd_args ∷ []))

  unfoldable pub bash_command : FilePath → Text → FilePath → Text → Command
  unfolding text_eq show_path
  bash_command project_root bazel_target output_path bazel_command =
      show_path (child (child project_root (codes "devkit")) (codes "build"))
      ∷ codes "bazel"
      ∷ (codes "--output_base=" ++ (temp bazel_target).0)
      ∷ bazel_command
      ∷ (codes "--build_event_json_file=" ++ show_path output_path)
      ∷ (codes "--repository_cache=" ++ (temp bazel_target).1)
      ∷ bazel_target
      ∷ (if bazel_command == codes "build" then codes "--noremote_accept_cached" ∷ [] else [])

  unfoldable pub generate_build_event_json : Text → FilePath → Text → Bep (Unit {0})
  unfolding run_command bash_command
  generate_build_event_json bazel_target output_path bazel_command = elim root [
    | raise e ↦ λ log. (raise file_not_found_error, log)
    | ok project_root ↦
        run_command (bash_command project_root bazel_target output_path bazel_command) false
        >>= λ out. pure tt
  ]

  -- The body of the loop over the targets.
  unfoldable pub process_target : Text → FilePath → Text → Bep (Unit {0})
  unfolding generate_build_event_json target_dir mkdir
  process_target command output_dir bazel_target =
      mkdir (target_dir output_dir bazel_target)
      >> generate_build_event_json bazel_target (bep_json (target_dir output_dir bazel_target))
          command

  unfoldable pub process_targets : Text → FilePath → List Text → Bep (Unit {0})
  unfolding process_target
  process_targets command output_dir [] = pure tt
  process_targets command output_dir (bazel_target ∷ targets) =
      process_target command output_dir bazel_target >> process_targets command output_dir targets

  unfoldable pub generate_bazel_events_folder : List Text → Text → FilePath → Bep (Unit {0})
  unfolding process_targets mkdir
  generate_bazel_events_folder [] command output_dir =
      mkdir output_dir >> generate_build_event_json (codes "//...") (bep_json output_dir) command
  generate_bazel_events_folder (target ∷ targets) command output_dir =
      mkdir output_dir >> process_targets command output_dir (target ∷ targets)
