-- ===== src/Bootstrap/Main.antt =====
-- `main` of .devkit/scripts/bootstrap.py, behind the argument parser.
use encrypted_zone_sdk.Base.{Bool, true, false, Option, none, some, List, [], ◌∷◌, ◌++◌, text_eq}
use encrypted_zone_sdk.Base.Dict.{Dict, insert}
use encrypted_zone_sdk.Base.Result.{Result, ok, raise, Exit}
use encrypted_zone_sdk.Base.Text.{Text, codes, split_once}
use encrypted_zone_sdk.FilePath.{FilePath, parent, child, read_path, show_path, ◌/ₚ◌}
use encrypted_zone_sdk.Bootstrap.{FileSystem, Jinja, Run, copy_and_template}

-- The arguments that `main` reads; `templates_root` is `none` where it is not given.
pub record Args : Type 0 where
  pub template : Text
  pub templates_root : Option FilePath
  pub output_dir : FilePath
  pub args : List Text

-- What `resolve(strict=True)` gives: a path, a `FileNotFoundError`, or another exception.
pub data Resolved : Type 0 where
  found : FilePath → Resolved
  not_found : Resolved
  failed : Text → Resolved

-- The loop over `args.args`, from the dictionary so far; an argument that has no `=` ends it.
unfoldable pub read_args : List Text → Dict Text Text → Result Text (Dict Text Text)
unfolding split_once text_eq
read_args [] context = ok context
read_args (arg ∷ args) context = elim (split_once b'=' arg) [
  | none ↦ raise arg
  | some (key, value) ↦ read_args args (insert key value context)
]

-- The directory that holds the templates; `script` is the resolved path of the script.
unfoldable pub templates_root_dir : FilePath → Option FilePath → FilePath
unfolding parent
templates_root_dir script none = child (parent (parent script)) (codes "templates")
templates_root_dir script (some templates_root) = templates_root

abbrev pub exits : List Text → Exit
exits err = record { status = 1; out = []; err = err }

abbrev pub bootstrapped : Text → Text
bootstrapped template = codes "Project bootstrapped with '" ++ (template ++ codes "' template.")

-- What `main` prints behind `copy_and_template`, of which `err` is what it printed itself.
unfoldable pub finish : Text → List Text → Bool → Option Text → Exit
finish template err error_occurred (some e) =
    exits (err ++ ((codes "An error occurred: " ++ e) ∷ []))
finish template err true none = exits (err ++ (codes "Errors occurred during templating." ∷ []))
finish template err false none = record { status = 0; out = bootstrapped template ∷ []; err = err }

module _ (F : FileSystem) (J : Jinja) where
  -- What is left is the exit, and the files.
  abbrev pub finished : Text → Option Text × Run F.State → Exit × F.State
  finished template (raised, run) = (finish template run.err run.error_occurred raised, run.state)

  -- The exception of `resolve` that is not caught ends the script.
  unfoldable pub from_template :
      Args
      → Dict Text Text
      → FilePath
      → Resolved
      → (FilePath → List (FilePath × List Text))
      → F.State
      → Result Text (Exit × F.State)
  unfolding copy_and_template show_path finish
  from_template args context template_dir (failed e) walk s = raise e
  from_template args context template_dir not_found walk s = ok (
    exits (
        (codes "Template '"
          ++ (args.template ++ (codes "' not found at '" ++ (show_path template_dir ++ codes "'"))))
        ∷ []),
    s,
  )
  from_template args context template_dir (found dir) walk s =
      ok (finished args.template (copy_and_template F J context dir args.output_dir (walk dir) s))

  -- Behind the loop over the arguments.
  unfoldable pub with_context :
      Args
      → FilePath
      → Resolved
      → (FilePath → List (FilePath × List Text))
      → F.State
      → Result Text (Dict Text Text)
      → Result Text (Exit × F.State)
  unfolding from_template
  with_context args template_dir resolved walk s (raise arg) =
      ok (exits ((codes "Invalid argument: " ++ (arg ++ codes ". Expected key=value.")) ∷ []), s)
  with_context args template_dir resolved walk s (ok context) =
      from_template args context template_dir resolved walk s

  -- `resolve` is `Path.resolve`, `resolve_strict` the same with `strict=True`, and `walk` what
  -- `os.walk` yields for a directory.
  unfoldable pub main :
      FilePath
      → (FilePath → FilePath)
      → (FilePath → Resolved)
      → (FilePath → List (FilePath × List Text))
      → Args
      → F.State
      → Result Text (Exit × F.State)
  unfolding read_args templates_root_dir with_context read_path ◌/ₚ◌
  main script resolve resolve_strict walk args s =
      let template_dir =
        resolve (templates_root_dir script args.templates_root /ₚ read_path args.template) in
      with_context args template_dir (resolve_strict template_dir) walk s (read_args args.args [])
