-- ===== src/Bootstrap.antt =====
-- `copy_and_template` of .devkit/scripts/bootstrap.py. The file system and jinja2 are parameters.
pub mod Main
pub mod Context
pub mod Arguments
pub mod Reported
pub mod Content
pub mod Reading
pub mod Written
use encrypted_zone_sdk.Base.{
  ℕ, zero, suc, ◌+◌, ◌-◌, Bool, true, false, not, Option, none, some, List, [], ◌∷◌, ◌++◌, map, leb,
  eqb, if◌then◌else◌, length, keep, get_elem?,
}
use encrypted_zone_sdk.Base.Decimal.{show_ℕ}
use encrypted_zone_sdk.Base.Dict.{Dict}
use encrypted_zone_sdk.Base.Lines.{splitlines, ends_with, pad_left}
use encrypted_zone_sdk.Base.Result.{Result, ok, raise}
use encrypted_zone_sdk.Base.Text.{Text, codes}
use encrypted_zone_sdk.FilePath.{FilePath, child, parent, relative_to, show_path, ◌/ₚ◌}

-- What jinja2 raises: a `TemplateSyntaxError` with its line and message, an `UndefinedError` with
-- its message, or another exception, by its `str`.
pub data Failure : Type 0 where
  syntax_error : ℕ → Text → Failure
  undefined_error other_error : Text → Failure

-- An environment of `jinja2` that loads from the source directory and refuses undefined names.
pub record Jinja : Type 1 where
  pub Template : Type 0
  pub from_string : Text → Result Failure Template
  pub render : Template → Dict Text Text → Result Failure Text

-- An operation on the file system: the `str` of the exception that it raises, and what it leaves.
abbrev pub Done : Type 0 → Type 0
Done S = Option Text × S

-- `mkdir` makes the parents too, and accepts a directory that is there; `open_w` opens a text file
-- for writing, which empties it; `write` writes a whole text to the file that was opened, and
-- closes it. The last field is the message of `relative_to` where it raises `ValueError`.
pub record FileSystem : Type 1 where
  pub State : Type 0
  pub mkdir : FilePath → State → Done State
  pub read : FilePath → State → Result Text Text
  pub open_w : FilePath → State → Done State
  pub write : FilePath → Text → State → Done State
  pub copymode : FilePath → FilePath → State → Done State
  pub not_in_subpath : FilePath → FilePath → Text

-- `f"    {i + 1:4d}{' >' if i + 1 == e.lineno else '  '} {lines[i]}"`
unfoldable pub context_line : ℕ → ℕ → Text → Text
unfolding pad_left show_ℕ
context_line lineno i line =
    codes "    "
    ++ (pad_left 4 (show_ℕ (i + 1))
        ++ ((if eqb (i + 1) lineno then codes " >" else codes "  ") ++ (b' ' ∷ line)))

-- What is printed on the standard error, and the exception that is raised, if any.
abbrev pub Printed : Type 0
Printed = List Text × Option Text

-- The loop over the lines, for so many values of `i`.
unfoldable pub context_from : ℕ → List Text → ℕ → ℕ → Printed
unfolding context_line
context_from lineno lines zero i = ([], none)
context_from lineno lines (suc count) i = elim (get_elem? lines i) [
  | none ↦ ([], some (codes "list index out of range"))
  | some line ↦
      let (more, raised) = context_from lineno lines count (i + 1) in
      (context_line lineno i line ∷ more, raised)
]

abbrev pub least : ℕ → ℕ → ℕ
least m n = if leb m n then m else n

-- `for i in range(max(0, e.lineno - 4), min(len(lines), e.lineno + 3))`
unfoldable pub error_context : ℕ → List Text → Printed
unfolding context_from
error_context lineno lines =
    context_from lineno lines (least (length lines) (lineno + 3) - (lineno - 4)) (lineno - 4)

-- How the work on a file ends: what is printed, whether an error is noted, and what is raised.
pub record FileEnd : Type 0 where
  pub err : List Text
  pub error : Bool
  pub raised : Option Text

abbrev pub in_template : FilePath → Text
in_template src_file_path = codes "Error in template: " ++ show_path src_file_path

-- The handlers of the exceptions of jinja2; another exception passes them.
unfoldable pub handle : FilePath → Text → Failure → FileEnd
unfolding error_context splitlines show_path
handle src_file_path content (syntax_error lineno message) =
    let (shown, raised) = error_context lineno (splitlines content) in
    record {
      err =
          in_template src_file_path
          ∷ (codes "  Line " ++ (show_ℕ lineno ++ (codes ": " ++ message)))
          ∷ shown;
      error = true;
      raised = raised;
    }
handle src_file_path content (undefined_error message) = record {
  err = in_template src_file_path ∷ (codes "  " ++ message) ∷ [];
  error = true;
  raised = none;
}
handle src_file_path content (other_error e) = record { err = []; error = false; raised = some e }

abbrev pub ended : Option Text → FileEnd
ended raised = record { err = []; error = false; raised = raised }

-- What the loop leaves: the files, `error_occurred`, and what it printed.
pub record Run (S : Type 0) : Type 0 where
  pub state : S
  pub error_occurred : Bool
  pub err : List Text

abbrev pub record_end : {S : Type 0} → Run S → FileEnd × S → Run S
record_end run (end, s) = record {
  state = s;
  error_occurred = if end.error then true else run.error_occurred;
  err = run.err ++ end.err;
}

-- The files that the loops over `os.walk` reach, in order.
unfoldable pub template_files : List (FilePath × List Text) → List FilePath
unfolding ends_with
template_files [] = []
template_files ((dirpath, filenames) ∷ rest) =
    map (λ filename. child dirpath filename)
      (keep (λ filename. not (ends_with filename (codes ".include"))) filenames)
    ++ template_files rest

module _ (F : FileSystem) (J : Jinja) (context : Dict Text Text) where
  -- `shutil.copymode`, behind the writing.
  unfoldable pub after_write : FilePath → FilePath → Done F.State → FileEnd × F.State
  after_write src dest (some e, s) = (ended (some e), s)
  after_write src dest (none, s) = let (raised, s') = F.copymode src dest s in (ended raised, s')

  -- The file is open as the template is rendered.
  unfoldable pub write_rendered :
      FilePath → FilePath → Text → Result Failure Text → F.State → FileEnd × F.State
  unfolding handle after_write
  write_rendered src dest content (raise failure) s = (handle src content failure, s)
  write_rendered src dest content (ok text) s =
      after_write src dest (F.write dest (text ++ codes "\n") s)

  unfoldable pub after_open :
      FilePath → FilePath → Text → J.Template → Done F.State → FileEnd × F.State
  unfolding write_rendered
  after_open src dest content template (some e, s) = (ended (some e), s)
  after_open src dest content template (none, s) =
      write_rendered src dest content (J.render template context) s

  unfoldable pub with_template :
      FilePath → FilePath → Text → Result Failure J.Template → F.State → FileEnd × F.State
  unfolding handle after_open
  with_template src dest content (raise failure) s = (handle src content failure, s)
  with_template src dest content (ok template) s =
      after_open src dest content template (F.open_w dest s)

  unfoldable pub with_content : FilePath → FilePath → Result Text Text → F.State → FileEnd × F.State
  unfolding with_template
  with_content src dest (raise e) s = (ended (some e), s)
  with_content src dest (ok content) s = with_template src dest content (J.from_string content) s

  unfoldable pub after_mkdir : FilePath → FilePath → Done F.State → FileEnd × F.State
  unfolding with_content
  after_mkdir src dest (some e, s) = (ended (some e), s)
  after_mkdir src dest (none, s) = with_content src dest (F.read src s) s

  -- To the path relative to the source directory, if there is one.
  unfoldable pub copy_to :
      FilePath → FilePath → FilePath → F.State → Option FilePath → FileEnd × F.State
  unfolding after_mkdir ◌/ₚ◌ parent
  copy_to src_dir dest_dir src s none = (ended (some (F.not_in_subpath src src_dir)), s)
  copy_to src_dir dest_dir src s (some relative_path) =
      let dest = dest_dir /ₚ relative_path in after_mkdir src dest (F.mkdir (parent dest) s)

  -- The body of the loop on one file.
  unfoldable pub copy_file : FilePath → FilePath → FilePath → F.State → FileEnd × F.State
  unfolding copy_to relative_to
  copy_file src_dir dest_dir src s = copy_to src_dir dest_dir src s (relative_to src src_dir)

  -- The loop, until a file raises an exception.
  unfoldable pub copy_files :
      FilePath → FilePath → List FilePath → Run F.State → Option Text × Run F.State
  unfolding copy_file
  copy_files src_dir dest_dir [] run = (none, run)
  copy_files src_dir dest_dir (src ∷ srcs) run =
      let step = copy_file src_dir dest_dir src run.state in
      elim ((step.0).raised) [
        | some e ↦ (some e, record_end run step)
        | none ↦ copy_files src_dir dest_dir srcs (record_end run step)
      ]

  -- `copy_and_template`: `walk` is what `os.walk` yields for `src_dir`.
  unfoldable pub copy_and_template :
      FilePath → FilePath → List (FilePath × List Text) → F.State → Option Text × Run F.State
  unfolding copy_files template_files
  copy_and_template src_dir dest_dir walk s =
      copy_files src_dir dest_dir (template_files walk)
        (record { state = s; error_occurred = false; err = [] })
