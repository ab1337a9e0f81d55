-- ===== src/Bootstrap/Reported.antt =====
-- What the bootstrap reports, and its exit status.
use encrypted_zone_sdk.Base.{
  ◌≡◌, refl, ◌≢◌, ◌⊎◌, inl, inr, ◌↔◌, Bool, true, false, Option, none, some, List, [], ◌∷◌, ◌++◌,
  arith, Option-cases, if◌then◌else◌,
}
use encrypted_zone_sdk.Base.Dict.{Dict}
use encrypted_zone_sdk.Base.Result.{Result, ok, raise, Exit, Result-cases}
use encrypted_zone_sdk.Base.Text.{Text}
use encrypted_zone_sdk.FilePath.{FilePath, relative_to, read_path, parent, ◌/ₚ◌}
use encrypted_zone_sdk.Bootstrap.{
  Failure, syntax_error, undefined_error, other_error, Jinja, FileSystem, Done, FileEnd, ended,
  handle, after_write, write_rendered, after_open, with_template, with_content, after_mkdir,
  copy_to, copy_file, Run, record_end, copy_files, copy_and_template, template_files,
}
use encrypted_zone_sdk.Bootstrap.Main.{
  Args, Resolved, found, not_found, failed, read_args, bootstrapped, finish, from_template,
  with_context, main, templates_root_dir,
}

-- An error is noted exactly with something printed.
abbrev Noted : FileEnd → Type 0
Noted end = (end.error ≡ true) ↔ (end.err ≢ [])

handle-Noted : (src : FilePath) (content : Text) (f : Failure) → Noted (handle src content f)
unfolding handle
handle-Noted src content (syntax_error lineno message) = (λ _ h. cc, λ _. refl)
handle-Noted src content (undefined_error message) = (λ _ h. cc, λ _. refl)
handle-Noted src content (other_error e) = (λ h. cc, λ h. absurd (h refl))

ended-Noted : (raised : Option Text) → Noted (ended raised)
ended-Noted raised = (λ h. cc, λ h. absurd (h refl))

Noted-append :
    (a b : Bool) (xs ys : List Text)
    → (a ≡ true) ↔ (xs ≢ [])
    → (b ≡ true) ↔ (ys ≢ [])
    → ((if b then true else a) ≡ true) ↔ (xs ++ ys ≢ [])
Noted-append a b [] ys h n = ground (arith, h, n)
Noted-append a b (x ∷ xs) ys h n = (λ _ e. cc, λ _. ground (arith, h.1 (λ e. cc)))

module _ (F : FileSystem) (J : Jinja) (context : Dict Text Text) where
  after_write-Noted :
      (src dest : FilePath) (d : Done F.State) → Noted ((after_write F J context src dest d).0)
  unfolding after_write
  after_write-Noted src dest (some e, s) = ended-Noted (some e)
  after_write-Noted src dest (none, s) = ended-Noted ((F.copymode src dest s).0)

  write_rendered-Noted :
      (src dest : FilePath) (content : Text) (r : Result Failure Text) (s : F.State)
      → Noted ((write_rendered F J context src dest content r s).0)
  unfolding write_rendered
  write_rendered-Noted src dest content (raise failure) s = handle-Noted src content failure
  write_rendered-Noted src dest content (ok text) s = after_write-Noted src dest _

  after_open-Noted :
      (src dest : FilePath) (content : Text) (template : J.Template) (d : Done F.State)
      → Noted ((after_open F J context src dest content template d).0)
  unfolding after_open
  after_open-Noted src dest content template (some e, s) = ended-Noted (some e)
  after_open-Noted src dest content template (none, s) = write_rendered-Noted src dest content _ s

  with_content-Noted :
      (src dest : FilePath) (r : Result Text Text) (s : F.State)
      → Noted ((with_content F J context src dest r s).0)
  unfolding with_content with_template
  with_content-Noted src dest (raise e) s = ended-Noted (some e)
  with_content-Noted src dest (ok content) s = elim (Result-cases (J.from_string content)) [
    | inl (failure, e) ↦ rw (e, with_template) (handle-Noted src content failure)
    | inr (template, e) ↦ rw (e, with_template) (after_open-Noted src dest content template _)
  ]

  after_mkdir-Noted :
      (src dest : FilePath) (d : Done F.State) → Noted ((after_mkdir F J context src dest d).0)
  unfolding after_mkdir
  after_mkdir-Noted src dest (some e, s) = ended-Noted (some e)
  after_mkdir-Noted src dest (none, s) = with_content-Noted src dest (F.read src s) s

  copy_to-Noted :
      (src_dir dest_dir src : FilePath) (s : F.State) (path : Option FilePath)
      → Noted ((copy_to F J context src_dir dest_dir src s path).0)
  unfolding copy_to
  copy_to-Noted src_dir dest_dir src s none = ended-Noted (some (F.not_in_subpath src src_dir))
  copy_to-Noted src_dir dest_dir src s (some path) =
      after_mkdir-Noted src (dest_dir /ₚ path) (F.mkdir (parent (dest_dir /ₚ path)) s)

  copy_file-Noted :
      (src_dir dest_dir src : FilePath) (s : F.State)
      → Noted ((copy_file F J context src_dir dest_dir src s).0)
  unfolding copy_file
  copy_file-Noted src_dir dest_dir src s =
      copy_to-Noted src_dir dest_dir src s (relative_to src src_dir)

  -- `error_occurred` is set exactly if something was printed.
  abbrev RunNoted : Run F.State → Type 0
  RunNoted run = (run.error_occurred ≡ true) ↔ (run.err ≢ [])

  record_end-Noted :
      (run : Run F.State) (end : FileEnd) (s : F.State)
      → RunNoted run
      → Noted end
      → RunNoted (record_end run (end, s))
  record_end-Noted run end s h n = Noted-append run.error_occurred end.error run.err end.err h n

  copy_files-Noted :
      (src_dir dest_dir : FilePath) (srcs : List FilePath) (run : Run F.State)
      → RunNoted run
      → RunNoted ((copy_files F J context src_dir dest_dir srcs run).1)
  unfolding copy_files
  copy_files-Noted src_dir dest_dir [] run h = h
  copy_files-Noted src_dir dest_dir (src ∷ srcs) run h =
      elim (Option-cases (((copy_file F J context src_dir dest_dir src run.state).0).raised)) [
        | inl e ↦
            rw (e, copy_files)
              (copy_files-Noted src_dir dest_dir srcs _ (
                record_end-Noted run ((copy_file F J context src_dir dest_dir src run.state).0)
                  ((copy_file F J context src_dir dest_dir src run.state).1) h
                  (copy_file-Noted src_dir dest_dir src run.state)))
        | inr (x, e) ↦
            rw (e, copy_files)
              (record_end-Noted run ((copy_file F J context src_dir dest_dir src run.state).0)
                ((copy_file F J context src_dir dest_dir src run.state).1) h
                (copy_file-Noted src_dir dest_dir src run.state))
      ]

  pub copy_and_template-Noted :
      (src_dir dest_dir : FilePath) (walk : List (FilePath × List Text)) (s : F.State)
      → RunNoted ((copy_and_template F J context src_dir dest_dir walk s).1)
  unfolding copy_and_template
  copy_and_template-Noted src_dir dest_dir walk s =
      copy_files-Noted src_dir dest_dir (template_files walk) _ (λ h. cc, λ h. absurd (h refl))

-- The exit of a script that succeeds quietly, or fails with something said on the standard error.
pub IsSettled : Text → Exit → Type 0
IsSettled template exit =
    (exit.status ≡ 0) × (exit.out ≡ bootstrapped template ∷ []) × (exit.err ≡ [])
    ⊎ (exit.status ≡ 1) × (exit.out ≡ []) × (exit.err ≢ [])

append-ne-nil : (xs : List Text) (x : Text) → xs ++ (x ∷ []) ≢ []
append-ne-nil [] x h = cc
append-ne-nil (y ∷ xs) x h = cc

finish-IsSettled :
    (template : Text) (err : List Text) (error_occurred : Bool) (raised : Option Text)
    → (error_occurred ≡ true) ↔ (err ≢ [])
    → IsSettled template (finish template err error_occurred raised)
unfolding finish IsSettled
finish-IsSettled template err error_occurred (some e) h = inr (refl, refl, append-ne-nil err _)
finish-IsSettled template err true none h = inr (refl, refl, append-ne-nil err _)
finish-IsSettled template [] false none h = inl (refl, refl, refl)
finish-IsSettled template (x ∷ err) false none h = absurd (cc (h.1 (λ e. cc)))

module _ (F : FileSystem) (J : Jinja) where
  -- The exit and the files of a result, where the exit is settled.
  abbrev Settles : Text → Result Text (Exit × F.State) → Type 0
  Settles template r = (exit : Exit) × (s : F.State) × (r ≡ ok (exit, s)) × IsSettled template exit

  from_template-Settles :
      (args : Args) (context : Dict Text Text) (template_dir : FilePath) (resolved : Resolved)
      (walk : FilePath → List (FilePath × List Text)) (s : F.State)
      → ((e : Text) → resolved ≢ failed e)
      → Settles args.template (from_template F J args context template_dir resolved walk s)
  unfolding from_template IsSettled
  from_template-Settles args context template_dir (failed e) walk s fine = absurd (fine e refl)
  from_template-Settles args context template_dir not_found walk s fine =
      (_, s, refl, inr (refl, refl, λ e. cc))
  from_template-Settles args context template_dir (found dir) walk s fine = (
    _,
    _,
    refl,
    finish-IsSettled args.template _ _ _
        (copy_and_template-Noted F J context dir args.output_dir (walk dir) s),
  )

  with_context-Settles :
      (args : Args) (template_dir : FilePath) (resolved : Resolved)
      (walk : FilePath → List (FilePath × List Text)) (s : F.State)
      (context : Result Text (Dict Text Text))
      → ((e : Text) → resolved ≢ failed e)
      → Settles args.template (with_context F J args template_dir resolved walk s context)
  unfolding with_context IsSettled
  with_context-Settles args template_dir resolved walk s (raise arg) fine =
      (_, s, refl, inr (refl, refl, λ e. cc))
  with_context-Settles args template_dir resolved walk s (ok context) fine =
      from_template-Settles args context template_dir resolved walk s fine

  -- Unless the strict `resolve` of the directory of the template raises an exception other than
  -- `FileNotFoundError`, no exception leaves `main`: it either exits with status 0, says that the
  -- project is bootstrapped and nothing on the standard error, or exits with status 1 and an error
  -- on the standard error; whatever the files, the templates and the arguments are.
  pub main-IsSettled :
      (script : FilePath) (resolve : FilePath → FilePath) (resolve_strict : FilePath → Resolved)
      (walk : FilePath → List (FilePath × List Text)) (args : Args) (s : F.State)
      → ((e : Text)
          → resolve_strict
              (resolve (templates_root_dir script args.templates_root /ₚ read_path args.template))
            ≢ failed e)
      → (exit : Exit) × (s' : F.State) × (main F J script resolve resolve_strict walk args s
          ≡ ok (exit, s'))
        × IsSettled args.template exit
  unfolding main
  main-IsSettled script resolve resolve_strict walk args s fine =
      let template_dir =
        resolve (templates_root_dir script args.templates_root /ₚ read_path args.template) in
      with_context-Settles args template_dir (resolve_strict template_dir) walk s
        (read_args args.args []) fine
