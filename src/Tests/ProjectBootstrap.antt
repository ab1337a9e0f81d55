-- ===== src/Tests/ProjectBootstrap.antt =====
-- .devkit/scripts/bootstrap.py at concrete inputs.
use encrypted_zone_sdk.Base.{
  ◌≡◌, refl, true, false, Option, none, some, List, [], ◌∷◌, ◌++◌, map, arith, ◌==◌, if◌then◌else◌,
  keep, eqb, ap, text_eq,
}
use encrypted_zone_sdk.Base.Dict.{Dict, update, lookup}
use encrypted_zone_sdk.Base.Result.{Result, Exit, ok, raise}
use encrypted_zone_sdk.Base.Text.{Text, codes}
use encrypted_zone_sdk.FilePath.{FilePath, path_of, path_eq, relative_to, ◌/ₚ◌}
use encrypted_zone_sdk.Bootstrap.{
  FileSystem, Jinja, syntax_error, undefined_error, template_files, copy_and_template,
  error_context,
}
use encrypted_zone_sdk.Bootstrap.Main.{Args, found, read_args, main}
use encrypted_zone_sdk.Bootstrap.Arguments.{read_args-argument}
use encrypted_zone_sdk.Base.KeyValue.{argument}
use encrypted_zone_sdk.Bootstrap.Content.{IsLawful, texts_after}
use encrypted_zone_sdk.Bootstrap.Context.{enumerate_from, is_near, show_lines, error_context-near}
use encrypted_zone_sdk.Bootstrap.Reported.{IsSettled, main-IsSettled}
use encrypted_zone_sdk.Bootstrap.Written.{Apart, copy_and_template-texts_after}

-- Files in memory, by their texts; no operation fails but the reading of a file that is not there.
abbrev Files : Type 0
Files = FilePath → Option Text

abbrev put : FilePath → Text → Files → Files
put p text files q = if q == p then some text else files q

abbrev read_file : Option Text → Result Text Text
read_file none = raise (codes "no such file")
read_file (some text) = ok text

abbrev memory : FileSystem
memory = record {
  State = Files;
  mkdir = λ p s. (none, s);
  read = λ p s. read_file (s p);
  open_w = λ p s. (none, put p [] s);
  write = λ p text s. (none, put p text s);
  copymode = λ src p s. (none, s);
  not_in_subpath = λ p q. codes "not in the subpath";
}

-- A template is its text; one that begins with `%` has no syntax, and one with `$` a name that is
-- not defined.
abbrev jinja : Jinja
jinja = record {
  Template = Text;
  from_string = λ content. elim (keep (λ c. eqb c b'%') content) [
    | [] ↦ ok content
    | c ∷ cs ↦ raise (syntax_error 1 (codes "unexpected '%'"))
  ];
  render = λ template context. elim (keep (λ c. eqb c b'$') template) [
    | [] ↦ ok template
    | c ∷ cs ↦ raise (undefined_error (codes "'x' is undefined"))
  ];
}

abbrev path : List Text → FilePath
path parts = path_of true parts

abbrev templates : FilePath
templates = path (codes "t" ∷ [])

abbrev project : FilePath
project = path_of false (codes "p" ∷ [])

abbrev in_dir : FilePath → Text → FilePath
in_dir dir name = path_of dir.absolute (dir.parts ++ (name ∷ []))

abbrev start : Files
start = put (in_dir templates (codes "a")) (codes "text") (
    put (in_dir templates (codes "b")) (codes "$x")
      (put (in_dir project (codes "b")) (codes "old") (λ p. none)))

abbrev walk : List (FilePath × List Text)
walk = (templates, codes "a" ∷ codes "c.include" ∷ codes "b" ∷ []) ∷ []

same_text : (p q : FilePath) (text : Text) (s : Files) → (q == p) ≡ false → put p text s q ≡ s q
same_text p q text s other = ground arith

abbrev memory-IsLawful : IsLawful memory
memory-IsLawful = record {
  same_file = λ p q. p == q;
  content = λ s p. s p;
  content-mkdir = λ p q s. refl;
  content-open_w = λ p q s fine. refl;
  content-write = λ p q text s fine. refl;
  content-copymode = λ src p q s. refl;
  read-mkdir = λ p q s. refl;
  read-open_w = λ p q s other. ap read_file (same_text p q [] s other);
  read-write = λ p q text s other. ap read_file (same_text p q text s other);
  read-copymode = λ src p q s other. refl;
}

walk-Apart : Apart (λ p q. p == q) templates project (template_files walk)
unfolding template_files relative_to ◌/ₚ◌ path_eq text_eq
walk-Apart = ((refl, tt), (tt, tt))

walk_raises_nothing : (copy_and_template memory jinja [] templates project walk start).0 ≡ none
unfolding copy_and_template path_eq text_eq
walk_raises_nothing = refl

-- The text of `b` is lost, since its template does not render.
copy_and_template-texts_after_example :
    ((copy_and_template memory jinja [] templates project walk start).1).state
      (in_dir project (codes "b"))
    ≡ texts_after memory jinja [] memory-IsLawful templates project start
        (in_dir project (codes "b"))
        (template_files walk)
        (start (in_dir project (codes "b")))
unfolding path_eq
copy_and_template-texts_after_example =
    copy_and_template-texts_after memory jinja [] memory-IsLawful templates project
      (in_dir project (codes "b")) walk start walk-Apart walk_raises_nothing

text_of_b :
    texts_after memory jinja [] memory-IsLawful templates project start
      (in_dir project (codes "b"))
      (template_files walk)
      (start (in_dir project (codes "b")))
    ≡ some []
unfolding texts_after template_files path_eq text_eq
text_of_b = refl

text_of_a :
    texts_after memory jinja [] memory-IsLawful templates project start
      (in_dir project (codes "a"))
      (template_files walk)
      none
    ≡ some (codes "text\n")
unfolding texts_after template_files path_eq text_eq
text_of_a = refl

abbrev three_lines : List Text
three_lines = codes "a" ∷ codes "b" ∷ codes "c" ∷ []

error_context-near_example :
    error_context 2 three_lines
    ≡ (show_lines 2 (keep (is_near 2) (enumerate_from 0 three_lines)), none)
error_context-near_example = error_context-near 2 three_lines

context_of_two_lines :
    error_context 2 (codes "a" ∷ codes "b" ∷ [])
    ≡ (codes "       1   a" ∷ codes "       2 > b" ∷ [], none)
unfolding error_context
context_of_two_lines = refl

abbrev two_items : Dict Text Text
two_items = (codes "k", codes "a=b") ∷ (codes "k", codes "c") ∷ []

read_args-argument_example : read_args (map argument two_items) [] ≡ ok (update [] two_items)
read_args-argument_example = read_args-argument two_items ((refl, tt), ((refl, tt), tt))

the_last_counts : lookup (codes "k") (update [] two_items) ≡ some (codes "c")
unfolding text_eq
the_last_counts = refl

abbrev some_args : Args
some_args = record {
  template = codes "x";
  templates_root = some templates;
  output_dir = project;
  args = codes "k=v" ∷ [];
}

abbrev failed_exit : Exit
failed_exit = record {
  status = 1;
  out = [];
  err =
      codes "Error in template: /t/b"
      ∷ codes "  'x' is undefined"
      ∷ codes "Errors occurred during templating."
      ∷ [];
}

abbrev left : Files
left =
    ((copy_and_template memory jinja (update [] ((codes "k", codes "v") ∷ [])) templates project
      walk start).1
    ).state

main_fails :
    main memory jinja project (λ p. p) (λ p. found templates) (λ p. walk) some_args start
    ≡ ok (failed_exit, left)
unfolding main path_eq text_eq
main_fails = refl

main-IsSettled_example :
    (exit : Exit) × (s' : Files) × (main memory jinja project
        (λ p. p)
        (λ p. found templates)
        (λ p. walk)
        some_args
        start
      ≡ ok (exit, s'))
    × IsSettled (codes "x") exit
main-IsSettled_example =
    main-IsSettled memory jinja project (λ p. p) (λ p. found templates) (λ p. walk) some_args start
      (λ e h. cc)
