-- ===== src/Bootstrap/Content.antt =====
-- What the bootstrap leaves in the file it copies a template to.
use encrypted_zone_sdk.Base.{
  ◌≡◌, refl, ◌∙◌, Bool, false, Option, none, some, List, [], ◌∷◌, ◌++◌, arith, if◌then◌else◌,
}
use encrypted_zone_sdk.Base.Dict.{Dict}
use encrypted_zone_sdk.Base.Result.{Result, ok, raise}
use encrypted_zone_sdk.Base.Text.{Text, codes}
use encrypted_zone_sdk.FilePath.{FilePath, relative_to, parent, ◌/ₚ◌}
use encrypted_zone_sdk.Bootstrap.{
  Failure, Jinja, FileSystem, Done, after_write, write_rendered, after_open, with_template,
  with_content, after_mkdir, copy_to,
}

-- What the operations do to the text of each file, where they raise nothing. They leave what is
-- read from other files; directories and modes are no part of the texts. Paths may name the same file,
-- through links or as relative and absolute paths: `same_file` says which do, all through the run.
pub record IsLawful (F : FileSystem) : Type 0 where
  pub same_file : FilePath → FilePath → Bool
  pub content : F.State → FilePath → Option Text
  pub content-mkdir : (p q : FilePath) (s : F.State) → content ((F.mkdir p s).1) q ≡ content s q
  pub content-open_w :
      (p q : FilePath) (s : F.State)
      → (F.open_w p s).0 ≡ none
      → content ((F.open_w p s).1) q ≡ (if same_file q p then some [] else content s q)
  pub content-write :
      (p q : FilePath) (text : Text) (s : F.State)
      → (F.write p text s).0 ≡ none
      → content ((F.write p text s).1) q ≡ (if same_file q p then some text else content s q)
  pub content-copymode :
      (src p q : FilePath) (s : F.State) → content ((F.copymode src p s).1) q ≡ content s q
  pub read-mkdir : (p q : FilePath) (s : F.State) → F.read q ((F.mkdir p s).1) ≡ F.read q s
  pub read-open_w :
      (p q : FilePath) (s : F.State)
      → same_file q p ≡ false
      → F.read q ((F.open_w p s).1) ≡ F.read q s
  pub read-write :
      (p q : FilePath) (text : Text) (s : F.State)
      → same_file q p ≡ false
      → F.read q ((F.write p text s).1) ≡ F.read q s
  pub read-copymode :
      (src p q : FilePath) (s : F.State)
      → same_file q p ≡ false
      → F.read q ((F.copymode src p s).1) ≡ F.read q s

module _ (F : FileSystem) (J : Jinja) (context : Dict Text Text) (L : IsLawful F) where
  -- The text of a destination, from what it was before: the rendered template and a line end; no
  -- text at all if the rendering fails; and the text from before if the template has no syntax.
  abbrev rendered : Result Failure Text → Option Text
  rendered (raise failure) = some []
  rendered (ok text) = some (text ++ codes "\n")

  abbrev copied : Option Text → Result Failure J.Template → Option Text
  copied old (raise failure) = old
  copied old (ok template) = rendered (J.render template context)

  abbrev pub text_after : Option Text → Result Text Text → Option Text
  text_after old (raise e) = old
  text_after old (ok content) = copied old (J.from_string content)

  -- The text of the file `p` after a template is copied, from its text before. The template has a
  -- path relative to the source directory, and is read in the state `s`.
  unfoldable pub text_of :
      FilePath → FilePath → Result Text Text → Option FilePath → Option Text → Option Text
  unfolding ◌/ₚ◌
  text_of dest_dir p r none old = old
  text_of dest_dir p r (some relative_path) old =
      if L.same_file p (dest_dir /ₚ relative_path) then text_after old r else old

  unfoldable pub texts_after :
      FilePath → FilePath → F.State → FilePath → List FilePath → Option Text → Option Text
  unfolding text_of relative_to
  texts_after src_dir dest_dir s p [] old = old
  texts_after src_dir dest_dir s p (src ∷ srcs) old =
      texts_after src_dir dest_dir s p srcs
        (text_of dest_dir p (F.read src s) (relative_to src src_dir) old)

  module _ (q : FilePath) where
    after_write-content :
        (src dest : FilePath) (d : Done F.State)
        → (((after_write F J context src dest d).0).raised) ≡ none
        → L.content ((after_write F J context src dest d).1) q ≡ L.content (d.1) q
    unfolding after_write
    after_write-content src dest (some e, s) fine = absurd (cc)
    after_write-content src dest (none, s) fine = L.content-copymode src dest q s

    after_write-fine :
        (src dest : FilePath) (d : Done F.State)
        → (((after_write F J context src dest d).0).raised) ≡ none
        → d.0 ≡ none
    unfolding after_write
    after_write-fine src dest (some e, s) fine = absurd (cc)
    after_write-fine src dest (none, s) fine = refl

    write_rendered-content :
        (src dest : FilePath) (template : Text) (r : Result Failure Text) (s : F.State)
        → (((write_rendered F J context src dest template r s).0).raised) ≡ none
        → L.content s q ≡ (if L.same_file q dest then some [] else L.content s q)
        → L.content ((write_rendered F J context src dest template r s).1) q
          ≡ (if L.same_file q dest then rendered r else L.content s q)
    unfolding write_rendered
    write_rendered-content src dest template (raise failure) s fine opened = opened
    write_rendered-content src dest template (ok text) s fine opened =
        after_write-content src dest (F.write dest (text ++ codes "\n") s) fine
        ∙ L.content-write dest q (text ++ codes "\n") s
            (after_write-fine src dest (F.write dest (text ++ codes "\n") s) fine)

    after_open-content :
        (src dest : FilePath) (content : Text) (template : J.Template) (d : Done F.State)
        (old : Option Text)
        → (((after_open F J context src dest content template d).0).raised) ≡ none
        → (d.0 ≡ none → L.content (d.1) q ≡ (if L.same_file q dest then some [] else old))
        → L.content ((after_open F J context src dest content template d).1) q
          ≡ (if L.same_file q dest then rendered (J.render template context) else old)
    unfolding after_open
    after_open-content src dest content template (some e, s) old fine opened = absurd (cc)
    after_open-content src dest content template (none, s) old fine opened = ground (
      arith,
      opened refl,
      write_rendered-content src dest content (J.render template context) s fine,
    )

    with_template-content :
        (src dest : FilePath) (content : Text) (r : Result Failure J.Template) (s : F.State)
        → (((with_template F J context src dest content r s).0).raised) ≡ none
        → L.content ((with_template F J context src dest content r s).1) q
          ≡ (if L.same_file q dest then copied (L.content s q) r else L.content s q)
    unfolding with_template
    with_template-content src dest content (raise failure) s fine = ground arith
    with_template-content src dest content (ok template) s fine =
        after_open-content src dest content template (F.open_w dest s) (L.content s q) fine
          (L.content-open_w dest q s)

    with_content-content :
        (src dest : FilePath) (r : Result Text Text) (s : F.State)
        → (((with_content F J context src dest r s).0).raised) ≡ none
        → L.content ((with_content F J context src dest r s).1) q
          ≡ (if L.same_file q dest then text_after (L.content s q) r else L.content s q)
    unfolding with_content
    with_content-content src dest (raise e) s fine = absurd (cc)
    with_content-content src dest (ok content) s fine =
        with_template-content src dest content (J.from_string content) s fine

    after_mkdir-content :
        (src dest : FilePath) (d : Done F.State)
        → (((after_mkdir F J context src dest d).0).raised) ≡ none
        → L.content ((after_mkdir F J context src dest d).1) q ≡ (
            if L.same_file q dest
            then text_after (L.content (d.1) q) (F.read src (d.1))
            else L.content (d.1) q)
    unfolding after_mkdir
    after_mkdir-content src dest (some e, s) fine = absurd (cc)
    after_mkdir-content src dest (none, s) fine =
        with_content-content src dest (F.read src s) s fine

    pub copy_to-content :
        (src_dir dest_dir src : FilePath) (s : F.State) (path : Option FilePath)
        → (((copy_to F J context src_dir dest_dir src s path).0).raised) ≡ none
        → L.content ((copy_to F J context src_dir dest_dir src s path).1) q
          ≡ text_of dest_dir q (F.read src s) path (L.content s q)
    unfolding copy_to text_of
    copy_to-content src_dir dest_dir src s none fine = refl
    copy_to-content src_dir dest_dir src s (some path) fine =
        let dest = dest_dir /ₚ path in
        after_mkdir-content src dest (F.mkdir (parent dest) s) fine
        ∙ rw (L.content-mkdir (parent dest) q s, L.read-mkdir (parent dest) src s) refl
