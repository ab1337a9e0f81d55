-- ===== src/Bootstrap/Reading.antt =====
-- The bootstrap leaves what is read from a template, unless it is a destination.
use encrypted_zone_sdk.Base.{◌≡◌, refl, ◌∙◌, Bool, false, Option, none, some, ◌++◌, inl, inr}
use encrypted_zone_sdk.Base.Dict.{Dict}
use encrypted_zone_sdk.Base.Result.{Result, ok, raise, Result-cases}
use encrypted_zone_sdk.Base.Text.{Text, codes}
use encrypted_zone_sdk.FilePath.{FilePath, parent, ◌/ₚ◌}
use encrypted_zone_sdk.Bootstrap.{
  Jinja, FileSystem, Done, after_write, write_rendered, after_open, with_template, with_content,
  after_mkdir, copy_to,
}
use encrypted_zone_sdk.Bootstrap.Content.{IsLawful}

-- `q` is not the file of the destination of a template with this relative path.
abbrev pub IsOther : (FilePath → FilePath → Bool) → FilePath → FilePath → Option FilePath → Type 0
IsOther same_file q dest_dir none = Unit
IsOther same_file q dest_dir (some path) = same_file q (dest_dir /ₚ path) ≡ false

module _ (F : FileSystem) (J : Jinja) (context : Dict Text Text) (L : IsLawful F)
    (q : FilePath) where
  after_write-read :
      (src dest : FilePath) (d : Done F.State)
      → L.same_file q dest ≡ false
      → F.read q ((after_write F J context src dest d).1) ≡ F.read q (d.1)
  unfolding after_write
  after_write-read src dest (some e, s) other = refl
  after_write-read src dest (none, s) other = L.read-copymode src dest q s other

  after_open-read :
      (src dest : FilePath) (content : Text) (template : J.Template) (d : Done F.State)
      → L.same_file q dest ≡ false
      → F.read q ((after_open F J context src dest content template d).1) ≡ F.read q (d.1)
  unfolding after_open write_rendered
  after_open-read src dest content template (some e, s) other = refl
  after_open-read src dest content template (none, s) other =
      elim (Result-cases (J.render template context)) [
        | inl (failure, e) ↦ rw (e, write_rendered) refl
        | inr (text, e) ↦
            rw (e, write_rendered)
              (after_write-read src dest (F.write dest (text ++ codes "\n") s) other
                ∙ L.read-write dest q (text ++ codes "\n") s other)
      ]

  with_content-read :
      (src dest : FilePath) (r : Result Text Text) (s : F.State)
      → L.same_file q dest ≡ false
      → F.read q ((with_content F J context src dest r s).1) ≡ F.read q s
  unfolding with_content with_template
  with_content-read src dest (raise e) s other = refl
  with_content-read src dest (ok content) s other = elim (Result-cases (J.from_string content)) [
    | inl (failure, e) ↦ rw (e, with_template) refl
    | inr (template, e) ↦
        rw (e, with_template)
          (after_open-read src dest content template (F.open_w dest s) other
            ∙ L.read-open_w dest q s other)
  ]

  after_mkdir-read :
      (src dest : FilePath) (d : Done F.State)
      → L.same_file q dest ≡ false
      → F.read q ((after_mkdir F J context src dest d).1) ≡ F.read q (d.1)
  unfolding after_mkdir
  after_mkdir-read src dest (some e, s) other = refl
  after_mkdir-read src dest (none, s) other = with_content-read src dest (F.read src s) s other

  pub copy_to-read :
      (src_dir dest_dir src : FilePath) (s : F.State) (path : Option FilePath)
      → IsOther L.same_file q dest_dir path
      → F.read q ((copy_to F J context src_dir dest_dir src s path).1) ≡ F.read q s
  unfolding copy_to
  copy_to-read src_dir dest_dir src s none other = refl
  copy_to-read src_dir dest_dir src s (some path) other =
      let dest = dest_dir /ₚ path in
      after_mkdir-read src dest (F.mkdir (parent dest) s) other ∙ L.read-mkdir (parent dest) q s
