-- ===== src/Bootstrap/Written.antt =====
-- What the bootstrap leaves in the files.
use encrypted_zone_sdk.Base.{
  ◌≡◌, refl, ap, ◌∙◌, Bool, false, Option, none, some, List, [], ◌∷◌, All, Option-cases, inl, inr,
}
use encrypted_zone_sdk.Base.Dict.{Dict}
use encrypted_zone_sdk.Base.Text.{Text}
use encrypted_zone_sdk.FilePath.{FilePath, relative_to}
use encrypted_zone_sdk.Bootstrap.{
  Jinja, FileSystem, FileEnd, copy_file, Run, record_end, copy_files, copy_and_template,
  template_files,
}
use encrypted_zone_sdk.Bootstrap.Content.{IsLawful, texts_after, text_of, copy_to-content}
use encrypted_zone_sdk.Bootstrap.Reading.{IsOther, copy_to-read}

-- No template is the file of the destination of another one before it.
abbrev pub Apart : (FilePath → FilePath → Bool) → FilePath → FilePath → List FilePath → Type 0
Apart same_file src_dir dest_dir [] = Unit
Apart same_file src_dir dest_dir (src ∷ srcs) =
    All (λ later. IsOther same_file later dest_dir (relative_to src src_dir)) srcs
    × Apart same_file src_dir dest_dir srcs

module _ (F : FileSystem) (J : Jinja) (context : Dict Text Text) (L : IsLawful F) where
  -- The templates read in `s` as in `s'`.
  abbrev ReadAs : F.State → F.State → List FilePath → Type 0
  ReadAs s s' = All (λ src. F.read src s ≡ F.read src s')

  ReadAs-refl : (s : F.State) (srcs : List FilePath) → ReadAs s s srcs
  ReadAs-refl s [] = tt
  ReadAs-refl s (src ∷ srcs) = (refl, ReadAs-refl s srcs)

  ReadAs-copy_file :
      (src_dir dest_dir src : FilePath) (s s' : F.State) (srcs : List FilePath)
      → All (λ later. IsOther L.same_file later dest_dir (relative_to src src_dir)) srcs
      → ReadAs s s' srcs
      → ReadAs ((copy_file F J context src_dir dest_dir src s).1) s' srcs
  unfolding copy_file
  ReadAs-copy_file src_dir dest_dir src s s' [] _ _ = tt
  ReadAs-copy_file src_dir dest_dir src s s' (later ∷ srcs) (other, others) (same, r) = (
    copy_to-read F J context L later src_dir dest_dir src s (relative_to src src_dir) other ∙ same,
    ReadAs-copy_file src_dir dest_dir src s s' srcs others r,
  )

  abbrev outcome : FilePath → FilePath → FilePath → Run F.State → FileEnd × F.State
  outcome src_dir dest_dir src run = copy_file F J context src_dir dest_dir src run.state

  copy_files-raised :
      (src_dir dest_dir src : FilePath) (srcs : List FilePath) (run : Run F.State) (e : Text)
      → ((outcome src_dir dest_dir src run).0).raised ≡ some e
      → copy_files F J context src_dir dest_dir (src ∷ srcs) run
        ≡ (some e, record_end run (outcome src_dir dest_dir src run))
  unfolding copy_files
  copy_files-raised src_dir dest_dir src srcs run e raised = rw (raised, copy_files) refl

  copy_files-next :
      (src_dir dest_dir src : FilePath) (srcs : List FilePath) (run : Run F.State)
      → ((outcome src_dir dest_dir src run).0).raised ≡ none
      → copy_files F J context src_dir dest_dir (src ∷ srcs) run
        ≡ copy_files F J context src_dir dest_dir srcs
            (record_end run (outcome src_dir dest_dir src run))
  unfolding copy_files
  copy_files-next src_dir dest_dir src srcs run fine = rw (fine, copy_files) refl

  copy_file-content :
      (src_dir dest_dir src q : FilePath) (s : F.State)
      → (((copy_file F J context src_dir dest_dir src s).0).raised) ≡ none
      → L.content ((copy_file F J context src_dir dest_dir src s).1) q
        ≡ text_of F J context L dest_dir q (F.read src s) (relative_to src src_dir) (L.content s q)
  unfolding copy_file
  copy_file-content src_dir dest_dir src q s fine =
      copy_to-content F J context L q src_dir dest_dir src s (relative_to src src_dir) fine

  copy_files-texts_after :
      (src_dir dest_dir q : FilePath) (s : F.State) (srcs : List FilePath) (run : Run F.State)
      → Apart L.same_file src_dir dest_dir srcs
      → ReadAs run.state s srcs
      → (copy_files F J context src_dir dest_dir srcs run).0 ≡ none
      → L.content (((copy_files F J context src_dir dest_dir srcs run).1).state) q
        ≡ texts_after F J context L src_dir dest_dir s q srcs (L.content run.state q)
  unfolding texts_after
  copy_files-texts_after src_dir dest_dir q s [] run _ _ _ = unfold copy_files in refl
  copy_files-texts_after src_dir dest_dir q s (src ∷ srcs) run (others, apart) (same, r) returns =
      elim (Option-cases (((outcome src_dir dest_dir src run).0).raised)) [
        | inr (x, e) ↦
            absurd (cc (rw (copy_files-raised src_dir dest_dir src srcs run x e) at returns))
        | inl e ↦
            let next = copy_files-next src_dir dest_dir src srcs run e in
            ap (λ (end : Option Text × Run F.State). L.content ((end.1).state) q) next
            ∙ copy_files-texts_after src_dir dest_dir q s srcs
                (record_end run (outcome src_dir dest_dir src run)) apart
                (ReadAs-copy_file src_dir dest_dir src run.state s srcs others r)
                (rw next at returns)
            ∙ ap (texts_after F J context L src_dir dest_dir s q srcs) (
                copy_file-content src_dir dest_dir src q run.state e
                ∙ ap
                    (λ x.
                      text_of F J context L dest_dir q x (relative_to src src_dir)
                        (L.content run.state q))
                    same)
      ]

  -- If `copy_and_template` raises nothing and no template is the same file as the destination of one
  -- before it, the text of every file is what follows from the templates in order, as they read at the
  -- start: on a path that names the same file as the destination of a template, the rendered text and
  -- a line end if that renders, no text if its rendering fails, and the text from before if it has no
  -- valid syntax; and elsewhere what it was. Paths
  -- may name the same file, but which ones do does not change in the run, and a write is read back.
  pub copy_and_template-texts_after :
      (src_dir dest_dir q : FilePath) (walk : List (FilePath × List Text)) (s : F.State)
      → Apart L.same_file src_dir dest_dir (template_files walk)
      → (copy_and_template F J context src_dir dest_dir walk s).0 ≡ none
      → L.content (((copy_and_template F J context src_dir dest_dir walk s).1).state) q
        ≡ texts_after F J context L src_dir dest_dir s q (template_files walk) (L.content s q)
  unfolding copy_and_template
  copy_and_template-texts_after src_dir dest_dir q walk s apart returns =
      copy_files-texts_after src_dir dest_dir q s (template_files walk)
        (record { state = s; error_occurred = false; err = [] }) apart
        (ReadAs-refl s (template_files walk)) returns
