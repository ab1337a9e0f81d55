-- ===== src/Mounts/External.antt =====
-- `_process_symlink` of .devkit/scripts/list_external_mounts.py.
use mathlib.Core.Bool.{false≢true}
use encrypted_zone_sdk.Base.{
  ℕ, zero, suc, ◌<◌, ◌≡◌, refl, ap, sym, ◌∙◌, subst, inl, inr, true, false, not, ◌&&◌, some, List,
  [], ◌∷◌, ◌++◌, arith, ==_iff, contains, contains-append, Bool-cases, Option-cases, text_eq,
}
use encrypted_zone_sdk.Base.Text.{Text}
use encrypted_zone_sdk.FilePath.{FilePath, path_of, path_eq, parent, ◌/ₚ◌, is_relative_to}
use encrypted_zone_sdk.FilePath.Order.{Below, Below-is_relative_to}
use encrypted_zone_sdk.Mounts.{
  FileSystem, Found, normpath, common_parts, commonpath, is_external, add_target, next_link,
  process_symlink,
}

common_parts-append : (ps rest : List Text) → common_parts ps (ps ++ rest) ≡ ps
unfolding common_parts
common_parts-append [] rest = refl
common_parts-append (p ∷ ps) rest = ground (arith, common_parts-append ps rest)

commonpath-Below : (scan p : FilePath) → Below p scan → commonpath scan p ≡ scan
unfolding commonpath
commonpath-Below scan p (rest, e) =
    ap (λ (q : FilePath). path_of scan.absolute (common_parts scan.parts q.parts)) e
    ∙ ap (path_of scan.absolute) (common_parts-append scan.parts rest)

module _ (fs : FileSystem) (scan : FilePath) (normal : normpath scan ≡ scan) where
  -- What passes the test of `_process_symlink` lies outside of the scanned directory.
  is_external-outside :
      (target : FilePath)
      → is_external fs scan target ≡ true
      → is_relative_to (normpath target) scan ≡ false
  unfolding is_external
  is_external-outside target h = elim (Bool-cases (is_relative_to (normpath target) scan)) [
    | inr outside ↦ outside
    | inl inside ↦
        let e : normpath (commonpath scan (normpath target)) ≡ scan =
          ap normpath (
            commonpath-Below scan (normpath target)
              (Below-is_relative_to (normpath target) scan inside))
          ∙ normal in
        absurd (false≢true (ap not (sym ((==_iff _ scan).1 e)) ∙ h))
  ]

  -- Every external path lies outside of the scanned directory.
  abbrev pub IsOutside : Found → Type 0
  IsOutside f = (p : FilePath) → contains f.external_paths p ≡ true → is_relative_to p scan ≡ false

  pub add_target-IsOutside :
      (target : FilePath) (f : Found) → IsOutside f → IsOutside (add_target fs scan target f)
  unfolding add_target
  add_target-IsOutside target f h p m =
      elim (Bool-cases
        (is_external fs scan target && not (contains f.external_paths (normpath target)))) [
          | inr same ↦ h p (ground arith)
          | inl more ↦ elim (Bool-cases (contains f.external_paths p)) [
            | inl old ↦ h p old
            | inr new ↦
                let e : p ≡ normpath target =
                  ground (arith, contains-append f.external_paths (normpath target ∷ []) p) in
                ap (λ q. is_relative_to q scan) e ∙ is_external-outside target (ground arith)
          ]
        ]

-- A link that can be followed brings the chain nearer to its end.
module _ (fs : FileSystem) (scan : FilePath) (chain : FilePath → ℕ) where
  abbrev pub ChainsEnd : Type 0
  ChainsEnd =
      (p target : FilePath)
      → fs.is_symlink p ≡ true
      → fs.readlink p ≡ some target
      → fs.exists (parent p /ₚ target) ≡ true
      → chain (parent p /ₚ target) < chain p

  next_link-followed :
      (visited : List FilePath) (p t : FilePath)
      → ChainsEnd
      → next_link fs scan visited p ≡ some t
      → (chain t < chain p) × (fs.exists t ≡ true)
  unfolding next_link
  next_link-followed visited p t ends h =
      elim (Bool-cases (fs.is_symlink p && not (contains visited p))) [
        | inr stop ↦ ground arith
        | inl go ↦ elim (Option-cases (fs.readlink p)) [
          | inl gone ↦ ground arith
          | inr (target, read) ↦ elim (Bool-cases (fs.exists (parent p /ₚ target))) [
            | inr broken ↦ ground arith
            | inl there ↦
                let nearer = ends p target (ground arith) read there in
                let e : parent p /ₚ target ≡ t = ground arith in
                subst (λ x. (chain x < chain p) × (fs.exists x ≡ true)) e (nearer, there)
          ]
        ]
      ]

-- A property of what was found, kept by every link that is followed, holds at the end, and the
-- chain is followed to its end.
module _ {ℓ} (fs : FileSystem) (scan : FilePath) (P : Found → Type ℓ)
    (keeps : (target : FilePath) (f : Found)
      → fs.exists target ≡ true
      → P f
      → P (add_target fs scan target f))
    (chain : FilePath → ℕ) (ends : ChainsEnd fs scan chain) where
  pub process_symlink_inv :
      (fuel : ℕ) (visited : List FilePath) (p : FilePath) (f : Found)
      → chain p < fuel
      → P f
      → (f' : Found) × (process_symlink fs scan fuel visited p f ≡ some f') × P f'
  unfolding process_symlink
  process_symlink_inv zero visited p f h pf = absurd (omega arith)
  process_symlink_inv (suc fuel) visited p f h pf =
      elim (Option-cases (next_link fs scan visited p)) [
        | inl stop ↦ (f, rw (stop, process_symlink), pf)
        | inr (t, go) ↦
            let (f', e, pf') =
              let (nearer, there) = next_link-followed fs scan chain visited p t ends go in
              process_symlink_inv fuel (p ∷ visited) t (add_target fs scan t f)
                (omega (arith, nearer)) (keeps t f there pf) in
            (f', rw (go, process_symlink) e, pf')
      ]
