-- ===== src/Mounts/Scanned.antt =====
-- The worklist of `list_external_mounts` in .devkit/scripts/list_external_mounts.py.
use native.Mathlib.Nat.{le_refl}
use encrypted_zone_sdk.Base.{
  ℕ, zero, suc, ◌+◌, ◌≤◌, ◌<◌, ◌≡◌, refl, ap, inl, inr, Bool, true, false, not, ◌&&◌, some, List,
  [], ◌∷◌, ◌++◌, arith, contains, contains-append, keep, length, length-append, Bool-cases,
  List-cases,
}
use encrypted_zone_sdk.Base.Text.{Text, codes, starts_with}
use encrypted_zone_sdk.FilePath.{FilePath, path_eq, child, is_relative_to}
use encrypted_zone_sdk.Mounts.{FileSystem, WalkEntry, Found, normpath, is_external, add_target}
use encrypted_zone_sdk.Mounts.External.{
  IsOutside, add_target-IsOutside, ChainsEnd, process_symlink_inv,
}
use encrypted_zone_sdk.Mounts.Scan.{
  venv, remove_venv, scan_name, scan_names, scan_entries, scan_worklist, list_external_mounts,
}

-- The paths of a universe that are not external yet.
abbrev missing : List FilePath → List FilePath → ℕ
missing universe external = length (keep (λ p. not (contains external p)) universe)

missing-append-le :
    (universe external : List FilePath) (n : FilePath)
    → missing universe (external ++ (n ∷ [])) ≤ missing universe external
missing-append-le [] external n = omega arith
missing-append-le (u ∷ us) external n =
    ground (arith, contains-append external (n ∷ []) u, missing-append-le us external n)

missing-append-lt :
    (universe external : List FilePath) (n : FilePath)
    → contains universe n ≡ true
    → contains external n ≡ false
    → missing universe (external ++ (n ∷ [])) < missing universe external
missing-append-lt [] external n m h = absurd (cc)
missing-append-lt (u ∷ us) external n m h = ground (
  arith,
  contains-append external (n ∷ []) u,
  missing-append-lt us external n,
  missing-append-le us external n,
)

length-keep : (f : FilePath → Bool) (ps : List FilePath) → length (keep f ps) ≤ length ps
length-keep f [] = omega arith
length-keep f (p ∷ ps) = ground (arith, length-keep f ps)

module _ (universe : List FilePath) where
  -- The external paths that may still be found, and those that wait to be scanned.
  abbrev left : Found → ℕ
  left f = missing universe f.external_paths + length f.worklist

  left-add_target :
      (fs : FileSystem) (scan target : FilePath) (f : Found)
      → contains universe (normpath target) ≡ true
      → left (add_target fs scan target f) ≤ left f
  unfolding add_target
  left-add_target fs scan target f known =
      elim (Bool-cases
        (is_external fs scan target && not (contains f.external_paths (normpath target)))) [
          | inr same ↦ rw same (omega arith)
          | inl more ↦ rw more (
              ground (
                arith,
                missing-append-lt universe f.external_paths (normpath target) known (ground arith),
                length-append f.worklist (normpath target ∷ []),
              ))
        ]

module _ {ℓ} (fs : FileSystem) (fuel : ℕ) (scan : FilePath) (P : Found → Type ℓ)
    (keeps : (target : FilePath) (f : Found)
      → fs.exists target ≡ true
      → P f
      → P (add_target fs scan target f))
    (chain : FilePath → ℕ) (ends : ChainsEnd fs scan chain)
    (enough : (p : FilePath) → chain p < fuel) where
  scan_name_inv :
      (root : FilePath) (name : Text) (f : Found)
      → P f
      → (f' : Found) × (scan_name fs fuel scan root name f ≡ some f') × P f'
  unfolding scan_name
  scan_name_inv root name f pf = elim (Bool-cases (fs.is_symlink (child root name))) [
    | inr plain ↦ (f, rw (plain, scan_name), pf)
    | inl link ↦ elim (Bool-cases (starts_with name (codes "bazel-"))) [
      | inl bazel ↦ (f, rw (link, scan_name) (rw bazel), pf)
      | inr other ↦
          let (f', e, pf') =
            process_symlink_inv fs scan P keeps chain ends fuel [] (child root name) f
              (enough (child root name)) pf in
          (f', rw (link, scan_name) (rw other e), pf')
    ]
  ]

  scan_names_inv :
      (root : FilePath) (names : List Text) (f : Found)
      → P f
      → (f' : Found) × (scan_names fs fuel scan root names f ≡ some f') × P f'
  unfolding scan_names
  scan_names_inv root [] f pf = (f, refl, pf)
  scan_names_inv root (name ∷ names) f pf =
      let (g, e, pg) = scan_name_inv root name f pf in
      let (f', e', pf') = scan_names_inv root names g pg in (f', rw (e, scan_names) e', pf')

  pub scan_entries_inv :
      (entries : List WalkEntry) (f : Found)
      → P f
      → (f' : Found) × (scan_entries fs fuel scan entries f ≡ some f') × P f'
  unfolding scan_entries
  scan_entries_inv [] f pf = (f, refl, pf)
  scan_entries_inv (entry ∷ entries) f pf =
      let (g, e, pg) = scan_names_inv entry.root (remove_venv entry.dirs ++ entry.files) f pf in
      let (f', e', pf') = scan_entries_inv entries g pg in (f', rw (e, scan_entries) e', pf')

-- What is assumed of the file system: links end within `fuel` steps, as the system itself follows
-- only so many, and the paths that exist have finitely many normal forms.
pub record IsFinite (fs : FileSystem) (fuel : ℕ) (scan : FilePath) (universe : List FilePath)
    : Type 0 where
  pub chain : FilePath → ℕ
  pub ends : ChainsEnd fs scan chain
  pub enough : (p : FilePath) → chain p < fuel
  pub known : (p : FilePath) → fs.exists p ≡ true → contains universe (normpath p) ≡ true

module _ (fs : FileSystem) (fuel : ℕ) (scan : FilePath) (normal : normpath scan ≡ scan)
    (universe : List FilePath) (finite : IsFinite fs fuel scan universe) where
  open finite use {chain, ends, enough, known}

  abbrev AllOutside : List FilePath → Type 0
  AllOutside paths = (p : FilePath) → contains paths p ≡ true → is_relative_to p scan ≡ false

  -- What a scan of one directory keeps: the paths lie outside, and no work is added.
  Kept : Found → Found → Type 0
  Kept f' g = IsOutside fs scan normal g × (left universe g ≤ left universe f')

  Kept-add_target :
      (f' : Found) (target : FilePath) (g : Found)
      → fs.exists target ≡ true
      → Kept f' g
      → Kept f' (add_target fs scan target g)
  unfolding Kept
  Kept-add_target f' target g there (out, less) = (
    add_target-IsOutside fs scan normal target g out,
    omega (arith, left-add_target universe fs scan target g (known target there)),
  )

  scan_worklist-returns :
      (rounds : ℕ) (scanned : List FilePath) (f : Found)
      → left universe f ≤ rounds
      → IsOutside fs scan normal f
      → (paths : List FilePath) × (scan_worklist fs fuel scan rounds scanned f ≡ some paths)
        × AllOutside paths
  unfolding scan_worklist Kept
  scan_worklist-returns zero scanned f h out = elim (List-cases f.worklist) [
    | inl done ↦ (f.external_paths, rw (done, scan_worklist), out)
    | inr (p, ps, e) ↦ absurd (omega (arith, ap (length {A = FilePath}) e))
  ]
  scan_worklist-returns (suc rounds) scanned f h out = elim (List-cases f.worklist) [
    | inl done ↦ (f.external_paths, rw (done, scan_worklist), out)
    | inr (cur, worklist, e) ↦
        let f' : Found = record { external_paths = f.external_paths; worklist = worklist } in
        let fewer = ap (length {A = FilePath}) e in
        elim (Bool-cases (contains scanned cur)) [
          | inl seen ↦
              let (paths, r, all) = scan_worklist-returns rounds scanned f' (omega arith) out in
              (paths, rw (e, scan_worklist) (rw seen r), all)
          | inr fresh ↦
              let (g, r, (g_out, g_left)) =
                scan_entries_inv fs fuel scan (Kept f') (Kept-add_target f') chain ends enough
                  (fs.walk venv cur) f' (out, le_refl _) in
              let (paths, r', all) =
                scan_worklist-returns rounds (cur ∷ scanned) g (omega arith) g_out in
              (paths, rw (e, scan_worklist) (rw (fresh, r) r'), all)
        ]
  ]

-- On a file system whose links end, and with a round for each path that may be found, the scan
-- returns, and each path that it lists lies outside of the scanned directory.
pub list_external_mounts-returns :
    (fs : FileSystem) (fuel rounds : ℕ) (scan_dir : FilePath) (universe : List FilePath)
    → normpath (fs.resolve scan_dir) ≡ fs.resolve scan_dir
    → IsFinite fs fuel (fs.resolve scan_dir) universe
    → length universe < rounds
    → (paths : List FilePath) × (list_external_mounts fs fuel rounds scan_dir ≡ some paths)
      × ((p : FilePath) → contains paths p ≡ true → is_relative_to p (fs.resolve scan_dir) ≡ false)
unfolding list_external_mounts
list_external_mounts-returns fs fuel rounds scan_dir universe normal finite h =
    let scan = fs.resolve scan_dir in
    let start : Found = record { external_paths = []; worklist = scan ∷ [] } in
    scan_worklist-returns fs fuel scan normal universe finite rounds [] start
      (omega (arith, length-keep (λ p. not (contains [] p)) universe)) (λ p m. cc)
