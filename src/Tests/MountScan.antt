-- ===== src/Tests/MountScan.antt =====
-- .devkit/scripts/list_external_mounts.py on a small file system.
use encrypted_zone_sdk.Base.{
  ◌<◌, ◌≡◌, refl, true, false, none, some, List, [], ◌∷◌, arith, contains, ◌==◌, text_eq,
  if◌then◌else◌, sym, subst, ==_iff,
}
use encrypted_zone_sdk.Base.Text.{codes}
use encrypted_zone_sdk.FilePath.{FilePath, path_of, path_eq, parent, ◌/ₚ◌, is_relative_to}
use encrypted_zone_sdk.Mounts.{
  process_symlink, next_link, add_target, is_external, FileSystem, normpath, minimize_paths,
  path_lt,
}
use encrypted_zone_sdk.Mounts.Minimal.{IsAntichain, In, Covers, minimize_paths_minimal}
use encrypted_zone_sdk.Mounts.Scan.{
  scan_worklist, scan_entries, scan_names, remove_venv, scan_name, list_external_mounts,
}
use encrypted_zone_sdk.Mounts.Scanned.{IsFinite, list_external_mounts-returns}

abbrev project : FilePath
project = path_of true (codes "w" ∷ [])

abbrev link : FilePath
link = path_of true (codes "w" ∷ codes "l" ∷ [])

abbrev outside : FilePath
outside = path_of true (codes "x" ∷ [])

-- `/w/l` is a link to the directory `/x`.
abbrev disk : FileSystem
disk = record {
  is_symlink = λ p. p == link;
  readlink = λ p. if p == link then some outside else none;
  exists = λ p. p == outside;
  is_dir = λ p. true;
  resolve = λ p. p;
  walk = λ skip p.
      if p == project
      then record { root = project; dirs = []; files = codes "l" ∷ [] } ∷ []
      else [];
}

finds_target : list_external_mounts disk 2 2 project ≡ some (outside ∷ [])
unfolding list_external_mounts path_eq text_eq normpath scan_worklist scan_entries scan_names
    remove_venv scan_name process_symlink next_link ◌/ₚ◌ add_target is_external
finds_target = refl

abbrev three_paths : List FilePath
three_paths = link ∷ outside ∷ project ∷ []

minimal_two : minimize_paths three_paths ≡ project ∷ outside ∷ []
unfolding minimize_paths path_eq text_eq path_lt is_relative_to
minimal_two = refl

minimize_paths_minimal_example :
    IsAntichain (minimize_paths three_paths)
    × ((x : FilePath) → In x (minimize_paths three_paths) → In x three_paths)
    × ((x : FilePath) → In x three_paths → Covers (minimize_paths three_paths) x)
minimize_paths_minimal_example = minimize_paths_minimal three_paths

disk-IsFinite : IsFinite disk 2 project (outside ∷ [])
unfolding path_eq text_eq ◌/ₚ◌ normpath parent
disk-IsFinite = record {
  chain = λ p. if p == link then 1 else 0;
  ends = λ p target a b c.
      subst (λ q. (if q == link then 1 else 0) < (if p == link then 1 else 0))
        (sym ((==_iff (parent p /ₚ target) outside).0 c)) (rw a (omega arith));
  enough = λ p. ground arith;
  known = λ p h.
      subst (λ q. contains (outside ∷ []) (normpath q) ≡ true) (sym ((==_iff p outside).0 h)) refl;
}

list_external_mounts-returns_example :
    (paths : List FilePath) × (list_external_mounts disk 2 2 project ≡ some paths)
    × ((p : FilePath) → contains paths p ≡ true → is_relative_to p project ≡ false)
unfolding normpath text_eq
list_external_mounts-returns_example =
    list_external_mounts-returns disk 2 2 project (outside ∷ []) refl disk-IsFinite (omega arith)
