-- ===== src/Mounts/Scan.antt =====
-- `list_external_mounts`, `get_minimal_mounts` and `main` of
-- .devkit/scripts/list_external_mounts.py.
use encrypted_zone_sdk.Base.{
  ℕ, zero, suc, true, false, Option, none, some, List, [], ◌∷◌, ◌++◌, map, ◌==◌, contains,
  if◌then◌else◌, text_eq,
}
use encrypted_zone_sdk.Base.Text.{Text, codes, starts_with}
use encrypted_zone_sdk.FilePath.{FilePath, path_eq, child, show_path}
use encrypted_zone_sdk.Mounts.{FileSystem, WalkEntry, Found, add, process_symlink, minimize_paths}

abbrev pub venv : Text
venv = codes ".venv"

-- `if ".venv" in dirs: dirs.remove(".venv")`
unfoldable pub remove_venv : List Text → List Text
remove_venv [] = []
remove_venv (d ∷ dirs) = let rest = remove_venv dirs in if d == venv then dirs else d ∷ rest

module _ (fs : FileSystem) (fuel : ℕ) (scan_dir_abs : FilePath) where
  -- One entry of a directory.
  unfoldable pub scan_name : FilePath → Text → Found → Option Found
  scan_name root_path name f =
      let path = child root_path name in
      elim (fs.is_symlink path) [
        | false ↦ some f
        | true ↦ elim (starts_with name (codes "bazel-")) [
          | true ↦ some f
          | false ↦ process_symlink fs scan_dir_abs fuel [] path f
        ]
      ]

  unfoldable pub scan_names : FilePath → List Text → Found → Option Found
  scan_names root_path [] f = some f
  scan_names root_path (name ∷ names) f = elim (scan_name root_path name f) [
    | none ↦ none
    | some f' ↦ scan_names root_path names f'
  ]

  -- The loop over `os.walk`.
  unfoldable pub scan_entries : List WalkEntry → Found → Option Found
  scan_entries [] f = some f
  scan_entries (e ∷ entries) f = elim (scan_names e.root (remove_venv e.dirs ++ e.files) f) [
    | none ↦ none
    | some f' ↦ scan_entries entries f'
  ]

  -- The loop over the worklist, on fuel.
  unfoldable pub scan_worklist : ℕ → List FilePath → Found → Option (List FilePath)
  scan_worklist zero scanned f = elim f.worklist [ [] ↦ some f.external_paths | _ ∷ _ ↦ none ]
  scan_worklist (suc rounds) scanned f = elim f.worklist [
    | [] ↦ some f.external_paths
    | current_dir ∷ worklist ↦
        let f' : Found = record { external_paths = f.external_paths; worklist = worklist } in
        elim (contains scanned current_dir) [
          | true ↦ scan_worklist rounds scanned f'
          | false ↦ elim (scan_entries (fs.walk venv current_dir) f') [
            | none ↦ none
            | some f'' ↦ scan_worklist rounds (current_dir ∷ scanned) f''
          ]
        ]
  ]

-- `list_external_mounts`, with fuel for the chains of links and for the worklist.
unfoldable pub list_external_mounts : FileSystem → ℕ → ℕ → FilePath → Option (List FilePath)
list_external_mounts fs fuel rounds scan_dir =
    let scan_dir_abs = fs.resolve scan_dir in
    scan_worklist fs fuel scan_dir_abs rounds []
      (record { external_paths = []; worklist = scan_dir_abs ∷ [] })

abbrev pub add_all : List FilePath → List FilePath → List FilePath
add_all s [] = s
add_all s (p ∷ ps) = add_all (add p s) ps

unfoldable pub existing_paths : FileSystem → FilePath → List FilePath → List FilePath
existing_paths fs root_dir existing_mounts =
    let s = add_all (add_all [] existing_mounts) (map fs.resolve existing_mounts) in
    if fs.is_symlink root_dir then add (fs.resolve root_dir) s else s

unfoldable pub get_minimal_mounts :
    FileSystem → ℕ → ℕ → FilePath → List FilePath → Option (List FilePath)
get_minimal_mounts fs fuel rounds root_dir existing_mounts =
    elim (list_external_mounts fs fuel rounds root_dir) [
      | none ↦ none
      | some symlink_paths ↦
          some (minimize_paths (add_all symlink_paths (existing_paths fs root_dir existing_mounts)))
    ]

-- What `main` prints for the arguments `--root-dir` and `--mount`.
unfoldable pub main : FileSystem → ℕ → ℕ → FilePath → List FilePath → Option (List Text)
main fs fuel rounds root_dir existing_mounts =
    elim (get_minimal_mounts fs fuel rounds root_dir existing_mounts) [
      | none ↦ none
      | some paths ↦ some (map show_path paths)
    ]
