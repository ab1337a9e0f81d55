-- ===== src/FindRoot.antt =====
-- .devkit/scripts/find_project_root.py
pub mod Nearest
use encrypted_zone_sdk.Base.{
  ℕ, zero, suc, Bool, true, false, Option, none, some, List, [], ◌∷◌, ◌++◌, if◌then◌else◌, length,
}
use encrypted_zone_sdk.Base.Result.{Result, ok, raise, Exit}
use encrypted_zone_sdk.Base.Text.{Text, codes}
use encrypted_zone_sdk.FilePath.{FilePath, child, parent, read_path, show_path}

-- `path` and the first `n` of `path.parents`, the nearest first.
unfoldable pub up_from : ℕ → FilePath → List FilePath
unfolding parent
up_from zero path = path ∷ []
up_from (suc n) path = path ∷ up_from n (parent path)

pub data RootError : Type 0 where
  file_not_found_error : RootError

abbrev pub not_found : Text
not_found = codes "Could not find project root. Make sure you are in a devkit project."

-- `exists` is `Path.exists`.
module _ (exists : FilePath → Bool) where
  abbrev pub has_devkit : FilePath → Bool
  has_devkit path = exists (child path (codes "devkit"))

  -- The loop.
  unfoldable pub first_root : List FilePath → Result RootError FilePath
  first_root [] = raise file_not_found_error
  first_root (path ∷ paths) =
      let rest = first_root paths in if has_devkit path then ok path else rest

  -- The search from a directory: it has as many parents as components.
  unfoldable pub search_from : FilePath → Result RootError FilePath
  unfolding first_root up_from
  search_from current_dir = first_root (up_from (length current_dir.parts) current_dir)

  -- `pwd` is the variable `PWD`, if it is set.
  unfoldable pub find_project_root : Option Text → FilePath → Result RootError FilePath
  unfolding search_from read_path
  find_project_root none cwd = search_from cwd
  find_project_root (some pwd) cwd = search_from (read_path pwd)

  unfoldable pub main : Option Text → FilePath → Exit
  unfolding find_project_root show_path
  main pwd cwd = elim (find_project_root pwd cwd) [
    | ok root ↦ record { status = 0; out = show_path root ∷ []; err = [] }
    | raise e ↦ record { status = 1; out = []; err = (codes "Error: " ++ not_found) ∷ [] }
  ]
