-- ===== src/Mounts.antt =====
-- .devkit/scripts/list_external_mounts.py. A set of paths is a list; what the file system says
-- is a parameter.
pub mod Minimal
pub mod External
pub mod Scan
pub mod Scanned
use mathlib.Core.List.{reverse}
use encrypted_zone_sdk.Base.{
  ℕ, zero, suc, Bool, true, false, not, ◌&&◌, Option, none, some, List, [], ◌∷◌, ◌++◌, map, ◌==◌,
  contains, if◌then◌else◌, keep, any, ltb, eqb, text_eq, nat_eq,
}
use encrypted_zone_sdk.Base.Text.{Text, codes, split, starts_with}
use encrypted_zone_sdk.FilePath.{
  FilePath, path_of, path_eq, child, parent, ◌/ₚ◌, show_path, is_relative_to, parts_behind,
}

-- `a < b` for texts, and for the lists of components by which paths are ordered.
unfoldable pub text_lt : Text → Text → Bool
text_lt [] [] = false
text_lt [] (d ∷ t) = true
text_lt (c ∷ s) [] = false
text_lt (c ∷ s) (d ∷ t) =
    let rest = text_lt s t in if ltb c d then true else if eqb c d then rest else false

unfoldable pub parts_lt : List Text → List Text → Bool
unfolding text_lt text_eq
parts_lt [] [] = false
parts_lt [] (d ∷ t) = true
parts_lt (c ∷ s) [] = false
parts_lt (c ∷ s) (d ∷ t) = let rest = parts_lt s t in if c == d then rest else text_lt c d

unfoldable pub path_lt : FilePath → FilePath → Bool
unfolding parts_lt show_path split
path_lt p q = parts_lt (split b'/' (show_path p)) (split b'/' (show_path q))

unfoldable pub insert_path : FilePath → List FilePath → List FilePath
unfolding path_lt
insert_path p [] = p ∷ []
insert_path p (q ∷ qs) = let rest = insert_path p qs in if path_lt q p then q ∷ rest else p ∷ q ∷ qs

-- `sorted(paths)`
unfoldable pub sorted : List FilePath → List FilePath
unfolding insert_path
sorted [] = []
sorted (p ∷ ps) = insert_path p (sorted ps)

-- `set.add`
abbrev pub add : FilePath → List FilePath → List FilePath
add p s = if contains s p then s else s ++ (p ∷ [])

-- The body of the loop of `_minimize_paths`.
unfoldable pub minimize_step : List FilePath → FilePath → List FilePath
unfolding is_relative_to
minimize_step minimal path =
    if any (λ p. is_relative_to path p) minimal
    then minimal
    else add path (keep (λ p. not (is_relative_to p path)) minimal)

unfoldable pub minimize_loop : List FilePath → List FilePath → List FilePath
unfolding minimize_step
minimize_loop minimal [] = minimal
minimize_loop minimal (path ∷ paths) = minimize_loop (minimize_step minimal path) paths

-- `_minimize_paths`
unfoldable pub minimize_paths : List FilePath → List FilePath
unfolding minimize_loop sorted
minimize_paths paths = minimize_loop [] (sorted paths)

-- `os.path.normpath` on the components of a path: `..` goes up, and stays in front of a
-- relative path.
unfoldable pub normal_parts : Bool → List Text → List Text → List Text
unfolding text_eq
normal_parts absolute done [] = reverse done
normal_parts absolute [] (c ∷ cs) =
    normal_parts absolute (if c == codes ".." && absolute then [] else c ∷ []) cs
normal_parts absolute (d ∷ done) (c ∷ cs) =
    normal_parts absolute (if c == codes ".." && not (d == codes "..") then done else c ∷ d ∷ done)
      cs

unfoldable pub normpath : FilePath → FilePath
unfolding normal_parts
normpath p = path_of p.absolute (normal_parts p.absolute [] p.parts)

-- The components that two paths have in common.
unfoldable pub common_parts : List Text → List Text → List Text
unfolding text_eq
common_parts [] qs = []
common_parts (p ∷ ps) [] = []
common_parts (p ∷ ps) (q ∷ qs) = let rest = common_parts ps qs in if p == q then p ∷ rest else []

-- `os.path.commonpath([a, b])` for two absolute paths.
unfoldable pub commonpath : FilePath → FilePath → FilePath
unfolding common_parts
commonpath a b = path_of a.absolute (common_parts a.parts b.parts)

-- One directory of `os.walk`: `root`, `dirs` and `files`.
pub record WalkEntry : Type 0 where
  pub root : FilePath
  pub dirs : List Text
  pub files : List Text

-- What the scripts ask the file system. `walk` is told which subdirectories to leave out.
pub record FileSystem : Type 0 where
  pub is_symlink : FilePath → Bool
  pub readlink : FilePath → Option FilePath
  pub exists : FilePath → Bool
  pub is_dir : FilePath → Bool
  pub resolve : FilePath → FilePath
  pub walk : (skip : Text) → FilePath → List WalkEntry

-- The sets that the scan fills: `external_paths`, and `worklist`.
pub record Found : Type 0 where
  pub external_paths : List FilePath
  pub worklist : List FilePath

module _ (fs : FileSystem) (scan_dir_abs : FilePath) where
  -- `os.path.normpath(common) != str(scan_dir_abs)`
  unfoldable pub is_external : FilePath → Bool
  unfolding normpath commonpath
  is_external target = not (normpath (commonpath scan_dir_abs (normpath target)) == scan_dir_abs)

  -- What one link of a chain adds.
  unfoldable pub add_target : FilePath → Found → Found
  add_target abs_target f =
      let norm_target = normpath abs_target in
      if is_external abs_target && not (contains f.external_paths norm_target)
      then record {
        external_paths = f.external_paths ++ (norm_target ∷ []);
        worklist = if fs.is_dir norm_target then f.worklist ++ (norm_target ∷ []) else f.worklist;
      }
      else f

  -- The next `current_path`, if the loop goes on: `current_path` is a link that was not yet
  -- visited, can be read, and is not broken.
  unfoldable pub next_link : List FilePath → FilePath → Option FilePath
  next_link visited_in_chain current_path =
      if fs.is_symlink current_path && not (contains visited_in_chain current_path)
      then elim (fs.readlink current_path) [
        | none ↦ none
        | some target ↦
            if fs.exists (parent current_path /ₚ target)
            then some (parent current_path /ₚ target)
            else none
      ]
      else none

  -- `_process_symlink`, with fuel; `none` means that it ran out.
  unfoldable pub process_symlink : ℕ → List FilePath → FilePath → Found → Option Found
  process_symlink zero visited_in_chain current_path f = none
  process_symlink (suc fuel) visited_in_chain current_path f =
      elim (next_link visited_in_chain current_path) [
        | none ↦ some f
        | some abs_target ↦
            process_symlink fuel (current_path ∷ visited_in_chain) abs_target
              (add_target abs_target f)
      ]
