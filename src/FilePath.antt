-- ===== src/FilePath.antt =====
-- `pathlib.Path` as the scripts use it: whether a path is absolute, and its components. The
-- components of a path hold no `/`, and `.` and empty ones are dropped when a path is read.
pub mod Order
use encrypted_zone_sdk.Base.{
  ℕ, Bool, true, false, ◌&&◌, Option, none, some, List, [], ◌∷◌, ◌++◌, ◌==◌, Eq, nat_eq, text_eq,
  texts_eq, if◌then◌else◌, ◌≡◌, refl, ap, dite,
}
use encrypted_zone_sdk.Base.Text.{Text, codes, split, join}

pub record FilePath : Type 0 where
  pub absolute : Bool
  pub parts : List Text

abbrev pub path_of : Bool → List Text → FilePath
path_of absolute parts = record { absolute = absolute; parts = parts }

bool_dec : Discrete Bool
bool_dec true true = yes refl
bool_dec false false = yes refl
bool_dec true false = no (λ h. cc)
bool_dec false true = no (λ h. cc)

path_dec : Discrete FilePath
path_dec p q =
    dite (bool_dec p.absolute q.absolute)
      (λ a.
        dite (texts_eq.dec p.parts q.parts) (λ b. yes (λ i. record { absolute = a i; parts = b i }))
          (λ n. no (λ h. n (ap (λ (r : FilePath). r.parts) h))))
      (λ n. no (λ h. n (ap (λ (r : FilePath). r.absolute) h)))

instance unfoldable pub path_eq : Eq FilePath
unfolding path_dec bool_dec texts_eq
path_eq = record { dec = path_dec }

-- The components that pathlib keeps.
unfoldable pub components : List Text → List Text
unfolding text_eq
components [] = []
components ([] ∷ ps) = components ps
components ((c ∷ p) ∷ ps) =
    let rest = components ps in if (c ∷ p) == codes "." then rest else (c ∷ p) ∷ rest

-- `Path(text)`
unfoldable pub read_path : Text → FilePath
unfolding components split
read_path [] = path_of false []
read_path (c ∷ s) = path_of (if c == b'/' then true else false) (components (split b'/' (c ∷ s)))

-- `str(path)`
unfoldable pub show_path : FilePath → Text
unfolding join
show_path p = elim p.parts [
  | [] ↦ if p.absolute then codes "/" else codes "."
  | c ∷ cs ↦ if p.absolute then b'/' ∷ join (codes "/") (c ∷ cs) else join (codes "/") (c ∷ cs)
]

-- `p / q`
infixl 70 ◌/ₚ◌
unfoldable pub ◌/ₚ◌ : FilePath → FilePath → FilePath
p /ₚ q = if q.absolute then q else path_of p.absolute (p.parts ++ q.parts)

-- `p / name`, for a name without `/`.
abbrev pub child : FilePath → Text → FilePath
child p name = path_of p.absolute (p.parts ++ (name ∷ []))

abbrev pub without_last : List Text → List Text
without_last [] = []
without_last (c ∷ []) = []
without_last (c ∷ d ∷ cs) = c ∷ without_last (d ∷ cs)

-- `path.parent`: the root and the empty path are their own parents.
unfoldable pub parent : FilePath → FilePath
parent p = path_of p.absolute (without_last p.parts)

-- The rest of `p` behind `q`, component by component.
abbrev pub parts_behind : List Text → List Text → Option (List Text)
parts_behind [] ps = some ps
parts_behind (q ∷ qs) [] = none
parts_behind (q ∷ qs) (p ∷ ps) = let rest = parts_behind qs ps in if p == q then rest else none

abbrev pub same_kind : Bool → Bool → Bool
same_kind true b = b
same_kind false true = false
same_kind false false = true

-- `p.relative_to(q)`, `none` where it raises `ValueError`.
unfoldable pub relative_to : FilePath → FilePath → Option FilePath
relative_to p q =
    if same_kind p.absolute q.absolute
    then elim (parts_behind q.parts p.parts) [ none ↦ none | some rest ↦ some (path_of false rest) ]
    else none

-- `p.is_relative_to(q)`
unfoldable pub is_relative_to : FilePath → FilePath → Bool
unfolding relative_to
is_relative_to p q = elim (relative_to p q) [ none ↦ false | some _ ↦ true ]
