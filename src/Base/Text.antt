-- ===== src/Base/Text.antt =====
-- Python strings as lists of code points, and the methods of `str` that the scripts call.
use Prim.Native.Nat.{ℕ, zero, suc, ◌-◌}
use Prim.Native.Char.{code}
use Prim.Native.String.{String}
use mathlib.Core.Bool.{Bool, true, false, not, ◌&&◌, ◌||◌}
use mathlib.Core.Option.{Option, none, some}
use mathlib.Core.Option
use mathlib.Core.Path.{◌≡◌, refl}
use mathlib.Core.List.{reverse-reverse, reverse-append}
use native.Mathlib.Omega.{arith}
use mathlib.Core.List.{List, [], ◌∷◌, ◌++◌, reverse}
use encrypted_zone_sdk.Base.Tests.{leb, eqb, if◌then◌else◌}
use encrypted_zone_sdk.Base.Lists.{length, all, All, All-append}

abbrev pub Text : Type 0
Text = List ℕ

-- The code points of a literal.
abbrev pub codes : String → Text
codes String.[] = []
codes (String.◌∷◌ c s) = code c ∷ codes s

-- The rest of `s` behind `prefix`, if `s.startswith(prefix)`.
abbrev pub after_prefix : Text → Text → Option Text
after_prefix [] s = some s
after_prefix (p ∷ ps) [] = none
after_prefix (p ∷ ps) (c ∷ s) = let rest = after_prefix ps s in if eqb c p then rest else none

abbrev pub starts_with : Text → Text → Bool
starts_with s prefix = elim (after_prefix prefix s) [ none ↦ false | some _ ↦ true ]

-- What `str.isspace` accepts, and `str.strip` removes.
unfoldable pub is_space : ℕ → Bool
is_space c =
    leb 9 c && leb c 13
    || leb 28 c && leb c 32
    || eqb c 0x85
    || eqb c 0xa0
    || eqb c 0x1680
    || leb 0x2000 c && leb c 0x200a
    || eqb c 0x2028
    || eqb c 0x2029
    || eqb c 0x202f
    || eqb c 0x205f
    || eqb c 0x3000

unfoldable pub lstrip_space : Text → Text
unfolding is_space
lstrip_space [] = []
lstrip_space (c ∷ s) = let rest = lstrip_space s in if is_space c then rest else c ∷ s

-- `s.strip()`
unfoldable pub strip : Text → Text
unfolding lstrip_space
strip s = reverse (lstrip_space (reverse (lstrip_space s)))

-- `s.split(sep)` for a separator of one character.
abbrev pub put_first : ℕ → List Text → List Text
put_first c [] = (c ∷ []) ∷ []
put_first c (p ∷ ps) = (c ∷ p) ∷ ps

unfoldable pub split : ℕ → Text → List Text
split sep [] = [] ∷ []
split sep (c ∷ s) = let rest = split sep s in if eqb c sep then [] ∷ rest else put_first c rest

-- `s.split(sep, 1)`: `none` where it gives one part only, as `sep in s` is false.
unfoldable pub split_once : ℕ → Text → Option (Text × Text)
split_once sep [] = none
split_once sep (c ∷ s) =
    let rest = Option.map (λ ((a, b) : Text × Text). (c ∷ a, b)) (split_once sep s) in
    if eqb c sep then some ([], s) else rest

-- `sep.join(parts)`
unfoldable pub join : Text → List Text → Text
join sep [] = []
join sep (p ∷ []) = p
join sep (p ∷ q ∷ ps) = p ++ (sep ++ join sep (q ∷ ps))

-- `s.replace(old, new)` for a text `old` that is not empty. The number counts the characters
-- of an occurrence that are still to be passed over.
unfoldable pub replace_from : Text → Text → ℕ → Text → Text
replace_from old new skip [] = []
replace_from old new (suc skip) (c ∷ s) = replace_from old new skip s
replace_from old new zero (c ∷ s) = elim (starts_with (c ∷ s) old) [
  | true ↦ new ++ replace_from old new (length old - 1) s
  | false ↦ c ∷ replace_from old new zero s
]

unfoldable pub replace : Text → Text → Text → Text
unfolding replace_from
replace s old new = replace_from old new zero s

-- A text with no white space at all.
abbrev pub Solid : Text → Type 0
Solid = All (λ c. is_space c ≡ false)

lstrip-Solid : (s : Text) → Solid s → lstrip_space s ≡ s
unfolding lstrip_space
lstrip-Solid [] _ = refl
lstrip-Solid (c ∷ s) (hc, hs) = rw hc

All-reverse {κ} : (P : ℕ → Type κ) (s : Text) → All P s → All P (reverse s)
All-reverse P [] _ = tt
All-reverse P (c ∷ s) (hc, hs) =
    rw (reverse-append (c ∷ []) s) (All-append P (reverse s) (c ∷ []) (All-reverse P s hs) (hc, tt))

-- Stripping leaves it alone.
pub strip-Solid : (s : Text) → Solid s → strip s ≡ s
unfolding strip
strip-Solid s h =
    rw (lstrip-Solid s h, lstrip-Solid (reverse s) (All-reverse _ s h)) (reverse-reverse s)

abbrev pub Lacks : ℕ → Text → Type 0
Lacks b = All (λ c. eqb c b ≡ false)

pub all-Lacks : (b : ℕ) (s : Text) → all (λ c. not (eqb c b)) s ≡ true → Lacks b s
all-Lacks b [] _ = tt
all-Lacks b (c ∷ s) h = (ground arith, all-Lacks b s (ground arith))

pub split-Lacks : (sep : ℕ) (p : Text) → Lacks sep p → split sep p ≡ p ∷ []
unfolding split
split-Lacks sep [] _ = refl
split-Lacks sep (c ∷ p) (hc, hp) = rw hc (rw (split-Lacks sep p hp))

-- The first part ends at the first separator.
pub split-cons : (sep : ℕ) (p s : Text) → Lacks sep p → split sep (p ++ (sep ∷ s)) ≡ p ∷ split sep s
unfolding split
split-cons sep [] s _ = ground arith
split-cons sep (c ∷ p) s (hc, hp) = rw hc (rw (split-cons sep p s hp))

pub replace-Lacks : (o : ℕ) (old new s : Text) → Lacks o s → replace_from (o ∷ old) new zero s ≡ s
unfolding replace_from
replace-Lacks o old new [] _ = refl
replace-Lacks o old new (c ∷ s) (hc, hs) = ground (arith, replace-Lacks o old new s hs)
