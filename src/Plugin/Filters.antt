-- ===== src/Plugin/Filters.antt =====
-- The filters of tools/plugin/ez_sdk.py that the templates call. `lower` is `str.lower`.
use encrypted_zone_sdk.Base.{
  ◌≡◌, refl, ◌∙◌, ℕ, ◌-◌, Bool, true, false, not, ◌&&◌, ◌||◌, [], ◌∷◌, arith, take, drop, length,
  keep, leb, eqb, if◌then◌else◌, Bool-cases, inl, inr,
}
use encrypted_zone_sdk.Base.Text.{Text, starts_with}
use mathlib.Core.List.{reverse}

abbrev pub is_upper : ℕ → Bool
is_upper c = leb b'A' c && leb c b'Z'

abbrev pub is_lower_or_digit : ℕ → Bool
is_lower_or_digit c = leb b'a' c && leb c b'z' || leb b'0' c && leb c b'9'

-- `_LOWER_UPPER_RE.sub(r'\1_\2', s)`
unfoldable pub sub_lower_upper : Text → Text
sub_lower_upper [] = []
sub_lower_upper (c ∷ []) = c ∷ []
sub_lower_upper (c ∷ d ∷ s) = elim (is_lower_or_digit c && is_upper d) [
  | true ↦ c ∷ b'_' ∷ d ∷ sub_lower_upper s
  | false ↦ c ∷ sub_lower_upper (d ∷ s)
]

-- `_UPPER_UPPER_RE.sub(r'\1_\2', s)`
unfoldable pub sub_upper_upper : Text → Text
sub_upper_upper [] = []
sub_upper_upper (c ∷ []) = c ∷ []
sub_upper_upper (c ∷ d ∷ []) = c ∷ d ∷ []
sub_upper_upper (c ∷ d ∷ e ∷ s) = elim (is_upper c && (is_upper d && is_lower_or_digit e)) [
  | true ↦ c ∷ b'_' ∷ d ∷ e ∷ sub_upper_upper s
  | false ↦ c ∷ sub_upper_upper (d ∷ e ∷ s)
]

unfoldable pub snakecase : (Text → Text) → Text → Text
unfolding sub_lower_upper sub_upper_upper
snakecase lower s = lower (sub_upper_upper (sub_lower_upper s))

unfoldable pub trim_suffix : Text → Text → Text
trim_suffix value [] = value
trim_suffix value (c ∷ cs) =
    if starts_with (reverse value) (reverse (c ∷ cs))
    then take (length value - length (c ∷ cs)) value
    else value

unfoldable pub lstrip : Text → Text → Text
lstrip value [] = value
lstrip value (c ∷ cs) = if starts_with value (c ∷ cs) then drop (length (c ∷ cs)) value else value

-- The characters that are no underscore.
abbrev pub letters : Text → Text
letters = keep (λ c. not (eqb c b'_'))

letters-sub_lower_upper : (s : Text) → letters (sub_lower_upper s) ≡ letters s
unfolding sub_lower_upper
letters-sub_lower_upper [] = refl
letters-sub_lower_upper (c ∷ []) = refl
letters-sub_lower_upper (c ∷ d ∷ s) = elim (Bool-cases (is_lower_or_digit c && is_upper d)) [
  | inl here ↦ rw (here, sub_lower_upper) (ground (arith, letters-sub_lower_upper s))
  | inr there ↦ rw (there, sub_lower_upper) (ground (arith, letters-sub_lower_upper (d ∷ s)))
]

letters-sub_upper_upper : (s : Text) → letters (sub_upper_upper s) ≡ letters s
unfolding sub_upper_upper
letters-sub_upper_upper [] = refl
letters-sub_upper_upper (c ∷ []) = refl
letters-sub_upper_upper (c ∷ d ∷ []) = refl
letters-sub_upper_upper (c ∷ d ∷ e ∷ s) =
    elim (Bool-cases (is_upper c && (is_upper d && is_lower_or_digit e))) [
      | inl here ↦ rw (here, sub_upper_upper) (ground (arith, letters-sub_upper_upper s))
      | inr there ↦
          rw (there, sub_upper_upper) (ground (arith, letters-sub_upper_upper (d ∷ e ∷ s)))
    ]

-- The snake case of a text is the lower case of a text that has the same characters in the same
-- order, but for underscores.
pub snakecase-letters :
    (lower : Text → Text) (s : Text)
    → (t : Text) × (snakecase lower s ≡ lower t) × (letters t ≡ letters s)
unfolding snakecase
snakecase-letters lower s = (
  sub_upper_upper (sub_lower_upper s),
  refl,
  letters-sub_upper_upper (sub_lower_upper s) ∙ letters-sub_lower_upper s,
)
