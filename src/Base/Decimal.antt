-- ===== src/Base/Decimal.antt =====
-- `str(n)` and `int(s)` for decimal integers. `int` is modelled for ASCII digits, with the white
-- space around the number, the sign and the single underscores between digits that it allows.
use Prim.Native.Nat.{ℕ, zero, suc, ◌+◌, ◌-◌, ◌*◌, ◌/◌, ◌%◌, ◌≤◌, ◌<◌}
use mathlib.Core.Bool.{Bool, true, false, ◌&&◌}
use mathlib.Core.Path.{◌≡◌, refl, ap}
use mathlib.Core.Logic.{◌≢◌, inl, inr}
use mathlib.Core.List.{[], ◌∷◌, cons-ne-nil}
use mathlib.Core.Option.{Option, none, some}
use mathlib.Core.Option
use native.Mathlib.Omega.{arith}
use encrypted_zone_sdk.Base.Tests.{ltb, leb, eqb, if◌then◌else◌, Bool-cases, ltb→lt}
use encrypted_zone_sdk.Base.Lists.{All}
use encrypted_zone_sdk.Base.Int.{ℤ, pos, negsuc, sub_ℕ}
use encrypted_zone_sdk.Base.Text.{Text, strip, is_space, strip-Solid, Lacks, Solid}

-- The digits of `n` in front of `out`; the first number is fuel.
show_from : ℕ → ℕ → Text → Text
show_from zero n out = out
show_from (suc fuel) n out =
    let rest = show_from fuel (n / 10) ((b'0' + n % 10) ∷ out) in
    if ltb n 10 then (b'0' + n) ∷ out else rest

-- `str(n)` for a natural number.
unfoldable pub show_ℕ : ℕ → Text
unfolding show_from
show_ℕ n = show_from (suc n) n []

-- `str(n)`
unfoldable pub show_ℤ : ℤ → Text
unfolding show_ℕ
show_ℤ (pos n) = show_ℕ n
show_ℤ (negsuc n) = b'-' ∷ show_ℕ (n + 1)

abbrev pub is_digit : ℕ → Bool
is_digit c = leb b'0' c && leb c b'9'

-- Reads digits behind the value `n`; the flag says that the last character was a digit.
scan : Bool → ℕ → Text → Option ℕ
scan true n [] = some n
scan false n [] = none
scan b n (c ∷ s) =
    let next = scan true (n * 10 + (c - b'0')) s in
    let gap = scan false n s in if is_digit c then next else if b && eqb c b'_' then gap else none

signed : Text → Option ℤ
unfolding scan
signed [] = none
signed (c ∷ s) =
    if eqb c b'-'
    then Option.map (λ n. sub_ℕ 0 n) (scan false 0 s)
    else if eqb c b'+'
    then Option.map pos (scan false 0 s)
    else Option.map pos (scan false 0 (c ∷ s))

-- `int(s)`, `none` where it raises `ValueError`.
unfoldable pub parse_int : Text → Option ℤ
unfolding signed
parse_int s = signed (strip s)

scan_digit :
    (b : Bool) (n d : ℕ) (out : Text)
    → d < 10
    → scan b n ((b'0' + d) ∷ out) ≡ scan true (n * 10 + d) out
unfolding scan
scan_digit b n d out h = ground (arith, ap (λ (k : ℕ). scan true k out) (same n d))
  where
    same : (n d : ℕ) → n * 10 + (b'0' + d - b'0') ≡ n * 10 + d
    same n d = omega arith

scan-show_from :
    (fuel n : ℕ) (out : Text) (b : Bool)
    → n < fuel
    → scan b 0 (show_from fuel n out) ≡ scan true n out
unfolding show_from
scan-show_from zero n out b h = absurd (omega arith)
scan-show_from (suc fuel) n out b h = elim (Bool-cases (ltb n 10)) [
  | inl small ↦ rw small (
      rw (scan_digit b 0 n out (ltb→lt n 10 small)) (ap (λ (k : ℕ). scan true k out) (omega arith)))
  | inr large ↦ rw large (
      rw
        (
          scan-show_from fuel (n / 10) ((b'0' + n % 10) ∷ out) b (ground arith),
          scan_digit true (n / 10) (n % 10) out (omega arith),
        )
        (ap (λ (k : ℕ). scan true k out) (omega arith)))
]

abbrev pub IsDigit : ℕ → Type 0
IsDigit c = (b'0' ≤ c) × (c ≤ b'9')

show_from-IsDigit : (fuel n : ℕ) (out : Text) → All IsDigit out → All IsDigit (show_from fuel n out)
unfolding show_from
show_from-IsDigit zero n out h = h
show_from-IsDigit (suc fuel) n out h = elim (Bool-cases (ltb n 10)) [
  | inl small ↦ rw small (ground arith, h)
  | inr large ↦ rw large (show_from-IsDigit fuel (n / 10) ((b'0' + n % 10) ∷ out) (omega arith, h))
]

show_from-ne-nil : (fuel n : ℕ) (out : Text) → n < fuel → show_from fuel n out ≢ []
unfolding show_from
show_from-ne-nil zero n out h = absurd (omega arith)
show_from-ne-nil (suc fuel) n out h = elim (Bool-cases (ltb n 10)) [
  | inl small ↦ rw small (cons-ne-nil _ out)
  | inr large ↦ rw large (show_from-ne-nil fuel (n / 10) ((b'0' + n % 10) ∷ out) (ground arith))
]

-- The printed number is made of digits.
pub show_ℕ-IsDigit : (n : ℕ) → All IsDigit (show_ℕ n)
unfolding show_ℕ
show_ℕ-IsDigit n = show_from-IsDigit (suc n) n [] tt

pub show_ℕ-ne-nil : (n : ℕ) → show_ℕ n ≢ []
unfolding show_ℕ
show_ℕ-ne-nil n = show_from-ne-nil (suc n) n [] (omega arith)

signed_digits :
    (s : Text) (n : ℕ) → All IsDigit s → s ≢ [] → scan false 0 s ≡ some n → signed s ≡ some (pos n)
unfolding signed
signed_digits [] n d ne h = absurd (ne refl)
signed_digits (c ∷ s) n (dc, ds) ne h = ground arith

IsDigit-not_space : (s : Text) → All IsDigit s → All (λ c. is_space c ≡ false) s
unfolding is_space
IsDigit-not_space [] _ = tt
IsDigit-not_space (c ∷ s) (dc, ds) = (ground arith, IsDigit-not_space s ds)

-- `int(str(n))` is `n`.
pub parse_int-show_ℕ : (n : ℕ) → parse_int (show_ℕ n) ≡ some (pos n)
unfolding parse_int
parse_int-show_ℕ n = rw (strip-Solid (show_ℕ n) (IsDigit-not_space _ (show_ℕ-IsDigit n))) (
    signed_digits (show_ℕ n) n (show_ℕ-IsDigit n) (show_ℕ-ne-nil n)
      (unfold show_ℕ in scan-show_from (suc n) n [] false (omega arith)))

-- What is no digit does not stand in a number.
pub Lacks-digits : (b : ℕ) (s : Text) → is_digit b ≡ false → All IsDigit s → Lacks b s
Lacks-digits b [] h _ = tt
Lacks-digits b (c ∷ s) h (dc, ds) = (ground arith, Lacks-digits b s h ds)

pub show_ℕ-Solid : (n : ℕ) → Solid (show_ℕ n)
show_ℕ-Solid n = IsDigit-not_space _ (show_ℕ-IsDigit n)
