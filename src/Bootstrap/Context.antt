-- ===== src/Bootstrap/Context.antt =====
-- The lines that `copy_and_template` shows of a template that has an error.
use encrypted_zone_sdk.Base.{
  ◌≡◌, refl, ◌∙◌, ap, sym, ℕ, zero, suc, ◌+◌, ◌-◌, ◌≤◌, ◌<◌, Bool, ◌&&◌, none, some, List, [], ◌∷◌,
  map, arith, leb, length, take, length-drop, Bool-cases, leb→le, inl, inr, drop, keep, get_elem?,
}
use encrypted_zone_sdk.Base.Text.{Text}
use encrypted_zone_sdk.Bootstrap.{context_line, context_from, error_context, least}

-- The lines with their numbers, counted from `i`.
abbrev pub enumerate_from : ℕ → List Text → List (ℕ × Text)
enumerate_from i [] = []
enumerate_from i (line ∷ lines) = (i, line) ∷ enumerate_from (i + 1) lines

-- The line of the error is `lineno`, counted from 1, as `i` is from 0: at most three lines lie
-- between them.
abbrev pub is_near : ℕ → ℕ × Text → Bool
is_near lineno (i, line) = leb lineno (i + 4) && leb (i + 1) (lineno + 3)

abbrev pub show_lines : ℕ → List (ℕ × Text) → List Text
show_lines lineno = map (λ (i, line). context_line lineno i line)

take-all : (n : ℕ) (lines : List Text) → length lines ≤ n → take n lines ≡ lines
take-all zero [] h = refl
take-all zero (line ∷ lines) h = absurd (omega arith)
take-all (suc n) [] h = refl
take-all (suc n) (line ∷ lines) h = ap (λ l. line ∷ l) (take-all n lines (omega arith))

take-nil : (n : ℕ) → take {A = Text} n [] ≡ []
take-nil zero = refl
take-nil (suc n) = refl

take-least :
    (n m low : ℕ) (lines : List Text)
    → low + n ≡ m
    → take (least (length lines) m - low) (drop low lines) ≡ take n (drop low lines)
take-least n m low lines h = elim (Bool-cases (leb (length lines) m)) [
  | inl all ↦ rw all (
      take-all (length lines - low) (drop low lines) (omega (arith, length-drop low lines))
      ∙ sym (
          take-all n (drop low lines) omega
            (arith, length-drop low lines, leb→le (length lines) m all)))
  | inr part ↦ rw part (ap (λ k. take k (drop low lines)) (omega arith))
]

drop-get_elem? :
    (lines : List Text) (i : ℕ)
    → i < length lines
    → (line : Text) × (get_elem? lines i ≡ some line) × (drop i lines ≡ line ∷ drop (i + 1) lines)
drop-get_elem? [] i h = absurd (omega arith)
drop-get_elem? (line ∷ lines) zero h = (line, refl, refl)
drop-get_elem? (line ∷ lines) (suc i) h =
    let (found, e, d) = drop-get_elem? lines i (omega arith) in
    (found, e, d ∙ ap (λ k. found ∷ drop k (line ∷ lines)) (same i))
  where
    same : (i : ℕ) → suc (i + 1) ≡ suc i + 1
    same i = omega arith

context_from-enumerate :
    (lineno : ℕ) (lines : List Text) (count i : ℕ)
    → count ≤ length lines - i
    → context_from lineno lines count i
      ≡ (show_lines lineno (enumerate_from i (take count (drop i lines))), none)
unfolding context_from
context_from-enumerate lineno lines zero i h = refl
context_from-enumerate lineno lines (suc count) i h =
    let (line, e, d) = drop-get_elem? lines i (omega arith) in
    rw (e, d, context_from, context_from-enumerate lineno lines count (i + 1) (omega arith)) refl

module _ (lineno : ℕ) where
  keep-behind :
      (lines : List Text) (i : ℕ)
      → lineno + 3 ≤ i
      → keep (is_near lineno) (enumerate_from i lines) ≡ []
  keep-behind [] i h = refl
  keep-behind (line ∷ lines) i h = ground (arith, keep-behind lines (i + 1))

  keep-within :
      (lines : List Text) (i n : ℕ)
      → lineno ≤ i + 4
      → i + n ≡ lineno + 3
      → keep (is_near lineno) (enumerate_from i lines) ≡ enumerate_from i (take n lines)
  keep-within lines i zero low high = keep-behind lines i (omega arith)
  keep-within [] i (suc n) low high = refl
  keep-within (line ∷ lines) i (suc n) low high =
      ground (arith, keep-within lines (i + 1) n (omega arith) (omega arith))

  keep-before :
      (lines : List Text) (i skip n : ℕ)
      → i + skip ≡ lineno - 4
      → lineno - 4 + n ≡ lineno + 3
      → keep (is_near lineno) (enumerate_from i lines)
        ≡ enumerate_from (lineno - 4) (take n (drop skip lines))
  keep-before lines i zero n low high =
      keep-within lines i n (omega arith) (omega arith)
      ∙ ap (λ k. enumerate_from k (take n lines)) (omega arith)
  keep-before [] i (suc skip) n low high =
      ap (λ l. enumerate_from (lineno - 4) l) (sym (take-nil n))
  keep-before (line ∷ lines) i (suc skip) n low high =
      ground (arith, keep-before lines (i + 1) skip n (omega arith) high)

-- The lines that are shown of a template with an error are those of its lines that are at most
-- three lines away from the line of the error, whatever number that has, in order and with their
-- numbers; the loop that shows them raises nothing.
pub error_context-near :
    (lineno : ℕ) (lines : List Text)
    → error_context lineno lines
      ≡ (show_lines lineno (keep (is_near lineno) (enumerate_from 0 lines)), none)
unfolding error_context
error_context-near lineno lines =
    context_from-enumerate lineno lines (least (length lines) (lineno + 3) - (lineno - 4))
      (lineno - 4) (ground arith)
    ∙ ap (λ l. (show_lines lineno (enumerate_from (lineno - 4) l), none))
        (take-least (lineno + 3 - (lineno - 4)) (lineno + 3) (lineno - 4) lines (omega arith))
    ∙ ap (λ l. (show_lines lineno l, none))
        (sym (
          keep-before lineno lines 0 (lineno - 4) (lineno + 3 - (lineno - 4)) (omega arith)
            (omega arith)))
