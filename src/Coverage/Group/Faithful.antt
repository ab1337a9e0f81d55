-- ===== src/Coverage/Group/Faithful.antt =====
-- What the ranges of `group_consecutive_numbers` stand for.
use mathlib.Core.List.{Perm}
use encrypted_zone_sdk.Base.{
  ℕ, zero, suc, ◌≡◌, refl, sym, ◌∙◌, ap, ◌≢◌, true, List, [], ◌∷◌, ◌++◌, append_assoc, arith,
  Bool-cases, inl, inr,
}
use encrypted_zone_sdk.Base.Int.{ℤ, pos, pos_part, ◌+ℤ◌, ◌-ℤ◌, eqz, eq_of_parts, int_laws}
use encrypted_zone_sdk.Coverage.Group.{sorted, ranges_from, ranges, run, numbers_of, expand}
use encrypted_zone_sdk.Coverage.Group.Order.{AtMost, Ascending, Ascending-sorted, sorted-perm}

run_last : (start : ℤ) (k : ℕ) → run start (suc k) ≡ run start k ++ ((start +ℤ pos k) ∷ [])
unfolding run
run_last start zero = ap (λ z. z ∷ []) (eq_of_parts start (start +ℤ pos 0) (omega int_laws))
run_last start (suc k) =
    ap (λ l. start ∷ l)
      (run_last (start +ℤ pos 1) k
        ∙ ap (λ z. run (start +ℤ pos 1) k ++ (z ∷ []))
            (eq_of_parts ((start +ℤ pos 1) +ℤ pos k) (start +ℤ pos (suc k)) (omega int_laws)))

count_same : (x : ℤ) → pos_part (x -ℤ x) ≡ 0
unfolding ◌-ℤ◌
count_same x = ground arith

count_next : (s p : ℤ) → AtMost s p → pos_part ((p +ℤ pos 1) -ℤ s) ≡ suc (pos_part (p -ℤ s))
unfolding ◌-ℤ◌ ◌+ℤ◌
count_next s p h = ground arith

reach_next : (s p : ℤ) → AtMost s p → s +ℤ pos (suc (pos_part (p -ℤ s))) ≡ p +ℤ pos 1
unfolding ◌-ℤ◌ ◌+ℤ◌
reach_next s p h = ground arith

numbers_of_single : (x : ℤ) → numbers_of (x, x) ≡ x ∷ []
unfolding numbers_of
numbers_of_single x = rw (count_same x)

-- A range that is one longer has one number more at its end.
numbers_of_next :
    (s p : ℤ) → AtMost s p → numbers_of (s, p +ℤ pos 1) ≡ numbers_of (s, p) ++ ((p +ℤ pos 1) ∷ [])
unfolding numbers_of
numbers_of_next s p h =
    ap (λ k. run s (suc k)) (count_next s p h)
    ∙ run_last s (suc (pos_part (p -ℤ s)))
    ∙ ap (λ z. run s (suc (pos_part (p -ℤ s))) ++ (z ∷ [])) (reach_next s p h)

eqz→eq : (a b : ℤ) → eqz a b ≡ true → a ≡ b
eqz→eq a b h = ground arith

AtMost-next : (s p : ℤ) → AtMost s p → AtMost s (p +ℤ pos 1)
AtMost-next s p h = omega int_laws

expand-ranges_from :
    (xs : List ℤ) (start prev : ℤ)
    → AtMost start prev
    → expand (ranges_from start prev xs) ≡ numbers_of (start, prev) ++ xs
unfolding expand ranges_from
expand-ranges_from [] start prev h = refl
expand-ranges_from (x ∷ xs) start prev h = elim (Bool-cases (eqz x (prev +ℤ pos 1))) [
  | inl next ↦
      let e = eqz→eq x (prev +ℤ pos 1) next in
      rw (next, ranges_from)
        (expand-ranges_from xs start x (rw e (AtMost-next start prev h))
          ∙ ap (λ z. numbers_of (start, z) ++ xs) e
          ∙ ap (λ l. l ++ xs) (numbers_of_next start prev h)
          ∙ append_assoc (numbers_of (start, prev)) ((prev +ℤ pos 1) ∷ []) xs
          ∙ ap (λ z. numbers_of (start, prev) ++ (z ∷ xs)) (sym e))
  | inr gap ↦
      rw (gap, ranges_from)
        (ap (λ l. numbers_of (start, prev) ++ l)
          (expand-ranges_from xs x x (omega arith) ∙ ap (λ l. l ++ xs) (numbers_of_single x)))
]

-- The ranges stand for the numbers of the list that was scanned, in its order.
pub expand-ranges : (xs : List ℤ) → expand (ranges xs) ≡ xs
unfolding ranges
expand-ranges [] = unfold expand in refl
expand-ranges (x ∷ xs) =
    expand-ranges_from xs x x (omega arith) ∙ ap (λ l. l ++ xs) (numbers_of_single x)

-- No range could be joined with the one behind it.
abbrev pub Separated : List (ℤ × ℤ) → Type 0
Separated [] = Unit
Separated (r ∷ []) = Unit
Separated (r ∷ q ∷ rs) = (q.0 ≢ r.1 +ℤ pos 1) × Separated (q ∷ rs)

-- Two lists of ranges that begin alike.
ranges_from-head :
    (xs : List ℤ) (start prev : ℤ)
    → (end : ℤ) × (rest : List (ℤ × ℤ)) × (ranges_from start prev xs ≡ (start, end) ∷ rest)
unfolding ranges_from
ranges_from-head [] start prev = (prev, [], refl)
ranges_from-head (x ∷ xs) start prev = elim (Bool-cases (eqz x (prev +ℤ pos 1))) [
  | inl next ↦ rw (next, ranges_from) (ranges_from-head xs start x)
  | inr gap ↦ (prev, ranges_from x x xs, rw (gap, ranges_from))
]

eq→eqz : (a b : ℤ) → a ≡ b → eqz a b ≡ true
eq→eqz a b h = ground arith

Separated-cons :
    (r q : ℤ × ℤ) (rs qs : List (ℤ × ℤ))
    → qs ≡ q ∷ rs
    → q.0 ≢ r.1 +ℤ pos 1
    → Separated qs
    → Separated (r ∷ qs)
Separated-cons r q rs qs e h s = rw e (h, rw e at s)

Separated-ranges_from : (xs : List ℤ) (start prev : ℤ) → Separated (ranges_from start prev xs)
unfolding ranges_from
Separated-ranges_from [] start prev = tt
Separated-ranges_from (x ∷ xs) start prev = elim (Bool-cases (eqz x (prev +ℤ pos 1))) [
  | inl next ↦ rw (next, ranges_from) (Separated-ranges_from xs start x)
  | inr gap ↦
      let (end, rest, e) = ranges_from-head xs x x in
      rw (gap, ranges_from)
        (Separated-cons (start, prev) (x, end) rest _ e
          (λ same. ground (arith, eq→eqz x (prev +ℤ pos 1) same)) (Separated-ranges_from xs x x))
]

Separated-ranges : (numbers : List ℤ) → Separated (ranges (sorted numbers))
unfolding ranges
Separated-ranges numbers = separated (sorted numbers)
  where
    separated : (xs : List ℤ) → Separated (ranges xs)
    separated [] = tt
    separated (x ∷ xs) = Separated-ranges_from xs x x

-- The printed ranges hold the given numbers, each as often as it was given, in ascending order, and
-- they are as long as they can be: where one ends, the next does not go on.
pub expand-ranges-sorted :
    (numbers : List ℤ)
    → Perm (expand (ranges (sorted numbers))) numbers
      × Ascending (expand (ranges (sorted numbers)))
      × Separated (ranges (sorted numbers))
expand-ranges-sorted numbers =
    rw (expand-ranges (sorted numbers))
      (sorted-perm numbers, Ascending-sorted numbers, Separated-ranges numbers)
