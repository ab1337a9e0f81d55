-- ===== src/Coverage/Group/Order.antt =====
-- The order in which `group_consecutive_numbers` of .devkit/scripts/coverage_report.py sorts.
use mathlib.Core.List.Perm
use mathlib.Core.List.{Perm}
use encrypted_zone_sdk.Base.{
  ◌+◌, ◌≤◌, ◌≡◌, true, false, List, [], ◌∷◌, arith, Bool-cases, inl, inr, All,
}
use encrypted_zone_sdk.Base.Int.{ℤ, pos_part, neg_part, ltz}
use encrypted_zone_sdk.Coverage.Group.{insert_sorted, sorted}

abbrev pub AtMost : ℤ → ℤ → Type 0
AtMost a b = pos_part a + neg_part b ≤ pos_part b + neg_part a

abbrev pub Ascending : List ℤ → Type 0
Ascending [] = Unit
Ascending (x ∷ xs) = All (AtMost x) xs × Ascending xs

AtMost-of_not_ltz : (x y : ℤ) → ltz y x ≡ false → AtMost x y
AtMost-of_not_ltz x y h = ground arith

AtMost-of_ltz : (x y : ℤ) → ltz y x ≡ true → AtMost y x
AtMost-of_ltz x y h = ground arith

AtMost-trans : (x y : ℤ) (zs : List ℤ) → AtMost x y → All (AtMost y) zs → All (AtMost x) zs
AtMost-trans x y [] h _ = tt
AtMost-trans x y (z ∷ zs) h (hz, hs) = (omega arith, AtMost-trans x y zs h hs)

All-insert_sorted :
    (y x : ℤ) (ys : List ℤ) → AtMost y x → All (AtMost y) ys → All (AtMost y) (insert_sorted x ys)
unfolding insert_sorted
All-insert_sorted y x [] h _ = (h, tt)
All-insert_sorted y x (z ∷ ys) h (hz, hs) = ground (arith, All-insert_sorted y x ys h hs)

Ascending-insert_sorted : (x : ℤ) (ys : List ℤ) → Ascending ys → Ascending (insert_sorted x ys)
unfolding insert_sorted
Ascending-insert_sorted x [] _ = (tt, tt)
Ascending-insert_sorted x (y ∷ ys) (hy, hs) = elim (Bool-cases (ltz y x)) [
  | inl below ↦
      rw below
        (All-insert_sorted y x ys (AtMost-of_ltz x y below) hy, Ascending-insert_sorted x ys hs)
  | inr above ↦
      let le = AtMost-of_not_ltz x y above in rw above ((le, AtMost-trans x y ys le hy), (hy, hs))
]

pub Ascending-sorted : (xs : List ℤ) → Ascending (sorted xs)
unfolding sorted
Ascending-sorted [] = tt
Ascending-sorted (x ∷ xs) = Ascending-insert_sorted x (sorted xs) (Ascending-sorted xs)

insert_sorted-perm : (x : ℤ) (ys : List ℤ) → Perm (insert_sorted x ys) (x ∷ ys)
unfolding insert_sorted
insert_sorted-perm x [] = Perm.refl (x ∷ [])
insert_sorted-perm x (y ∷ ys) = elim (Bool-cases (ltz y x)) [
  | inl below ↦ rw below (Perm.trans (Perm.cons y (insert_sorted-perm x ys)) (Perm.swap x y ys))
  | inr above ↦ rw above (Perm.refl (x ∷ y ∷ ys))
]

pub sorted-perm : (xs : List ℤ) → Perm (sorted xs) xs
unfolding sorted
sorted-perm [] = Perm.refl []
sorted-perm (x ∷ xs) = Perm.trans (insert_sorted-perm x (sorted xs)) (Perm.cons x (sorted-perm xs))
