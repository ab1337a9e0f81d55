-- ===== src/Coverage/Group.antt =====
-- `group_consecutive_numbers` of .devkit/scripts/coverage_report.py.
pub mod Faithful
pub mod Order
use encrypted_zone_sdk.Base.{
  ℕ, zero, suc, ◌+◌, ◌≤◌, ◌≡◌, refl, sym, ◌∙◌, ap, ◌≢◌, Bool, true, false, List, [], ◌∷◌, ◌++◌, map,
  append_assoc, arith, if◌then◌else◌, Bool-cases, inl, inr, All, length, contains,
}
use encrypted_zone_sdk.Base.Int.{
  ℤ, pos, negsuc, pos_part, neg_part, ◌+ℤ◌, ◌-ℤ◌, ltz, eqz, +ℤ_parts, -ℤ_parts, parts_apart,
  eq_of_parts, int_laws,
}
use encrypted_zone_sdk.Base.Text.{Text, codes, join}
use encrypted_zone_sdk.Base.Decimal.{show_ℤ}

-- `sorted(numbers)`
insert_sorted : ℤ → List ℤ → List ℤ
insert_sorted x [] = x ∷ []
insert_sorted x (y ∷ ys) = let rest = insert_sorted x ys in if ltz y x then y ∷ rest else x ∷ y ∷ ys

unfoldable pub sorted : List ℤ → List ℤ
unfolding insert_sorted
sorted [] = []
sorted (x ∷ xs) = insert_sorted x (sorted xs)

-- The loop over the sorted numbers, from `start_of_range` and `sorted_numbers[i - 1]`; the last
-- range is added after the loop.
ranges_from : ℤ → ℤ → List ℤ → List (ℤ × ℤ)
ranges_from start prev [] = (start, prev) ∷ []
ranges_from start prev (x ∷ xs) = elim (eqz x (prev +ℤ pos 1)) [
  | true ↦ ranges_from start x xs
  | false ↦ (start, prev) ∷ ranges_from x x xs
]

unfoldable pub ranges : List ℤ → List (ℤ × ℤ)
unfolding ranges_from
ranges [] = []
ranges (x ∷ xs) = ranges_from x x xs

-- One entry of the list `ranges`: a number, or `start-end`.
show_range : ℤ × ℤ → Text
show_range (start, end) =
    if eqz start end then show_ℤ start else show_ℤ start ++ (b'-' ∷ show_ℤ end)

unfoldable pub group_consecutive_numbers : List ℤ → Text
unfolding sorted ranges show_range join show_ℤ ◌+ℤ◌
group_consecutive_numbers [] = []
group_consecutive_numbers (x ∷ xs) = join (codes ", ") (map show_range (ranges (sorted (x ∷ xs))))

-- The numbers `start`, `start + 1`, …, `count` of them.
unfoldable pub run : ℤ → ℕ → List ℤ
run start zero = []
run start (suc count) = start ∷ run (start +ℤ pos 1) count

-- The numbers that a range stands for.
unfoldable pub numbers_of : ℤ × ℤ → List ℤ
unfolding run
numbers_of (start, end) = run start (suc (pos_part (end -ℤ start)))

unfoldable pub expand : List (ℤ × ℤ) → List ℤ
unfolding numbers_of
expand [] = []
expand (r ∷ rs) = numbers_of r ++ expand rs
