-- ===== src/Coverage/Report/Column.antt =====
-- The width of the columns of the summary table.
use encrypted_zone_sdk.Base.{
  ℕ, ◌+◌, ◌-◌, ◌≤◌, ◌≡◌, ◌↔◌, ◌⊎◌, inl, inr, arith, ltb, if◌then◌else◌, Bool-cases, length,
  length-append, length-drop, length-replicate, replicate,
}
use encrypted_zone_sdk.Base.Text.{Text}
use encrypted_zone_sdk.Coverage.Report.{tail_of_column, fit_to_column}

length-tail_of_column :
    (p : Text) (w : ℕ)
    → length (tail_of_column p w)
      ≡ (if ltb 3 w then length p - (length p - (w - 3)) else length p - (3 - w))
unfolding tail_of_column
length-tail_of_column p w =
    ground (arith, length-drop (length p - (w - 3)) p, length-drop (3 - w) p)

length-fit :
    (p : Text) (w : ℕ)
    → length (fit_to_column p w) ≡ (
        if ltb w (length p)
        then 3 + (if ltb 3 w then length p - (length p - (w - 3)) else length p - (3 - w))
        else w)
unfolding fit_to_column
length-fit p w = elim (Bool-cases (ltb w (length p))) [
  | inl long ↦ rw long (omega (arith, length-tail_of_column p w))
  | inr short ↦ rw short (
      ground (
        arith,
        length-append p (replicate (w - length p) b' '),
        length-replicate {A = ℕ} (w - length p) b' ',
      ))
]

-- A path fills its column exactly when the column is at least 4 wide or the path fits as it is:
-- in a narrower column a longer path is not cut to the width.
pub length-fit_to_column :
    (filepath : Text) (max_width : ℕ)
    → (length (fit_to_column filepath max_width) ≡ max_width)
      ↔ ((4 ≤ max_width) ⊎ (length filepath ≤ max_width))
length-fit_to_column p w = rw length-fit (ground arith)
