-- ===== src/Tests/CoverageReport.antt =====
-- .devkit/scripts/coverage_report.py at small inputs.
use mathlib.Core.List.{Perm}
use encrypted_zone_sdk.Base.{
  ◌≤◌, ◌≡◌, refl, ◌↔◌, ◌⊎◌, Bool, not, true, none, some, List, [], ◌∷◌, map, length, text_eq,
}
use encrypted_zone_sdk.Base.Dict.{Dict, update}
use encrypted_zone_sdk.Base.Int.{ℤ, pos, ltz, ◌*ℤ◌, ◌+ℤ◌}
use encrypted_zone_sdk.Base.Result.{ok}
use encrypted_zone_sdk.FilePath.{FilePath, path_of}
use encrypted_zone_sdk.Coverage.Main.{BazelRun, succeeded, main}
use encrypted_zone_sdk.Coverage.Main.Verdict.{Passes, InRange, main-status}
use encrypted_zone_sdk.Base.Text.{Text, codes, strip, replace}
use encrypted_zone_sdk.Coverage.Group.{sorted, ranges, group_consecutive_numbers, expand}
use encrypted_zone_sdk.Coverage.Group.Order.{Ascending}
use encrypted_zone_sdk.Coverage.Group.Faithful.{expand-ranges-sorted, Separated}
use encrypted_zone_sdk.Coverage.Lcov.{FileCoverage, read_lcov}
use encrypted_zone_sdk.Coverage.Lcov.Render.{LcovRecord, render_all, coverage}
use encrypted_zone_sdk.Coverage.Lcov.RoundTrip.{IsSourcePath, read_lcov-render_all}
use encrypted_zone_sdk.Coverage.Report.{Floats, fit_to_column}
use encrypted_zone_sdk.Coverage.Report.Column.{length-fit_to_column}

abbrev some_lines : List ℤ
some_lines = pos 7 ∷ pos 1 ∷ pos 3 ∷ pos 2 ∷ []

group_three_runs : group_consecutive_numbers some_lines ≡ codes "1-3, 7"
unfolding group_consecutive_numbers
group_three_runs = refl

expand-ranges-sorted_example :
    Perm (expand (ranges (sorted some_lines))) some_lines
    × Ascending (expand (ranges (sorted some_lines)))
    × Separated (ranges (sorted some_lines))
expand-ranges-sorted_example = expand-ranges-sorted some_lines

abbrev a_record : LcovRecord
a_record = record {
  path = codes "a.cc";
  found = 3;
  hit = 2;
  branches_found = 2;
  branches_hit = 1;
  lines = (1, 4) ∷ (2, 0) ∷ (5, 1) ∷ [];
  branches = (2, 0, 0, none) ∷ (2, 0, 1, some 4) ∷ [];
}

a_record-IsSourcePath : IsSourcePath (codes "a.cc")
unfolding strip replace
a_record-IsSourcePath = record { not_empty = λ h. cc; trimmed = refl; tag_free = refl }

read_lcov-render_all_example :
    read_lcov (render_all (a_record ∷ []))
    ≡ ok (update [] (map (λ r. (r.path, coverage r)) (a_record ∷ [])))
read_lcov-render_all_example = read_lcov-render_all (a_record ∷ []) (a_record-IsSourcePath, tt)

length-fit_to_column_example :
    (length (fit_to_column (codes "src/a.cc") 5) ≡ 5) ↔ ((4 ≤ 5) ⊎ (length (codes "src/a.cc") ≤ 5))
length-fit_to_column_example = length-fit_to_column (codes "src/a.cc") 5

-- Fractions with a positive denominator in place of floats.
abbrev Fraction : Type 0
Fraction = ℤ × ℤ

abbrev is_less : Fraction → Fraction → Bool
is_less (a, b) (c, d) = ltz (a *ℤ d) (c *ℤ b)

abbrev fractions : Floats
fractions = record {
  Float = Fraction;
  zero_float = (pos 0, pos 1);
  one_float = (pos 1, pos 1);
  hundred_float = (pos 100, pos 1);
  divide = λ a b. (a, b);
  divide_by = λ (a, b) n. (a, b *ℤ pos n);
  plus = λ (a, b) (c, d). (a *ℤ d +ℤ c *ℤ b, b *ℤ d);
  less = is_less;
  at_most = λ x y. not (is_less y x);
  format_percent = λ w x. [];
}

abbrev a_report : Dict Text FileCoverage
a_report = (codes "a.cc", coverage a_record) ∷ []

abbrev report_lines : List Text
report_lines = render_all (a_record ∷ [])

abbrev no_root : FilePath
no_root = path_of true []

main-status_example :
    ((main fractions
        (λ c. succeeded)
        (λ p. some report_lines)
        (ok no_root)
        (codes "//...")
        (pos 60, pos 1)
        (pos 90, pos 1)).status
      ≡ 0)
    ↔ (InRange fractions (pos 90, pos 1)
        × InRange fractions (pos 60, pos 1)
        × (◌≡◌ {A = BazelRun} succeeded succeeded)
        × Passes fractions (pos 60, pos 1) (pos 90, pos 1) (some report_lines))
main-status_example =
    main-status fractions (pos 60, pos 1) (pos 90, pos 1) (λ c. succeeded) (λ p. some report_lines)
      no_root (codes "//...")
