-- ===== src/Coverage/Report.antt =====
-- The report of .devkit/scripts/coverage_report.py: percentages, the summary table, the missing
-- coverage and the check against the thresholds. What is printed is a list of texts. The floats of
-- Python are a parameter, with their arithmetic, which raises nothing here, and their format.
pub mod Column
pub mod Thresholds
use encrypted_zone_sdk.Base.{
  ℕ, ◌+◌, ◌-◌, Bool, true, false, not, ◌&&◌, ◌||◌, Option, none, some, List, [], ◌∷◌, ◌++◌, map,
  ltb, if◌then◌else◌, length, drop, replicate,
}
use encrypted_zone_sdk.Base.Dict.{Dict, values}
use encrypted_zone_sdk.Base.Int.{ℤ, pos, negsuc, ◌+ℤ◌, ◌*ℤ◌, ltz, eqz}
use encrypted_zone_sdk.Base.Result.{Result, ok, raise, ◌>>=◌}
use encrypted_zone_sdk.Base.Text.{Text, codes, join}
use encrypted_zone_sdk.Base.Decimal.{show_ℤ}
use encrypted_zone_sdk.Coverage.Group.{group_consecutive_numbers}
use encrypted_zone_sdk.Coverage.Lcov.{FileCoverage, Parsed, read_lcov}

-- Python's floats: `0.0`, `1.0` and `100.0`, the division of an integer by one that is not zero, that
-- of a float by a positive integer, the sum, `<`, `<=`, and `f"{x:>w.2%}"`.
pub record Floats : Type 1 where
  pub Float : Type 0
  pub zero_float : Float
  pub one_float : Float
  pub hundred_float : Float
  pub divide : ℤ → ℤ → Float
  pub divide_by : Float → ℕ → Float
  pub plus : Float → Float → Float
  pub less : Float → Float → Bool
  pub at_most : Float → Float → Bool
  pub format_percent : ℕ → Float → Text

module _ (F : Floats) where
  unfoldable pub line_coverage_percent : FileCoverage → F.Float
  line_coverage_percent c =
      if eqz c.lines_found (pos 0) then F.one_float else F.divide c.lines_hit c.lines_found

  unfoldable pub branch_coverage_percent : FileCoverage → F.Float
  branch_coverage_percent c =
      if eqz c.branches_found (pos 0) then F.one_float else F.divide c.branches_hit c.branches_found

-- `filepath[-(max_width - 3):]`: a slice from the end, from the start where the index is
-- positive, and the whole text where it is 0.
unfoldable pub tail_of_column : Text → ℕ → Text
tail_of_column filepath max_width =
    if ltb 3 max_width
    then drop (length filepath - (max_width - 3)) filepath
    else drop (3 - max_width) filepath

unfoldable pub fit_to_column : Text → ℕ → Text
unfolding tail_of_column
fit_to_column filepath max_width =
    if ltb max_width (length filepath)
    then codes "..." ++ tail_of_column filepath max_width
    else filepath ++ replicate (max_width - length filepath) b' '

unfoldable pub branch_rows : List (ℤ × ℤ × ℤ) → List Text
unfolding show_ℤ
branch_rows [] = []
branch_rows ((line, block, branch) ∷ rest) =
    (codes "Line "
      ++ (show_ℤ line
          ++ (codes ": (block: "
              ++ (show_ℤ block ++ (codes ", branch: " ++ (show_ℤ branch ++ codes ")"))))))
    ∷ branch_rows rest

unfoldable pub get_missing_branches_str : FileCoverage → Text
unfolding branch_rows join
get_missing_branches_str c = elim c.uncovered_branches [
  | [] ↦ []
  | b ∷ bs ↦ join (b'\n' ∷ []) (branch_rows (b ∷ bs))
]

-- A section of the report, if it has a body.
unfoldable pub section_of : Text → Text → Text → Text
section_of title [] end = []
section_of title (c ∷ body) end = title ++ ((c ∷ body) ++ end)

unfoldable pub generate_missing_coverage_report : FileCoverage → Text
unfolding get_missing_branches_str section_of group_consecutive_numbers
generate_missing_coverage_report c =
    let report =
      (b'\n' ∷ codes "File: ")
      ++ (c.file_path ++ (b'\n' ∷ []))
      ++ (section_of (codes "Lines to test: ") (group_consecutive_numbers c.uncovered_lines)
            (b'\n' ∷ [])
          ++ section_of (codes "Branches to test:" ++ (b'\n' ∷ [])) (get_missing_branches_str c)
              []) in
    elim c.uncovered_lines [
      | [] ↦ elim c.uncovered_branches [ [] ↦ [] | _ ∷ _ ↦ report ]
      | _ ∷ _ ↦ report
    ]

module _ (F : Floats) where
  -- `line_cov < lines_threshold or branch_cov < branch_threshold`
  unfoldable pub misses : FileCoverage → F.Float → F.Float → Bool
  unfolding line_coverage_percent branch_coverage_percent
  misses c lines_threshold branch_threshold =
      F.less (line_coverage_percent F c) lines_threshold
      || F.less (branch_coverage_percent F c) branch_threshold

  -- The variables of the first loop of `print_and_validate_report`.
  pub record Totals : Type 0 where
    pub is_coverage_valid : Bool
    pub overall_lines_coverage : F.Float
    pub overall_branch_coverage : F.Float
    pub printed : List Text

  -- `total += share / n_files`
  unfoldable pub add_share : F.Float → F.Float → ℕ → F.Float
  add_share total share n_files = F.plus total (F.divide_by share n_files)

  unfoldable pub generate_summary_line : FileCoverage → Text
  unfolding fit_to_column line_coverage_percent branch_coverage_percent
  generate_summary_line c =
      fit_to_column c.file_path 50
      ++ (codes " | "
          ++ (F.format_percent 7 (line_coverage_percent F c)
              ++ (codes " | " ++ F.format_percent 10 (branch_coverage_percent F c))))

  -- The body of that loop.
  unfoldable pub add_file : F.Float → F.Float → ℕ → Totals → FileCoverage → Totals
  unfolding generate_summary_line misses add_share
  add_file lines_threshold branch_threshold n_files t c = record {
    is_coverage_valid =
        if misses c lines_threshold branch_threshold then false else t.is_coverage_valid;
    overall_lines_coverage = add_share t.overall_lines_coverage (line_coverage_percent F c) n_files;
    overall_branch_coverage =
        add_share t.overall_branch_coverage (branch_coverage_percent F c) n_files;
    printed = t.printed ++ (generate_summary_line c ∷ []);
  }

  unfoldable pub add_files : F.Float → F.Float → ℕ → Totals → List FileCoverage → Totals
  unfolding add_file
  add_files lines_threshold branch_threshold n_files t [] = t
  add_files lines_threshold branch_threshold n_files t (c ∷ cs) =
      add_files lines_threshold branch_threshold n_files
        (add_file lines_threshold branch_threshold n_files t c) cs

  -- The second loop: the reports that are not empty.
  unfoldable pub missing_reports : List FileCoverage → List Text
  unfolding generate_missing_coverage_report
  missing_reports [] = []
  missing_reports (c ∷ cs) =
      let rest = missing_reports cs in
      elim (generate_missing_coverage_report c) [ [] ↦ rest | b ∷ report ↦ (b ∷ report) ∷ rest ]

  -- The verdict, and what is printed.
  unfoldable pub print_and_validate_report :
      Dict Text FileCoverage → F.Float → F.Float → Bool × List Text
  unfolding add_files missing_reports fit_to_column
  print_and_validate_report coverage_data lines_threshold branch_threshold =
      let files = values coverage_data in
      let start : Totals = record {
        is_coverage_valid = true;
        overall_lines_coverage = F.zero_float;
        overall_branch_coverage = F.zero_float;
        printed =
            (fit_to_column (codes "file") 50 ++ codes " | Lines % | Branches %")
            ∷ replicate 73 b'-'
            ∷ [];
      } in
      let t = add_files lines_threshold branch_threshold (length coverage_data) start files in
      let missing = missing_reports files in
      (
        t.is_coverage_valid,
        t.printed
            ++ (replicate 73 b'-'
                ∷ (fit_to_column (codes "Total") 50
                    ++ (codes " | "
                        ++ (F.format_percent 7 t.overall_lines_coverage
                            ++ (codes " | " ++ F.format_percent 10 t.overall_branch_coverage))))
                ∷ (b'\n' ∷ codes "--- Missing Coverage ---")
                ∷ elim missing [ [] ↦ codes "All covered!" ∷ [] | m ∷ ms ↦ m ∷ ms ]),
      )

  -- `read` is the file: its lines, or `none` where it is not found.
  unfoldable pub generate_lcov_report :
      Option (List Text) → Text → F.Float → F.Float → Parsed (Bool × List Text)
  unfolding print_and_validate_report read_lcov
  generate_lcov_report none file_path lines_threshold branch_threshold =
      ok (false, (codes "File not found: " ++ file_path) ∷ [])
  generate_lcov_report (some lines) file_path lines_threshold branch_threshold = do
    coverage_data ← read_lcov lines
    ok (print_and_validate_report coverage_data lines_threshold branch_threshold)

  -- `0.0 <= value <= 100.0`
  unfoldable pub in_range : F.Float → Bool
  in_range value = F.at_most F.zero_float value && F.at_most value F.hundred_float

  -- `value / 100`
  unfoldable pub percent : F.Float → F.Float
  percent value = F.divide_by value 100
