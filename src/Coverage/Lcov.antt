-- ===== src/Coverage/Lcov.antt =====
-- `FileCoverage`, `parse_lcov_data_line` and the loop of `generate_lcov_report` in
-- .devkit/scripts/coverage_report.py.
mod Lines
mod DataLines
pub mod Render
pub mod RoundTrip
use encrypted_zone_sdk.Base.{
  ℕ, ◌≡◌, Bool, true, false, Option, none, some, List, [], ◌∷◌, ◌++◌, if◌then◌else◌, text_eq, ◌==◌,
}
use encrypted_zone_sdk.Base.Dict.{Dict, lookup, insert}
use encrypted_zone_sdk.Base.Int.{ℤ, pos, eqz}
use encrypted_zone_sdk.Base.Result.{Result, ok, raise, ◌>>=◌}
use encrypted_zone_sdk.Base.Text.{Text, codes, starts_with, strip, split, replace}
use encrypted_zone_sdk.Base.Decimal.{parse_int}

-- `class FileCoverage`
pub record FileCoverage : Type 0 where
  pub file_path : Text
  pub lines_found : ℤ
  pub lines_hit : ℤ
  pub branches_found : ℤ
  pub branches_hit : ℤ
  pub uncovered_lines : List ℤ
  pub uncovered_branches : List (ℤ × ℤ × ℤ)

-- What a malformed line raises: `int` fails, or `parts[i]` is out of range.
pub data LineError : Type 0 where
  value_error index_error : LineError

abbrev pub Parsed : Type 0 → Type 0
Parsed A = Result LineError A

-- `int(text)`
unfoldable pub int : Text → Parsed ℤ
int s = elim (parse_int s) [ none ↦ raise value_error | some n ↦ ok n ]

-- `parts[i]`
unfoldable pub part : List Text → ℕ → Parsed Text
part [] i = raise index_error
part (p ∷ ps) i = elim i [ ℕ.zero ↦ ok p | ℕ.suc j ↦ part ps j ]

unfoldable pub new_file_coverage : Text → FileCoverage
new_file_coverage file_path = record {
  file_path = file_path;
  lines_found = pos 0;
  lines_hit = pos 0;
  branches_found = pos 0;
  branches_hit = pos 0;
  uncovered_lines = [];
  uncovered_branches = [];
}

-- The branch for "DA:".
unfoldable pub parse_line_data : Text → FileCoverage → Parsed FileCoverage
unfolding int part replace
parse_line_data line c = do
  let parts = split b',' line
  first ← part parts 0
  line_number ← int (replace first (codes "DA:") [])
  second ← part parts 1
  hit_count ← int second
  ok (
      if eqz hit_count (pos 0)
      then record c { uncovered_lines = c.uncovered_lines ++ (line_number ∷ []) }
      else c)

-- The branch for "BRDA".
unfoldable pub parse_branch_data : Text → FileCoverage → Parsed FileCoverage
unfolding int part replace text_eq
parse_branch_data line c = do
  let parts = split b',' line
  first ← part parts 0
  line_number ← int (replace first (codes "BRDA:") [])
  second ← part parts 1
  block_id ← int second
  third ← part parts 2
  branch_id ← int third
  hit_marker ← part parts 3
  ok (
      if hit_marker == codes "-"
      then record c {
        uncovered_branches = c.uncovered_branches ++ ((line_number, block_id, branch_id) ∷ []);
      }
      else c)

unfoldable pub parse_lcov_data_line : Text → FileCoverage → Parsed FileCoverage
unfolding parse_line_data parse_branch_data int replace
parse_lcov_data_line line c =
    if starts_with line (codes "LF:")
    then (do n ← int (replace line (codes "LF:") []); ok (record c { lines_found = n }))
    else if starts_with line (codes "LH:")
    then (do n ← int (replace line (codes "LH:") []); ok (record c { lines_hit = n }))
    else if starts_with line (codes "BRF:")
    then (do n ← int (replace line (codes "BRF:") []); ok (record c { branches_found = n }))
    else if starts_with line (codes "BRH:")
    then (do n ← int (replace line (codes "BRH:") []); ok (record c { branches_hit = n }))
    else if starts_with line (codes "DA:")
    then parse_line_data line c
    else if starts_with line (codes "BRDA")
    then parse_branch_data line c
    else ok c

-- The state of the loop over the lines: `coverage_data` and `current_file_path`.
pub record LcovState : Type 0 where
  pub coverage_data : Dict Text FileCoverage
  pub current_file_path : Option Text

-- A data line belongs to the record that is open. An empty path counts as none.
unfoldable pub parse_in_record : Text → Text → LcovState → Parsed LcovState
unfolding parse_lcov_data_line text_eq
parse_in_record [] line s = ok s
parse_in_record (b ∷ bs) line s = elim (lookup (b ∷ bs) s.coverage_data) [
  | none ↦ ok s
  | some current_coverage ↦ do
    c ← parse_lcov_data_line line current_coverage
    ok (record s { coverage_data = insert (b ∷ bs) c s.coverage_data })
]

-- The body of the loop, on a line that was stripped.
unfoldable pub read_line : Text → LcovState → Parsed LcovState
unfolding parse_in_record new_file_coverage replace text_eq
read_line line s =
    if starts_with line (codes "SF:")
    then (let path = replace line (codes "SF:") [] in
        ok (record {
          coverage_data = insert path (new_file_coverage path) s.coverage_data;
          current_file_path = some path;
        }))
    else if line == codes "end_of_record"
    then ok (record s { current_file_path = none })
    else elim s.current_file_path [ none ↦ ok s | some path ↦ parse_in_record path line s ]

unfoldable pub read_lines : List Text → LcovState → Parsed LcovState
unfolding read_line strip
read_lines [] s = ok s
read_lines (line ∷ lines) s = do s' ← read_line (strip line) s; read_lines lines s'

unfoldable pub lcov_start : LcovState
lcov_start = record { coverage_data = []; current_file_path = none }

-- `coverage_data` after the file was read.
unfoldable pub read_lcov : List Text → Parsed (Dict Text FileCoverage)
unfolding read_lines lcov_start
read_lcov lines = do s ← read_lines lines lcov_start; ok s.coverage_data
