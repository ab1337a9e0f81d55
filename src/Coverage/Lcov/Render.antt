-- ===== src/Coverage/Lcov/Render.antt =====
-- The lines that a coverage tool writes.
use encrypted_zone_sdk.Base.{
  ℕ, Option, none, some, List, [], ◌∷◌, ◌++◌, map, if◌then◌else◌, text_eq,
}
use encrypted_zone_sdk.Base.Int.{ℤ, pos, eqz}
use encrypted_zone_sdk.Base.Text.{Text, codes}
use encrypted_zone_sdk.Base.Decimal.{show_ℕ}
use encrypted_zone_sdk.Coverage.Lcov.{FileCoverage}

-- One record of an lcov file, as a coverage tool knows it: lines with their hit counts, and
-- branches with their hit counts, if they were reached.
pub record LcovRecord : Type 0 where
  pub path : Text
  pub found : ℕ
  pub hit : ℕ
  pub branches_found : ℕ
  pub branches_hit : ℕ
  pub lines : List (ℕ × ℕ)
  pub branches : List (ℕ × ℕ × ℕ × Option ℕ)

abbrev pub counter_line : Text → ℕ → Text
counter_line name n = name ++ show_ℕ n

abbrev pub line_data : ℕ × ℕ → Text
line_data (line, hits) = codes "DA:" ++ (show_ℕ line ++ (b',' ∷ show_ℕ hits))

abbrev pub marker : Option ℕ → Text
marker none = codes "-"
marker (some hits) = show_ℕ hits

abbrev pub branch_data : ℕ × ℕ × ℕ × Option ℕ → Text
branch_data (line, block, branch, hits) =
    codes "BRDA:"
    ++ (show_ℕ line ++ (b',' ∷ (show_ℕ block ++ (b',' ∷ (show_ℕ branch ++ (b',' ∷ marker hits))))))

abbrev pub counters : LcovRecord → List Text
counters r =
    counter_line (codes "BRF:") r.branches_found
    ∷ counter_line (codes "BRH:") r.branches_hit
    ∷ counter_line (codes "LF:") r.found
    ∷ counter_line (codes "LH:") r.hit
    ∷ codes "end_of_record"
    ∷ []

-- The lines of one record.
unfoldable pub render : LcovRecord → List Text
render r =
    (codes "SF:" ++ r.path) ∷ (map line_data r.lines ++ (map branch_data r.branches ++ counters r))

unfoldable pub render_all : List LcovRecord → List Text
render_all [] = []
render_all (r ∷ rs) = render r ++ render_all rs

-- The lines that were not hit, behind those already listed.
unfoldable pub missed_lines : List ℤ → List (ℕ × ℕ) → List ℤ
missed_lines done [] = done
missed_lines done ((line, hits) ∷ rest) =
    missed_lines (if eqz (pos hits) (pos 0) then done ++ (pos line ∷ []) else done) rest

unfoldable pub missed_branches : List (ℤ × ℤ × ℤ) → List (ℕ × ℕ × ℕ × Option ℕ) → List (ℤ × ℤ × ℤ)
missed_branches done [] = done
missed_branches done ((line, block, branch, none) ∷ rest) =
    missed_branches (done ++ ((pos line, pos block, pos branch) ∷ [])) rest
missed_branches done ((line, block, branch, some hits) ∷ rest) = missed_branches done rest

-- What should be known of the file after its record was read.
unfoldable pub coverage : LcovRecord → FileCoverage
coverage r = record {
  file_path = r.path;
  lines_found = pos r.found;
  lines_hit = pos r.hit;
  branches_found = pos r.branches_found;
  branches_hit = pos r.branches_hit;
  uncovered_lines = missed_lines [] r.lines;
  uncovered_branches = missed_branches [] r.branches;
}
