-- ===== src/Coverage/Lcov/DataLines.antt =====
-- The lines of a record, as the loop of `generate_lcov_report` in
-- .devkit/scripts/coverage_report.py meets them.
use mathlib.Core.List.{foldl}
use encrypted_zone_sdk.Base.{
  ℕ, ◌≡◌, refl, ◌∙◌, ap, false, Option, none, some, List, [], ◌∷◌, ◌++◌, map, if◌then◌else◌,
  text_eq, ◌==◌, Bool-cases, inl, inr, All-append,
}
use encrypted_zone_sdk.Base.Dict.{Dict, insert, lookup-insert_self, insert-insert}
use encrypted_zone_sdk.Base.Int.{pos, eqz}
use encrypted_zone_sdk.Base.Result.{ok}
use encrypted_zone_sdk.Base.Text.{Text, codes, starts_with, strip, Solid, strip-Solid, is_space}
use encrypted_zone_sdk.Base.Decimal.{show_ℕ, show_ℕ-Solid}
use encrypted_zone_sdk.Coverage.Lcov.{
  FileCoverage, parse_lcov_data_line, LcovState, parse_in_record, read_line, read_lines,
}
use encrypted_zone_sdk.Coverage.Lcov.Render.{
  line_data, branch_data, marker, missed_lines, missed_branches,
}
use encrypted_zone_sdk.Coverage.Lcov.Lines.{
  parse_line_data-line_data, parse_branch_data-branch_data, missed_branch,
}

abbrev IsData : Text → Type 0
IsData line =
    (starts_with line (codes "SF:") ≡ false)
    × ((line == codes "end_of_record") ≡ false)
    × Solid line

-- The state with the record of `b ∷ bs` open.
module _ (b : ℕ) (bs : Text) (d : Dict Text FileCoverage) where
  abbrev pub open_at : FileCoverage → LcovState
  open_at c = record { coverage_data = insert (b ∷ bs) c d; current_file_path = some (b ∷ bs) }

  read_line-data :
      (line : Text) (c c' : FileCoverage)
      → IsData line
      → parse_lcov_data_line line c ≡ ok c'
      → read_line (strip line) (open_at c) ≡ ok (open_at c')
  unfolding read_line parse_in_record
  read_line-data line c c' (no_file, no_end, solid) h = rw (strip-Solid line solid) (
      rw (no_file, no_end)
        (rw (lookup-insert_self (b ∷ bs) c d, parse_in_record)
          (rw h (
            ap (λ m. ok (record { coverage_data = m; current_file_path = some (b ∷ bs) }))
              (insert-insert (b ∷ bs) c c' d)))))

  pub read_lines-data :
      (line : Text) (c c' : FileCoverage) (rest : List Text)
      → IsData line
      → parse_lcov_data_line line c ≡ ok c'
      → read_lines (line ∷ rest) (open_at c) ≡ read_lines rest (open_at c')
  unfolding read_lines
  read_lines-data line c c' rest data_line h = rw (read_line-data line c c' data_line h)

  -- Lines of a kind that all change the open record in the same way.
  pub read_lines-map {ℓ} :
      {A : Type ℓ} (print : A → Text) (change : A → FileCoverage → FileCoverage)
      → ((a : A) → IsData (print a))
      → ((a : A) (c : FileCoverage) → parse_lcov_data_line (print a) c ≡ ok (change a c))
      → (xs : List A) (rest : List Text) (c : FileCoverage)
      → read_lines (map print xs ++ rest) (open_at c)
        ≡ read_lines rest (open_at (foldl (λ c' a. change a c') c xs))
  unfolding read_lines
  read_lines-map print change data_line step [] rest c = refl
  read_lines-map print change data_line step (a ∷ xs) rest c =
      read_lines-data (print a) c (change a c) (map print xs ++ rest) (data_line a) (step a c)
      ∙ read_lines-map print change data_line step xs rest (change a c)

Solid-number : (tag : Text) (n : ℕ) → Solid tag → Solid (tag ++ show_ℕ n)
Solid-number tag n h = All-append _ tag (show_ℕ n) h (show_ℕ-Solid n)

pub line_data-IsData : (l : ℕ × ℕ) → IsData (line_data l)
unfolding text_eq is_space
line_data-IsData (line, hits) = (
  refl,
  refl,
  All-append _ (codes "DA:") _ (refl, (refl, (refl, tt)))
      (All-append _ (show_ℕ line) _ (show_ℕ-Solid line) (refl, show_ℕ-Solid hits)),
)

marker-Solid : (m : Option ℕ) → Solid (marker m)
unfolding is_space
marker-Solid none = (refl, tt)
marker-Solid (some hits) = show_ℕ-Solid hits

pub branch_data-IsData : (b : ℕ × ℕ × ℕ × Option ℕ) → IsData (branch_data b)
unfolding text_eq is_space
branch_data-IsData (line, block, branch, m) = (
  refl,
  refl,
  All-append _ (codes "BRDA:") _ (refl, (refl, (refl, (refl, (refl, tt)))))
      (All-append _ (show_ℕ line) _ (show_ℕ-Solid line) (
        refl,
        All-append _ (show_ℕ block) _ (show_ℕ-Solid block)
            (refl, All-append _ (show_ℕ branch) _ (show_ℕ-Solid branch) (refl, marker-Solid m)),
      )),
)

pub counter-IsData :
    (n : ℕ)
    → IsData (codes "LF:" ++ show_ℕ n)
      × IsData (codes "LH:" ++ show_ℕ n)
      × IsData (codes "BRF:" ++ show_ℕ n)
      × IsData (codes "BRH:" ++ show_ℕ n)
unfolding text_eq is_space
counter-IsData n = (
  (refl, refl, Solid-number (codes "LF:") n (refl, (refl, (refl, tt)))),
  (refl, refl, Solid-number (codes "LH:") n (refl, (refl, (refl, tt)))),
  (refl, refl, Solid-number (codes "BRF:") n (refl, (refl, (refl, (refl, tt))))),
  (refl, refl, Solid-number (codes "BRH:") n (refl, (refl, (refl, (refl, tt))))),
)

pub miss_line : ℕ × ℕ → FileCoverage → FileCoverage
miss_line (line, hits) c =
    if eqz (pos hits) (pos 0)
    then record c { uncovered_lines = c.uncovered_lines ++ (pos line ∷ []) }
    else c

pub foldl-miss_line :
    (ls : List (ℕ × ℕ)) (c : FileCoverage)
    → foldl (λ c' l. miss_line l c') c ls
      ≡ record c { uncovered_lines = missed_lines c.uncovered_lines ls }
unfolding miss_line missed_lines
foldl-miss_line [] c = refl
foldl-miss_line ((line, hits) ∷ ls) c = elim (Bool-cases (eqz (pos hits) (pos 0))) [
  | inl missed ↦ rw missed (foldl-miss_line ls _)
  | inr reached ↦ rw reached (foldl-miss_line ls c)
]

pub foldl-missed_branch :
    (bs : List (ℕ × ℕ × ℕ × Option ℕ)) (c : FileCoverage)
    → foldl (λ c' b. missed_branch b c') c bs
      ≡ record c { uncovered_branches = missed_branches c.uncovered_branches bs }
unfolding missed_branch missed_branches
foldl-missed_branch [] c = refl
foldl-missed_branch ((line, block, branch, none) ∷ bs) c = foldl-missed_branch bs _
foldl-missed_branch ((line, block, branch, some hits) ∷ bs) c = foldl-missed_branch bs c

pub line_data_lem :
    (l : ℕ × ℕ) (c : FileCoverage) → parse_lcov_data_line (line_data l) c ≡ ok (miss_line l c)
unfolding parse_lcov_data_line miss_line
line_data_lem (line, hits) c = parse_line_data-line_data line hits c

pub branch_data_lem :
    (b : ℕ × ℕ × ℕ × Option ℕ) (c : FileCoverage)
    → parse_lcov_data_line (branch_data b) c ≡ ok (missed_branch b c)
unfolding parse_lcov_data_line
branch_data_lem b c = parse_branch_data-branch_data b c
