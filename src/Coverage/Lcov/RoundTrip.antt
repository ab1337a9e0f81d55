-- ===== src/Coverage/Lcov/RoundTrip.antt =====
-- The lines that a coverage tool writes, and what the loop of `generate_lcov_report` reads back.
use encrypted_zone_sdk.Base.{
  ℕ, ◌≡◌, refl, sym, ◌∙◌, ap, subst, ◌≢◌, Option, none, List, [], ◌∷◌, ◌++◌, map, append_assoc,
  text_eq, List-cases, inl, inr, All,
}
use encrypted_zone_sdk.Base.Dict.{Dict, insert, update}
use encrypted_zone_sdk.Base.Int.{pos}
use encrypted_zone_sdk.Base.Result.{ok}
use encrypted_zone_sdk.Base.Text.{Text, codes, strip, replace, is_space}
use encrypted_zone_sdk.Base.Decimal.{show_ℕ}
use encrypted_zone_sdk.Coverage.Lcov.{
  FileCoverage, new_file_coverage, LcovState, read_line, read_lines, read_lcov,
}
use encrypted_zone_sdk.Coverage.Lcov.Render.{
  LcovRecord, render, render_all, coverage, line_data, branch_data, counters, missed_lines,
  missed_branches,
}
use encrypted_zone_sdk.Coverage.Lcov.Lines.{
  missed_branch, found_line, hit_line, branches_found_line, branches_hit_line,
}
use encrypted_zone_sdk.Coverage.Lcov.DataLines.{
  open_at, read_lines-data, read_lines-map, line_data-IsData, branch_data-IsData, counter-IsData,
  miss_line, foldl-miss_line, foldl-missed_branch, line_data_lem, branch_data_lem,
}

-- A path that survives `strip` and `replace`, and that is not empty.
pub record IsSourcePath (path : Text) : Type 0 where
  pub not_empty : path ≢ []
  pub trimmed : strip (codes "SF:" ++ path) ≡ codes "SF:" ++ path
  pub tag_free : replace path (codes "SF:") [] ≡ path

module _ (b : ℕ) (bs : Text) (d : Dict Text FileCoverage) where
  read_lines-counters :
      (found hit branches_found branches_hit : ℕ) (rest : List Text) (c : FileCoverage)
      → read_lines
          ((codes "BRF:" ++ show_ℕ branches_found)
            ∷ (codes "BRH:" ++ show_ℕ branches_hit)
            ∷ (codes "LF:" ++ show_ℕ found)
            ∷ (codes "LH:" ++ show_ℕ hit)
            ∷ codes "end_of_record"
            ∷ rest)
          (open_at b bs d c)
        ≡ read_lines rest (record {
          coverage_data =
              insert
                (b ∷ bs)
                (record c {
                  lines_found = pos found;
                  lines_hit = pos hit;
                  branches_found = pos branches_found;
                  branches_hit = pos branches_hit;
                })
                d;
          current_file_path = none;
        })
  unfolding read_lines read_line text_eq is_space
  read_lines-counters found hit branches_found branches_hit rest c =
      let c1 = record c { branches_found = pos branches_found } in
      let c2 = record c1 { branches_hit = pos branches_hit } in
      let c3 = record c2 { lines_found = pos found } in
      let c4 = record c3 { lines_hit = pos hit } in
      let brf = codes "BRF:" ++ show_ℕ branches_found in
      let brh = codes "BRH:" ++ show_ℕ branches_hit in
      let lf = codes "LF:" ++ show_ℕ found in
      let lh = codes "LH:" ++ show_ℕ hit in
      let after_lh = codes "end_of_record" ∷ rest in
      read_lines-data b bs d brf c c1 (brh ∷ lf ∷ lh ∷ after_lh) (counter-IsData branches_found).2
        (branches_found_line branches_found c)
      ∙ read_lines-data b bs d brh c1 c2 (lf ∷ lh ∷ after_lh) (counter-IsData branches_hit).3
          (branches_hit_line branches_hit c1)
      ∙ read_lines-data b bs d lf c2 c3 (lh ∷ after_lh) (counter-IsData found).0
          (found_line found c2)
      ∙ read_lines-data b bs d lh c3 c4 after_lh (counter-IsData hit).1 (hit_line hit c3)

  read_lines-source :
      (rest : List Text) (current : Option Text)
      → IsSourcePath (b ∷ bs)
      → read_lines
          ((codes "SF:" ++ (b ∷ bs)) ∷ rest)
          (record { coverage_data = d; current_file_path = current })
        ≡ read_lines rest (open_at b bs d (new_file_coverage (b ∷ bs)))
  unfolding read_lines read_line
  read_lines-source rest current h = rw (h.trimmed) (rw (h.tag_free))

abbrev closed : Dict Text FileCoverage → LcovState
closed d = record { coverage_data = d; current_file_path = none }

-- One record, whatever was read before it.
read_lines-render_at :
    (b : ℕ) (bs : Text) (r : LcovRecord) (rest : List Text) (d : Dict Text FileCoverage)
    → r.path ≡ b ∷ bs
    → IsSourcePath (b ∷ bs)
    → read_lines
        ((codes "SF:" ++ (b ∷ bs))
          ∷ (map line_data r.lines ++ (map branch_data r.branches ++ (counters r ++ rest))))
        (closed d)
      ≡ read_lines rest (closed (insert (b ∷ bs) (record (coverage r) { file_path = b ∷ bs }) d))
unfolding coverage new_file_coverage
read_lines-render_at b bs r rest d e h =
    let c0 = new_file_coverage (b ∷ bs) in
    let c1 = record c0 { uncovered_lines = missed_lines [] r.lines } in
    let c2 = record c1 { uncovered_branches = missed_branches [] r.branches } in
    let after = counters r ++ rest in
    let behind = map branch_data r.branches ++ after in
    read_lines-source b bs d (map line_data r.lines ++ behind) none h
    ∙ read_lines-map b bs d line_data miss_line line_data-IsData line_data_lem r.lines behind c0
    ∙ ap (λ c. read_lines behind (open_at b bs d c)) (foldl-miss_line r.lines c0)
    ∙ read_lines-map b bs d branch_data missed_branch branch_data-IsData branch_data_lem r.branches
        after c1
    ∙ ap (λ c. read_lines after (open_at b bs d c)) (foldl-missed_branch r.branches c1)
    ∙ read_lines-counters b bs d r.found r.hit r.branches_found r.branches_hit rest c2

render_split :
    (r : LcovRecord) (rest : List Text)
    → render r ++ rest
      ≡ (codes "SF:" ++ r.path)
        ∷ (map line_data r.lines ++ (map branch_data r.branches ++ (counters r ++ rest)))
unfolding render
render_split r rest = simp append_assoc

read_lines-render :
    (r : LcovRecord) (rest : List Text) (d : Dict Text FileCoverage)
    → IsSourcePath r.path
    → read_lines (render r ++ rest) (closed d)
      ≡ read_lines rest (closed (insert r.path (coverage r) d))
unfolding coverage
read_lines-render r rest d h = elim (List-cases r.path) [
  | inl empty ↦ absurd (h.not_empty empty)
  | inr (b, bs, e) ↦
      ap (λ l. read_lines l (closed d)) (render_split r rest)
      ∙ ap
          (λ p.
            read_lines
              ((codes "SF:" ++ p)
                ∷ (map line_data r.lines ++ (map branch_data r.branches ++ (counters r ++ rest))))
              (closed d))
          e
      ∙ read_lines-render_at b bs r rest d e (subst IsSourcePath e h)
      ∙ ap (λ p. read_lines rest (closed (insert p (record (coverage r) { file_path = p }) d)))
          (sym e)
]

read_lines-render_all :
    (rs : List LcovRecord) (d : Dict Text FileCoverage)
    → All (λ r. IsSourcePath r.path) rs
    → read_lines (render_all rs) (closed d)
      ≡ ok (closed (update d (map (λ r. (r.path, coverage r)) rs)))
unfolding render_all
read_lines-render_all [] d _ = unfold read_lines in refl
read_lines-render_all (r ∷ rs) d (h, hs) =
    read_lines-render r (render_all rs) d h
    ∙ read_lines-render_all rs (insert r.path (coverage r) d) hs

-- Reading the lines that are written for some records gives their coverage, file by file: the
-- counters, the lines that were not hit and the branches that were not reached, each in order.
-- Of two records of one file the later one counts. The paths are not empty, hold no `SF:`, and
-- end in no white space.
pub read_lcov-render_all :
    (rs : List LcovRecord)
    → All (λ r. IsSourcePath r.path) rs
    → read_lcov (render_all rs) ≡ ok (update [] (map (λ r. (r.path, coverage r)) rs))
unfolding read_lcov
read_lcov-render_all rs h = rw (read_lines-render_all rs [] h)
