-- ===== src/Coverage/Report/Thresholds.antt =====
-- The verdict of `print_and_validate_report`.
use encrypted_zone_sdk.Base.{
  ℕ, ◌≡◌, refl, ◌↔◌, ◌≢◌, Bool, true, false, ◌||◌, Bool-cases, inl, inr, List, [], ◌∷◌, arith, All,
  length, if◌then◌else◌,
}
use encrypted_zone_sdk.Base.Dict.{Dict, values}
use encrypted_zone_sdk.Base.Int.{ℤ, pos, eqz}
use encrypted_zone_sdk.Base.Text.{Text}
use encrypted_zone_sdk.Coverage.Lcov.{FileCoverage}
use encrypted_zone_sdk.Coverage.Report.{
  Floats, line_coverage_percent, branch_coverage_percent, misses, Totals, add_file, add_files,
  print_and_validate_report,
}

or-eq-false : (a b : Bool) → ((a || b) ≡ false) ↔ ((a ≡ false) × (b ≡ false))
or-eq-false a b = ground arith

if_false_iff : (b v : Bool) → ((if b then false else v) ≡ true) ↔ ((v ≡ true) × (b ≡ false))
if_false_iff b v = ground arith

module _ (F : Floats) where
  -- The float of `hit / found` is not less than the threshold; where nothing is to be hit, `1.0` is
  -- not less.
  abbrev pub Reaches : ℤ → ℤ → F.Float → Type 0
  Reaches hit found threshold =
      (found ≡ pos 0 → F.less F.one_float threshold ≡ false)
      × (found ≢ pos 0 → F.less (F.divide hit found) threshold ≡ false)

  share :
      (hit found : ℤ) (threshold : F.Float)
      → (F.less (if eqz found (pos 0) then F.one_float else F.divide hit found) threshold ≡ false)
        ↔ Reaches hit found threshold
  share hit found threshold = elim (Bool-cases (eqz found (pos 0))) [
    | inl nothing ↦
        rw nothing ((λ e. ((λ _. e), (λ n. absurd (n (ground arith))))), (λ r. r.0 (ground arith)))
    | inr something ↦
        rw something
          ((λ e. ((λ z. absurd (ground arith)), (λ _. e))), (λ r. r.1 (λ z. ground arith)))
  ]

  -- The lines and the branches of a file reach their thresholds.
  abbrev pub MeetsBoth : F.Float → F.Float → FileCoverage → Type 0
  MeetsBoth lines branch c =
      Reaches c.lines_hit c.lines_found lines × Reaches c.branches_hit c.branches_found branch

  module _ (lines branch : F.Float) where
    misses_iff : (c : FileCoverage) → (misses F c lines branch ≡ false) ↔ MeetsBoth lines branch c
    unfolding misses line_coverage_percent branch_coverage_percent
    misses_iff c =
        let here = share c.lines_hit c.lines_found lines in
        let there = share c.branches_hit c.branches_found branch in
        let both =
          or-eq-false (F.less (line_coverage_percent F c) lines)
            (F.less (branch_coverage_percent F c) branch) in
        (
          (λ e. (here.0 (both.0 e).0, there.0 (both.0 e).1)),
          (λ m. both.1 (here.1 m.0, there.1 m.1)),
        )

    add_files_iff :
        (n : ℕ) (t : Totals F) (cs : List FileCoverage)
        → ((add_files F lines branch n t cs).is_coverage_valid ≡ true)
          ↔ ((t.is_coverage_valid ≡ true) × All (MeetsBoth lines branch) cs)
    unfolding add_files add_file
    add_files_iff n t [] = (λ e. (e, tt), λ e. e.0)
    add_files_iff n t (c ∷ cs) =
        let rest = add_files_iff n (add_file F lines branch n t c) cs in
        let here = misses_iff c in
        let kept = if_false_iff (misses F c lines branch) t.is_coverage_valid in
        (
          (λ e. let r = rest.0 e in let k = kept.0 r.0 in (k.0, (here.0 k.1, r.1))),
          (λ (v, (m, ms)). rest.1 (kept.1 (v, here.1 m), ms)),
        )

    -- The check passes exactly when every file reaches both thresholds. A file with no lines, or no
    -- branches, reaches a threshold that `1.0` is not less than.
    pub print_and_validate_report_iff :
        (coverage_data : Dict Text FileCoverage)
        → ((print_and_validate_report F coverage_data lines branch).0 ≡ true)
          ↔ All (MeetsBoth lines branch) (values coverage_data)
    unfolding print_and_validate_report
    print_and_validate_report_iff d =
        let e = add_files_iff (length d) _ (values d) in ((λ v. (e.0 v).1), (λ m. e.1 (refl, m)))
