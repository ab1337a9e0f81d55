-- ===== src/Coverage/Main/Verdict.antt =====
-- The exit status of .devkit/scripts/coverage_report.py.
use mathlib.Core.Option.{some-injective}
use encrypted_zone_sdk.Base.{
  ◌≡◌, refl, ap, arith, ◌↔◌, Bool, true, false, Bool-cases, Option, none, some, List, [], ◌∷◌, inl,
  inr, All,
}
use encrypted_zone_sdk.Base.Dict.{Dict, values}
use encrypted_zone_sdk.Base.Result.{ok, raise, ok-injective, >>=-eq-ok}
use encrypted_zone_sdk.Base.Text.{Text}
use encrypted_zone_sdk.FilePath.{FilePath, show_path}
use encrypted_zone_sdk.Coverage.Lcov.{FileCoverage, Parsed, read_lcov}
use encrypted_zone_sdk.Coverage.Report.{
  Floats, generate_lcov_report, print_and_validate_report, in_range, percent,
}
use encrypted_zone_sdk.Coverage.Report.Thresholds.{MeetsBoth, print_and_validate_report_iff}
use encrypted_zone_sdk.Coverage.Main.{
  Command, BazelRun, succeeded, failed, not_found, coverage_command, report_path, print_verdict,
  report_coverage, run_coverage, main,
}

-- The status of a verdict.
print_verdict-status :
    (cs : List Command) (p : Parsed (Bool × List Text))
    → ((print_verdict cs p).status ≡ 0) ↔ ((printed : List Text) × (p ≡ ok (true, printed)))
unfolding print_verdict
print_verdict-status cs (raise e) = ((λ h. absurd (cc)), (λ (printed, h). absurd (cc)))
print_verdict-status cs (ok (true, printed)) = ((λ h. (printed, refl)), (λ h. refl))
print_verdict-status cs (ok (false, printed)) =
    ((λ h. absurd (cc)), (λ (printed', h). absurd (let e = ap (λ p. p.0) (ok-injective h) in cc)))

module _ (F : Floats) where
  -- A threshold is at least `0.0` and at most `100.0`.
  abbrev pub InRange : F.Float → Type 0
  InRange value = (F.at_most F.zero_float value ≡ true) × (F.at_most value F.hundred_float ≡ true)

  in_range_iff : (value : F.Float) → (in_range F value ≡ true) ↔ InRange value
  unfolding in_range
  in_range_iff value = ground arith

module _ (F : Floats) (lines branch : F.Float) where
  -- The report is there and can be read, and each of its files reaches both thresholds.
  abbrev pub Passes : Option (List Text) → Type 0
  Passes file =
      (report : List Text) × (d : Dict Text FileCoverage) × (file ≡ some report)
      × (read_lcov report ≡ ok d)
      × All (MeetsBoth F (F.divide_by lines 100) (F.divide_by branch 100)) (values d)

  generate_lcov_report-Passes :
      (file : Option (List Text)) (path : Text)
      → ((printed : List Text) × (generate_lcov_report F file path
              (percent F lines)
              (percent F branch)
            ≡ ok (true, printed)))
        ↔ Passes file
  unfolding generate_lcov_report percent
  generate_lcov_report-Passes none path = (
    (λ (printed, h). absurd (let e = ap (λ p. p.0) (ok-injective h) in cc)),
    (λ (lines, d, h, _, _). absurd (cc)),
  )
  generate_lcov_report-Passes (some report) path = (
    (λ (printed, h).
        let (d, e, shown) = >>=-eq-ok (read_lcov report) _ h in
        (
          report,
          d,
          refl,
          e,
          (print_and_validate_report_iff F (percent F lines) (percent F branch) d).0
              (ap (λ p. p.0) (ok-injective shown)),
        )),
    (λ (report', d, same, e, all).
        let here : read_lcov report ≡ ok d = rw (some-injective report report' same) e in
        let shown = print_and_validate_report F d (percent F lines) (percent F branch) in
        let valid =
          (print_and_validate_report_iff F (percent F lines) (percent F branch) d).1 all in
        (shown.1, rw here (ap (λ b. ok (b, shown.1)) valid))),
  )

  module _ (run : Command → BazelRun) (read : FilePath → Option (List Text)) (root : FilePath)
      (target : Text) where
    report_coverage-status :
        (r : BazelRun)
        → ((report_coverage F run read (ok root) r root target lines branch).status ≡ 0)
          ↔ ((r ≡ succeeded) × Passes (read (report_path root)))
    unfolding report_coverage
    report_coverage-status succeeded =
        let verdict = print_verdict-status (coverage_command root target ∷ []) _ in
        let passes =
          generate_lcov_report-Passes (read (report_path root)) (show_path (report_path root)) in
        ((λ h. (refl, passes.0 (verdict.0 h))), (λ h. verdict.1 (passes.1 h.1)))
    report_coverage-status (failed n) = ((λ h. absurd (cc)), (λ h. absurd (cc)))
    report_coverage-status not_found = ((λ h. absurd (cc)), (λ h. absurd (cc)))

    -- Where no division overflows, `main` ends with status 0 exactly if both thresholds are at least
    -- `0.0` and at most `100.0`, bazel succeeds, its report can be read, and for each of its files
    -- neither the share of the lines nor that of the branches is less than the threshold divided by
    -- 100, as Python divides and compares floats; the share is `1.0` where nothing is to be covered.
    pub main-status : ((main F run read (ok root) target lines branch).status ≡ 0) ↔ (
        InRange F branch
        × InRange F lines
        × (run (coverage_command root target) ≡ succeeded)
        × Passes (read (report_path root)))
    unfolding main run_coverage
    main-status = elim (Bool-cases (in_range F branch)) [
      | inr out ↦
          rw (out, main) ((λ h. absurd (cc)), (λ h. absurd (cc ((in_range_iff F branch).1 h.0))))
      | inl branch_in ↦ elim (Bool-cases (in_range F lines)) [
        | inr out ↦
            rw (branch_in, main)
              (rw (out, main)
                ((λ h. absurd (cc)), (λ h. absurd (cc ((in_range_iff F lines).1 h.1)))))
        | inl lines_in ↦
            let rest = report_coverage-status (run (coverage_command root target)) in
            rw (branch_in, main)
              (rw (lines_in, main)
                (
                  (λ h. (
                    (in_range_iff F branch).0 branch_in,
                    (in_range_iff F lines).0 lines_in,
                    (rest.0 h).0,
                    (rest.0 h).1,
                  )),
                  (λ (_, _, e, p). rest.1 (e, p)),
                ))
      ]
    ]
