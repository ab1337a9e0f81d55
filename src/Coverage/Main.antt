-- ===== src/Coverage/Main.antt =====
-- `run_bazel_coverage` and `main` of .devkit/scripts/coverage_report.py, behind the argument parser.
-- An exception that is not caught ends Python with status 1.
pub mod Verdict
use encrypted_zone_sdk.Base.{ℕ, Bool, true, false, Option, List, [], ◌∷◌, ◌++◌}
use encrypted_zone_sdk.Base.Result.{Result, ok, raise}
use encrypted_zone_sdk.Base.Text.{Text, codes}
use encrypted_zone_sdk.FilePath.{FilePath, child, show_path}
use encrypted_zone_sdk.FindRoot.{RootError}
use encrypted_zone_sdk.Coverage.Lcov.{Parsed}
use encrypted_zone_sdk.Coverage.Report.{Floats, generate_lcov_report, in_range, percent}

abbrev pub Command : Type 0
Command = List Text

-- What `subprocess.run` does: the command succeeds, fails with a status, or is not found.
pub data BazelRun : Type 0 where
  succeeded : BazelRun
  failed : ℕ → BazelRun
  not_found : BazelRun

-- The exit status, what is printed, and the commands that were run.
pub record Outcome : Type 0 where
  pub status : ℕ
  pub out : List Text
  pub commands : List Command

abbrev pub coverage_command : FilePath → Text → Command
coverage_command project_root target =
    show_path (child (child project_root (codes "devkit")) (codes "build"))
    ∷ codes "bazel"
    ∷ codes "coverage"
    ∷ codes "--combined_report=lcov"
    ∷ target
    ∷ []

abbrev pub report_path : FilePath → FilePath
report_path project_root =
    child (child (child project_root (codes "bazel-out")) (codes "_coverage"))
      (codes "_coverage_report.dat")

-- The end of `main`.
unfoldable pub print_verdict : List Command → Parsed (Bool × List Text) → Outcome
print_verdict commands (raise e) = record { status = 1; out = []; commands = commands }
print_verdict commands (ok (true, printed)) = record {
  status = 0;
  out = printed ++ (codes "Coverage check passed." ∷ []);
  commands = commands;
}
print_verdict commands (ok (false, printed)) = record {
  status = 1;
  out = printed ++ (codes "Coverage check failed." ∷ []);
  commands = commands;
}

abbrev pub range_error : Text → Text
range_error name =
    codes "Error: " ++ (name ++ codes " threshold value must be in range [0.0, 100.0]")

-- `run` is `subprocess.run`, `read` the lines of a file, `root` what `find_project_root` gives.
module _ (F : Floats) (run : Command → BazelRun) (read : FilePath → Option (List Text))
    (root : Result RootError FilePath) where
  -- `run_bazel_coverage`, and what follows if bazel succeeds.
  unfoldable pub report_coverage : BazelRun → FilePath → Text → F.Float → F.Float → Outcome
  unfolding print_verdict generate_lcov_report percent
  report_coverage succeeded project_root target lines branch =
      print_verdict (coverage_command project_root target ∷ []) (
        generate_lcov_report F (read (report_path project_root))
          (show_path (report_path project_root)) (percent F lines) (percent F branch))
  report_coverage (failed n) project_root target lines branch = record {
    status = 1;
    out = [];
    commands = coverage_command project_root target ∷ [];
  }
  report_coverage not_found project_root target lines branch = record {
    status = 1;
    out = [];
    commands = coverage_command project_root target ∷ [];
  }

  unfoldable pub run_coverage : Text → F.Float → F.Float → Outcome
  unfolding report_coverage
  run_coverage target lines branch = elim root [
    | raise e ↦ record { status = 1; out = []; commands = [] }
    | ok project_root ↦
        report_coverage (run (coverage_command project_root target)) project_root target lines
          branch
  ]

  -- The thresholds are checked first.
  unfoldable pub main : Text → F.Float → F.Float → Outcome
  unfolding in_range run_coverage
  main target lines branch = elim (in_range F branch) [
    | false ↦ record { status = 1; out = range_error (codes "Branch") ∷ []; commands = [] }
    | true ↦ elim (in_range F lines) [
      | false ↦ record { status = 1; out = range_error (codes "Lines") ∷ []; commands = [] }
      | true ↦ run_coverage target lines branch
    ]
  ]
