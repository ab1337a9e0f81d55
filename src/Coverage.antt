-- ===== src/Coverage.antt =====
-- .devkit/scripts/coverage_report.py
pub mod Group
pub mod Lcov
pub mod Report
pub mod Main
