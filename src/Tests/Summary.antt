-- ===== src/Tests/Summary.antt =====
-- The review summary at concrete inputs.
use plug_and_prejudice.Prelude.{
  [], arith, codes, pass, refl, some, text_eq, ℕ, ◌+◌, ◌↔◌, ◌∷◌, ◌≡◌, ◌≤◌,
}
use plug_and_prejudice.Prelude.Int.{◌+ℤ◌}
use plug_and_prejudice.Report.Document.{CoverageSummary, Report}
use plug_and_prejudice.Report.Limits.{max_inventory_entries}
use plug_and_prejudice.Report.Review.Coverage.{
  coverage_from_inventory, new_coverage_summary, validate_coverage_summary,
}
use plug_and_prejudice.Report.Review.Coverage.Exact.{
  validate-new_coverage_summary, validate_coverage_summary_sound,
}
use plug_and_prejudice.Report.Review.Derive.{
  build_review_summary, derive_review_summary, validate_review_summary,
}
use plug_and_prejudice.Report.Review.Derive.Agreement.{validate-build_review_summary}
use plug_and_prejudice.Report.Review.Derive.Reasons.{AreFew, derive-AreFew}
use plug_and_prejudice.Report.Review.Derive.Severest.{IsSeverest, derive-IsSeverest}
use plug_and_prejudice.Report.Review.Derive.Silence.{unknown_level-none}
use plug_and_prejudice.Report.Review.Summary.{CoverageSummary-discrete, unknown_level}
use plug_and_prejudice.Tests.Sample.{sample_finding, sample_report}

validate-new_coverage_summary_example :
    validate_coverage_summary (new_coverage_summary 3 1 1 (2 ∷ [])) ≡ pass
validate-new_coverage_summary_example = validate-new_coverage_summary 3 1 1 2 (omega arith)

validate_coverage_summary_sound_example :
    (a p u e : ℕ) × (a + p + u + e ≤ max_inventory_entries)
    × (new_coverage_summary 3 1 1 (2 ∷ []) ≡ new_coverage_summary a p u (e ∷ []))
validate_coverage_summary_sound_example =
    validate_coverage_summary_sound (new_coverage_summary 3 1 1 (2 ∷ []))
      (validate-new_coverage_summary 3 1 1 2 (omega arith))

abbrev sample_coverage : CoverageSummary
sample_coverage = coverage_from_inventory (sample_report.inventory)

abbrev reviewed_report : Report
reviewed_report = record sample_report {
  review = some (derive_review_summary sample_report sample_coverage);
}

validate-build_review_summary_example : validate_review_summary reviewed_report ≡ pass
unfolding build_review_summary validate_coverage_summary text_eq coverage_from_inventory ◌+ℤ◌
    CoverageSummary-discrete
validate-build_review_summary_example =
    validate-build_review_summary sample_coverage sample_report reviewed_report refl

derive-IsSeverest_example :
    IsSeverest
      (sample_finding ∷ [])
      (derive_review_summary sample_report sample_coverage).security_impact
derive-IsSeverest_example = derive-IsSeverest sample_report sample_coverage

derive-AreFew_example : AreFew (derive_review_summary sample_report sample_coverage)
derive-AreFew_example = derive-AreFew sample_report sample_coverage

unknown_level-none_example : (unknown_level sample_report ≡ codes "none") ↔ (
    (sample_report.errors ≡ []) × (sample_report.unknowns ≡ []) × (sample_report.limitations ≡ []))
unknown_level-none_example = unknown_level-none sample_report
