-- ===== src/Report/Review/Derive/Agreement.antt =====
-- What `BuildReviewSummary` makes, `validateReviewSummary` accepts.
use plug_and_prejudice.Prelude.{
  List, Option, Text-eq, [], ap, arith, ok, pass, refl, some, subst, sym, true, ≡→==, ◌==◌, ◌∙◌,
  ◌∷◌, ◌≡◌,
}
use plug_and_prejudice.Prelude.Int.{ℤ}
use plug_and_prejudice.Report.Document.{CoverageSummary, Report, ReviewSummary}
use plug_and_prejudice.Report.Records.{Finding, Operation, Resource, Unknown}
use plug_and_prejudice.Report.Review.Coverage.{coverage_from_inventory, validate_coverage_summary}
use plug_and_prejudice.Report.Review.Derive.{
  build_review_summary, check_review, count_fact, count_findings, count_operations, count_resources,
  count_unknowns, derive_review_summary, settle_confidence, validate_review_summary,
}
use plug_and_prejudice.Report.Review.Summary.{CoverageSummary-eq, ReviewSummary-eq}

-- No loop touches the coverage.
count_operations-coverage :
    (os : List Operation) (v : ReviewSummary)
    → (count_operations os v).analysis_coverage ≡ v.analysis_coverage
unfolding count_operations
count_operations-coverage [] v = refl
count_operations-coverage (o ∷ os) v = count_operations-coverage os (count_fact o.confidence v)

count_resources-coverage :
    (rs : List Resource) (v : ReviewSummary)
    → (count_resources rs v).analysis_coverage ≡ v.analysis_coverage
unfolding count_resources
count_resources-coverage [] v = refl
count_resources-coverage (r ∷ rs) v = count_resources-coverage rs (count_fact r.confidence v)

count_findings-coverage :
    (fs : List Finding) (rank : ℤ) (v : ReviewSummary)
    → (count_findings fs rank v).analysis_coverage ≡ v.analysis_coverage
unfolding count_findings
count_findings-coverage [] rank v = refl
count_findings-coverage (f ∷ fs) rank v = count_findings-coverage fs _ _

count_unknowns-coverage :
    (us : List Unknown) (v : ReviewSummary)
    → (count_unknowns us v).analysis_coverage ≡ v.analysis_coverage
unfolding count_unknowns
count_unknowns-coverage [] v = refl
count_unknowns-coverage (u ∷ us) v = count_unknowns-coverage us _

settle_confidence-coverage :
    (fs : List Finding) (v : ReviewSummary)
    → (settle_confidence fs v).analysis_coverage ≡ v.analysis_coverage
unfolding settle_confidence
settle_confidence-coverage fs v = ground arith

derive-coverage :
    (r : Report) (c : CoverageSummary) → (derive_review_summary r c).analysis_coverage ≡ c
unfolding derive_review_summary
derive-coverage r c =
    settle_confidence-coverage r.findings _
    ∙ count_unknowns-coverage r.unknowns _
    ∙ count_findings-coverage r.findings _ _
    ∙ count_resources-coverage r.resources _
    ∙ count_operations-coverage r.operations _

-- The summary does not depend on the one that the report has.
derive-record :
    (r : Report) (o : Option ReviewSummary) (c : CoverageSummary)
    → derive_review_summary (record r { review = o }) c ≡ derive_review_summary r c
unfolding derive_review_summary
derive-record r o c = refl

check_review_of_eq :
    (review : ReviewSummary) (r : Report)
    → validate_coverage_summary review.analysis_coverage ≡ pass
    → (review.analysis_coverage == coverage_from_inventory r.inventory) ≡ true
    → review ≡ derive_review_summary r review.analysis_coverage
    → check_review review r ≡ pass
unfolding check_review
check_review_of_eq review r valid same derived =
    let agrees = ≡→== derived in rw (valid, same) (rw agrees)

-- The summary of `r` passes the check on `r`, whatever summary `r` has.
check_review-derive :
    (r : Report) (o : Option ReviewSummary) (c : CoverageSummary)
    → validate_coverage_summary c ≡ pass
    → (c == coverage_from_inventory r.inventory) ≡ true
    → check_review (derive_review_summary r c) (record r { review = o }) ≡ pass
check_review-derive r o c valid same =
    let kept = derive-coverage r c in
    check_review_of_eq (derive_review_summary r c) (record r { review = o })
      (subst (λ k. validate_coverage_summary k ≡ pass) (sym kept) valid)
      (subst (λ k. (k == coverage_from_inventory r.inventory) ≡ true) (sym kept) same)
      (ap (derive_review_summary r) (sym kept) ∙ sym (derive-record r o _))

built :
    (c : CoverageSummary) (r s : Report)
    → build_review_summary c r ≡ ok s
    → (validate_coverage_summary c ≡ pass)
      × ((c == coverage_from_inventory r.inventory) ≡ true)
      × (s ≡ record r { review = some (derive_review_summary r c) })
unfolding build_review_summary
built c r s h = ground arith

-- A report whose summary was built passes the check of its summary.
pub validate-build_review_summary :
    (coverage : CoverageSummary) (r s : Report)
    → build_review_summary coverage r ≡ ok s
    → validate_review_summary s ≡ pass
unfolding validate_review_summary
validate-build_review_summary coverage r s h =
    let (valid, same, made) = built coverage r s h in
    rw made (check_review-derive r (some (derive_review_summary r coverage)) coverage valid same)
