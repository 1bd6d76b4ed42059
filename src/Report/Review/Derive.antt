-- ===== src/Report/Review/Derive.antt =====
-- `deriveReviewSummary`, `BuildReviewSummary` and `validateReviewSummary` of
-- internal/report/review.go: the loops over the collections of a report, in the code's order.
pub mod Severest
pub mod Reasons
pub mod Silence
pub mod Agreement
use plug_and_prejudice.Prelude.{
  Bool, Check, List, Result, Text-eq, [], codes, err, if◌then◌else◌, leb, length, ltb, none, not,
  ok, refuse, some, true, ◌&&◌, ◌++◌, ◌+◌, ◌==◌, ◌>>=◌, ◌>>◌, ◌∷◌,
}
use plug_and_prejudice.Prelude.Int.{eqb_ℤ, ltb_ℤ, negsuc, ℤ}
use plug_and_prejudice.Report.Document.{
  ClaimCounts, CoverageSummary, ImpactSummary, Report, ReviewReason, ReviewSummary,
}
use plug_and_prejudice.Report.Kinds.{ClaimType, Confidence, Scope, Scope-eq, Severity}
use plug_and_prejudice.Report.Limits.{max_review_reasons}
use plug_and_prejudice.Report.Records.{Finding, Operation, Resource, Unknown}
use plug_and_prejudice.Report.Review.Coverage.{coverage_from_inventory, validate_coverage_summary}
use plug_and_prejudice.Report.Review.Summary.{
  CoverageSummary-eq, ReviewSummary-eq, add_confidence, append_review_reason,
  confidence_for_impact_reasons, contains_reason, error_reason, finding_reason, is_serious,
  limitation_reason, severity_rank, unknown_level, unknown_reason,
}

-- `value.Counts.Facts++; addConfidence(…)`.
unfoldable pub count_fact : Confidence → ReviewSummary → ReviewSummary
unfolding add_confidence
count_fact c v =
    let counts = v.counts in
    record v {
      evidence_confidence = add_confidence c v.evidence_confidence;
      counts = record counts { facts = counts.facts + 1 };
    }

unfoldable pub count_operations : List Operation → ReviewSummary → ReviewSummary
unfolding count_fact
count_operations [] v = v
count_operations (o ∷ os) v = count_operations os (count_fact o.confidence v)

unfoldable pub count_resources : List Resource → ReviewSummary → ReviewSummary
unfolding count_fact
count_resources [] v = v
count_resources (r ∷ rs) v = count_resources rs (count_fact r.confidence v)

unfoldable pub count_claim : ClaimType → ClaimCounts → ClaimCounts
count_claim ClaimType.fact c = record c { facts = c.facts + 1 }
count_claim ClaimType.inference c = record c { inferences = c.inferences + 1 }
count_claim (ClaimType.other s) c = c

-- `impactRank` and the impact, before and after one finding.
pub record Impact : Type 0 where
  pub rank : ℤ
  pub summary : ImpactSummary

unfoldable pub raise_impact : Finding → Impact → Impact
raise_impact f i =
    if ltb_ℤ i.rank (severity_rank f.severity)
    then record {
      rank = severity_rank f.severity;
      summary = record { level = f.severity; reasons = [] };
    }
    else i

unfoldable pub cite_finding : Finding → Impact → Impact
cite_finding f i =
    let s = i.summary in
    if eqb_ℤ (severity_rank f.severity) i.rank && ltb (length s.reasons) max_review_reasons
    then record i { summary = record s { reasons = s.reasons ++ finding_reason f ∷ [] } }
    else i

unfoldable pub impact_step : Finding → Impact → Impact
unfolding raise_impact cite_finding
impact_step f i = cite_finding f (raise_impact f i)

unfoldable pub count_findings : List Finding → ℤ → ReviewSummary → ReviewSummary
unfolding impact_step add_confidence count_claim
count_findings [] rank v = v
count_findings (f ∷ fs) rank v =
    let i = impact_step f (record { rank = rank; summary = v.security_impact }) in
    count_findings fs i.rank (record v {
      security_impact = i.summary;
      evidence_confidence = add_confidence f.confidence v.evidence_confidence;
      counts = count_claim f.claim v.counts;
    })

unfoldable pub count_unknowns : List Unknown → ReviewSummary → ReviewSummary
unfolding add_confidence
count_unknowns [] v = v
count_unknowns (u ∷ us) v =
    let counts = v.counts in
    count_unknowns us (record v {
      evidence_confidence = add_confidence u.confidence v.evidence_confidence;
      counts = record counts { unknown_behaviors = counts.unknown_behaviors + 1 };
    })

-- The confidence is that of the findings behind the impact, if there are any.
unfoldable pub settle_confidence : List Finding → ReviewSummary → ReviewSummary
unfolding confidence_for_impact_reasons
settle_confidence findings v =
    let c = v.evidence_confidence in
    let i = v.security_impact in
    if ltb 0 (length i.reasons)
    then record v {
      evidence_confidence = record c {
        level = confidence_for_impact_reasons findings i.level (codes "high");
        reasons = i.reasons;
      };
    }
    else v

-- A loop that appends the reasons of the elements that pass a test.
unfoldable pub append_reasons {ℓ} :
    {A : Type ℓ} → (A → Bool) → (A → ReviewReason) → List A → List ReviewReason → List ReviewReason
append_reasons wanted reason [] out = out
append_reasons wanted reason (x ∷ xs) out =
    append_reasons wanted reason xs (if wanted x then append_review_reason out (reason x) else out)

unfoldable pub unknown_reasons : Report → List ReviewReason
unfolding append_reasons is_serious
unknown_reasons r =
    let out = append_reasons (λ _. true) error_reason r.errors [] in
    let out = append_reasons is_serious unknown_reason r.unknowns out in
    let out = append_reasons (λ _. true) unknown_reason r.unknowns out in
    let out = append_reasons (λ l. l.scope == Scope.runtime) limitation_reason r.limitations out in
    append_reasons (λ _. true) limitation_reason r.limitations out

-- The last loop; at the limit it breaks.
unfoldable pub add_main_reasons : List ReviewReason → List ReviewReason → List ReviewReason
unfolding contains_reason
add_main_reasons [] out = out
add_main_reasons (v ∷ vs) out =
    let rest =
      add_main_reasons vs (if contains_reason out v.reference then out else out ++ v ∷ []) in
    if leb max_review_reasons (length out) then out else rest

abbrev pub empty_summary : Report → CoverageSummary → ReviewSummary
empty_summary r coverage = record {
  security_impact = record { level = Severity.informational; reasons = [] };
  evidence_confidence = record {
    level = codes "not-applicable";
    high = 0;
    medium = 0;
    low = 0;
    reasons = [];
  };
  analysis_coverage = coverage;
  unknown_behavior = record {
    level = codes "none";
    unknowns = length r.unknowns;
    limitations = length r.limitations;
    errors = length r.errors;
    reasons = [];
  };
  counts = record { facts = 0; inferences = 0; unknown_behaviors = 0 };
  main_reasons = [];
}

unfoldable pub derive_review_summary : Report → CoverageSummary → ReviewSummary
unfolding count_operations count_resources count_findings count_unknowns settle_confidence
    unknown_level unknown_reasons add_main_reasons
derive_review_summary r coverage =
    let v = count_operations r.operations (empty_summary r coverage) in
    let v = count_resources r.resources v in
    let v = count_findings r.findings (negsuc 0) v in
    let v = settle_confidence r.findings (count_unknowns r.unknowns v) in
    let u = v.unknown_behavior in
    let reasons = unknown_reasons r in
    let impact = v.security_impact in
    record v {
      unknown_behavior = record u { level = unknown_level r; reasons = reasons };
      main_reasons = add_main_reasons reasons (v.main_reasons ++ impact.reasons);
    }

unfoldable pub build_review_summary : CoverageSummary → Report → Result Report
unfolding derive_review_summary
build_review_summary coverage r = do
  validate_coverage_summary coverage
  refuse (not (coverage == coverage_from_inventory r.inventory))
      "analysis coverage does not match inventory dispositions"
  ok (record r { review = some (derive_review_summary r coverage) })

unfoldable pub check_review : ReviewSummary → Report → Check
unfolding derive_review_summary
check_review review r = do
  validate_coverage_summary review.analysis_coverage
  refuse (not (review.analysis_coverage == coverage_from_inventory r.inventory))
      "analysis coverage does not match inventory dispositions"
  refuse (not (review == derive_review_summary r review.analysis_coverage))
      "review summary does not match retained report evidence"

unfoldable pub validate_review_summary : Report → Check
unfolding check_review
validate_review_summary r = elim r.review [
  | none ↦ err "review summary is required"
  | some review ↦ check_review review r
]
