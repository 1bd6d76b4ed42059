-- ===== src/Report/Review/Derive/Reasons.antt =====
-- The lists of reasons are short, and the level of unknown behavior says when nothing is unknown.
use plug_and_prejudice.Prelude.{
  Bool, List, Text-eq, [], arith, length, length-append, refl, true, ◌++◌, ◌==◌, ◌∙◌, ◌∷◌, ◌≡◌, ◌≤◌,
}
use plug_and_prejudice.Prelude.Int.{negsuc, ℤ}
use plug_and_prejudice.Report.Document.{CoverageSummary, Report, ReviewReason, ReviewSummary}
use plug_and_prejudice.Report.Kinds.{Scope, Scope-eq}
use plug_and_prejudice.Report.Limits.{max_review_reasons}
use plug_and_prejudice.Report.Records.{Finding, Operation, Resource, Unknown}
use plug_and_prejudice.Report.Review.Derive.{
  add_main_reasons, append_reasons, count_fact, count_findings, count_operations, count_resources,
  count_unknowns, derive_review_summary, empty_summary, settle_confidence, unknown_reasons,
}
use plug_and_prejudice.Report.Review.Derive.Severest.{derive-IsSeverest}
use plug_and_prejudice.Report.Review.Summary.{
  append_review_reason, error_reason, is_serious, limitation_reason, unknown_reason,
}

append_review_reason-few :
    (values : List ReviewReason) (reason : ReviewReason)
    → length values ≤ max_review_reasons
    → length (append_review_reason values reason) ≤ max_review_reasons
unfolding append_review_reason
append_review_reason-few values reason h = ground (arith, length-append values (reason ∷ []))

append_reasons-few {ℓ} :
    {A : Type ℓ} (wanted : A → Bool) (reason : A → ReviewReason) (xs : List A)
    (out : List ReviewReason)
    → length out ≤ max_review_reasons
    → length (append_reasons wanted reason xs out) ≤ max_review_reasons
unfolding append_reasons
append_reasons-few wanted reason [] out h = h
append_reasons-few wanted reason (x ∷ xs) out h =
    append_reasons-few wanted reason xs _
      (ground (arith, append_review_reason-few out (reason x) h))

unknown_reasons-few : (r : Report) → length (unknown_reasons r) ≤ max_review_reasons
unfolding unknown_reasons
unknown_reasons-few r =
    append_reasons-few (λ _. true) limitation_reason r.limitations _
      (append_reasons-few (λ l. l.scope == Scope.runtime) limitation_reason r.limitations _
        (append_reasons-few (λ _. true) unknown_reason r.unknowns _
          (append_reasons-few is_serious unknown_reason r.unknowns _
            (append_reasons-few (λ _. true) error_reason r.errors [] (omega arith)))))

add_main_reasons-few :
    (vs out : List ReviewReason)
    → length out ≤ max_review_reasons
    → length (add_main_reasons vs out) ≤ max_review_reasons
unfolding add_main_reasons
add_main_reasons-few [] out h = h
add_main_reasons-few (v ∷ vs) out h = ground (
  arith,
  length-append out (v ∷ []),
  add_main_reasons-few vs out,
  add_main_reasons-few vs (out ++ v ∷ []),
)

-- The limit of each list of reasons that a summary shows.
pub record AreFew (v : ReviewSummary) : Type 0 where
  pub impact : length v.security_impact.reasons ≤ max_review_reasons
  pub unknown : length v.unknown_behavior.reasons ≤ max_review_reasons
  pub main : length v.main_reasons ≤ max_review_reasons

count_findings-main :
    (fs : List Finding) (rank : ℤ) (v : ReviewSummary)
    → (count_findings fs rank v).main_reasons ≡ v.main_reasons
unfolding count_findings
count_findings-main [] rank v = refl
count_findings-main (f ∷ fs) rank v = count_findings-main fs _ _

count_operations-main :
    (os : List Operation) (v : ReviewSummary)
    → (count_operations os v).main_reasons ≡ v.main_reasons
unfolding count_operations
count_operations-main [] v = refl
count_operations-main (o ∷ os) v = count_operations-main os (count_fact o.confidence v)

count_resources-main :
    (rs : List Resource) (v : ReviewSummary) → (count_resources rs v).main_reasons ≡ v.main_reasons
unfolding count_resources
count_resources-main [] v = refl
count_resources-main (r ∷ rs) v = count_resources-main rs (count_fact r.confidence v)

count_unknowns-main :
    (us : List Unknown) (v : ReviewSummary) → (count_unknowns us v).main_reasons ≡ v.main_reasons
unfolding count_unknowns
count_unknowns-main [] v = refl
count_unknowns-main (u ∷ us) v = count_unknowns-main us _

settle_confidence-main :
    (fs : List Finding) (v : ReviewSummary) → (settle_confidence fs v).main_reasons ≡ v.main_reasons
unfolding settle_confidence
settle_confidence-main fs v = ground arith

main_reasons-nil :
    (r : Report) (v : ReviewSummary)
    → v.main_reasons ≡ []
    → (settle_confidence r.findings (
        count_unknowns r.unknowns (
          count_findings r.findings
            (negsuc 0)
            (count_resources r.resources (count_operations r.operations v))))).main_reasons
      ≡ []
main_reasons-nil r v e =
    settle_confidence-main r.findings _
    ∙ count_unknowns-main r.unknowns _
    ∙ count_findings-main r.findings _ _
    ∙ count_resources-main r.resources _
    ∙ count_operations-main r.operations v
    ∙ e

-- A summary shows at most `maxReviewReasons` reasons for the impact, for what is unknown, and
-- in all.
pub derive-AreFew : (r : Report) (c : CoverageSummary) → AreFew (derive_review_summary r c)
unfolding derive_review_summary
derive-AreFew r c = record {
  impact = (derive-IsSeverest r c).few;
  unknown = unknown_reasons-few r;
  main =
      add_main_reasons-few (unknown_reasons r) _
        (rw (main_reasons-nil r (empty_summary r c) refl) (derive-IsSeverest r c).few);
}
