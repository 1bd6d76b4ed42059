-- ===== src/Report/Review/Derive/Severest.antt =====
-- The security impact of a summary is the highest severity among the findings.
use plug_and_prejudice.Prelude.{
  All, In, List, [], arith, inl, inr, length, length-append, refl, subst, sym, ◌∙◌, ◌∷◌, ◌≡◌, ◌≤◌,
  ◌⊎◌,
}
use plug_and_prejudice.Prelude.Int.{negsuc, ℤ, ◌≤ℤ◌}
use plug_and_prejudice.Report.Document.{CoverageSummary, ImpactSummary, Report, ReviewSummary}
use plug_and_prejudice.Report.Kinds.{Severity}
use plug_and_prejudice.Report.Limits.{max_review_reasons}
use plug_and_prejudice.Report.Records.{Finding, Operation, Resource, Unknown}
use plug_and_prejudice.Report.Review.Derive.{
  Impact, count_claim, count_fact, count_findings, count_operations, count_resources,
  count_unknowns, derive_review_summary, empty_summary, impact_step, settle_confidence,
}
use plug_and_prejudice.Report.Review.Summary.{add_confidence, finding_reason, severity_rank}

-- What the loop variables say of the findings seen so far: `rank` bounds their ranks, and is that
-- of `level` once a severity is known.
pub record IsImpact (rank : ℤ) (s : ImpactSummary) : Type 0 where
  pub starts :
      (rank ≡ negsuc 0) × (s.level ≡ Severity.informational) ⊎ (rank ≡ severity_rank s.level)
  pub few : length s.reasons ≤ max_review_reasons

impact_step-rank :
    (f : Finding) (i : Impact)
    → (severity_rank f.severity ≤ℤ (impact_step f i).rank) × (i.rank ≤ℤ (impact_step f i).rank)
unfolding impact_step
impact_step-rank f i = ground arith

impact_step-few :
    (f : Finding) (i : Impact)
    → IsImpact i.rank i.summary
    → IsImpact (impact_step f i).rank (impact_step f i).summary
unfolding impact_step
impact_step-few f i h = ground (arith, length-append i.summary.reasons (finding_reason f ∷ []))

-- The loop over the findings keeps the rank at or above what it was.
count_findings-grows :
    (fs : List Finding) (rank : ℤ) (v : ReviewSummary)
    → IsImpact rank v.security_impact
    → (last : ℤ) × IsImpact last (count_findings fs rank v).security_impact
      × (rank ≤ℤ last)
      × All (λ f. severity_rank f.severity ≤ℤ last) fs
unfolding count_findings
count_findings-grows [] rank v h = (rank, h, omega arith, tt)
count_findings-grows (f ∷ fs) rank v h =
    let before : Impact = record { rank = rank; summary = v.security_impact } in
    let after = impact_step f before in
    let (own, kept) = impact_step-rank f before in
    let (last, i, grown, rest) =
      count_findings-grows fs after.rank
        (record v {
          security_impact = after.summary;
          evidence_confidence = add_confidence f.confidence v.evidence_confidence;
          counts = count_claim f.claim v.counts;
        })
        (impact_step-few f before h) in
    (last, i, omega arith, (omega arith, rest))

impact_step-level :
    (f : Finding) (i : Impact)
    → ((impact_step f i).summary.level ≡ i.summary.level)
      ⊎ ((impact_step f i).summary.level ≡ f.severity)
unfolding impact_step
impact_step-level f i = ground arith

count_findings-level :
    (fs : List Finding) (rank : ℤ) (v : ReviewSummary)
    → ((count_findings fs rank v).security_impact.level ≡ v.security_impact.level)
      ⊎ ((f : Finding) × In f fs × ((count_findings fs rank v).security_impact.level ≡ f.severity))
unfolding count_findings
count_findings-level [] rank v = inl refl
count_findings-level (f ∷ fs) rank v =
    let before : Impact = record { rank = rank; summary = v.security_impact } in
    let after = impact_step f before in
    elim (count_findings-level fs after.rank (record v {
      security_impact = after.summary;
      evidence_confidence = add_confidence f.confidence v.evidence_confidence;
      counts = count_claim f.claim v.counts;
    })) [
      | inl kept ↦ elim (impact_step-level f before) [
        | inl old ↦ inl (kept ∙ old)
        | inr new ↦ inr (f, inl refl, kept ∙ new)
      ]
      | inr (g, later, e) ↦ inr (g, inr later, e)
    ]

count_operations-impact :
    (os : List Operation) (v : ReviewSummary)
    → (count_operations os v).security_impact ≡ v.security_impact
unfolding count_operations
count_operations-impact [] v = refl
count_operations-impact (o ∷ os) v = count_operations-impact os (count_fact o.confidence v)

count_resources-impact :
    (rs : List Resource) (v : ReviewSummary)
    → (count_resources rs v).security_impact ≡ v.security_impact
unfolding count_resources
count_resources-impact [] v = refl
count_resources-impact (r ∷ rs) v = count_resources-impact rs (count_fact r.confidence v)

count_unknowns-impact :
    (us : List Unknown) (v : ReviewSummary)
    → (count_unknowns us v).security_impact ≡ v.security_impact
unfolding count_unknowns
count_unknowns-impact [] v = refl
count_unknowns-impact (u ∷ us) v = count_unknowns-impact us _

settle_confidence-impact :
    (fs : List Finding) (v : ReviewSummary)
    → (settle_confidence fs v).security_impact ≡ v.security_impact
unfolding settle_confidence
settle_confidence-impact fs v = ground arith

-- The summary before the loop over the findings.
abbrev start : Report → CoverageSummary → ReviewSummary
start r c = count_resources r.resources (count_operations r.operations (empty_summary r c))

start-impact :
    (r : Report) (c : CoverageSummary)
    → (start r c).security_impact ≡ record { level = Severity.informational; reasons = [] }
start-impact r c =
    count_resources-impact r.resources _ ∙ count_operations-impact r.operations (empty_summary r c)

derive-impact :
    (r : Report) (c : CoverageSummary)
    → (derive_review_summary r c).security_impact
      ≡ (count_findings r.findings (negsuc 0) (start r c)).security_impact
unfolding derive_review_summary
derive-impact r c = settle_confidence-impact r.findings _ ∙ count_unknowns-impact r.unknowns _

-- What the security impact says of the findings.
pub record IsSeverest (fs : List Finding) (s : ImpactSummary) : Type 0 where
  pub bounds : All (λ f. severity_rank f.severity ≤ℤ severity_rank s.level) fs
  pub attained :
      (s.level ≡ Severity.informational) ⊎ ((f : Finding) × In f fs × (s.level ≡ f.severity))
  pub few : length s.reasons ≤ max_review_reasons

All-bounds :
    (fs : List Finding) (last top : ℤ)
    → last ≤ℤ top
    → All (λ f. severity_rank f.severity ≤ℤ last) fs
    → All (λ f. severity_rank f.severity ≤ℤ top) fs
All-bounds [] last top h a = tt
All-bounds (f ∷ fs) last top h (a, rest) = (omega arith, All-bounds fs last top h rest)

counted-IsSeverest :
    (fs : List Finding) (v : ReviewSummary)
    → v.security_impact ≡ record { level = Severity.informational; reasons = [] }
    → IsSeverest fs (count_findings fs (negsuc 0) v).security_impact
unfolding severity_rank
counted-IsSeverest fs v e =
    let (last, i, grown, bounded) =
      count_findings-grows fs (negsuc 0) v (record { starts = ground arith; few = ground arith }) in
    record {
      bounds = All-bounds fs _ _ (ground (arith, i.starts)) bounded;
      attained = elim (count_findings-level fs (negsuc 0) v) [
        | inl kept ↦ inl (ground arith)
        | inr found ↦ inr found
      ];
      few = i.few;
    }

-- The level of the security impact is at least the severity of every finding, it is the severity
-- of one of them or informational, and at most `maxReviewReasons` findings are cited for it.
pub derive-IsSeverest :
    (r : Report) (c : CoverageSummary)
    → IsSeverest r.findings (derive_review_summary r c).security_impact
derive-IsSeverest r c =
    subst (IsSeverest r.findings) (sym (derive-impact r c))
      (counted-IsSeverest r.findings (start r c) (start-impact r c))
