-- ===== src/Report/Validate/Provenance.antt =====
-- The checks of one observation in internal/report/validate.go: its provenance, its reference, its
-- scope and confidence, the finding that is reserved for coverage differences.
use plug_and_prejudice.Prelude.{
  ==→≡, >>-eq-ok, Bool, Bool-cases, Check, List, Result, Text, Text-eq, [], arith, eqb, err, false,
  if◌then◌else◌, inl, inr, is_some, length, not, ok, pass, refl, refuse, refuse-eq-ok, true, ◌&&◌,
  ◌==◌, ◌>>◌, ◌||◌, ◌∷◌, ◌≡◌, ◌≢◌,
}
use plug_and_prejudice.Prelude.Assoc.{lookup, store}
use plug_and_prejudice.Report.Kinds.{
  ClaimType, ClaimType-eq, Confidence, Confidence-eq, EvidenceSource, NodeKind, Scope, Scope-eq,
  Severity, Severity-eq,
}
use plug_and_prejudice.Report.Limits.{
  comparison_budget_rule, coverage_comparison_rule, coverage_difference_category,
  deterministic_analyzer, external_binding_assessment_rule, omarchy_audit_analyzer,
  omarchy_audit_observation_rule,
}
use plug_and_prejudice.Report.Records.{Finding, Provenance}

pub data RecordKind : Type 0 where
  operation resource finding unknown : RecordKind

-- `oneOf` on the constants of an enumeration: any other string is refused.
abbrev pub is_evidence_source : EvidenceSource → Bool
is_evidence_source (EvidenceSource.other t) = false
is_evidence_source _ = true

abbrev pub is_scope : Scope → Bool
is_scope (Scope.other t) = false
is_scope _ = true

abbrev pub is_confidence : Confidence → Bool
is_confidence (Confidence.other t) = false
is_confidence _ = true

unfoldable pub validate_scope_confidence : Scope → Confidence → Check
validate_scope_confidence scope confidence = do
  refuse (not (is_scope scope)) "invalid scope"
  refuse (not (is_confidence confidence)) "invalid confidence"

-- A rule that the scanner may give to a record of external evidence.
unfoldable pub is_allowed : RecordKind → Text → Bool
is_allowed RecordKind.finding rule = rule == coverage_comparison_rule
is_allowed RecordKind.unknown rule =
    rule == external_binding_assessment_rule || rule == comparison_budget_rule
is_allowed _ rule = false

abbrev pub may_be_raw : RecordKind → Bool
may_be_raw RecordKind.unknown = false
may_be_raw _ = true

unfoldable pub validate_local : Provenance → Text → Check
validate_local p scanner_version =
    refuse
      (not (p.analyzer == deterministic_analyzer) || not (p.analyzer_version == scanner_version))
      "local evidence provenance does not match the trusted scanner identity"

unfoldable pub validate_external : Provenance → Text → RecordKind → Check
unfolding is_allowed
validate_external p scanner_version kind =
    if p.analyzer == omarchy_audit_analyzer
    then refuse (not (p.rule_id == omarchy_audit_observation_rule) || not (may_be_raw kind))
        "raw Omarchy observation provenance has an invalid rule or record kind"
    else if p.analyzer == deterministic_analyzer
    then refuse (not (p.analyzer_version == scanner_version))
        "local external-evidence conclusion does not match the trusted scanner version"
      >> refuse (not (is_allowed kind p.rule_id))
          "local analyzer rule is not permitted to assert this external-evidence record"
    else err "external evidence provenance has an unknown analyzer identity"

-- The switch over the evidence source, which is the first argument.
unfoldable pub validate_source : EvidenceSource → Provenance → Text → RecordKind → Check
unfolding validate_local validate_external
validate_source EvidenceSource.target_source p version kind = validate_local p version
validate_source EvidenceSource.inventory_metadata p version kind = validate_local p version
validate_source EvidenceSource.omarchy_audit p version kind = validate_external p version kind
validate_source (EvidenceSource.other t) p version kind = pass

unfoldable pub validate_provenance : Provenance → Text → RecordKind → Check
unfolding validate_source
validate_provenance p scanner_version kind = do
  refuse (p.rule_id == [] || p.analyzer == [] || p.analyzer_version == [])
      "rule ID, analyzer, and analyzer version provenance are required"
  refuse (not (is_evidence_source p.evidence_source)) "invalid evidence source"
  validate_source p.evidence_source p scanner_version kind

unfoldable pub validate_reserved_coverage_finding : Finding → Text → Check
validate_reserved_coverage_finding f scanner_version = do
  refuse
      (not (
        f.provenance.rule_id == coverage_comparison_rule
        && f.category == coverage_difference_category))
      "coverage comparison rule and coverage-difference category must be used together"
  refuse
      (not (
        f.provenance.analyzer == deterministic_analyzer
        && f.provenance.analyzer_version == scanner_version))
      "coverage-difference finding is not asserted by the trusted scanner"
  refuse
      (not (
        f.claim == ClaimType.fact
        && f.severity == Severity.informational
        && f.confidence == Confidence.high
        && f.scope == Scope.unknown))
      "coverage-difference finding has an invalid claim, severity, confidence, or scope"
  refuse (not (eqb (length f.evidence) 1 && eqb (length f.related) 0))
      "coverage-difference finding must have exactly one evidence record and no related operations"

-- `addReference`: the two maps have the same keys.
unfoldable pub add_reference :
    Text
    → NodeKind
    → Provenance
    → List (Text × NodeKind)
    → List (Text × Provenance)
    → Result (List (Text × NodeKind) × List (Text × Provenance))
unfolding lookup
add_reference reference kind p kinds ps = do
  refuse (reference == []) "public evidence reference is required"
  refuse (is_some (lookup reference kinds)) "duplicate public evidence reference"
  ok (store reference kind kinds, store reference p ps)

-- `duplicateString`, with the map of the values that were seen.
unfoldable pub duplicates_seen : List Text → List (Text × Unit {0}) → Bool
duplicates_seen [] seen = false
duplicates_seen (v ∷ vs) seen = is_some (lookup v seen) || duplicates_seen vs (store v tt seen)

unfoldable pub duplicate_string : List Text → Bool
unfolding duplicates_seen
duplicate_string values = duplicates_seen values []

-- Who may stand behind an observation.
pub data IsAttributed (p : Provenance) (scanner_version : Text) (kind : RecordKind) : Type 0 where
  scanner :
      p.analyzer ≡ deterministic_analyzer
      → p.analyzer_version ≡ scanner_version
      → (p.evidence_source ≡ EvidenceSource.omarchy_audit → is_allowed kind p.rule_id ≡ true)
      → IsAttributed p scanner_version kind
  audit :
      p.evidence_source ≡ EvidenceSource.omarchy_audit
      → p.analyzer ≡ omarchy_audit_analyzer
      → p.rule_id ≡ omarchy_audit_observation_rule
      → kind ≢ RecordKind.unknown
      → IsAttributed p scanner_version kind

module _ (p : Provenance) (version : Text) (kind : RecordKind) where
  local_scanner :
      p.evidence_source ≢ EvidenceSource.omarchy_audit
      → validate_local p version ≡ pass
      → IsAttributed p version kind
  unfolding validate_local
  local_scanner not_external h =
      let valid = refuse-eq-ok _ _ h in
      scanner (==→≡ p.analyzer deterministic_analyzer (ground arith))
        (==→≡ p.analyzer_version version (ground arith)) (λ e. absurd (not_external e))

  raw_unknown : may_be_raw kind ≡ true → kind ≢ RecordKind.unknown
  raw_unknown h e = absurd (cc (rw e at h))

  -- What is asked of a conclusion of the scanner from external evidence.
  abbrev concluded : Check
  concluded =
      refuse (not (p.analyzer_version == version))
        "local external-evidence conclusion does not match the trusted scanner version"
      >> refuse (not (is_allowed kind p.rule_id))
          "local analyzer rule is not permitted to assert this external-evidence record"

  external_scanner :
      (if p.analyzer == deterministic_analyzer
          then concluded
          else err "external evidence provenance has an unknown analyzer identity")
        ≡ pass
      → (p.analyzer ≡ deterministic_analyzer)
        × (p.analyzer_version ≡ version)
        × (is_allowed kind p.rule_id ≡ true)
  external_scanner h = elim (Bool-cases (p.analyzer == deterministic_analyzer)) [
    | inl own ↦
        let (same, allowed) =
          >>-eq-ok (refuse (not (p.analyzer_version == version)) _) _ (rw own at h) in
        let same = refuse-eq-ok _ _ same in
        let allowed = refuse-eq-ok _ _ allowed in
        (
          ==→≡ p.analyzer deterministic_analyzer own,
          ==→≡ p.analyzer_version version (ground arith),
          ground arith,
        )
    | inr other ↦ absurd (cc (rw other at h))
  ]

  external-IsAttributed :
      p.evidence_source ≡ EvidenceSource.omarchy_audit
      → validate_external p version kind ≡ pass
      → IsAttributed p version kind
  unfolding validate_external
  external-IsAttributed source h = elim (Bool-cases (p.analyzer == omarchy_audit_analyzer)) [
    | inl raw ↦
        let valid = refuse-eq-ok _ _ (rw raw at h) in
        audit source (==→≡ p.analyzer omarchy_audit_analyzer raw)
          (==→≡ p.rule_id omarchy_audit_observation_rule (ground arith))
          (λ e. raw_unknown (ground arith) e)
    | inr other ↦
        let (own, same, allowed) = external_scanner (rw other at h) in
        scanner own same (λ e. allowed)
  ]

  attributed :
      (source : EvidenceSource)
      → p.evidence_source ≡ source
      → is_evidence_source source ≡ true
      → validate_source source p version kind ≡ pass
      → IsAttributed p version kind
  unfolding validate_source
  attributed EvidenceSource.target_source e known h = local_scanner (λ k. cc (e, k)) h
  attributed EvidenceSource.inventory_metadata e known h = local_scanner (λ k. cc (e, k)) h
  attributed EvidenceSource.omarchy_audit e known h = external-IsAttributed e h
  attributed (EvidenceSource.other t) e known h = absurd (cc known)

  -- An observation that passes is attributed to this version of the scanner, which may draw on an
  -- external audit only under the rules for its kind of record, or it is a raw observation of the
  -- audit, which is never an unknown.
  pub validate_provenance-IsAttributed :
      validate_provenance p version kind ≡ pass → IsAttributed p version kind
  unfolding validate_provenance
  validate_provenance-IsAttributed h =
      let (_, h) =
        >>-eq-ok (refuse (p.rule_id == [] || p.analyzer == [] || p.analyzer_version == []) _) _ h in
      let (known, h) = >>-eq-ok (refuse (not (is_evidence_source p.evidence_source)) _) _ h in
      let source = refuse-eq-ok _ _ known in attributed p.evidence_source refl (ground arith) h
