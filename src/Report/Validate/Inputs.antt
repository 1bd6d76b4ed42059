-- ===== src/Report/Validate/Inputs.antt =====
-- The evidence inputs in internal/report/validate.go: `validateEvidenceInputs` with its policies,
-- `validateEvidence`, `validateAnchoredEvidence`, `validateExternalBindingUnknown`.
pub mod Bound
use plug_and_prejudice.Prelude.{
  Bool, Check, List, Option, Result, Text, Text-eq, [], all, any, eqb, err, false, if◌then◌else◌,
  is_some, leb, length, ltb, none, not, ok, pass, refuse, some, suc, to_lower, true, ℕ, ◌&&◌, ◌==◌,
  ◌>>=◌, ◌>>◌, ◌||◌, ◌∷◌,
}
use plug_and_prejudice.Prelude.Assoc.{lookup, store}
use plug_and_prejudice.Prelude.Int.{eqb_ℤ, ltb_ℤ, pos}
use plug_and_prejudice.Report.Kinds.{
  Confidence, Confidence-eq, EvidenceInputType, EvidenceInputType-eq, EvidenceSource, Scope,
  Scope-eq, UnknownReason, UnknownReason-eq,
}
use plug_and_prejudice.Report.Limits.{
  deterministic_analyzer, external_binding_assessment_rule, external_evidence_binding_category,
  external_snapshot_binding_rule, max_evidence_inputs, omarchy_audit_analyzer,
  omarchy_audit_input_format, omarchy_audit_input_version, target_evidence_input_format,
  target_evidence_input_id, target_evidence_input_version,
}
use plug_and_prejudice.Report.Observations.{first_such, is_external, same_list}
use plug_and_prejudice.Report.Records.{Evidence, EvidenceInput, Provenance, Unknown}
use plug_and_prejudice.Report.Validate.Paths.{validate_relative_path}

pub record ExternalEvidenceInputPolicy : Type 0 where
  pub type : EvidenceInputType
  pub format : Text
  pub version : Text
  pub requires_document_sha256 : Bool
  pub supplies_subject_root_digest : Bool

abbrev pub supported_policies : List ExternalEvidenceInputPolicy
supported_policies =
    record {
      type = EvidenceInputType.omarchy_audit;
      format = omarchy_audit_input_format;
      version = omarchy_audit_input_version;
      requires_document_sha256 = true;
      supplies_subject_root_digest = false;
    }
    ∷ []

abbrev pub applies : EvidenceInput → ExternalEvidenceInputPolicy → Bool
applies i p = i.type == p.type && i.format == p.format && i.version == p.version

-- What `hex.DecodeString` reads into 32 bytes, and `strings.ToLower` keeps.
abbrev pub is_hex_digit : ℕ → Bool
is_hex_digit c = leb b'0' c && leb c b'9' || leb b'a' c && leb c b'f' || leb b'A' c && leb c b'F'

unfoldable pub is_sha256 : Text → Bool
is_sha256 digest = all is_hex_digit digest && eqb (length digest) 64 && to_lower digest == digest

abbrev pub refuse_digest : Text → Check
refuse_digest digest =
    refuse (not (digest == []) && not (is_sha256 digest))
      "evidence input digest must be lowercase SHA-256"

unfoldable pub validate_external_input : List ExternalEvidenceInputPolicy → EvidenceInput → Check
unfolding first_such
validate_external_input policies i = elim (first_such (applies i) policies) [
  | none ↦ err "external evidence input has unsupported identity, format, or version"
  | some policy ↦ do
    refuse (i.id == target_evidence_input_id)
        "external evidence input has unsupported identity, format, or version"
    refuse (policy.requires_document_sha256 && i.document_sha256 == [])
        "external evidence input requires a document SHA-256"
    refuse (not (i.subject_root_digest == []) && not policy.supplies_subject_root_digest)
        "external evidence input format does not supply a subject root digest"
]

-- The switch over the type of the input, which is the first argument.
unfoldable pub validate_input_type :
    EvidenceInputType → List ExternalEvidenceInputPolicy → EvidenceInput → Check
unfolding validate_external_input
validate_input_type EvidenceInputType.target policies i =
    refuse
      (not (i.id == target_evidence_input_id)
        || not (i.format == target_evidence_input_format)
        || not (i.version == target_evidence_input_version)
        || not (i.document_sha256 == [])
        || i.subject_root_digest == [])
      "target evidence input has an invalid identity, format, version, or subject root digest"
validate_input_type EvidenceInputType.omarchy_audit policies i = validate_external_input policies i
validate_input_type (EvidenceInputType.other t) policies i = err "evidence input has invalid type"

abbrev pub Inputs : Type 0
Inputs = List (Text × EvidenceInput)

unfoldable pub binds_target : Text → Inputs → Bool
unfolding lookup
binds_target root values = elim (lookup target_evidence_input_id values) [
  | none ↦ false
  | some target ↦ target.type == EvidenceInputType.target && target.subject_root_digest == root
]

module _ (root : Text) (policies : List ExternalEvidenceInputPolicy) where
  unfoldable pub validate_input : EvidenceInput → Inputs → Check
  unfolding validate_input_type is_sha256 lookup
  validate_input i values = do
    refuse (i.id == [] || i.label == [] || i.format == [] || i.version == [])
        "evidence input identity, label, format, and version are required"
    refuse (is_some (lookup i.id values)) "duplicate evidence input"
    validate_input_type i.type policies i
    refuse_digest i.document_sha256
    refuse_digest i.subject_root_digest
    refuse
        (i.type == EvidenceInputType.omarchy_audit
          && not (i.subject_root_digest == [])
          && not (i.subject_root_digest == root))
        "external evidence input subject root digest does not match the retained target inventory"

  -- The map and the number of target inputs.
  unfoldable pub collect_inputs : List EvidenceInput → Inputs → ℕ → Result (Inputs × ℕ)
  unfolding validate_input
  collect_inputs [] values count = ok (values, count)
  collect_inputs (i ∷ is) values count = do
    validate_input i values
    collect_inputs is (store i.id i values)
        (if i.type == EvidenceInputType.target then suc count else count)

  unfoldable pub validate_evidence_inputs : List EvidenceInput → Result Inputs
  unfolding collect_inputs binds_target
  validate_evidence_inputs inputs = do
    refuse (eqb (length inputs) 0 || ltb max_evidence_inputs (length inputs))
        "report requires a bounded evidence-input declaration"
    collected ← collect_inputs inputs [] 0
    refuse (not (eqb collected.1 1) || not (binds_target root collected.0))
        "target evidence input must identify and bind the retained target inventory"
    ok collected.0

unfoldable pub validate_evidence : Evidence → Check
unfolding validate_relative_path
validate_evidence e = do
  refuse (e.input_id == [] || e.path == []) "evidence input ID and path are required"
  validate_relative_path e.path
  refuse
      (ltb_ℤ e.line_start (pos 0)
        || ltb_ℤ e.line_end (pos 0)
        || (eqb_ℤ e.line_start (pos 0) && not (eqb_ℤ e.line_end (pos 0)))
        || (not (eqb_ℤ e.line_end (pos 0)) && ltb_ℤ e.line_end e.line_start))
      "invalid evidence lines"

abbrev pub anchored_locally : Evidence → EvidenceInput → List Text → Check
anchored_locally e input files = do
  refuse
      (not (input.type == EvidenceInputType.target) || not (e.input_id == target_evidence_input_id))
      "local evidence does not refer to the declared target inventory"
  refuse (not (any (λ f. f == e.path) files)) "local evidence path is absent from target inventory"

-- The switch over the evidence source, which is the first argument.
unfoldable pub anchored : EvidenceSource → Evidence → Provenance → List Text → EvidenceInput → Check
anchored EvidenceSource.target_source e p files input = anchored_locally e input files
anchored EvidenceSource.inventory_metadata e p files input = anchored_locally e input files
anchored EvidenceSource.omarchy_audit e p files input = do
  refuse (not (input.type == EvidenceInputType.omarchy_audit))
      "external evidence does not refer to a declared Omarchy audit input"
  refuse (p.analyzer == omarchy_audit_analyzer && not (p.analyzer_version == input.version))
      "external evidence provenance does not match its declared input"
anchored (EvidenceSource.other t) e p files input = pass

unfoldable pub validate_anchored_evidence : Evidence → Provenance → List Text → Inputs → Check
unfolding validate_evidence anchored lookup
validate_anchored_evidence e p files inputs = do
  validate_evidence e
  elim (lookup e.input_id inputs) [
    | none ↦ err "evidence refers to undeclared input"
    | some input ↦ anchored p.evidence_source e p files input
  ]

-- The sole evidence of the unknown stands in an external input that is not bound.
unfoldable pub unbound_input : List Evidence → Inputs → Result Text
unfolding lookup
unbound_input (e ∷ []) inputs = elim (lookup e.input_id inputs) [
  | none ↦ err "external binding unknown does not identify one snapshot-unbound external input"
  | some input ↦ do
    refuse
        (not (input.type == EvidenceInputType.omarchy_audit)
          || not (input.subject_root_digest == []))
        "external binding unknown does not identify one snapshot-unbound external input"
    ok input.id
]
unbound_input _ inputs = err "external binding unknown has an invalid structural shape"

-- The input that an unknown is about, where it says that an external input is not bound to the
-- target, and nothing where it says no such thing.
unfoldable pub validate_external_binding_unknown : Unknown → Inputs → Result (Option Text)
unfolding unbound_input same_list
validate_external_binding_unknown u inputs =
    if not (
      u.category == external_evidence_binding_category
      || u.reason == UnknownReason.external_binding)
    then ok none
    else (do
      refuse
          (not (
            u.category == external_evidence_binding_category
            && u.reason == UnknownReason.external_binding
            && u.scope == Scope.unknown
            && u.confidence == Confidence.high))
          "external binding unknown has an invalid category, reason, scope, or confidence"
      refuse
          (not (
            eqb (length u.origins) 0
            && eqb (length u.affected_operations) 0
            && same_list u.suppressed_rules (external_snapshot_binding_rule ∷ [])))
          "external binding unknown has an invalid structural shape"
      input ← unbound_input u.evidence inputs
      refuse
          (not (
            u.provenance.rule_id == external_binding_assessment_rule
            && is_external u.provenance
            && u.provenance.analyzer == deterministic_analyzer))
          "external binding unknown provenance is not a local binding assessment"
      ok (some input))
