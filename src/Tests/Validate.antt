-- ===== src/Tests/Validate.antt =====
-- The checks of a report at concrete inputs.
use plug_and_prejudice.Prelude.{
  All, List, Result, Text, [], any, codes, eqb, err, false, has_prefix, less, map, ok, pass, refl,
  text_eq, to_lower, ◌++◌, ◌↔◌, ◌∷◌, ◌≡◌, ◌≢◌,
}
use plug_and_prejudice.Prelude.Assoc.{lookup_or_empty}
use plug_and_prejudice.Prelude.Sort.{AreRelated, sort}
use plug_and_prejudice.Report.Document.{Report}
use plug_and_prejudice.Report.Graph.Build.{build_evidence_graph}
use plug_and_prejudice.Report.Graph.References.{assign_all}
use plug_and_prejudice.Report.Graph.View.{public_reference, relationship_id}
use plug_and_prejudice.Report.Kinds.{
  EvidenceInputType, EvidenceInputType-discrete, EvidenceSource, NodeKind, NodeKind-discrete,
  node_text, relationship_text,
}
use plug_and_prejudice.Report.Limits.{
  omarchy_audit_analyzer, omarchy_audit_input_format, omarchy_audit_input_version,
  omarchy_audit_observation_rule, target_evidence_input_format, target_evidence_input_id,
  target_evidence_input_version,
}
use plug_and_prejudice.Report.Records.{EvidenceInput, Provenance}
use plug_and_prejudice.Report.Validate.Bounds.{
  IsWithinLimits, validate_collection_bounds, validate_collection_bounds-pass,
}
use plug_and_prejudice.Report.Validate.Distinct.{duplicate_string-none}
use plug_and_prejudice.Report.Validate.Inputs.{Inputs, supported_policies, validate_evidence_inputs}
use plug_and_prejudice.Report.Validate.Inputs.Bound.{AreBound, validate_evidence_inputs-AreBound}
use plug_and_prejudice.Report.Validate.Paths.{segments, validate_relative_path}
use plug_and_prejudice.Report.Validate.Paths.Safe.{IsProper, validate_relative_path-IsSafe}
use plug_and_prejudice.Report.Validate.Provenance.{
  IsAttributed, RecordKind, duplicate_string, validate_provenance, validate_provenance-IsAttributed,
}
use plug_and_prejudice.Report.Validate.Relationships.{EdgeTuple-discrete, validate_relationships}
use plug_and_prejudice.Report.Validate.Relationships.Complete.{
  IsComplete, validate_relationships-IsComplete,
}
use plug_and_prejudice.Tests.Sample.{sample_digest, sample_report}

result_of : Result Report → Report
result_of (ok s) = s
result_of (err e) = sample_report

abbrev sample_graph : Report
sample_graph = result_of (build_evidence_graph sample_digest sample_report)

abbrev kinds : List (Text × NodeKind)
kinds =
    map (λ o. (o.reference, NodeKind.operation)) sample_graph.operations
    ++ (map (λ o. (o.reference, NodeKind.resource)) sample_graph.resources
        ++ (map (λ o. (o.reference, NodeKind.finding)) sample_graph.findings
            ++ map (λ o. (o.reference, NodeKind.unknown)) sample_graph.unknowns))

passes : validate_relationships sample_digest sample_graph kinds [] ≡ pass
unfolding validate_relationships result_of build_evidence_graph assign_all text_eq public_reference
    node_text relationship_id relationship_text sort less lookup_or_empty NodeKind-discrete
    EdgeTuple-discrete
passes = refl

validate_relationships-IsComplete_example : IsComplete sample_digest sample_graph
validate_relationships-IsComplete_example =
    validate_relationships-IsComplete sample_digest sample_graph kinds [] passes

abbrev raw_provenance : Provenance
raw_provenance = record {
  rule_id = omarchy_audit_observation_rule;
  analyzer = omarchy_audit_analyzer;
  analyzer_version = codes "7";
  evidence_source = EvidenceSource.omarchy_audit;
}

authentic : validate_provenance raw_provenance (codes "1") RecordKind.finding ≡ pass
unfolding validate_provenance text_eq
authentic = refl

validate_provenance-IsAttributed_example :
    IsAttributed raw_provenance (codes "1") RecordKind.finding
validate_provenance-IsAttributed_example =
    validate_provenance-IsAttributed raw_provenance (codes "1") RecordKind.finding authentic

-- 64 digits.
abbrev sample_root : Text
sample_root = codes "00112233445566778899aabbccddeeff00112233445566778899aabbccddeeff"

abbrev sample_inputs : List EvidenceInput
sample_inputs =
    record {
      id = target_evidence_input_id;
      type = EvidenceInputType.target;
      label = codes "target";
      document_sha256 = [];
      subject_root_digest = sample_root;
      format = target_evidence_input_format;
      version = target_evidence_input_version;
    }
    ∷ record {
      id = codes "input-audit";
      type = EvidenceInputType.omarchy_audit;
      label = codes "audit";
      document_sha256 = sample_root;
      subject_root_digest = [];
      format = omarchy_audit_input_format;
      version = omarchy_audit_input_version;
    }
    ∷ []

values_of : Result Inputs → Inputs
values_of (ok values) = values
values_of (err e) = []

abbrev sample_values : Inputs
sample_values = values_of (validate_evidence_inputs sample_root supported_policies sample_inputs)

accepted : validate_evidence_inputs sample_root supported_policies sample_inputs ≡ ok sample_values
unfolding validate_evidence_inputs values_of text_eq to_lower EvidenceInputType-discrete
accepted = refl

validate_evidence_inputs-AreBound_example : AreBound sample_root sample_inputs sample_values
validate_evidence_inputs-AreBound_example =
    validate_evidence_inputs-AreBound sample_root sample_inputs sample_values accepted

relative : validate_relative_path (codes "docs/a.md") ≡ pass
unfolding validate_relative_path text_eq has_prefix
relative = refl

validate_relative_path-IsSafe_example :
    All IsProper (segments (codes "docs/a.md"))
    × (any (eqb b'\\') (codes "docs/a.md") ≡ false)
    × (any (eqb 0) (codes "docs/a.md") ≡ false)
validate_relative_path-IsSafe_example = validate_relative_path-IsSafe (codes "docs/a.md") relative

duplicate_string-none_example :
    (duplicate_string (codes "op-1" ∷ codes "op-2" ∷ codes "op-1" ∷ []) ≡ false)
    ↔ AreRelated (λ a b. a ≢ b) (codes "op-1" ∷ codes "op-2" ∷ codes "op-1" ∷ [])
duplicate_string-none_example =
    duplicate_string-none (codes "op-1" ∷ codes "op-2" ∷ codes "op-1" ∷ [])

validate_collection_bounds-pass_example :
    (validate_collection_bounds sample_report ≡ pass) ↔ IsWithinLimits sample_report
validate_collection_bounds-pass_example = validate_collection_bounds-pass sample_report
