-- ===== src/Report/Limits.antt =====
-- The constants of internal/report/report.go and internal/report/review.go.
use plug_and_prejudice.Prelude.{ℕ, ◌+◌, ◌*◌, ◌^◌, Text, codes}

abbrev pub max_inventory_entries : ℕ
max_inventory_entries = 10_000

abbrev pub max_finding_entries : ℕ
max_finding_entries = 20_000

abbrev pub max_unknown_entries : ℕ
max_unknown_entries = 20_000

abbrev pub max_resource_entries : ℕ
max_resource_entries = 20_000

abbrev pub max_finding_related : ℕ
max_finding_related = 16

abbrev pub max_unknown_affected : ℕ
max_unknown_affected = 16

abbrev pub max_comparison_relations : ℕ
max_comparison_relations = 20_000

abbrev pub max_evidence_inputs : ℕ
max_evidence_inputs = 16

abbrev pub max_evidence_relations : ℕ
max_evidence_relations =
    max_resource_entries
    + max_finding_entries * max_finding_related
    + max_unknown_entries * max_unknown_affected
    + max_comparison_relations

abbrev pub max_produced_evidence_relations : ℕ
max_produced_evidence_relations = 20_000

abbrev pub max_encoded_report_bytes : ℕ
max_encoded_report_bytes = 16 * 2 ^ 20

abbrev pub max_review_reasons : ℕ
max_review_reasons = 8

abbrev pub schema_version : Text
schema_version = codes "2.0.0"

abbrev pub target_evidence_input_id : Text
target_evidence_input_id = codes "input-target"

abbrev pub target_evidence_input_format : Text
target_evidence_input_format = codes "plug-prejudice-inventory"

abbrev pub target_evidence_input_version : Text
target_evidence_input_version = schema_version

abbrev pub omarchy_audit_input_format : Text
omarchy_audit_input_format = codes "omarchy-plugin-audit"

abbrev pub omarchy_audit_input_version : Text
omarchy_audit_input_version = codes "pr8439-732b104"

abbrev pub deterministic_analyzer : Text
deterministic_analyzer = codes "plug-prejudice/deterministic"

abbrev pub omarchy_audit_analyzer : Text
omarchy_audit_analyzer = codes "omarchy/plugin-audit"

abbrev pub external_evidence_binding_category : Text
external_evidence_binding_category = codes "external-evidence-binding"

abbrev pub external_snapshot_binding_rule : Text
external_snapshot_binding_rule = codes "external-snapshot-equivalence/v1"

abbrev pub external_binding_assessment_rule : Text
external_binding_assessment_rule = codes "external-binding-assessment/v1"

abbrev pub omarchy_audit_observation_rule : Text
omarchy_audit_observation_rule = codes "omarchy-audit-observation/v1"

abbrev pub coverage_difference_category : Text
coverage_difference_category = codes "omarchy-audit-coverage-disagreement"

abbrev pub coverage_comparison_rule : Text
coverage_comparison_rule = codes "omarchy-audit-coverage-comparison/v1"

abbrev pub comparison_budget_rule : Text
comparison_budget_rule = codes "omarchy-audit-comparison-budget/v1"

abbrev pub coverage_denominator : Text
coverage_denominator =
    codes "retained supported executable, configuration, archive, and binary artifact files"

abbrev pub max_operation_entries : ℕ
max_operation_entries = 20000

abbrev pub max_limitation_entries : ℕ
max_limitation_entries = 20000

abbrev pub max_error_entries : ℕ
max_error_entries = 10000
