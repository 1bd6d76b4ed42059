-- ===== src/Tests/Sample.antt =====
-- A small report: one script with one command, one resource, one finding and one unknown.
use plug_and_prejudice.Prelude.{Text, [], codes, false, none, true, ◌++◌, ◌∷◌}
use plug_and_prejudice.Prelude.Int.{pos}
use plug_and_prejudice.Report.Document.{Report}
use plug_and_prejudice.Report.Kinds.{
  AnalysisDisposition, ClaimType, Confidence, EvidenceSource, Scope, Severity, Status,
  UnknownReason,
}
use plug_and_prejudice.Report.Records.{
  Evidence, File, Finding, Operation, Provenance, Resource, Unknown,
}

abbrev pub sample_evidence : Evidence
sample_evidence = record {
  input_id = [];
  path = codes "install.sh";
  line_start = pos 3;
  line_end = pos 3;
  operation = codes "rm";
  excerpt = codes "rm -r cache";
}

abbrev pub sample_provenance : Text → Provenance
sample_provenance rule = record {
  rule_id = rule;
  analyzer = codes "deterministic";
  analyzer_version = codes "1";
  evidence_source = EvidenceSource.target_source;
}

abbrev pub sample_file : File
sample_file = record {
  path = codes "install.sh";
  kind = codes "regular";
  mode = codes "0644";
  size = pos 11;
  sha256 = codes "00ab";
  content_type = codes "text/x-shellscript";
  link_target = [];
  inspected = true;
  skip_reason = [];
  analysis = AnalysisDisposition.analyzed;
  analysis_reason = [];
  binary = none;
  archive = none;
}

abbrev pub sample_operation : Operation
sample_operation = record {
  id = codes "op-1";
  reference = [];
  category = codes "file-delete";
  scope = Scope.runtime;
  command = codes "rm";
  arguments = codes "-r" ∷ codes "cache" ∷ [];
  dynamic = false;
  confidence = Confidence.high;
  evidence = sample_evidence;
  provenance = sample_provenance (codes "shell");
}

abbrev pub sample_resource : Resource
sample_resource = record {
  id = codes "res-1";
  reference = [];
  kind = codes "path";
  access = codes "delete";
  value = codes "cache";
  sensitive = false;
  dynamic = false;
  scope = Scope.runtime;
  confidence = Confidence.high;
  evidence = sample_evidence;
  related_operation_id = codes "op-1";
  provenance = sample_provenance (codes "shell");
}

abbrev pub sample_finding : Finding
sample_finding = record {
  id = codes "find-1";
  reference = [];
  claim = ClaimType.inference;
  severity = Severity.high;
  confidence = Confidence.medium;
  category = codes "deletion";
  scope = Scope.runtime;
  title = codes "Deletes files";
  explanation = codes "The script deletes a directory.";
  evidence = sample_evidence ∷ [];
  related = codes "op-1" ∷ [];
  provenance = sample_provenance (codes "deletes");
}

abbrev pub sample_unknown : Unknown
sample_unknown = record {
  id = codes "unk-1";
  reference = [];
  category = codes "dynamic";
  reason = UnknownReason.dynamic_value;
  scope = Scope.runtime;
  confidence = Confidence.high;
  title = codes "A dynamic value";
  description = codes "The value is not known.";
  evidence = sample_evidence ∷ [];
  origins = [];
  affected_operations = codes "op-1" ∷ [];
  suppressed_rules = [];
  provenance = sample_provenance (codes "flow");
}

abbrev pub sample_report : Report
sample_report = record {
  schema_version = codes "1.0";
  status = Status.incomplete;
  scan = record {
    scanner_version = codes "1";
    policy_version = codes "1";
    started_at = 1;
    completed_at = 2;
    sandboxed = false;
    resource_limits = none;
  };
  target = record {
    display_name = codes "plugin";
    root_digest = [];
    file_count = pos 1;
    read_bytes = pos 11;
    binary_bytes = pos 0;
    manifest = none;
  };
  evidence_inputs = [];
  review = none;
  inventory = sample_file ∷ [];
  operations = sample_operation ∷ [];
  resources = sample_resource ∷ [];
  findings = sample_finding ∷ [];
  unknowns = sample_unknown ∷ [];
  relationships = [];
  limitations = [];
  errors = [];
}

-- A stand-in for SHA-256 that keeps its input apart.
abbrev pub sample_digest : Text → Text
sample_digest t = t ++ t ++ t
