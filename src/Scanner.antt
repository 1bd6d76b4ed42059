-- ===== src/Scanner.antt =====
-- cmd/plug-prejudice/main.go.
pub mod Complete
use plug_and_prejudice.Analyze.Binaries.{analyze_inventory}
use plug_and_prejudice.Analyze.Coverage.{assign_coverage_dispositions}
use plug_and_prejudice.Analyze.Paths.{path_base}
use plug_and_prejudice.Analyze.References.{Contents}
use plug_and_prejudice.Analyze.Scope.{Analysis}
use plug_and_prejudice.Policy.{
  cpu_quota_percent, memory_max_bytes, memory_swap_bytes, second, tasks_max, wall_time,
}
use plug_and_prejudice.Prelude.{
  Bool, List, Option, Result, Text, Text-eq, [], codes, eqb, false, if◌then◌else◌, length, ltb,
  none, not, some, true, ℕ, ◌&&◌, ◌++◌, ◌/◌, ◌==◌, ◌>>=◌, ◌||◌, ◌∷◌,
}
use plug_and_prejudice.Prelude.Int.{ltb_ℤ, pos, ℤ}
use plug_and_prejudice.Report.Document.{CoverageSummary, Report, ResourceLimits}
use plug_and_prejudice.Report.Graph.Build.{build_evidence_graph}
use plug_and_prejudice.Report.Kinds.{EvidenceInputType, Scope, Status, Status-eq}
use plug_and_prejudice.Report.Limits.{
  schema_version, target_evidence_input_format, target_evidence_input_id,
  target_evidence_input_version,
}
use plug_and_prejudice.Report.Records.{File, Limitation, ScanError, Unknown}
use plug_and_prejudice.Report.Review.Derive.{build_review_summary}
use plug_and_prejudice.Report.Validate.Paths.{clean}

unfoldable pub scan_resource_limits : Bool → Option ResourceLimits
scan_resource_limits false = none
scan_resource_limits true = some (record {
  memory_max_bytes = pos memory_max_bytes;
  memory_swap_bytes = pos memory_swap_bytes;
  tasks_max = pos tasks_max;
  cpu_quota_percent = pos cpu_quota_percent;
  wall_time_seconds = pos (wall_time / second);
})

-- What `inventory.Scan` returns.
pub record Scan : Type 0 where
  pub files : List File
  pub contents : Contents
  pub scan_limitations : List Limitation
  pub scan_errors : List ScanError
  pub scan_digest : Text
  pub scan_read_bytes : ℤ
  pub scan_binary_bytes : ℤ

-- The flags and the clock.
pub record Invocation : Type 0 where
  pub target : Text
  pub display_name : Text
  pub sandboxed : Bool
  pub resource_limited : Bool
  pub started : ℕ
  pub completed : ℕ

unfoldable pub target_display_name : Text → Text → Text
unfolding path_base clean
target_display_name target supplied =
    if not (supplied == []) then supplied else path_base (clean target)

unfoldable pub scan_status :
    List Unknown → List ScanError → List Limitation → CoverageSummary → Status
scan_status unknowns errors limitations coverage =
    if ltb 0 (length unknowns)
      || ltb 0 (length errors)
      || ltb 0 (length limitations)
      || ltb_ℤ (pos 0) coverage.excluded_units
      || (not (coverage.level == codes "complete")
          && not (coverage.level == codes "not-applicable"))
    then Status.incomplete
    else Status.complete

abbrev pub incomplete_limitation : Limitation
incomplete_limitation = record {
  code = codes "analysis-coverage-incomplete";
  description =
      codes "At least one retained artifact was only partially analyzed or could not be analyzed.";
  path = [];
  scope = Scope.unknown;
}

abbrev pub is_empty {ℓ} : {A : Type ℓ} → List A → Bool
is_empty xs = eqb (length xs) 0

-- An incomplete report says why.
unfoldable pub explain_status : Report → Report
explain_status r =
    if r.status == Status.incomplete
      && is_empty r.unknowns
      && is_empty r.limitations
      && is_empty r.errors
    then record r { limitations = r.limitations ++ incomplete_limitation ∷ [] }
    else r

-- The report before its graph and its summary, with the coverage that belongs to it. `analysis` is
-- what the analysis of the sources returns.
unfoldable pub assemble : Invocation → Scan → Analysis → Report × CoverageSummary
unfolding scan_status explain_status scan_resource_limits target_display_name
assemble invocation scan sources =
    let analysis = analyze_inventory scan.files scan.contents sources in
    let limitations = scan.scan_limitations ++ analysis.limitations in
    let (files, coverage) =
      assign_coverage_dispositions scan.files scan.contents limitations scan.scan_errors in
    (
      explain_status (record {
        schema_version = schema_version;
        status = scan_status analysis.unknowns scan.scan_errors limitations coverage;
        scan = record {
          scanner_version = codes "development";
          policy_version = codes "deterministic-v1";
          started_at = invocation.started;
          completed_at = invocation.completed;
          sandboxed = invocation.sandboxed;
          resource_limits = scan_resource_limits invocation.resource_limited;
        };
        target = record {
          display_name = target_display_name invocation.target invocation.display_name;
          root_digest = scan.scan_digest;
          file_count = pos (length scan.files);
          read_bytes = scan.scan_read_bytes;
          binary_bytes = scan.scan_binary_bytes;
          manifest = analysis.manifest;
        };
        evidence_inputs =
            record {
              id = target_evidence_input_id;
              type = EvidenceInputType.target;
              label = codes "scanned target";
              subject_root_digest = scan.scan_digest;
              document_sha256 = [];
              format = target_evidence_input_format;
              version = target_evidence_input_version;
            }
            ∷ [];
        review = none;
        inventory = files;
        operations = analysis.operations;
        resources = analysis.resources;
        findings = analysis.findings;
        unknowns = analysis.unknowns;
        relationships = [];
        limitations = limitations;
        errors = scan.scan_errors;
      }),
      coverage,
    )

-- `run` up to the encoding of the report: the usage errors exit with 2, other errors with 1.
unfoldable pub usage_exit : Invocation → ℕ → Bool
usage_exit invocation narg =
    invocation.target == []
    || not (eqb narg 0)
    || (invocation.sandboxed && not invocation.resource_limited)
    || (not invocation.sandboxed && invocation.resource_limited)

unfoldable pub scan_report : (Text → Text) → Invocation → Scan → Analysis → Result Report
unfolding assemble
scan_report digest invocation scan sources = do
  let (report, coverage) = assemble invocation scan sources
  report ← build_evidence_graph digest report
  build_review_summary coverage report
