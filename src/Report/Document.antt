-- ===== src/Report/Document.antt =====
-- The report of internal/report/report.go and its summary. Times are numbers of nanoseconds since
-- the zero time. The counters of a summary only count up, so they are natural numbers; the units of
-- a coverage summary are checked for negative values, so they are integers.
use plug_and_prejudice.Prelude.{ℕ, Text, Bool, List, Option}
use plug_and_prejudice.Prelude.Int.{ℤ}
use plug_and_prejudice.Report.Kinds.{Severity, Scope, Status}
use plug_and_prejudice.Report.Records.{
  EvidenceInput, Manifest, File, Operation, Resource, Finding, Unknown, Relationship, Limitation,
  ScanError,
}

pub record ResourceLimits : Type 0 where
  pub memory_max_bytes : ℤ
  pub memory_swap_bytes : ℤ
  pub tasks_max : ℤ
  pub cpu_quota_percent : ℤ
  pub wall_time_seconds : ℤ

pub record ScanMetadata : Type 0 where
  pub scanner_version : Text
  pub policy_version : Text
  pub started_at : ℕ
  pub completed_at : ℕ
  pub sandboxed : Bool
  pub resource_limits : Option ResourceLimits

pub record Target : Type 0 where
  pub display_name : Text
  pub root_digest : Text
  pub file_count : ℤ
  pub read_bytes : ℤ
  pub binary_bytes : ℤ
  pub manifest : Option Manifest

pub record ReviewReason : Type 0 where
  pub reference : Text
  pub title : Text
  pub scope : Scope

pub record ImpactSummary : Type 0 where
  pub level : Severity
  pub reasons : List ReviewReason

pub record ConfidenceSummary : Type 0 where
  pub level : Text
  pub high : ℕ
  pub medium : ℕ
  pub low : ℕ
  pub reasons : List ReviewReason

pub record CoverageSummary : Type 0 where
  pub level : Text
  pub denominator : Text
  pub analyzed_units : ℤ
  pub partial_units : ℤ
  pub unanalyzed_units : ℤ
  pub excluded_units : ℤ
  pub total_units : ℤ
  pub retained_units : ℤ
  pub percentage : Option ℤ

pub record UnknownSummary : Type 0 where
  pub level : Text
  pub unknowns : ℕ
  pub limitations : ℕ
  pub errors : ℕ
  pub reasons : List ReviewReason

pub record ClaimCounts : Type 0 where
  pub facts : ℕ
  pub inferences : ℕ
  pub unknown_behaviors : ℕ

pub record ReviewSummary : Type 0 where
  pub security_impact : ImpactSummary
  pub evidence_confidence : ConfidenceSummary
  pub analysis_coverage : CoverageSummary
  pub unknown_behavior : UnknownSummary
  pub counts : ClaimCounts
  pub main_reasons : List ReviewReason

pub record Report : Type 0 where
  pub schema_version : Text
  pub status : Status
  pub scan : ScanMetadata
  pub target : Target
  pub evidence_inputs : List EvidenceInput
  pub review : Option ReviewSummary
  pub inventory : List File
  pub operations : List Operation
  pub resources : List Resource
  pub findings : List Finding
  pub unknowns : List Unknown
  pub relationships : List Relationship
  pub limitations : List Limitation
  pub errors : List ScanError
