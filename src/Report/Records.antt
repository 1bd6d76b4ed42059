-- ===== src/Report/Records.antt =====
-- The retained records of internal/report/report.go: files, evidence, observations, relationships.
-- Integers that a decoded document may make negative are ℤ. A nil slice is the empty list, and a
-- map is an association list.
use plug_and_prejudice.Prelude.{Text, Bool, List, Option}
use plug_and_prejudice.Prelude.Int.{ℤ}
use plug_and_prejudice.Report.Kinds.{
  NodeKind, RelationshipType, ClaimType, Severity, Confidence, Scope, AnalysisDisposition,
  UnknownReason, OriginKind, EvidenceSource, EvidenceInputType,
}

pub record Evidence : Type 0 where
  pub input_id : Text
  pub path : Text
  pub line_start : ℤ
  pub line_end : ℤ
  pub operation : Text
  pub excerpt : Text

pub record Provenance : Type 0 where
  pub rule_id : Text
  pub analyzer : Text
  pub analyzer_version : Text
  pub evidence_source : EvidenceSource

pub record ComparisonBasis : Type 0 where
  pub kind : Text
  pub subject : Text

pub record EvidenceInput : Type 0 where
  pub id : Text
  pub type : EvidenceInputType
  pub label : Text
  pub document_sha256 : Text
  pub subject_root_digest : Text
  pub format : Text
  pub version : Text

pub record Manifest : Type 0 where
  pub id : Text
  pub name : Text
  pub version : Text
  pub description : Text
  pub kinds : List Text
  pub entry_points : List (Text × Text)

pub record Binary : Type 0 where
  pub format : Text
  pub class : Text
  pub byte_order : Text
  pub machine : Text
  pub type : Text
  pub interpreter : Text
  pub libraries : List Text
  pub imported_symbols : List Text
  pub extracted_strings : List Text
  pub embedded_urls : List Text
  pub file_capabilities : List Text
  pub capability_effective : Bool
  pub setuid : Bool
  pub setgid : Bool
  pub has_symbols : Bool

pub record ArchiveEntry : Type 0 where
  pub path : Text
  pub kind : Text
  pub mode : Text
  pub link_target : Text
  pub size : ℤ
  pub compressed_size : ℤ
  pub unsafe_path : Bool
  pub encrypted : Bool

pub record Archive : Type 0 where
  pub format : Text
  pub entries : List ArchiveEntry
  pub inventory_complete : Bool
  pub retained_uncompressed_bytes : ℤ

pub record File : Type 0 where
  pub path : Text
  pub kind : Text
  pub mode : Text
  pub size : ℤ
  pub sha256 : Text
  pub content_type : Text
  pub link_target : Text
  pub inspected : Bool
  pub skip_reason : Text
  pub analysis : AnalysisDisposition
  pub analysis_reason : Text
  pub binary : Option Binary
  pub archive : Option Archive

pub record Operation : Type 0 where
  pub id : Text
  pub reference : Text
  pub category : Text
  pub scope : Scope
  pub command : Text
  pub arguments : List Text
  pub dynamic : Bool
  pub confidence : Confidence
  pub evidence : Evidence
  pub provenance : Provenance

pub record Resource : Type 0 where
  pub id : Text
  pub reference : Text
  pub kind : Text
  pub access : Text
  pub value : Text
  pub sensitive : Bool
  pub dynamic : Bool
  pub scope : Scope
  pub confidence : Confidence
  pub evidence : Evidence
  pub related_operation_id : Text
  pub provenance : Provenance

pub record Finding : Type 0 where
  pub id : Text
  pub reference : Text
  pub claim : ClaimType
  pub severity : Severity
  pub confidence : Confidence
  pub category : Text
  pub scope : Scope
  pub title : Text
  pub explanation : Text
  pub evidence : List Evidence
  pub related : List Text
  pub provenance : Provenance

pub record ValueOrigin : Type 0 where
  pub kind : OriginKind
  pub name : Text
  pub evidence : Evidence

pub record Unknown : Type 0 where
  pub id : Text
  pub reference : Text
  pub category : Text
  pub reason : UnknownReason
  pub scope : Scope
  pub confidence : Confidence
  pub title : Text
  pub description : Text
  pub evidence : List Evidence
  pub origins : List ValueOrigin
  pub affected_operations : List Text
  pub suppressed_rules : List Text
  pub provenance : Provenance

pub record Relationship : Type 0 where
  pub id : Text
  pub type : RelationshipType
  pub from_kind : NodeKind
  pub source : Text
  pub to_kind : NodeKind
  pub target : Text
  pub comparison : Option ComparisonBasis

pub record Limitation : Type 0 where
  pub code : Text
  pub description : Text
  pub path : Text
  pub scope : Scope

pub record ScanError : Type 0 where
  pub code : Text
  pub message : Text
  pub path : Text
