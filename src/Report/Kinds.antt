-- ===== src/Report/Kinds.antt =====
-- The string types of internal/report/report.go whose values the code tells apart. A constructor
-- stands for a named constant, and `other` for a string that is none of the constants.
use plug_and_prejudice.Prelude.{Text, codes, Text-discrete, Eq, of_discrete}

pub data NodeKind : Type 0 where
  operation resource finding unknown : NodeKind
  other : Text → NodeKind

unfoldable pub NodeKind-discrete : Discrete NodeKind
unfolding Text-discrete
NodeKind-discrete = hlevel Text-discrete

instance abbrev pub NodeKind-eq : Eq NodeKind
NodeKind-eq = of_discrete NodeKind-discrete

pub data RelationshipType : Type 0 where
  derived_from established_by inferred_from unknown_because corroborates disagrees_with duplicates :
      RelationshipType
  other : Text → RelationshipType

unfoldable pub RelationshipType-discrete : Discrete RelationshipType
unfolding Text-discrete
RelationshipType-discrete = hlevel Text-discrete

instance abbrev pub RelationshipType-eq : Eq RelationshipType
RelationshipType-eq = of_discrete RelationshipType-discrete

pub data ClaimType : Type 0 where
  fact inference : ClaimType
  other : Text → ClaimType

unfoldable pub ClaimType-discrete : Discrete ClaimType
unfolding Text-discrete
ClaimType-discrete = hlevel Text-discrete

instance abbrev pub ClaimType-eq : Eq ClaimType
ClaimType-eq = of_discrete ClaimType-discrete

pub data Severity : Type 0 where
  critical high medium low informational : Severity
  other : Text → Severity

unfoldable pub Severity-discrete : Discrete Severity
unfolding Text-discrete
Severity-discrete = hlevel Text-discrete

instance abbrev pub Severity-eq : Eq Severity
Severity-eq = of_discrete Severity-discrete

pub data Confidence : Type 0 where
  high medium low : Confidence
  other : Text → Confidence

unfoldable pub Confidence-discrete : Discrete Confidence
unfolding Text-discrete
Confidence-discrete = hlevel Text-discrete

instance abbrev pub Confidence-eq : Eq Confidence
Confidence-eq = of_discrete Confidence-discrete

pub data Scope : Type 0 where
  runtime tooling unknown : Scope
  other : Text → Scope

unfoldable pub Scope-discrete : Discrete Scope
unfolding Text-discrete
Scope-discrete = hlevel Text-discrete

instance abbrev pub Scope-eq : Eq Scope
Scope-eq = of_discrete Scope-discrete

pub data Status : Type 0 where
  complete incomplete error : Status
  other : Text → Status

unfoldable pub Status-discrete : Discrete Status
unfolding Text-discrete
Status-discrete = hlevel Text-discrete

instance abbrev pub Status-eq : Eq Status
Status-eq = of_discrete Status-discrete

pub data AnalysisDisposition : Type 0 where
  not_applicable analyzed partial unanalyzed : AnalysisDisposition
  other : Text → AnalysisDisposition

unfoldable pub AnalysisDisposition-discrete : Discrete AnalysisDisposition
unfolding Text-discrete
AnalysisDisposition-discrete = hlevel Text-discrete

instance abbrev pub AnalysisDisposition-eq : Eq AnalysisDisposition
AnalysisDisposition-eq = of_discrete AnalysisDisposition-discrete

pub data UnknownReason : Type 0 where
  dynamic_value unsupported_syntax parser_failure budget_exhaustion unreachable_source
        native_behavior unresolved_flow external_binding :
      UnknownReason
  other : Text → UnknownReason

unfoldable pub UnknownReason-discrete : Discrete UnknownReason
unfolding Text-discrete
UnknownReason-discrete = hlevel Text-discrete

instance abbrev pub UnknownReason-eq : Eq UnknownReason
UnknownReason-eq = of_discrete UnknownReason-discrete

pub data OriginKind : Type 0 where
  assignment parameter_expansion property_assignment use_site : OriginKind
  other : Text → OriginKind

unfoldable pub OriginKind-discrete : Discrete OriginKind
unfolding Text-discrete
OriginKind-discrete = hlevel Text-discrete

instance abbrev pub OriginKind-eq : Eq OriginKind
OriginKind-eq = of_discrete OriginKind-discrete

pub data EvidenceSource : Type 0 where
  target_source inventory_metadata omarchy_audit : EvidenceSource
  other : Text → EvidenceSource

unfoldable pub EvidenceSource-discrete : Discrete EvidenceSource
unfolding Text-discrete
EvidenceSource-discrete = hlevel Text-discrete

instance abbrev pub EvidenceSource-eq : Eq EvidenceSource
EvidenceSource-eq = of_discrete EvidenceSource-discrete

pub data EvidenceInputType : Type 0 where
  target omarchy_audit : EvidenceInputType
  other : Text → EvidenceInputType

unfoldable pub EvidenceInputType-discrete : Discrete EvidenceInputType
unfolding Text-discrete
EvidenceInputType-discrete = hlevel Text-discrete

instance abbrev pub EvidenceInputType-eq : Eq EvidenceInputType
EvidenceInputType-eq = of_discrete EvidenceInputType-discrete

-- `string(v)`.
unfoldable pub node_text : NodeKind → Text
node_text NodeKind.operation = codes "operation"
node_text NodeKind.resource = codes "resource"
node_text NodeKind.finding = codes "finding"
node_text NodeKind.unknown = codes "unknown"
node_text (NodeKind.other s) = s

-- `string(v)`.
unfoldable pub relationship_text : RelationshipType → Text
relationship_text RelationshipType.derived_from = codes "derived-from"
relationship_text RelationshipType.established_by = codes "established-by"
relationship_text RelationshipType.inferred_from = codes "inferred-from"
relationship_text RelationshipType.unknown_because = codes "unknown-because"
relationship_text RelationshipType.corroborates = codes "corroborates"
relationship_text RelationshipType.disagrees_with = codes "disagrees-with"
relationship_text RelationshipType.duplicates = codes "duplicates"
relationship_text (RelationshipType.other s) = s

-- `string(v)`.
unfoldable pub scope_text : Scope → Text
scope_text Scope.runtime = codes "runtime"
scope_text Scope.tooling = codes "repository-tooling"
scope_text Scope.unknown = codes "unknown"
scope_text (Scope.other s) = s
