-- ===== src/Report/Comparison/Unrelated.antt =====
-- A comparison does not depend on the relationships that the report has.
use plug_and_prejudice.Prelude.{List, Text, refl, ◌≡◌}
use plug_and_prejudice.Report.Comparison.{Comparison, compared, comparison_basis, node_reference}
use plug_and_prejudice.Report.Document.{Report}
use plug_and_prejudice.Report.Kinds.{NodeKind}
use plug_and_prejudice.Report.Observations.{
  coverage_difference_shape, duplicate_equivalent, has_opposite_match,
  is_coverage_difference_finding, observations, semantic_subject, semantic_subject_by_reference,
}
use plug_and_prejudice.Report.Records.{Relationship}

module _ (r : Report) (rs : List Relationship) where
  abbrev related : Report
  related = record r { relationships = rs }

  node_reference-related :
      (kind : NodeKind) (id : Text) → node_reference kind id related ≡ node_reference kind id r
  unfolding node_reference
  node_reference-related NodeKind.operation id = refl
  node_reference-related NodeKind.resource id = refl
  node_reference-related NodeKind.finding id = refl
  node_reference-related NodeKind.unknown id = refl
  node_reference-related (NodeKind.other t) id = refl

  semantic_subject-related :
      (kind : NodeKind) (id : Text) → semantic_subject kind id related ≡ semantic_subject kind id r
  unfolding semantic_subject observations
  semantic_subject-related NodeKind.operation id = refl
  semantic_subject-related NodeKind.resource id = refl
  semantic_subject-related NodeKind.finding id = refl
  semantic_subject-related NodeKind.unknown id = refl
  semantic_subject-related (NodeKind.other t) id = refl

  duplicate_equivalent-related :
      (kind : NodeKind) (a b : Text)
      → duplicate_equivalent kind a b related ≡ duplicate_equivalent kind a b r
  unfolding duplicate_equivalent
  duplicate_equivalent-related NodeKind.operation a b = refl
  duplicate_equivalent-related NodeKind.resource a b = refl
  duplicate_equivalent-related NodeKind.finding a b = refl
  duplicate_equivalent-related NodeKind.unknown a b = refl
  duplicate_equivalent-related (NodeKind.other t) a b = refl

  is_coverage-related :
      (kind : NodeKind) (a b : Text)
      → is_coverage_difference_finding kind a b related ≡ is_coverage_difference_finding kind a b r
  unfolding is_coverage_difference_finding coverage_difference_shape observations
      semantic_subject_by_reference has_opposite_match
  is_coverage-related NodeKind.operation a b = refl
  is_coverage-related NodeKind.resource a b = refl
  is_coverage-related NodeKind.finding a b = refl
  is_coverage-related NodeKind.unknown a b = refl
  is_coverage-related (NodeKind.other t) a b = refl

  comparison_basis-related : (v : Comparison) → comparison_basis v related ≡ comparison_basis v r
  unfolding comparison_basis
  comparison_basis-related v = rw (
    semantic_subject-related v.from_kind v.from_id,
    semantic_subject-related v.to_kind v.to_id,
    duplicate_equivalent-related v.from_kind v.from_id v.to_id,
    is_coverage-related v.from_kind v.from_id v.to_id,
  )

  pub compared-related :
      (digest : Text → Text) (v : Comparison) → compared digest v related ≡ compared digest v r
  unfolding compared
  compared-related digest v = rw (
    node_reference-related v.from_kind v.from_id,
    node_reference-related v.to_kind v.to_id,
    comparison_basis-related v,
  )
