-- ===== src/Report/Comparison.antt =====
-- `AddComparison` of internal/report/evidence_graph.go, with `sameRelationship`.
pub mod Unrelated
pub mod Keeps
use plug_and_prejudice.Prelude.{
  Bool, Eq, List, Option, Result, String, Text, Text-discrete, Text-eq, [], codes, err, false,
  if◌then◌else◌, leb, length, less, none, not, of_discrete, ok, refuse, some, true, ◌&&◌, ◌++◌,
  ◌==◌, ◌>>=◌, ◌>>◌, ◌||◌, ◌∷◌,
}
use plug_and_prejudice.Prelude.Sort.{sort}
use plug_and_prejudice.Report.Document.{Report}
use plug_and_prejudice.Report.Graph.Build.{id_less}
use plug_and_prejudice.Report.Graph.View.{
  NodeView, finding_view, operation_view, relationship_id, resource_view, unknown_view,
}
use plug_and_prejudice.Report.Kinds.{
  NodeKind, NodeKind-eq, RelationshipType, RelationshipType-eq, node_text,
}
use plug_and_prejudice.Report.Limits.{max_produced_evidence_relations}
use plug_and_prejudice.Report.Observations.{
  duplicate_equivalent, first_such, is_coverage_difference_finding, semantic_subject,
}
use plug_and_prejudice.Report.Records.{ComparisonBasis, Relationship}

-- A request for a relationship between two observations.
pub record Comparison : Type 0 where
  pub type : RelationshipType
  pub from_kind : NodeKind
  pub from_id : Text
  pub to_kind : NodeKind
  pub to_id : Text
  pub basis : ComparisonBasis

unfoldable pub ComparisonBasis-discrete : Discrete ComparisonBasis
unfolding Text-discrete
ComparisonBasis-discrete = hlevel Text-discrete

instance abbrev pub ComparisonBasis-eq : Eq ComparisonBasis
ComparisonBasis-eq = of_discrete ComparisonBasis-discrete

abbrev pub same_basis : Option ComparisonBasis → Option ComparisonBasis → Bool
same_basis none none = true
same_basis (some a) (some b) = a == b
same_basis _ _ = false

unfoldable pub same_relationship : Relationship → Relationship → Bool
same_relationship a b =
    a.type == b.type
    && a.from_kind == b.from_kind
    && a.source == b.source
    && a.to_kind == b.to_kind
    && a.target == b.target
    && same_basis a.comparison b.comparison

unfoldable pub is_comparison : RelationshipType → Bool
is_comparison type =
    type == RelationshipType.corroborates
    || type == RelationshipType.disagrees_with
    || type == RelationshipType.duplicates

-- The closure `lookup`: an observation without a reference is as good as none.
abbrev pub reference_of : {A : Type 0} → NodeView A → Text → List A → Option Text
reference_of view id [] = none
reference_of view id (x ∷ xs) =
    if view.id x == id
    then (if view.reference x == [] then none else some (view.reference x))
    else reference_of view id xs

unfoldable pub node_reference : NodeKind → Text → Report → Option Text
node_reference NodeKind.operation id r = reference_of operation_view id r.operations
node_reference NodeKind.resource id r = reference_of resource_view id r.resources
node_reference NodeKind.finding id r = reference_of finding_view id r.findings
node_reference NodeKind.unknown id r = reference_of unknown_view id r.unknowns
node_reference (NodeKind.other t) id r = none

abbrev pub present : Option Text → String → Result Text
present none e = err e
present (some t) e = ok t

-- Two subjects that are known and equal.
unfoldable pub same_subject : Option Text → Option Text → Bool
same_subject (some a) (some b) = a == b
same_subject _ _ = false

unfoldable pub is_subject : Option Text → Text → Bool
is_subject none t = false
is_subject (some s) t = s == t

abbrev pub subject_basis : NodeKind → Option Text → ComparisonBasis
subject_basis kind subject = record {
  kind = node_text kind;
  subject = elim subject [ none ↦ [] | some s ↦ s ];
}

-- The switch over the type: the basis of the relationship, or why it is refused. Its arguments are
-- the two subjects, whether the ends are equivalent, and whether the target is a finding that says
-- how coverage differs.
unfoldable pub accepted_basis :
    Comparison → Option Text → Option Text → Bool → Bool → Result ComparisonBasis
unfolding same_subject is_subject
accepted_basis v from_subject to_subject equivalent differs = elim v.type [
  | RelationshipType.corroborates ↦
      if not (same_subject from_subject to_subject)
        || not (v.from_kind == v.to_kind)
        || not (v.from_kind == NodeKind.operation || v.from_kind == NodeKind.resource)
      then err "corroboration requires compatible observations with the same semantic subject"
      else ok (subject_basis v.from_kind from_subject)
  | RelationshipType.duplicates ↦
      if not (same_subject from_subject to_subject)
        || not (v.from_kind == v.to_kind)
        || not equivalent
      then err "duplication requires equivalent observations of the same kind"
      else ok (subject_basis v.from_kind from_subject)
  | RelationshipType.disagrees_with ↦
      if not (v.basis.kind == codes "coverage")
        || v.basis.subject == []
        || not (is_subject from_subject v.basis.subject)
        || not (v.to_kind == NodeKind.finding)
        || not differs
      then err "disagreement requires an observation and a typed coverage-difference basis"
      else ok v.basis
  | _ ↦ ok v.basis
]

unfoldable pub comparison_basis : Comparison → Report → Result ComparisonBasis
unfolding accepted_basis semantic_subject duplicate_equivalent is_coverage_difference_finding
comparison_basis v r =
    accepted_basis v (semantic_subject v.from_kind v.from_id r)
      (semantic_subject v.to_kind v.to_id r) (duplicate_equivalent v.from_kind v.from_id v.to_id r)
      (is_coverage_difference_finding v.from_kind v.from_id v.to_id r)

module _ (digest : Text → Text) where
  abbrev pub relationship :
      RelationshipType → NodeKind → Text → NodeKind → Text → ComparisonBasis → Relationship
  relationship type from_kind from to_kind to basis = record {
    id = relationship_id digest type from_kind from to_kind to;
    type = type;
    from_kind = from_kind;
    source = from;
    to_kind = to_kind;
    target = to;
    comparison = some basis;
  }

  -- The ends of a symmetric relationship stand in the order of their references.
  unfoldable pub directed : Comparison → Text → Text → ComparisonBasis → Relationship
  directed v from to basis =
      if not (v.type == RelationshipType.disagrees_with) && less to from
      then relationship v.type v.to_kind to v.from_kind from basis
      else relationship v.type v.from_kind from v.to_kind to basis

  -- The relationship that a request stands for.
  unfoldable pub compared : Comparison → Report → Result Relationship
  unfolding is_comparison node_reference comparison_basis directed
  compared v r = do
    refuse (not (is_comparison v.type)) "comparison relationship type is invalid"
    from ← present (node_reference v.from_kind v.from_id r) "comparison source is missing"
    to ← present (node_reference v.to_kind v.to_id r) "comparison target is missing"
    basis ← comparison_basis v r
    ok (directed v from to basis)

-- The end of `addComparisonWithDigest`: a relationship is kept once.
unfoldable pub insert_relationship : Relationship → List Relationship → Result (List Relationship)
unfolding first_such same_relationship
insert_relationship new old = elim (first_such (λ e. e.id == new.id) old) [
  | some existing ↦
      if same_relationship existing new then ok old else err "comparison relationship ID collision"
  | none ↦ do
    refuse (leb max_produced_evidence_relations (length old))
        "evidence relationship production limit exceeded"
    ok (sort id_less (old ++ new ∷ []))
]

module _ (digest : Text → Text) where
  unfoldable pub add_comparison : Comparison → Report → Result Report
  unfolding compared insert_relationship
  add_comparison v r = do
    new ← compared digest v r
    relationships ← insert_relationship new r.relationships
    ok (record r { relationships = relationships })
