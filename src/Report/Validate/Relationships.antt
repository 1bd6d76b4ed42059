-- ===== src/Report/Validate/Relationships.antt =====
-- `validateRelationshipsWithDigest` and `validateComparisonRelationship` of
-- internal/report/validate.go. The state of the loop over the relationships is a record, and a map
-- whose keys are fixed before the loop is the list of its keys with their values: a key that was
-- stored twice stands twice and has the same value at both places.
-- Errors that differ only in their message, by the type of the relationship or by what an identity
-- that is used before belongs to, are one error.
pub mod Complete
pub mod Required
use plug_and_prejudice.Prelude.{
  Bool, Check, Eq, List, Result, Text, Text-discrete, Text-eq, [], any, codes, eqb, err, false,
  if◌then◌else◌, is_some, less, ltb, map, none, not, of_discrete, ok, refuse, some, suc, ℕ, ◌&&◌,
  ◌++◌, ◌==◌, ◌>>=◌, ◌>>◌, ◌||◌, ◌∷◌,
}
use plug_and_prejudice.Prelude.Assoc.{lookup, store}
use plug_and_prejudice.Report.Comparison.{is_subject, same_subject}
use plug_and_prejudice.Report.Document.{Report}
use plug_and_prejudice.Report.Graph.Build.{operation_references}
use plug_and_prejudice.Report.Graph.Edges.{Edge, requested_edges}
use plug_and_prejudice.Report.Graph.View.{relationship_id}
use plug_and_prejudice.Report.Kinds.{
  EvidenceSource, EvidenceSource-eq, NodeKind, NodeKind-discrete, NodeKind-eq, RelationshipType,
  RelationshipType-discrete, RelationshipType-eq, node_text,
}
use plug_and_prejudice.Report.Limits.{
  coverage_comparison_rule, coverage_difference_category, max_comparison_relations,
}
use plug_and_prejudice.Report.Observations.{
  coverage_difference_shape, duplicate_equivalent_by_reference, is_external, same_bool,
  semantic_subject_by_reference,
}
use plug_and_prejudice.Report.Records.{ComparisonBasis, Finding, Provenance, Relationship}

pub record EdgeTuple : Type 0 where
  pub type : RelationshipType
  pub from_kind : NodeKind
  pub source : Text
  pub to_kind : NodeKind
  pub target : Text

unfoldable pub EdgeTuple-discrete : Discrete EdgeTuple
unfolding Text-discrete RelationshipType-discrete NodeKind-discrete
EdgeTuple-discrete = hlevel (Text-discrete, RelationshipType-discrete, NodeKind-discrete)

instance abbrev pub EdgeTuple-eq : Eq EdgeTuple
EdgeTuple-eq = of_discrete EdgeTuple-discrete

abbrev pub tuple_of : Relationship → EdgeTuple
tuple_of r = record {
  type = r.type;
  from_kind = r.from_kind;
  source = r.source;
  to_kind = r.to_kind;
  target = r.target;
}

-- The edges that the resources, findings and unknowns of a report require.
abbrev pub edge_tuple : Edge → EdgeTuple
edge_tuple e = record {
  type = e.type;
  from_kind = e.from_kind;
  source = e.source;
  to_kind = NodeKind.operation;
  target = e.target;
}

unfoldable pub required_edges : Report → List EdgeTuple
unfolding requested_edges operation_references
required_edges r =
    map edge_tuple
      (requested_edges (operation_references r.operations []) r.resources r.findings r.unknowns)

-- The references of the findings that say how coverage differs.
unfoldable pub coverage_findings : List Finding → List Text
coverage_findings [] = []
coverage_findings (f ∷ fs) =
    if f.provenance.rule_id == coverage_comparison_rule
      || f.category == coverage_difference_category
    then f.reference ∷ coverage_findings fs
    else coverage_findings fs

pub record Progress : Type 0 where
  pub required : List (EdgeTuple × Bool)
  pub coverage_incoming : List (Text × ℕ)
  pub seen : List (Text × EdgeTuple)
  pub comparison_pairs : List (Text × RelationshipType)
  pub comparison_count : ℕ

abbrev pub with_value : {A B : Type 0} → B → A → A × B
with_value b a = (a, b)

unfoldable pub no_progress : Report → Progress
unfolding required_edges coverage_findings
no_progress r = record {
  required = map (with_value false) (required_edges r);
  coverage_incoming = map (with_value 0) (coverage_findings r.findings);
  seen = [];
  comparison_pairs = [];
  comparison_count = 0;
}

-- `required[tuple]` is set where the tuple is a key.
abbrev pub mark : EdgeTuple → EdgeTuple × Bool → EdgeTuple × Bool
mark t e = (e.0, e.1 || e.0 == t)

abbrev pub is_required : EdgeTuple → Progress → Bool
is_required t p = any (λ e. e.0 == t) p.required

abbrev pub count_for : Text → Text × ℕ → Text × ℕ
count_for reference e = if e.0 == reference then (e.0, suc e.1) else e

-- What a missing key of the two maps gives.
unfoldable pub kind_of : Text → List (Text × NodeKind) → NodeKind
unfolding lookup
kind_of reference kinds = elim (lookup reference kinds) [ none ↦ NodeKind.other [] | some k ↦ k ]

abbrev pub no_provenance : Provenance
no_provenance = record {
  rule_id = [];
  analyzer = [];
  analyzer_version = [];
  evidence_source = EvidenceSource.other [];
}

unfoldable pub provenance_of : Text → List (Text × Provenance) → Provenance
unfolding lookup
provenance_of reference ps = elim (lookup reference ps) [ none ↦ no_provenance | some p ↦ p ]

abbrev pub same_analyzer : Provenance → Provenance → Bool
same_analyzer a b = a.analyzer == b.analyzer && a.analyzer_version == b.analyzer_version

abbrev pub is_observation : NodeKind → Bool
is_observation kind = kind == NodeKind.operation || kind == NodeKind.resource

-- The ends stand in order, have one kind and one known subject, which the basis names.
unfoldable pub shares_subject : Relationship → ComparisonBasis → Report → Bool
unfolding same_subject is_subject semantic_subject_by_reference
shares_subject v basis r =
    let from_subject = semantic_subject_by_reference v.from_kind v.source r in
    not (less v.target v.source)
    && v.from_kind == v.to_kind
    && same_subject from_subject (semantic_subject_by_reference v.to_kind v.target r)
    && basis.kind == node_text v.from_kind
    && is_subject from_subject basis.subject

unfoldable pub validate_comparison : Report → Relationship → List (Text × Provenance) → Check
unfolding shares_subject provenance_of duplicate_equivalent_by_reference coverage_difference_shape
    is_subject semantic_subject_by_reference
validate_comparison r v ps = elim v.comparison [
  | none ↦ err "typed comparison basis is required"
  | some basis ↦
      let from = provenance_of v.source ps in
      let to = provenance_of v.target ps in
      do
        refuse (basis.kind == [] || basis.subject == []) "typed comparison basis is required"
        elim v.type [
          | RelationshipType.corroborates ↦ do
            refuse (not (shares_subject v basis r && is_observation v.from_kind))
                "corroboration endpoints do not share one compatible semantic subject"
            refuse (same_bool (is_external from) (is_external to) || same_analyzer from to)
                "corroboration requires one local and one independently produced external observation"
          | RelationshipType.duplicates ↦ do
            refuse
                (not (
                  shares_subject v basis r
                  && duplicate_equivalent_by_reference v.from_kind v.source v.target r))
                "duplicate endpoints are not semantically equivalent observations of one kind"
            refuse (not (from.evidence_source == to.evidence_source && same_analyzer from to))
                "duplicates must share one evidence-source and analyzer boundary"
          | RelationshipType.disagrees_with ↦
              refuse
                (not (
                  is_observation v.from_kind
                  && v.to_kind == NodeKind.finding
                  && basis.kind == codes "coverage"
                  && is_subject (semantic_subject_by_reference v.from_kind v.source r) basis.subject
                  && coverage_difference_shape v.from_kind v.source v.target r))
                "disagreement is not an observation-to-coverage-difference comparison"
          | _ ↦ err "invalid comparison type"
        ]
]

-- A disagreement is counted for the finding that it ends in.
unfoldable pub count_disagreement : Relationship → Progress → Result Progress
count_disagreement v p = do
  let counted = map (count_for v.target) p.coverage_incoming
  refuse (not (any (λ e. e.0 == v.target) p.coverage_incoming))
      "relationship targets a finding without the reserved coverage rule and category"
  refuse (any (λ e. e.0 == v.target && ltb 1 e.1) counted)
      "coverage-difference finding has more than one incoming disagreement"
  ok (record p { coverage_incoming = counted })

unfoldable pub add_comparison_pair :
    Report → List (Text × Provenance) → Relationship → Progress → Result Progress
unfolding validate_comparison count_disagreement lookup
add_comparison_pair r ps v p = do
  refuse (ltb max_comparison_relations (suc p.comparison_count))
      "comparison relationship count exceeds accepting limit"
  validate_comparison r v ps
  let next = record p { comparison_count = suc p.comparison_count }
  q ← if v.type == RelationshipType.disagrees_with then count_disagreement v next else ok next
  let pair = v.source ++ 0 ∷ v.target
  refuse (is_some (lookup pair q.comparison_pairs))
      "relationship conflicts with an existing comparison"
  ok (record q { comparison_pairs = store pair v.type q.comparison_pairs })

-- A base relationship has the ends that its type asks for, and is required.
abbrev pub base_relationship : Bool → Relationship → Progress → Result Progress
base_relationship typed v p = do
  refuse (not typed) "relationship has invalid endpoint types"
  refuse (not (is_required (tuple_of v) p)) "relationship is not declared by its source"
  ok p

-- The switch over the type of the relationship, which is the first argument.
unfoldable pub validate_type :
    RelationshipType → Report → List (Text × Provenance) → Relationship → Progress → Result Progress
unfolding add_comparison_pair
validate_type RelationshipType.derived_from r ps v p =
    base_relationship (v.from_kind == NodeKind.resource && v.to_kind == NodeKind.operation) v p
validate_type RelationshipType.established_by r ps v p =
    base_relationship (v.from_kind == NodeKind.finding && v.to_kind == NodeKind.operation) v p
validate_type RelationshipType.inferred_from r ps v p =
    base_relationship (v.from_kind == NodeKind.finding && v.to_kind == NodeKind.operation) v p
validate_type RelationshipType.unknown_because r ps v p =
    base_relationship
      ((v.from_kind == NodeKind.finding || v.from_kind == NodeKind.unknown)
        && v.to_kind == NodeKind.operation)
      v p
validate_type RelationshipType.corroborates r ps v p = add_comparison_pair r ps v p
validate_type RelationshipType.disagrees_with r ps v p = add_comparison_pair r ps v p
validate_type RelationshipType.duplicates r ps v p = add_comparison_pair r ps v p
validate_type (RelationshipType.other t) r ps v p = err "relationship has an invalid type"

module _ (digest : Text → Text) (r : Report) (kinds : List (Text × NodeKind))
    (ps : List (Text × Provenance)) where
  unfoldable pub validate_relationship : Relationship → Progress → Result Progress
  unfolding validate_type kind_of lookup
  validate_relationship v p = do
    refuse (v.id == [] || v.source == [] || v.target == [] || v.source == v.target)
        "relationship identity and distinct endpoints are required"
    refuse (is_some (lookup v.id p.seen)) "duplicate relationship ID"
    refuse (not (kind_of v.source kinds == v.from_kind && kind_of v.target kinds == v.to_kind))
        "relationship has missing or incorrectly typed endpoints"
    refuse (not (v.id == relationship_id digest v.type v.from_kind v.source v.to_kind v.target))
        "relationship does not match its typed endpoints"
    q ← validate_type v.type r ps v (record p { seen = store v.id (tuple_of v) p.seen })
    ok (record q { required = map (mark (tuple_of v)) q.required })

  unfoldable pub validate_each : List Relationship → Progress → Result Progress
  unfolding validate_relationship
  validate_each [] p = ok p
  validate_each (v ∷ vs) p = do q ← validate_relationship v p; validate_each vs q

  unfoldable pub validate_relationships : Check
  unfolding validate_each no_progress
  validate_relationships = do
    p ← validate_each r.relationships (no_progress r)
    refuse (any (λ e. not e.1) p.required) "required evidence relationship is missing"
    refuse (any (λ e. not (eqb e.1 1)) p.coverage_incoming)
        "coverage-difference finding requires exactly one validated incoming disagreement"
