-- ===== src/Report/Graph/Edges.antt =====
-- The base relationships of `BuildEvidenceGraph`: the closure `appendRelationship` and the three
-- loops that call it. The edges that the loops ask for are listed in their order, and then appended.
use plug_and_prejudice.Prelude.{
  >>-eq-ok, List, Result, Text, [], append-nil, append_assoc, arith, leb, length, length-append,
  map, none, ok, refuse, refuse-eq-ok, subst, sym, ◌++◌, ◌>>◌, ◌∙◌, ◌∷◌, ◌≡◌, ◌≤◌,
}
use plug_and_prejudice.Prelude.Assoc.{lookup, lookup_or_empty, store}
use plug_and_prejudice.Report.Graph.References.{Names, collides}
use plug_and_prejudice.Report.Graph.View.{edge_identity, relationship_id}
use plug_and_prejudice.Report.Kinds.{ClaimType, NodeKind, RelationshipType}
use plug_and_prejudice.Report.Limits.{max_produced_evidence_relations}
use plug_and_prejudice.Report.Records.{Finding, Relationship, Resource, Unknown}

-- The arguments of `appendRelationship`; the other end is an operation.
pub record Edge : Type 0 where
  pub type : RelationshipType
  pub from_kind : NodeKind
  pub source : Text
  pub target : Text

unfoldable pub resource_edges : Names → List Resource → List Edge
resource_edges refs [] = []
resource_edges refs (r ∷ rs) =
    record {
      type = RelationshipType.derived_from;
      from_kind = NodeKind.resource;
      source = r.reference;
      target = lookup_or_empty r.related_operation_id refs;
    }
    ∷ resource_edges refs rs

-- The relationship of a finding to an operation that supports it.
unfoldable pub support_type : ClaimType → RelationshipType
support_type ClaimType.inference = RelationshipType.inferred_from
support_type _ = RelationshipType.established_by

abbrev pub edges_to : RelationshipType → NodeKind → Text → Names → List Text → List Edge
edges_to type kind source refs [] = []
edges_to type kind source refs (id ∷ ids) =
    record { type = type; from_kind = kind; source = source; target = lookup_or_empty id refs }
    ∷ edges_to type kind source refs ids

unfoldable pub finding_edges : Names → List Finding → List Edge
unfolding support_type
finding_edges refs [] = []
finding_edges refs (f ∷ fs) =
    edges_to (support_type f.claim) NodeKind.finding f.reference refs f.related
    ++ finding_edges refs fs

unfoldable pub unknown_edges : Names → List Unknown → List Edge
unknown_edges refs [] = []
unknown_edges refs (u ∷ us) =
    edges_to RelationshipType.unknown_because NodeKind.unknown u.reference refs
      u.affected_operations
    ++ unknown_edges refs us

unfoldable pub requested_edges : Names → List Resource → List Finding → List Unknown → List Edge
unfolding resource_edges finding_edges unknown_edges
requested_edges refs rs fs us =
    resource_edges refs rs ++ (finding_edges refs fs ++ unknown_edges refs us)

module _ (digest : Text → Text) where
  abbrev pub edge_id : Edge → Text
  edge_id e = relationship_id digest e.type e.from_kind e.source NodeKind.operation e.target

  abbrev pub edge_key : Edge → Text
  edge_key e = edge_identity e.type e.from_kind e.source NodeKind.operation e.target

  abbrev pub edge_relationship : Edge → Relationship
  edge_relationship e = record {
    id = edge_id e;
    type = e.type;
    from_kind = e.from_kind;
    source = e.source;
    to_kind = NodeKind.operation;
    target = e.target;
    comparison = none;
  }

  unfoldable pub append_relationships :
      List Edge → Names → List Relationship → Result (List Relationship)
  unfolding collides
  append_relationships [] seen out = ok out
  append_relationships (e ∷ es) seen out = do
    refuse (leb max_produced_evidence_relations (length out))
        "evidence relationship production limit exceeded"
    refuse (collides (edge_key e) (lookup (edge_id e) seen)) "relationship ID collision"
    append_relationships es (store (edge_id e) (edge_key e) seen) (out ++ edge_relationship e ∷ [])

  -- The loops end without an error only with every edge that they ask for, in order, and within the
  -- limit.
  pub append_relationships-eq :
      (es : List Edge) (seen : Names) (out last : List Relationship)
      → length out ≤ max_produced_evidence_relations
      → append_relationships es seen out ≡ ok last
      → (last ≡ out ++ map edge_relationship es) × (length last ≤ max_produced_evidence_relations)
  unfolding append_relationships
  append_relationships-eq [] seen out last fits h =
      let same : out ≡ last = ground arith in
      (
        sym same ∙ sym (append-nil out),
        subst (λ l. length l ≤ max_produced_evidence_relations) same fits,
      )
  append_relationships-eq (e ∷ es) seen out last fits h =
      let (room, h) =
        >>-eq-ok
          (refuse (leb max_produced_evidence_relations (length out))
            "evidence relationship production limit exceeded")
          _ h in
      let (free, h) =
        >>-eq-ok
          (refuse (collides (edge_key e) (lookup (edge_id e) seen)) "relationship ID collision") _
          h in
      let within = refuse-eq-ok _ _ room in
      let (all_of, fits') =
        append_relationships-eq es _ (out ++ edge_relationship e ∷ []) last
          (ground (arith, length-append out (edge_relationship e ∷ []))) h in
      (all_of ∙ append_assoc out (edge_relationship e ∷ []) (map edge_relationship es), fits')
