-- ===== src/Report/Graph/Asked/Counted.antt =====
-- How many edges the loops of `BuildEvidenceGraph` list.
use plug_and_prejudice.Prelude.{
  List, Text, [], ap, ap₂, length, length-append, refl, suc, ◌+◌, ◌∙◌, ◌∷◌, ◌≡◌,
}
use plug_and_prejudice.Report.Document.{Report}
use plug_and_prejudice.Report.Graph.Asked.{total}
use plug_and_prejudice.Report.Graph.Asked.Listed.{listed, refs}
use plug_and_prejudice.Report.Graph.Edges.{
  edges_to, finding_edges, requested_edges, resource_edges, support_type, unknown_edges,
}
use plug_and_prejudice.Report.Graph.References.{Names}
use plug_and_prejudice.Report.Kinds.{NodeKind, RelationshipType}
use plug_and_prejudice.Report.Records.{Finding, Resource, Unknown}

length-edges_to :
    (type : RelationshipType) (kind : NodeKind) (source : Text) (names : Names) (ids : List Text)
    → length (edges_to type kind source names ids) ≡ length ids
length-edges_to type kind source names [] = refl
length-edges_to type kind source names (id ∷ ids) =
    ap suc (length-edges_to type kind source names ids)

length-resource_edges :
    (names : Names) (rs : List Resource) → length (resource_edges names rs) ≡ length rs
unfolding resource_edges
length-resource_edges names [] = refl
length-resource_edges names (r ∷ rs) = ap suc (length-resource_edges names rs)

length-finding_edges :
    (names : Names) (fs : List Finding)
    → length (finding_edges names fs) ≡ total (λ f. f.related) fs
unfolding finding_edges
length-finding_edges names [] = refl
length-finding_edges names (f ∷ fs) =
    length-append (edges_to (support_type f.claim) NodeKind.finding f.reference names f.related) _
    ∙ ap₂ (◌+◌) (length-edges_to _ _ _ names f.related) (length-finding_edges names fs)

length-unknown_edges :
    (names : Names) (us : List Unknown)
    → length (unknown_edges names us) ≡ total (λ u. u.affected_operations) us
unfolding unknown_edges
length-unknown_edges names [] = refl
length-unknown_edges names (u ∷ us) =
    length-append
      (edges_to RelationshipType.unknown_because NodeKind.unknown u.reference names
        u.affected_operations)
      _
    ∙ ap₂ (◌+◌) (length-edges_to _ _ _ names u.affected_operations) (length-unknown_edges names us)

-- How many edges the loops list.
pub length-requested_edges :
    (s : Report)
    → length (listed s)
      ≡ length s.resources
        + (total (λ f. f.related) s.findings + total (λ u. u.affected_operations) s.unknowns)
unfolding requested_edges
length-requested_edges s =
    length-append (resource_edges (refs s) s.resources) _
    ∙ ap₂ (◌+◌) (length-resource_edges (refs s) s.resources) (
        length-append (finding_edges (refs s) s.findings) _
        ∙ ap₂ (◌+◌) (length-finding_edges (refs s) s.findings)
            (length-unknown_edges (refs s) s.unknowns))
