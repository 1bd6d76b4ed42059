-- ===== src/Tests/Graph.antt =====
-- The evidence graph at a concrete report.
use plug_and_prejudice.Prelude.{
  In, Result, Text, codes, err, inl, inr, length, ok, refl, text_eq, ◌+◌, ◌↔◌, ◌≡◌, ◌≤◌,
}
use plug_and_prejudice.Prelude.Assoc.{lookup}
use plug_and_prejudice.Prelude.Sort.{IsOrdered}
use plug_and_prejudice.Report.Document.{Report}
use plug_and_prejudice.Report.Graph.Asked.{AsksFor, total}
use plug_and_prejudice.Report.Graph.Build.{build_evidence_graph, id_less}
use plug_and_prejudice.Report.Graph.Edges.{Edge, edge_relationship}
use plug_and_prejudice.Report.Graph.Laws.{
  build_evidence_graph-references, build_evidence_graph-relationships, public_names,
}
use plug_and_prejudice.Report.Graph.References.{assign_all}
use plug_and_prejudice.Report.Graph.View.{node_identity, public_reference, relationship_id}
use plug_and_prejudice.Report.Kinds.{NodeKind, node_text, relationship_text}
use plug_and_prejudice.Report.Limits.{max_produced_evidence_relations}
use plug_and_prejudice.Report.Records.{Relationship}
use plug_and_prejudice.Tests.Sample.{sample_digest, sample_report}

-- The report after the graph is built, whatever it is.
result_of : Result Report → Report
result_of (ok s) = s
result_of (err e) = sample_report

abbrev sample_graph : Report
sample_graph = result_of (build_evidence_graph sample_digest sample_report)

builds : build_evidence_graph sample_digest sample_report ≡ ok sample_graph
unfolding build_evidence_graph result_of assign_all lookup text_eq public_reference node_text
    relationship_id relationship_text
builds = refl

abbrev finding_name : Text
finding_name = public_reference sample_digest NodeKind.finding (codes "find-1")

abbrev finding_identity : Text
finding_identity = node_identity NodeKind.finding (codes "find-1")

named : In (finding_name, finding_identity) (public_names sample_graph)
unfolding build_evidence_graph result_of assign_all lookup text_eq public_reference node_text
    relationship_id relationship_text
named = inr (inr (inl refl))

build_evidence_graph-references_example : finding_identity ≡ finding_identity
build_evidence_graph-references_example =
    build_evidence_graph-references sample_digest sample_report sample_graph builds finding_name
      finding_identity finding_identity named named

build_evidence_graph-relationships_example :
    ((x : Relationship)
      → In x sample_graph.relationships
        ↔ ((e : Edge) × AsksFor sample_graph e × (x ≡ edge_relationship sample_digest e)))
    × (length sample_graph.relationships
        ≡ length sample_graph.resources
          + (total (λ f. f.related) sample_graph.findings
              + total (λ u. u.affected_operations) sample_graph.unknowns))
    × IsOrdered id_less sample_graph.relationships
    × (length sample_graph.relationships ≤ max_produced_evidence_relations)
build_evidence_graph-relationships_example =
    build_evidence_graph-relationships sample_digest sample_report sample_graph builds
