-- ===== src/Report/Graph/Build.antt =====
-- `BuildEvidenceGraph` and `bindEvidenceInputs` of internal/report/evidence_graph.go. On an error the
-- caller gives the report up, so the references that were assigned before it are not kept.
use plug_and_prejudice.Prelude.{
  Bool, List, Result, Text, Text-eq, [], if◌then◌else◌, less, map, not, ok, ◌&&◌, ◌==◌, ◌>>=◌, ◌||◌,
  ◌∷◌,
}
use plug_and_prejudice.Prelude.Assoc.{store}
use plug_and_prejudice.Prelude.Sort.{sort}
use plug_and_prejudice.Report.Document.{Report}
use plug_and_prejudice.Report.Graph.Edges.{append_relationships, requested_edges}
use plug_and_prejudice.Report.Graph.References.{Names, assign_all}
use plug_and_prejudice.Report.Graph.View.{finding_view, operation_view, resource_view, unknown_view}
use plug_and_prejudice.Report.Kinds.{
  EvidenceInputType, EvidenceInputType-eq, EvidenceSource, EvidenceSource-eq,
}
use plug_and_prejudice.Report.Limits.{target_evidence_input_id}
use plug_and_prejudice.Report.Records.{
  Evidence, EvidenceInput, Finding, Operation, Provenance, Relationship, Resource, Unknown,
  ValueOrigin,
}

-- The external input with the smallest identity, or no text.
unfoldable pub external_input : List EvidenceInput → Text → Text
external_input [] external = external
external_input (i ∷ rest) external = external_input rest (
    if i.type == EvidenceInputType.omarchy_audit && (external == [] || less i.id external)
    then i.id
    else external)

unfoldable pub bind : Text → Provenance → Evidence → Evidence
bind external p v =
    if not (v.input_id == [])
    then v
    else if p.evidence_source == EvidenceSource.omarchy_audit
    then record v { input_id = external }
    else record v { input_id = target_evidence_input_id }

module _ (external : Text) where
  abbrev bind_operation : Operation → Operation
  bind_operation o = record o { evidence = bind external o.provenance o.evidence }

  abbrev bind_resource : Resource → Resource
  bind_resource o = record o { evidence = bind external o.provenance o.evidence }

  abbrev bind_finding : Finding → Finding
  bind_finding o = record o { evidence = map (bind external o.provenance) o.evidence }

  abbrev bind_origin : Provenance → ValueOrigin → ValueOrigin
  bind_origin p o = record o { evidence = bind external p o.evidence }

  abbrev bind_unknown : Unknown → Unknown
  bind_unknown o = record o {
    evidence = map (bind external o.provenance) o.evidence;
    origins = map (bind_origin o.provenance) o.origins;
  }

unfoldable pub bind_evidence_inputs : Report → Report
unfolding external_input bind
bind_evidence_inputs r =
    let external = external_input r.evidence_inputs [] in
    record r {
      operations = map (bind_operation external) r.operations;
      resources = map (bind_resource external) r.resources;
      findings = map (bind_finding external) r.findings;
      unknowns = map (bind_unknown external) r.unknowns;
    }

-- `operationReferences`: the last operation of an identity gives its reference.
unfoldable pub operation_references : List Operation → Names → Names
operation_references [] refs = refs
operation_references (o ∷ os) refs = operation_references os (store o.id o.reference refs)

abbrev pub id_less : Relationship → Relationship → Bool
id_less a b = less a.id b.id

module _ (digest : Text → Text) where
  unfoldable pub build_evidence_graph : Report → Result Report
  unfolding bind_evidence_inputs operation_references append_relationships requested_edges
  build_evidence_graph r = do
    let bound = bind_evidence_inputs r
    (operations, names) ← assign_all digest operation_view bound.operations []
    (resources, names) ← assign_all digest resource_view bound.resources names
    (findings, names) ← assign_all digest finding_view bound.findings names
    (unknowns, names) ← assign_all digest unknown_view bound.unknowns names
    let refs = operation_references operations []
    relationships ←
        append_relationships digest (requested_edges refs resources findings unknowns) [] []
    ok (record bound {
      operations = operations;
      resources = resources;
      findings = findings;
      unknowns = unknowns;
      relationships = sort id_less relationships;
    })
