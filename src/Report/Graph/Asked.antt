-- ===== src/Report/Graph/Asked.antt =====
-- The relationships of internal/report/evidence_graph.go that the observations of a report ask for,
-- said without the loops of `BuildEvidenceGraph`.
pub mod Counted
pub mod Listed
use plug_and_prejudice.Prelude.{
  In, List, Text, Text-eq, [], if◌then◌else◌, length, ℕ, ◌+◌, ◌==◌, ◌∷◌, ◌≡◌, ◌≢◌,
}
use plug_and_prejudice.Report.Document.{Report}
use plug_and_prejudice.Report.Graph.Edges.{Edge}
use plug_and_prejudice.Report.Kinds.{ClaimType, NodeKind, RelationshipType}
use plug_and_prejudice.Report.Records.{Finding, Operation, Resource, Unknown}

-- The reference of the last operation that has an identity, or no text.
abbrev pub reference_or : Text → Text → List Operation → Text
reference_or other id [] = other
reference_or other id (o ∷ os) = reference_or (if o.id == id then o.reference else other) id os

-- An edge from an observation to an operation that it names.
abbrev pub edge_from : Report → RelationshipType → NodeKind → Text → Text → Edge
edge_from s type kind source id = record {
  type = type;
  from_kind = kind;
  source = source;
  target = reference_or [] id s.operations;
}

-- A resource asks for an edge to its operation, a finding for one to each related operation, whose
-- type tells an inference from any other claim, and an unknown for one to each affected operation.
pub data AsksFor (s : Report) : Edge → Type 0 where
  of_resource :
      (r : Resource)
      → In r s.resources
      → AsksFor s (
          edge_from s RelationshipType.derived_from NodeKind.resource r.reference
            r.related_operation_id)
  of_inference :
      (f : Finding) (id : Text)
      → In f s.findings
      → In id f.related
      → f.claim ≡ ClaimType.inference
      → AsksFor s (edge_from s RelationshipType.inferred_from NodeKind.finding f.reference id)
  of_finding :
      (f : Finding) (id : Text)
      → In f s.findings
      → In id f.related
      → f.claim ≢ ClaimType.inference
      → AsksFor s (edge_from s RelationshipType.established_by NodeKind.finding f.reference id)
  of_unknown :
      (u : Unknown) (id : Text)
      → In u s.unknowns
      → In id u.affected_operations
      → AsksFor s (edge_from s RelationshipType.unknown_because NodeKind.unknown u.reference id)

-- How many names the elements hold together.
abbrev pub total : {A : Type 0} → (A → List Text) → List A → ℕ
total names [] = 0
total names (x ∷ xs) = length (names x) + total names xs
