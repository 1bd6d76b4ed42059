-- ===== src/Report/Graph/View.antt =====
-- The four kinds of observations behind one interface, and the public names of
-- internal/report/evidence_graph.go.
use plug_and_prejudice.Prelude.{
  Text, codes, if◌then◌else◌, leb, map, refl, take, ℕ, ◌&&◌, ◌++◌, ◌-◌, ◌∷◌, ◌≡◌,
}
use plug_and_prejudice.Prelude.Encoding.{hex}
use plug_and_prejudice.Report.Kinds.{NodeKind, RelationshipType, node_text, relationship_text}
use plug_and_prejudice.Report.Records.{Finding, Operation, Resource, Unknown}

-- What the loops of `BuildEvidenceGraph` read and write of an observation.
pub record NodeView (A : Type 0) : Type 0 where
  pub kind : NodeKind
  pub id : A → Text
  pub reference : A → Text
  pub refer : Text → A → A
  pub reference-refer : (t : Text) (a : A) → reference (refer t a) ≡ t
  pub id-refer : (t : Text) (a : A) → id (refer t a) ≡ id a

abbrev pub operation_view : NodeView Operation
operation_view = record {
  kind = NodeKind.operation;
  id = λ o. o.id;
  reference = λ o. o.reference;
  refer = λ t o. record o { reference = t };
  reference-refer = λ t o. refl;
  id-refer = λ t o. refl;
}

abbrev pub resource_view : NodeView Resource
resource_view = record {
  kind = NodeKind.resource;
  id = λ o. o.id;
  reference = λ o. o.reference;
  refer = λ t o. record o { reference = t };
  reference-refer = λ t o. refl;
  id-refer = λ t o. refl;
}

abbrev pub finding_view : NodeView Finding
finding_view = record {
  kind = NodeKind.finding;
  id = λ o. o.id;
  reference = λ o. o.reference;
  refer = λ t o. record o { reference = t };
  reference-refer = λ t o. refl;
  id-refer = λ t o. refl;
}

abbrev pub unknown_view : NodeView Unknown
unknown_view = record {
  kind = NodeKind.unknown;
  id = λ o. o.id;
  reference = λ o. o.reference;
  refer = λ t o. record o { reference = t };
  reference-refer = λ t o. refl;
  id-refer = λ t o. refl;
}

-- The strings whose digests are the public names.
unfoldable pub node_identity : NodeKind → Text → Text
node_identity kind id = node_text kind ++ 0 ∷ id

unfoldable pub edge_identity : RelationshipType → NodeKind → Text → NodeKind → Text → Text
edge_identity kind from_kind from to_kind to =
    relationship_text kind
    ++ 0 ∷ (node_text from_kind ++ 0 ∷ (from ++ 0 ∷ (node_text to_kind ++ 0 ∷ to)))

-- `upperHex`.
upper_digit : ℕ → ℕ
upper_digit c = if leb b'a' c && leb c b'f' then c - 32 else c

unfoldable pub upper_hex : Text → Text
unfolding hex upper_digit
upper_hex value = map upper_digit (hex value)

module _ (digest : Text → Text) where
  unfoldable pub public_reference : NodeKind → Text → Text
  unfolding node_identity upper_hex
  public_reference kind id = codes "PP-" ++ upper_hex (take 16 (digest (node_identity kind id)))

  unfoldable pub relationship_id : RelationshipType → NodeKind → Text → NodeKind → Text → Text
  unfolding edge_identity upper_hex
  relationship_id kind from_kind from to_kind to =
      codes "PE-" ++ upper_hex (take 16 (digest (edge_identity kind from_kind from to_kind to)))
