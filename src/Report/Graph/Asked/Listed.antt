-- ===== src/Report/Graph/Asked/Listed.antt =====
-- The loops of `BuildEvidenceGraph` list exactly the edges that are asked for.
use plug_and_prejudice.Prelude.{
  All, All-append, In, In-append_left, In-append_right, List, Text, Text-eq, [], ap, arith,
  if◌then◌else◌, inl, inr, refl, subst, sym, ◌++◌, ◌==◌, ◌∙◌, ◌∷◌, ◌≡◌, ◌≢◌, ◌⊎◌,
}
use plug_and_prejudice.Prelude.Assoc.{lookup, lookup_or_empty, store}
use plug_and_prejudice.Report.Document.{Report}
use plug_and_prejudice.Report.Graph.Asked.{
  AsksFor, edge_from, of_finding, of_inference, of_resource, of_unknown, reference_or,
}
use plug_and_prejudice.Report.Graph.Build.{operation_references}
use plug_and_prejudice.Report.Graph.Edges.{
  Edge, edges_to, finding_edges, requested_edges, resource_edges, support_type, unknown_edges,
}
use plug_and_prejudice.Report.Graph.References.{Names}
use plug_and_prejudice.Report.Kinds.{ClaimType, NodeKind, RelationshipType}
use plug_and_prejudice.Report.Records.{Finding, Operation, Resource, Unknown}

lookup_or_empty-store :
    (k j v : Text) (m : Names)
    → lookup_or_empty k (store j v m) ≡ (if j == k then v else lookup_or_empty k m)
unfolding lookup_or_empty lookup
lookup_or_empty-store k j v m = ground arith

lookup-operation_references :
    (id : Text) (os : List Operation) (refs : Names)
    → lookup_or_empty id (operation_references os refs)
      ≡ reference_or (lookup_or_empty id refs) id os
unfolding operation_references
lookup-operation_references id [] refs = refl
lookup-operation_references id (o ∷ os) refs =
    lookup-operation_references id os (store o.id o.reference refs)
    ∙ ap (λ t. reference_or t id os) (lookup_or_empty-store id o.id o.reference refs)

abbrev IsSupport : ClaimType → Type 0
IsSupport c =
    ((c ≡ ClaimType.inference) × (support_type c ≡ RelationshipType.inferred_from))
    ⊎ ((c ≢ ClaimType.inference) × (support_type c ≡ RelationshipType.established_by))

module _ (s : Report) where
  abbrev pub refs : Names
  refs = operation_references s.operations []

  -- The edges of the loops have the targets that are asked for.
  named : (id : Text) → lookup_or_empty id refs ≡ reference_or [] id s.operations
  unfolding lookup_or_empty lookup
  named id = lookup-operation_references id s.operations []

  edges_to-All :
      (type : RelationshipType) (kind : NodeKind) (source : Text) (ids : List Text)
      → (P : Edge → Type 0) → ((id : Text) → In id ids → P (edge_from s type kind source id))
      → All P (edges_to type kind source refs ids)
  edges_to-All type kind source [] P h = tt
  edges_to-All type kind source (id ∷ ids) P h = (
    subst (λ t. P (record { type = type; from_kind = kind; source = source; target = t }))
        (sym (named id)) (h id (inl refl)),
    edges_to-All type kind source ids P (λ i m. h i (inr m)),
  )

  In-edges_to :
      (type : RelationshipType) (kind : NodeKind) (source id : Text) (ids : List Text)
      → In id ids
      → In (edge_from s type kind source id) (edges_to type kind source refs ids)
  In-edges_to type kind source id [] i = absurd i
  In-edges_to type kind source id (other ∷ ids) (inl e) = inl (
      ap (λ (t : Text). record { type = type; from_kind = kind; source = source; target = t })
        (sym (named id) ∙ ap (λ n. lookup_or_empty n refs) e))
  In-edges_to type kind source id (other ∷ ids) (inr i) =
      inr (In-edges_to type kind source id ids i)

  resource-All :
      (rs : List Resource)
      → ((r : Resource) → In r rs → In r s.resources)
      → All (AsksFor s) (resource_edges refs rs)
  unfolding resource_edges
  resource-All [] h = tt
  resource-All (r ∷ rs) h = (
    subst
        (λ t. AsksFor s (record {
          type = RelationshipType.derived_from;
          from_kind = NodeKind.resource;
          source = r.reference;
          target = t;
        }))
        (sym (named r.related_operation_id)) (of_resource r (h r (inl refl))),
    resource-All rs (λ x i. h x (inr i)),
  )

  supported : (f : Finding) → IsSupport f.claim
  unfolding support_type
  supported f = go f.claim
    where
      go : (c : ClaimType) → IsSupport c
      go ClaimType.inference = inl (refl, refl)
      go ClaimType.fact = inr (λ e. cc, refl)
      go (ClaimType.other t) = inr (λ e. cc, refl)

  finding-asks :
      (f : Finding) (id : Text)
      → In f s.findings
      → In id f.related
      → AsksFor s (edge_from s (support_type f.claim) NodeKind.finding f.reference id)
  finding-asks f id i j = elim (supported f) [
    | inl (claim, type) ↦ rw type (of_inference f id i j claim)
    | inr (claim, type) ↦ rw type (of_finding f id i j claim)
  ]

  finding-All :
      (fs : List Finding)
      → ((f : Finding) → In f fs → In f s.findings)
      → All (AsksFor s) (finding_edges refs fs)
  unfolding finding_edges
  finding-All [] h = tt
  finding-All (f ∷ fs) h =
      All-append (AsksFor s) _ (finding_edges refs fs)
        (edges_to-All (support_type f.claim) NodeKind.finding f.reference f.related (AsksFor s)
          (λ id j. finding-asks f id (h f (inl refl)) j))
        (finding-All fs (λ x i. h x (inr i)))

  unknown-All :
      (us : List Unknown)
      → ((u : Unknown) → In u us → In u s.unknowns)
      → All (AsksFor s) (unknown_edges refs us)
  unfolding unknown_edges
  unknown-All [] h = tt
  unknown-All (u ∷ us) h =
      All-append (AsksFor s) _ (unknown_edges refs us)
        (edges_to-All RelationshipType.unknown_because NodeKind.unknown u.reference
          u.affected_operations (AsksFor s) (λ id j. of_unknown u id (h u (inl refl)) j))
        (unknown-All us (λ x i. h x (inr i)))

  In-resource_edges :
      (r : Resource) (rs : List Resource)
      → In r rs
      → In
          (edge_from s RelationshipType.derived_from NodeKind.resource r.reference
            r.related_operation_id)
          (resource_edges refs rs)
  unfolding resource_edges
  In-resource_edges r [] i = absurd i
  In-resource_edges r (x ∷ rs) (inl e) = inl (
      ap
        (λ (t : Text). record {
          type = RelationshipType.derived_from;
          from_kind = NodeKind.resource;
          source = r.reference;
          target = t;
        })
        (sym (named r.related_operation_id))
      ∙ ap
          (λ (y : Resource). record {
            type = RelationshipType.derived_from;
            from_kind = NodeKind.resource;
            source = y.reference;
            target = lookup_or_empty y.related_operation_id refs;
          })
          e)
  In-resource_edges r (x ∷ rs) (inr i) = inr (In-resource_edges r rs i)

  In-finding_edges :
      (f : Finding) (id : Text) (fs : List Finding)
      → In f fs
      → In id f.related
      → In
          (edge_from s (support_type f.claim) NodeKind.finding f.reference id)
          (finding_edges refs fs)
  unfolding finding_edges
  In-finding_edges f id [] i j = absurd i
  In-finding_edges f id (x ∷ fs) (inl e) j =
      subst
        (λ (y : Finding). In (edge_from s (support_type f.claim) NodeKind.finding f.reference id) (
          edges_to (support_type y.claim) NodeKind.finding y.reference refs y.related
          ++ finding_edges refs fs))
        e
        (In-append_left _ _ (finding_edges refs fs)
          (In-edges_to (support_type f.claim) NodeKind.finding f.reference id f.related j))
  In-finding_edges f id (x ∷ fs) (inr i) j =
      In-append_right _
        (edges_to (support_type x.claim) NodeKind.finding x.reference refs x.related)
        (finding_edges refs fs) (In-finding_edges f id fs i j)

  In-unknown_edges :
      (u : Unknown) (id : Text) (us : List Unknown)
      → In u us
      → In id u.affected_operations
      → In
          (edge_from s RelationshipType.unknown_because NodeKind.unknown u.reference id)
          (unknown_edges refs us)
  unfolding unknown_edges
  In-unknown_edges u id [] i j = absurd i
  In-unknown_edges u id (x ∷ us) (inl e) j =
      subst
        (λ (y : Unknown).
          In (edge_from s RelationshipType.unknown_because NodeKind.unknown u.reference id) (
            edges_to RelationshipType.unknown_because NodeKind.unknown y.reference refs
              y.affected_operations
            ++ unknown_edges refs us))
        e
        (In-append_left _ _ (unknown_edges refs us) (
          In-edges_to RelationshipType.unknown_because NodeKind.unknown u.reference id
            u.affected_operations j))
  In-unknown_edges u id (x ∷ us) (inr i) j =
      In-append_right _
        (edges_to RelationshipType.unknown_because NodeKind.unknown x.reference refs
          x.affected_operations)
        (unknown_edges refs us) (In-unknown_edges u id us i j)

  abbrev pub listed : List Edge
  listed = requested_edges refs s.resources s.findings s.unknowns

  -- The loops list nothing but what is asked for.
  pub requested_edges-AsksFor : All (AsksFor s) listed
  unfolding requested_edges
  requested_edges-AsksFor =
      All-append (AsksFor s) (resource_edges refs s.resources) _
        (resource-All s.resources (λ r i. i))
        (All-append (AsksFor s) (finding_edges refs s.findings) _
          (finding-All s.findings (λ f i. i)) (unknown-All s.unknowns (λ u i. i)))

  finding-listed :
      (f : Finding) (id : Text)
      → In f s.findings
      → In id f.related
      → (type : RelationshipType) → support_type f.claim ≡ type
      → In (edge_from s type NodeKind.finding f.reference id) listed
  unfolding requested_edges
  finding-listed f id i j type e =
      subst (λ t. In (edge_from s t NodeKind.finding f.reference id) listed) e
        (In-append_right _ (resource_edges refs s.resources) _ (
          In-append_left _ (finding_edges refs s.findings) _
            (In-finding_edges f id s.findings i j)))

  -- The loops list all that is asked for.
  pub In-requested_edges : (e : Edge) → AsksFor s e → In e listed
  unfolding requested_edges
  In-requested_edges e (of_resource r i) =
      In-append_left _ (resource_edges refs s.resources) _ (In-resource_edges r s.resources i)
  In-requested_edges e (of_inference f id i j claim) =
      let type : support_type f.claim ≡ RelationshipType.inferred_from = elim (supported f) [
        | inl (_, same) ↦ same
        | inr (differs, _) ↦ absurd (differs claim)
      ] in
      finding-listed f id i j _ type
  In-requested_edges e (of_finding f id i j claim) =
      let type : support_type f.claim ≡ RelationshipType.established_by = elim (supported f) [
        | inl (same, _) ↦ absurd (claim same)
        | inr (_, other) ↦ other
      ] in
      finding-listed f id i j _ type
  In-requested_edges e (of_unknown u id i j) =
      In-append_right _ (resource_edges refs s.resources) _
        (In-append_right _ (finding_edges refs s.findings) _ (In-unknown_edges u id s.unknowns i j))
