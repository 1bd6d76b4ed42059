-- ===== src/Report/Graph/Laws.antt =====
-- What `BuildEvidenceGraph` guarantees of the graph that it builds.
use plug_and_prejudice.Prelude.{
  >>=-eq-ok, All, All-In, All-append, In, In-map, In-mapped, List, Text, [], ap, arith, length,
  length-map, less_asymm, less_ntrans, map, ok, refl, some, subst, sym, ◌++◌, ◌+◌, ◌↔◌, ◌∙◌, ◌∷◌,
  ◌≡◌, ◌≤◌,
}
use plug_and_prejudice.Prelude.Assoc.{lookup}
use plug_and_prejudice.Prelude.Sort.{
  In-of_sort, In-sort, IsOrdered, length-sort, sort, sort-IsOrdered,
}
use plug_and_prejudice.Report.Document.{Report}
use plug_and_prejudice.Report.Graph.Asked.{AsksFor, total}
use plug_and_prejudice.Report.Graph.Asked.Counted.{length-requested_edges}
use plug_and_prejudice.Report.Graph.Asked.Listed.{
  In-requested_edges, listed, requested_edges-AsksFor,
}
use plug_and_prejudice.Report.Graph.Build.{
  bind_evidence_inputs, build_evidence_graph, id_less, operation_references,
}
use plug_and_prejudice.Report.Graph.Edges.{
  Edge, append_relationships, append_relationships-eq, edge_relationship, requested_edges,
}
use plug_and_prejudice.Report.Graph.References.{Names, assign_all, assign_all-IsAssigned}
use plug_and_prejudice.Report.Graph.View.{
  NodeView, finding_view, node_identity, operation_view, resource_view, unknown_view,
}
use plug_and_prejudice.Report.Limits.{max_produced_evidence_relations}
use plug_and_prejudice.Report.Records.{Relationship}

-- The references of observations with the identities that they stand for.
abbrev pub names_of : {A : Type 0} → NodeView A → List A → Names
names_of view [] = []
names_of view (x ∷ xs) = (view.reference x, node_identity view.kind (view.id x)) ∷ names_of view xs

abbrev pub public_names : Report → Names
public_names r =
    names_of operation_view r.operations
    ++ (names_of resource_view r.resources
        ++ (names_of finding_view r.findings ++ names_of unknown_view r.unknowns))

abbrev Recorded : Names → Text × Text → Type 0
Recorded names p = lookup p.0 names ≡ some p.1

names_of-Recorded :
    {A : Type 0} (view : NodeView A) (names last : Names) (ys : List A)
    → ((k v : Text) → lookup k names ≡ some v → lookup k last ≡ some v)
    → All (λ y. lookup (view.reference y) names ≡ some (node_identity view.kind (view.id y))) ys
    → All (Recorded last) (names_of view ys)
names_of-Recorded view names last [] kept h = tt
names_of-Recorded view names last (y ∷ ys) kept (h, hs) =
    (kept _ _ h, names_of-Recorded view names last ys kept hs)

ok_inj : {A : Type 0} (a b : A) → ok a ≡ ok b → a ≡ b
ok_inj a b h = cc

some_inj : {A : Type 0} {a b : A} → some a ≡ some b → a ≡ b
some_inj h = cc

module _ (digest : Text → Text) where
  -- What the successful run of the loops leaves behind.
  record Built (r s : Report) : Type 0 where
    names : Names
    recorded : All (Recorded names) (public_names s)
    edges : List Relationship
    appended :
        append_relationships digest
          (requested_edges (operation_references s.operations []) s.resources s.findings s.unknowns)
          []
          []
        ≡ ok edges
    sorted : s.relationships ≡ sort id_less edges

  built : (r s : Report) → build_evidence_graph digest r ≡ ok s → Built r s
  unfolding build_evidence_graph
  built r s h =
      let (a, ha, h) =
        >>=-eq-ok (assign_all digest operation_view (bind_evidence_inputs r).operations []) _ h in
      let (b, hb, h) =
        >>=-eq-ok (assign_all digest resource_view (bind_evidence_inputs r).resources a.1) _ h in
      let (c, hc, h) =
        >>=-eq-ok (assign_all digest finding_view (bind_evidence_inputs r).findings b.1) _ h in
      let (d, hd, h) =
        >>=-eq-ok (assign_all digest unknown_view (bind_evidence_inputs r).unknowns c.1) _ h in
      let (edges, he, h) =
        >>=-eq-ok
          (append_relationships digest (requested_edges (operation_references a.0 []) b.0 c.0 d.0)
            [] [])
          _ h in
      let ia = assign_all-IsAssigned digest operation_view _ a.0 [] a.1 ha in
      let ib = assign_all-IsAssigned digest resource_view _ b.0 a.1 b.1 hb in
      let ic = assign_all-IsAssigned digest finding_view _ c.0 b.1 c.1 hc in
      let id = assign_all-IsAssigned digest unknown_view _ d.0 c.1 d.1 hd in
      subst (Built r) (ok_inj _ s h) (record {
        names = d.1;
        recorded =
            All-append (Recorded d.1) (names_of operation_view a.0) _
              (names_of-Recorded operation_view a.1 d.1 a.0
                (λ k v f. id.kept k v (ic.kept k v (ib.kept k v f))) ia.recorded)
              (All-append (Recorded d.1) (names_of resource_view b.0) _
                (names_of-Recorded resource_view b.1 d.1 b.0 (λ k v f. id.kept k v (ic.kept k v f))
                  ib.recorded)
                (All-append (Recorded d.1) (names_of finding_view c.0) _
                  (names_of-Recorded finding_view c.1 d.1 c.0 id.kept ic.recorded)
                  (names_of-Recorded unknown_view d.1 d.1 d.0 (λ k v f. f) id.recorded)));
        edges = edges;
        appended = he;
        sorted = refl;
      })

  -- In a graph that is built, one public reference never stands for two identities: observations of
  -- all four kinds that bear the same reference have the same kind and identity. This rests on the
  -- check of collisions, not on the digest, which may be any function.
  pub build_evidence_graph-references :
      (r s : Report)
      → build_evidence_graph digest r ≡ ok s
      → (reference a b : Text) → In (reference, a) (public_names s)
      → In (reference, b) (public_names s)
      → a ≡ b
  build_evidence_graph-references r s h reference a b ha hb =
      let names = (built r s h).names in
      let recorded = (built r s h).recorded in
      let fa = All-In (Recorded names) (reference, a) _ recorded ha in
      let fb = All-In (Recorded names) (reference, b) _ recorded hb in some_inj (sym fa ∙ fb)

  -- The relationships of a graph that is built are exactly the edges that its observations ask for,
  -- with the identities that the digest gives them: one from each resource to its operation, one from
  -- each finding to each related operation, whose type tells whether the finding is an inference, and
  -- one from each unknown to each affected operation. There are as many relationships as names of
  -- operations in these observations, they are in the order of their identities, and their number is
  -- within the limit on their production.
  pub build_evidence_graph-relationships :
      (r s : Report)
      → build_evidence_graph digest r ≡ ok s
      → ((x : Relationship)
          → In x s.relationships ↔ ((e : Edge) × AsksFor s e × (x ≡ edge_relationship digest e)))
        × (length s.relationships
            ≡ length s.resources
              + (total (λ f. f.related) s.findings + total (λ u. u.affected_operations) s.unknowns))
        × IsOrdered id_less s.relationships
        × (length s.relationships ≤ max_produced_evidence_relations)
  build_evidence_graph-relationships r s h =
      let w = built r s h in
      let (same, fits) = append_relationships-eq digest _ [] [] w.edges (omega arith) w.appended in
      let sorted : s.relationships ≡ sort id_less (map (edge_relationship digest) (listed s)) =
        w.sorted ∙ ap (sort id_less) same in
      (
        λ x. (
          λ i.
              let (e, j, is) =
                In-map (edge_relationship digest) x (listed s)
                  (In-of_sort id_less x _ (subst (In x) sorted i)) in
              (e, All-In (AsksFor s) e (listed s) (requested_edges-AsksFor s) j, is),
          λ (e, asked, is). subst (In x) (sym sorted) (
              In-sort id_less x _ (
                subst (λ y. In y (map (edge_relationship digest) (listed s))) (sym is)
                  (In-mapped (edge_relationship digest) e (listed s)
                    (In-requested_edges s e asked)))),
        ),
        ap length sorted
            ∙ length-sort id_less (map (edge_relationship digest) (listed s))
            ∙ length-map (edge_relationship digest) (listed s)
            ∙ length-requested_edges s,
        subst (IsOrdered id_less) (sym w.sorted) (
            sort-IsOrdered id_less (λ a b. less_asymm a.id b.id)
              (λ a b c. less_ntrans a.id b.id c.id) w.edges),
        subst (λ rs. length rs ≤ max_produced_evidence_relations) (sym w.sorted)
            (ground (arith, length-sort id_less w.edges, fits)),
      )
