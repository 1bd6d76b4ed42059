-- ===== src/Report/Validate/Bounds.antt =====
-- `validateCollectionBounds` of internal/report/validate.go.
use plug_and_prejudice.Prelude.{
  All-map, Check, List, [], arith, each, each-All, each-eq-ok, length, ltb, ltb→le, pass, refuse,
  refuse-eq-ok, ℕ, ◌↔◌, ◌∷◌, ◌≡◌, ◌≤◌,
}
use plug_and_prejudice.Report.Document.{Report}
use plug_and_prejudice.Report.Limits.{
  max_error_entries, max_evidence_relations, max_finding_entries, max_inventory_entries,
  max_limitation_entries, max_operation_entries, max_resource_entries, max_unknown_entries,
}

-- The collections with their limits, in the order of the code.
abbrev pub bounded_collections : Report → List (ℕ × ℕ)
bounded_collections r =
    (length r.inventory, max_inventory_entries)
    ∷ (length r.operations, max_operation_entries)
    ∷ (length r.resources, max_resource_entries)
    ∷ (length r.findings, max_finding_entries)
    ∷ (length r.unknowns, max_unknown_entries)
    ∷ (length r.relationships, max_evidence_relations)
    ∷ (length r.limitations, max_limitation_entries)
    ∷ (length r.errors, max_error_entries)
    ∷ []

abbrev pub check_bound : ℕ × ℕ → Check
check_bound c = refuse (ltb c.1 c.0) "report collection count exceeds limit"

unfoldable pub validate_collection_bounds : Report → Check
unfolding each
validate_collection_bounds r = each check_bound (bounded_collections r)

-- Every collection is within the limit of its kind.
pub record IsWithinLimits (r : Report) : Type 0 where
  pub inventory : length r.inventory ≤ max_inventory_entries
  pub operations : length r.operations ≤ max_operation_entries
  pub resources : length r.resources ≤ max_resource_entries
  pub findings : length r.findings ≤ max_finding_entries
  pub unknowns : length r.unknowns ≤ max_unknown_entries
  pub relationships : length r.relationships ≤ max_evidence_relations
  pub limitations : length r.limitations ≤ max_limitation_entries
  pub errors : length r.errors ≤ max_error_entries

-- A report passes exactly when its files, operations, resources, findings, unknowns, relationships,
-- limitations and errors are at most as many as the limit of each kind allows.
pub validate_collection_bounds-pass :
    (r : Report) → (validate_collection_bounds r ≡ pass) ↔ IsWithinLimits r
unfolding validate_collection_bounds
validate_collection_bounds-pass r = (
  λ h.
      let (
        files,
        (operations, (resources, (findings, (unknowns, (edges, (notes, (errors, _))))))),
      ) =
        All-map (λ c. check_bound c ≡ pass) (λ c. c.0 ≤ c.1) (λ c k. within c k)
          (bounded_collections r) (each-eq-ok check_bound (bounded_collections r) h) in
      record {
        inventory = files;
        operations = operations;
        resources = resources;
        findings = findings;
        unknowns = unknowns;
        relationships = edges;
        limitations = notes;
        errors = errors;
      },
  λ w. each-All check_bound (bounded_collections r) (
      All-map (λ c. c.0 ≤ c.1) (λ c. check_bound c ≡ pass) (λ c k. passes c k)
        (bounded_collections r)
        (
          w.inventory,
          (
            w.operations,
            (
              w.resources,
              (w.findings, (w.unknowns, (w.relationships, (w.limitations, (w.errors, tt))))),
            ),
          ),
        )),
)
  where
    within : (c : ℕ × ℕ) → check_bound c ≡ pass → c.0 ≤ c.1
    within c k = ltb→le c.1 c.0 (refuse-eq-ok _ _ k)

    passes : (c : ℕ × ℕ) → c.0 ≤ c.1 → check_bound c ≡ pass
    passes c k = ground arith
