-- ===== src/Analyze/Capabilities/Distinct.antt =====
-- What `deriveCapabilities` keeps: each capability of an operation is there once, and every resource
-- and finding names an operation of the result.
use plug_and_prejudice.Analyze.Capabilities.{
  Derived, Url, add_destructive_finding, add_finding, add_path_resource, add_persistence,
  add_resource, derived_resource, is_new, network_command, persistence_finding, persistence_path,
  resource_key, sensitive_finding, sensitive_path,
}
use plug_and_prejudice.Analyze.Capabilities.Derive.{
  CommandKind, add_command, add_copy, add_domains, add_move, add_network, add_paths, all_but_last,
  by_id, command_kind, copies, cron, deletes, derive_capabilities, derive_operations, last_of,
  literal_domain, moves, other_command, path_operands, reads, services, writes,
}
use plug_and_prejudice.Analyze.Paths.{path_base}
use plug_and_prejudice.Analyze.References.{has}
use plug_and_prejudice.Analyze.Scope.{Analysis}
use plug_and_prejudice.Prelude.{
  ==_refl, All, All-append, All-map, Bool, Bool-cases, In, List, Option, Text, Text-eq, [], ap,
  arith, codes, contains, eqb, false, if◌then◌else◌, inl, inr, length, ltb, map, not, refl, subst,
  sym, true, true-ne-false, ℕ, ◌&&◌, ◌+◌, ◌==◌, ◌∙◌, ◌∷◌, ◌≡◌, ◌≢◌,
}
use plug_and_prejudice.Prelude.Sort.{AreRelated, AreRelated-append, sort-All, sort-AreRelated}
use plug_and_prejudice.Report.Records.{Finding, Operation, Resource}
use plug_and_prejudice.Sandbox.Run.{arguments}

abbrev pub key_of : Resource → Text
key_of r = resource_key r.related_operation_id r.kind r.access r.value

-- The predicates that the two ways to change the result keep are kept by every command.
module _ (I : Derived → Type 0) (o : Operation)
    (resource_step : (kind access value : Text) (sensitive dynamic : Bool) (d : Derived)
      → I d
      → I (add_resource o kind access value sensitive dynamic d))
    (finding_step : (f : Finding) (d : Derived)
      → f.related ≡ o.id ∷ []
      → I d
      → I (add_finding f d)) where
  persistence_step : (mechanism : Text) (d : Derived) → I d → I (add_persistence o mechanism d)
  unfolding add_persistence
  persistence_step mechanism d i =
      finding_step (persistence_finding o mechanism) _ refl
        (resource_step (codes "persistence") (codes "modify") mechanism false o.dynamic d i)

  if_step : (b : Bool) (d e : Derived) → I d → I e → I (if b then d else e)
  if_step true d e i j = i
  if_step false d e i j = j

  path_step : (access value : Text) (d : Derived) → I d → I (add_path_resource o access value d)
  unfolding add_path_resource
  path_step access value d i =
      let sensitive = sensitive_path value in
      let added = is_new o (codes "filesystem-path") access value d in
      let d₁ =
        add_resource o (codes "filesystem-path") access value sensitive
          (contains value (codes "<dynamic>")) d in
      let i₁ =
        resource_step (codes "filesystem-path") access value sensitive
          (contains value (codes "<dynamic>")) d i in
      let i₂ =
        if_step (sensitive && added) (add_finding (sensitive_finding o access value) d₁) d₁
          (finding_step (sensitive_finding o access value) d₁ refl i₁) i₁ in
      if_step (not (access == codes "read") && persistence_path value) _ _
        (persistence_step value _ i₂) i₂

  paths_step :
      (access : Text) (operands : List Text) (d : Derived) → I d → I (add_paths o access operands d)
  unfolding add_paths
  paths_step access [] d i = i
  paths_step access (operand ∷ operands) d i =
      paths_step access operands (add_path_resource o access operand d)
        (path_step access operand d i)

  module _ (parse : Text → Option Url) where
    domains_step :
        (arguments : List Text) (n : ℕ) (d : Derived)
        → I d
        → I (add_domains parse o arguments n d).1
    unfolding add_domains
    domains_step [] n d i = i
    domains_step (argument ∷ arguments) n d i =
        elim (Bool-cases (literal_domain parse argument == [])) [
          | inl e ↦ rw e (domains_step arguments n d i)
          | inr e ↦ rw e (domains_step arguments (n + 1) _ (resource_step _ _ _ _ _ d i))
        ]

    pub network_step : (d : Derived) → I d → I (add_network parse o d)
    unfolding add_network
    network_step d i =
        let j = domains_step o.arguments 0 d i in
        if_step (network_command (path_base o.command)) _ d
          (if_step (eqb (add_domains parse o o.arguments 0 d).0 0 && o.dynamic) _ _
            (resource_step _ _ _ _ _ _ j) j)
          i

    copy_step : (operands : List Text) (d : Derived) → I d → I (add_copy parse o operands d)
    copy_step operands d i =
        if_step (ltb 1 (length operands)) _ d
          (path_step (codes "write") (last_of [] operands) _
            (paths_step (codes "read") (all_but_last operands) d i))
          i

    move_step : (operands : List Text) (d : Derived) → I d → I (add_move parse o operands d)
    move_step [] d i = i
    move_step (first ∷ operands) d i =
        if_step (ltb 0 (length operands)) _ d
          (path_step (codes "write") (last_of first operands) _
            (path_step (codes "delete") first d i))
          i

    pub command_step : (kind : CommandKind) (d : Derived) → I d → I (add_command parse kind o d)
    unfolding add_command add_destructive_finding
    command_step reads d i = paths_step (codes "read") (path_operands parse o.arguments) d i
    command_step writes d i = paths_step (codes "write") (path_operands parse o.arguments) d i
    command_step deletes d i =
        let operands = path_operands parse o.arguments in
        let j = paths_step (codes "delete") operands d i in
        if_step (ltb 0 (length operands)) _ _ (finding_step _ _ refl j) j
    command_step copies d i = copy_step (path_operands parse o.arguments) d i
    command_step moves d i = move_step (path_operands parse o.arguments) d i
    command_step services d i = if_step _ _ d (persistence_step _ d i) i
    command_step cron d i = persistence_step _ d i
    command_step other_command d i = i

-- What holds of the resources and findings at any time, for the operations with these IDs.
abbrev pub IsResolved : List Text → List Resource → List Finding → Type 0
IsResolved ids resources findings =
    AreRelated (λ r s. key_of r ≢ key_of s) resources
    × All (λ r. In r.related_operation_id ids) resources
    × All (λ f. All (λ id. In id ids) f.related) findings

abbrev Resolved : List Text → Derived → Type 0
Resolved ids d =
    IsResolved ids d.resources d.findings × All (λ r. has (key_of r) d.seen ≡ true) d.resources

resource-Resolved :
    (ids : List Text) (o : Operation)
    → In o.id ids
    → (kind access value : Text) (sensitive dynamic : Bool) (d : Derived) → Resolved ids d
    → Resolved ids (add_resource o kind access value sensitive dynamic d)
unfolding add_resource has
resource-Resolved ids o here kind access value sensitive dynamic d
      ((apart, named, findings), known) =
    let key = resource_key o.id kind access value in
    let new = derived_resource o kind access value sensitive dynamic in
    elim (Bool-cases (has key d.seen)) [
      | inl e ↦ rw (e, add_resource) ((apart, named, findings), known)
      | inr e ↦
          let other =
            All-map (λ r. has (key_of r) d.seen ≡ true) (λ r. key_of r ≢ key)
              (λ r h same. true-ne-false (sym h ∙ ap (λ k. has k d.seen) same ∙ e)) d.resources
              known in
          let kept =
            All-map (λ r. has (key_of r) d.seen ≡ true) (λ r. has (key_of r) (key ∷ d.seen) ≡ true)
              (λ r h. ground arith) d.resources known in
          let first : has key (key ∷ d.seen) ≡ true = ground (arith, ==_refl key) in
          rw (e, add_resource)
            (
              (
                AreRelated-append (λ r s. key_of r ≢ key_of s) d.resources new apart other,
                All-append (λ r. In r.related_operation_id ids) d.resources (new ∷ []) named
                    (here, tt),
                findings,
              ),
              All-append (λ r. has (key_of r) (key ∷ d.seen) ≡ true) d.resources (new ∷ []) kept
                  (first, tt),
            )
    ]

finding-Resolved :
    (ids : List Text) (o : Operation)
    → In o.id ids
    → (f : Finding) (d : Derived) → f.related ≡ o.id ∷ []
    → Resolved ids d
    → Resolved ids (add_finding f d)
finding-Resolved ids o here f d related ((apart, named, findings), known) = (
  (
    apart,
    named,
    All-append (λ g. All (λ id. In id ids) g.related) d.findings (f ∷ []) findings
        (subst (All (λ id. In id ids)) (sym related) (here, tt), tt),
  ),
  known,
)

module _ (parse : Text → Option Url) (ids : List Text) where
  derive-Resolved :
      (operations : List Operation) (d : Derived)
      → All (λ o. In o.id ids) operations
      → Resolved ids d
      → Resolved ids (derive_operations parse operations d)
  unfolding derive_operations
  derive-Resolved [] d hs h = h
  derive-Resolved (o ∷ operations) d (here, hs) h = derive-Resolved operations _ hs (
      command_step (Resolved ids) o (resource-Resolved ids o here) (finding-Resolved ids o here)
        parse (command_kind (path_base o.command)) _
        (network_step (Resolved ids) o (resource-Resolved ids o here) (finding-Resolved ids o here)
          parse d h))

All-id :
    (operations : List Operation) (ids : List Text)
    → ((o : Operation) → In o operations → In o.id ids)
    → All (λ o. In o.id ids) operations
All-id [] ids f = tt
All-id (o ∷ operations) ids f = (f o (inl refl), All-id operations ids (λ p i. f p (inr i)))

In-map_id :
    (o : Operation) (operations : List Operation)
    → In o operations
    → In o.id (map (λ p. p.id) operations)
In-map_id o [] i = i
In-map_id o (p ∷ operations) (inl e) = inl (ap (λ q. q.id) e)
In-map_id o (p ∷ operations) (inr i) = inr (In-map_id o operations i)

-- If the analyzers leave no resources, and findings that name operations of the result only, then
-- the capabilities of a result are pairwise different in their operation, kind, access and value, and
-- every resource and finding names operations of the result only.
pub derive_capabilities-IsResolved :
    (parse : Text → Option Url) (result : Analysis)
    → result.resources ≡ []
    → All (λ f. All (λ id. In id (map (λ o. o.id) result.operations)) f.related) result.findings
    → IsResolved
        (map (λ o. o.id) result.operations)
        (derive_capabilities parse result).resources
        (derive_capabilities parse result).findings
unfolding derive_capabilities
derive_capabilities-IsResolved parse result none_yet named =
    let ids = map (λ o. o.id) result.operations in
    let start : Derived = record {
      seen = [];
      resources = result.resources;
      findings = result.findings;
    } in
    let resolved : Resolved ids start =
      subst (λ rs. Resolved ids (record start { resources = rs })) (sym none_yet)
        ((tt, tt, named), tt) in
    let ((apart, known, findings), _) =
      derive-Resolved parse ids result.operations start
        (All-id result.operations ids (λ o i. In-map_id o result.operations i)) resolved in
    let d = derive_operations parse result.operations start in
    (
      sort-AreRelated by_id (λ r s. key_of r ≢ key_of s) (λ a b h e. h (sym e)) d.resources apart,
      sort-All by_id (λ r. In r.related_operation_id ids) d.resources known,
      findings,
    )
