-- ===== src/Analyze/Scope.antt =====
-- `scopeForPath`, `relatedScope` and `annotateScopes` of internal/analyze/scope.go, and the result of
-- the analysis of internal/analyze/shell.go that they annotate.
pub mod Related
use plug_and_prejudice.Analyze.Paths.{tooling_path}
use plug_and_prejudice.Analyze.References.{Contents, has, runtime_referenced_paths}
use plug_and_prejudice.Prelude.{
  List, Option, Text, Text-eq, [], false, if◌then◌else◌, map, none, not, some, true, ◌&&◌, ◌==◌,
  ◌∷◌,
}
use plug_and_prejudice.Prelude.Assoc.{lookup, store}
use plug_and_prejudice.Report.Kinds.{Scope, Scope-eq}
use plug_and_prejudice.Report.Records.{
  Evidence, File, Finding, Limitation, Manifest, Operation, Resource, Unknown,
}
use plug_and_prejudice.Report.Validate.Paths.{clean}

pub record Analysis : Type 0 where
  pub manifest : Option Manifest
  pub operations : List Operation
  pub resources : List Resource
  pub findings : List Finding
  pub unknowns : List Unknown
  pub limitations : List Limitation

unfoldable pub scope_for_path : Text → List Text → Scope
scope_for_path name runtime_references =
    let cleaned = clean name in
    if tooling_path cleaned
    then Scope.tooling
    else if has cleaned runtime_references
    then Scope.runtime
    else Scope.unknown

-- The loop of `relatedScope`, with the scope that is selected so far; the empty text is no scope.
unfoldable pub select_scope : Scope → List Text → List (Text × Scope) → Scope
select_scope selected [] scopes = if selected == Scope.other [] then Scope.unknown else selected
select_scope selected (id ∷ ids) scopes = elim (lookup id scopes) [
  | none ↦ Scope.unknown
  | some scope ↦ elim (selected == Scope.other []) [
    | true ↦ select_scope scope ids scopes
    | false ↦ elim (not (selected == scope)) [
      | true ↦ Scope.unknown
      | false ↦ select_scope selected ids scopes
    ]
  ]
]

unfoldable pub related_scope : List Text → List (Text × Scope) → Scope
unfolding select_scope
related_scope ids scopes = select_scope (Scope.other []) ids scopes

abbrev pub first_evidence : List Evidence → List Text → Scope
first_evidence [] references = Scope.unknown
first_evidence (e ∷ evidence) references = scope_for_path e.path references

-- The scope of a record that names operations, or else has evidence.
unfoldable pub observed_scope : List Text → List Evidence → List (Text × Scope) → List Text → Scope
unfolding related_scope scope_for_path
observed_scope [] evidence scopes references = first_evidence evidence references
observed_scope (id ∷ ids) evidence scopes references = related_scope (id ∷ ids) scopes

abbrev pub annotate_operation : List Text → Operation → Operation
annotate_operation references o = record o { scope = scope_for_path o.evidence.path references }

unfoldable pub operation_scopes : List Operation → List (Text × Scope) → List (Text × Scope)
operation_scopes [] scopes = scopes
operation_scopes (o ∷ operations) scopes = operation_scopes operations (store o.id o.scope scopes)

unfoldable pub annotate_resource : List (Text × Scope) → Resource → Resource
annotate_resource scopes r = record r {
  scope = elim (lookup r.related_operation_id scopes) [ none ↦ Scope.unknown | some scope ↦ scope ];
}

abbrev pub annotate_limitation : List Text → Limitation → Limitation
annotate_limitation references l =
    if l.scope == Scope.other [] && not (l.path == [])
    then record l { scope = scope_for_path l.path references }
    else l

unfoldable pub annotate_scopes : Contents → List File → Analysis → Analysis
unfolding observed_scope operation_scopes annotate_resource
annotate_scopes contents files result =
    let references = runtime_referenced_paths contents files result.manifest in
    let operations = map (annotate_operation references) result.operations in
    let scopes = operation_scopes operations [] in
    record result {
      operations = operations;
      resources = map (annotate_resource scopes) result.resources;
      findings =
          map {A = Finding}
            (λ f. record f { scope = observed_scope f.related f.evidence scopes references })
            result.findings;
      unknowns =
          map {A = Unknown}
            (λ u. record u {
              scope = observed_scope u.affected_operations u.evidence scopes references;
            })
            result.unknowns;
      limitations = map (annotate_limitation references) result.limitations;
    }
