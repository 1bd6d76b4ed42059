-- ===== src/Report/Observations.antt =====
-- What comparisons read of a report: the lookups of internal/report/evidence_graph.go and of
-- internal/report/validate.go that search the operations or the resources, as the kind says.
use native.Mathlib.Decide.{ℕ_discrete}
use plug_and_prejudice.Prelude.{
  Bool, Eq, List, Option, Text, Text-discrete, Text-eq, [], any, codes, eqb, false, if◌then◌else◌,
  length, map, none, not, of_discrete, some, true, ◌&&◌, ◌++◌, ◌==◌, ◌||◌, ◌∷◌,
}
use plug_and_prejudice.Report.Document.{Report}
use plug_and_prejudice.Report.Kinds.{
  ClaimType, ClaimType-eq, Confidence, Confidence-eq, EvidenceInputType, EvidenceInputType-eq,
  EvidenceSource, EvidenceSource-eq, NodeKind, NodeKind-eq, Scope, Scope-eq, Severity, Severity-eq,
}
use plug_and_prejudice.Report.Limits.{
  coverage_comparison_rule, coverage_difference_category, deterministic_analyzer,
}
use plug_and_prejudice.Report.Records.{
  Evidence, EvidenceInput, Finding, Operation, Provenance, Resource,
}
use plug_and_prejudice.Report.Subject.{resource_comparison_subject}

unfoldable pub Evidence-discrete : Discrete Evidence
unfolding Text-discrete ℕ_discrete
Evidence-discrete = hlevel (Text-discrete, ℕ_discrete)

instance abbrev pub Evidence-eq : Eq Evidence
Evidence-eq = of_discrete Evidence-discrete

-- `slices.Equal`.
unfoldable pub same_list : {A : Type 0} ⦃e : Eq A⦄ → List A → List A → Bool
same_list [] [] = true
same_list (x ∷ xs) (y ∷ ys) = x == y && same_list xs ys
same_list _ _ = false

abbrev pub same_bool : Bool → Bool → Bool
same_bool a b = if a then b else not b

-- The first element and the last element that pass a test.
module _ {A : Type 0} where
  unfoldable pub first_such : (A → Bool) → List A → Option A
  first_such p [] = none
  first_such p (x ∷ xs) = if p x then some x else first_such p xs

  unfoldable pub last_such : (A → Bool) → List A → Option A → Option A
  last_such p [] found = found
  last_such p (x ∷ xs) found = last_such p xs (if p x then some x else found)

-- `path.Base`, which is `filepath.Base` where the separator is a slash.
trim_slashes : Text → Text
trim_slashes [] = []
trim_slashes (c ∷ cs) =
    let rest = trim_slashes cs in if eqb c b'/' && rest == [] then [] else c ∷ rest

last_segment : Text → Text → Text
last_segment [] segment = segment
last_segment (c ∷ cs) segment = last_segment cs (if eqb c b'/' then [] else segment ++ c ∷ [])

unfoldable pub base : Text → Text
unfolding trim_slashes last_segment
base [] = codes "."
base path =
    let trimmed = trim_slashes path in if trimmed == [] then codes "/" else last_segment trimmed []

unfoldable pub command_subject : Text → Text
unfolding base
command_subject command = codes "command" ++ 0 ∷ base command

-- The part of an operation or of a resource that comparisons read.
pub record Observation : Type 0 where
  pub id : Text
  pub reference : Text
  pub subject : Text
  pub evidence : Evidence
  pub provenance : Provenance

abbrev pub operation_observation : Operation → Observation
operation_observation o = record {
  id = o.id;
  reference = o.reference;
  subject = command_subject o.command;
  evidence = o.evidence;
  provenance = o.provenance;
}

abbrev pub resource_observation : Resource → Observation
resource_observation o = record {
  id = o.id;
  reference = o.reference;
  subject = resource_comparison_subject o.kind o.access o.value;
  evidence = o.evidence;
  provenance = o.provenance;
}

unfoldable pub observations : NodeKind → Report → List Observation
observations NodeKind.operation r = map operation_observation r.operations
observations NodeKind.resource r = map resource_observation r.resources
observations _ r = []

abbrev pub has_id : Text → Observation → Bool
has_id id o = o.id == id

abbrev pub has_reference : Text → Observation → Bool
has_reference reference o = o.reference == reference

abbrev pub subject_of : Option Observation → Option Text
subject_of none = none
subject_of (some o) = some o.subject

-- `semanticSubject` and `semanticSubjectByReference`.
unfoldable pub semantic_subject : NodeKind → Text → Report → Option Text
unfolding observations first_such
semantic_subject kind id r = subject_of (first_such (has_id id) (observations kind r))

unfoldable pub semantic_subject_by_reference : NodeKind → Text → Report → Option Text
unfolding observations first_such
semantic_subject_by_reference kind reference r =
    subject_of (first_such (has_reference reference) (observations kind r))

unfoldable pub same_operation : Operation → Operation → Bool
unfolding same_list
same_operation a b =
    a.category == b.category
    && a.scope == b.scope
    && a.command == b.command
    && same_list a.arguments b.arguments
    && same_bool a.dynamic b.dynamic
    && a.confidence == b.confidence

unfoldable pub same_resource : Resource → Resource → Bool
same_resource a b =
    a.kind == b.kind
    && a.access == b.access
    && a.value == b.value
    && same_bool a.sensitive b.sensitive
    && same_bool a.dynamic b.dynamic
    && a.scope == b.scope
    && a.confidence == b.confidence

abbrev pub both : {A : Type 0} → (A → A → Bool) → Option A → Option A → Bool
both same (some a) (some b) = same a b
both same _ _ = false

unfoldable pub duplicate_equivalent : NodeKind → Text → Text → Report → Bool
unfolding same_operation same_resource last_such
duplicate_equivalent NodeKind.operation a b r =
    both same_operation (last_such (λ o. o.id == a) r.operations none)
      (last_such (λ o. o.id == b) r.operations none)
duplicate_equivalent NodeKind.resource a b r =
    both same_resource (last_such (λ o. o.id == a) r.resources none)
      (last_such (λ o. o.id == b) r.resources none)
duplicate_equivalent _ a b r = false

-- The reference of the last observation of an identity, or no text.
abbrev pub last_reference : Text → List Observation → Text
last_reference id os = elim (last_such (has_id id) os none) [ none ↦ [] | some o ↦ o.reference ]

abbrev pub last_id : Text → List Observation → Text
last_id reference os = elim (last_such (has_reference reference) os none) [
  | none ↦ []
  | some o ↦ o.id
]

unfoldable pub duplicate_equivalent_by_reference : NodeKind → Text → Text → Report → Bool
unfolding observations last_such duplicate_equivalent
duplicate_equivalent_by_reference kind a b r =
    let os = observations kind r in
    not (last_id a os == [])
    && not (last_id b os == [])
    && duplicate_equivalent kind (last_id a os) (last_id b os) r

abbrev pub is_external : Provenance → Bool
is_external p = p.evidence_source == EvidenceSource.omarchy_audit

-- The closure `hasOppositeMatch`.
unfoldable pub has_opposite_match :
    NodeKind → Observation → Text → Text → Report → Observation → Bool
unfolding semantic_subject_by_reference
has_opposite_match kind source reference subject r o =
    if o.reference == reference
      || same_bool (is_external o.provenance) (is_external source.provenance)
    then false
    else elim (semantic_subject_by_reference kind o.reference r) [
      | none ↦ false
      | some other ↦ other == subject
    ]

unfoldable pub is_difference_finding : Observation → Text → Finding → Bool
unfolding same_list
is_difference_finding source scanner_version f =
    f.claim == ClaimType.fact
    && f.severity == Severity.informational
    && f.confidence == Confidence.high
    && f.scope == Scope.unknown
    && f.category == coverage_difference_category
    && same_list f.evidence (source.evidence ∷ [])
    && eqb (length f.related) 0
    && f.provenance.rule_id == coverage_comparison_rule
    && f.provenance.analyzer == deterministic_analyzer
    && f.provenance.analyzer_version == scanner_version
    && f.provenance.evidence_source == source.provenance.evidence_source

abbrev pub has_external_input : List EvidenceInput → Bool
has_external_input = any (λ i. i.type == EvidenceInputType.omarchy_audit)

unfoldable pub coverage_difference_shape : NodeKind → Text → Text → Report → Bool
unfolding observations first_such last_such semantic_subject_by_reference has_opposite_match
    is_difference_finding
coverage_difference_shape kind reference finding_reference r =
    elim (last_such (has_reference reference) (observations kind r) none) [
      | none ↦ false
      | some source ↦
          if not (is_external source.provenance || has_external_input r.evidence_inputs)
          then false
          else elim (semantic_subject_by_reference kind reference r) [
            | none ↦ false
            | some subject ↦
                if any (has_opposite_match kind source reference subject r) (observations kind r)
                then false
                else elim (first_such (λ f. f.reference == finding_reference) r.findings) [
                  | none ↦ false
                  | some f ↦ is_difference_finding source r.scan.scanner_version f
                ]
          ]
    ]

unfoldable pub is_coverage_difference_finding : NodeKind → Text → Text → Report → Bool
unfolding observations last_such coverage_difference_shape
is_coverage_difference_finding kind source_id finding_id r =
    let source = last_reference source_id (observations kind r) in
    let finding : Text = elim (last_such (λ f. f.id == finding_id) r.findings none) [
      | none ↦ []
      | some f ↦ f.reference
    ] in
    not (source == []) && not (finding == []) && coverage_difference_shape kind source finding r
