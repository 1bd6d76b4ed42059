-- ===== src/Analyze/Manifest/Contract.antt =====
-- When `validateManifest` reports no problem.
use plug_and_prejudice.Analyze.Manifest.{
  ManifestDocument, bad_manifest_id, declared_problems, entry_problems, kind_problems,
  kinds_problems, problem_if, required_entries, safe_entry_point, validate_manifest,
}
use plug_and_prejudice.Analyze.References.{Contents}
use plug_and_prejudice.Prelude.{
  All, Bool, List, Option, Text, Text-eq, [], ap, arith, eqb, false, length, less, negated_false,
  none, refl, some, subst, sym, true, ◌++◌, ◌==◌, ◌||◌, ◌∙◌, ◌∷◌, ◌≡◌,
}
use plug_and_prejudice.Prelude.Assoc.{lookup}
use plug_and_prejudice.Prelude.Int.{eqb_ℤ, pos}
use plug_and_prejudice.Prelude.Sort.{length-sort, sort}
use plug_and_prejudice.Report.Validate.Paths.{clean}

-- A kind that the shell loads has an entry point that is a safe path of an inspected file.
abbrev pub IsDeclared : List (Text × Text) → Contents → Text → Type 0
IsDeclared entries contents kind =
    (key : Text)
    → lookup kind required_entries ≡ some key
    → (entry : Text) × (text : Text) × (lookup key entries ≡ some entry)
      × (safe_entry_point entry ≡ true)
      × (lookup (clean entry) contents ≡ some text)

abbrev pub IsContract : ManifestDocument → Contents → Type 0
IsContract d contents =
    (eqb_ℤ d.document_schema (pos 1) ≡ true)
    × (bad_manifest_id d.document_id ≡ false)
    × ((d.document_name == [] || d.document_version == []) ≡ false)
    × (eqb (length d.document_kinds) 0 ≡ false)
    × All (IsDeclared d.document_entries contents) d.document_kinds

nothing-append : {A : Type 0} (xs ys : List A) → xs ++ ys ≡ [] → (xs ≡ []) × (ys ≡ [])
nothing-append [] ys h = (refl, h)
nothing-append (x ∷ xs) ys h = cc

no_problem : (b : Bool) (problem : Text) → problem_if b problem ≡ [] → b ≡ false
no_problem true problem h = cc
no_problem false problem h = refl

sort-nothing : (xs : List Text) → sort less xs ≡ [] → xs ≡ []
sort-nothing xs h = nothing xs (sym (length-sort less xs) ∙ ap length h)
  where
    nothing : (ys : List Text) → length ys ≡ 0 → ys ≡ []
    nothing [] k = refl
    nothing (y ∷ ys) k = absurd (omega (arith, k))

module _ (quote : Text → Text) (entries : List (Text × Text)) (contents : Contents) where
  entry-none :
      (entry : Text) (safe : Bool) (found : Option Text)
      → entry_problems quote entry safe found ≡ []
      → (text : Text) × (safe ≡ true) × (found ≡ some text)
  entry-none entry false found h = cc
  entry-none entry true none h = cc
  entry-none entry true (some text) h = (text, refl, refl)

  declared-none :
      (kind key : Text) (o : Option Text)
      → declared_problems quote kind key contents o ≡ []
      → (entry : Text) × (text : Text) × (o ≡ some entry)
        × (safe_entry_point entry ≡ true)
        × (lookup (clean entry) contents ≡ some text)
  declared-none kind key none h = cc
  declared-none kind key (some entry) h =
      let (text, safe, found) = entry-none entry _ _ h in (entry, text, refl, safe, found)

  kind-none :
      (kind : Text) (o : Option Text)
      → kind_problems quote kind entries contents o ≡ []
      → (key : Text) → o ≡ some key
      → (entry : Text) × (text : Text) × (lookup key entries ≡ some entry)
        × (safe_entry_point entry ≡ true)
        × (lookup (clean entry) contents ≡ some text)
  kind-none kind none h key e = cc
  kind-none kind (some other) h key e =
      declared-none kind key (lookup key entries)
        (subst (λ k. declared_problems quote kind k contents (lookup k entries) ≡ []) (cc) h)

  kinds-none :
      (kinds : List Text)
      → kinds_problems quote kinds entries contents ≡ []
      → All (IsDeclared entries contents) kinds
  unfolding kinds_problems
  kinds-none [] h = tt
  kinds-none (kind ∷ kinds) h =
      let (here, rest) =
        nothing-append (kind_problems quote kind entries contents (lookup kind required_entries)) _
          h in
      (kind-none kind (lookup kind required_entries) here, kinds-none kinds rest)

-- A manifest in which no problem is found satisfies the plugin contract: schema version 1, a valid
-- ID outside the reserved names, a name, a version and a kind, and for each kind that the shell
-- loads an entry point that is a safe relative path to an inspected file.
pub validate_manifest-IsContract :
    (quote : Text → Text) (d : ManifestDocument) (contents : Contents)
    → validate_manifest quote d contents ≡ []
    → IsContract d contents
unfolding validate_manifest
validate_manifest-IsContract quote d contents h =
    let all_parts = sort-nothing _ h in
    let (front, kinds) = nothing-append _ _ all_parts in
    let (front, some_kind) = nothing-append _ _ front in
    let (front, names) = nothing-append _ _ front in
    let (schema, id) = nothing-append _ _ front in
    (
      negated_false _ (no_problem _ _ schema),
      no_problem _ _ id,
      no_problem _ _ names,
      no_problem _ _ some_kind,
      kinds-none quote d.document_entries contents d.document_kinds kinds,
    )
