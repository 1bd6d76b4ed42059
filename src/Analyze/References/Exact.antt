-- ===== src/Analyze/References/Exact.antt =====
-- The loop of `runtimeReferencedPaths` ends, with exactly the paths that are referenced.
use plug_and_prejudice.Analyze.Paths.{is_qml, tooling_path}
use plug_and_prejudice.Analyze.References.{
  Contents, Pass, add, candidates_of, entries_of, entry_references, first_references, found_paths,
  marks, passes, paths_within, qml_references, runtime_referenced_paths, visit, visit_all,
}
use plug_and_prejudice.Analyze.References.Closure.{
  IsReferenced, IsStable, entry_point, from_file, from_qml, passes-AreStable, passes-more, qml_file,
}
use plug_and_prejudice.Analyze.References.Marks.{In-mark, In-mark_marked, mark-All}
use plug_and_prejudice.Analyze.References.Sets.{In-add, In-add_self, add-All, missing_le}
use plug_and_prejudice.Prelude.{
  All, All-In, Bool-cases, In, List, Option, Option-cases, Text, [], and-split, ap, arith, false,
  inl, inr, length, negated_true, not, refl, some, subst, subst₂, suc, sym, true, zero, ℕ, ◌&&◌,
  ◌<◌, ◌↔◌, ◌∙◌, ◌∷◌, ◌≡◌,
}
use plug_and_prejudice.Prelude.Assoc.{lookup}
use plug_and_prejudice.Report.Records.{File, Manifest}
use plug_and_prejudice.Report.Validate.Paths.{clean}

some_inj : {A : Type 0} {a b : A} → some a ≡ some b → a ≡ b
some_inj h = cc

module _ (contents : Contents) (candidates : List Text) where
  -- Every key that is there before stays.
  In-visit :
      (a name : Text) (p : Pass)
      → In a p.references
      → In a (visit contents candidates name p).references
  unfolding visit
  In-visit a name p i = elim (Option-cases (lookup name contents)) [
    | inl e ↦ rw (e, visit) i
    | inr (text, e) ↦ rw (e, visit) (In-mark text name a candidates p.references i)
  ]

  In-visit_all :
      (a : Text) (names : List Text) (p : Pass)
      → In a p.references
      → In a (visit_all contents candidates names p).references
  unfolding visit_all
  In-visit_all a [] p i = i
  In-visit_all a (name ∷ names) p i =
      In-visit_all a names (visit contents candidates name p) (In-visit a name p i)

  In-passes :
      (a : Text) (fuel : ℕ) (refs out : List Text)
      → passes fuel contents candidates refs ≡ some out
      → In a refs
      → In a out
  unfolding passes
  In-passes a zero refs out ended i = cc
  In-passes a (suc fuel) refs out ended i =
      let start : Pass = record { references = refs; changed = false } in
      let p = visit_all contents candidates refs start in
      let j = In-visit_all a refs start i in
      elim (Bool-cases p.changed) [
        | inl e ↦ In-passes a fuel p.references out (rw e at ended) j
        | inr e ↦ subst (In a) (some_inj (rw e at ended)) j
      ]

  -- A predicate that the rule for files keeps holds of all that the passes add.
  module _ (P : Text → Type 0)
      (rule : (name text path : Text)
        → P name
        → lookup name contents ≡ some text
        → In path candidates
        → marks text name path ≡ true
        → P path) where
    visit_all-All :
        (names : List Text) (p : Pass)
        → All P names
        → All P p.references
        → All P (visit_all contents candidates names p).references
    unfolding visit_all visit
    visit_all-All [] p hs h = h
    visit_all-All (name ∷ names) p (here, hs) h =
        visit_all-All names (visit contents candidates name p) hs
          (elim (Option-cases (lookup name contents)) [
            | inl e ↦ rw (e, visit) h
            | inr (text, e) ↦
                rw (e, visit)
                  (mark-All text name P candidates p.references
                    (λ c i m. rule name text c here e i m) h)
          ])

    passes-All :
        (fuel : ℕ) (refs out : List Text)
        → passes fuel contents candidates refs ≡ some out
        → All P refs
        → All P out
    unfolding passes
    passes-All zero refs out ended h = cc
    passes-All (suc fuel) refs out ended h =
        let start : Pass = record { references = refs; changed = false } in
        let p = visit_all contents candidates refs start in
        let next = visit_all-All refs start h h in
        elim (Bool-cases p.changed) [
          | inl e ↦ passes-All fuel p.references out (rw e at ended) next
          | inr e ↦ subst (All P) (some_inj (rw e at ended)) next
        ]

-- The references that the manifest and the QML files give.
In-entry_before :
    (a : Text) (entries : List (Text × Text)) (out : List Text)
    → In a out
    → In a (entry_references entries out)
unfolding entry_references
In-entry_before a [] out i = i
In-entry_before a ((name, entry) ∷ entries) out i =
    In-entry_before a entries (add (clean entry) out) (In-add a (clean entry) out i)

In-entry_references :
    (name entry : Text) (entries : List (Text × Text)) (out : List Text)
    → In (name, entry) entries
    → In (clean entry) (entry_references entries out)
unfolding entry_references
In-entry_references name entry [] out i = absurd i
In-entry_references name entry ((other, first) ∷ entries) out (inl e) =
    In-entry_before (clean entry) entries (add (clean first) out) (
      subst (λ t. In (clean t) (add (clean first) out)) (sym (ap (λ p. p.1) e))
        (In-add_self (clean first) out))
In-entry_references name entry ((other, first) ∷ entries) out (inr i) =
    In-entry_references name entry entries (add (clean first) out) i

entry_references-All :
    (P : Text → Type 0) (entries : List (Text × Text)) (out : List Text)
    → ((name entry : Text) → In (name, entry) entries → P (clean entry))
    → All P out
    → All P (entry_references entries out)
unfolding entry_references
entry_references-All P [] out f h = h
entry_references-All P ((name, entry) ∷ entries) out f h =
    entry_references-All P entries (add (clean entry) out) (λ n e i. f n e (inr i))
      (add-All P (clean entry) out (f name entry (inl refl)) h)

module _ (candidates : List Text) where
  In-qml_references :
      (a : Text) (contents : Contents) (refs : List Text)
      → In a refs
      → In a (qml_references contents candidates refs)
  unfolding qml_references
  In-qml_references a [] refs i = i
  In-qml_references a ((name, text) ∷ contents) refs i =
      elim (Bool-cases (is_qml name && not (tooling_path name))) [
        | inl e ↦ rw e (
            In-qml_references a contents _
              (In-mark text name a candidates _ (In-add a (clean name) refs i)))
        | inr e ↦ rw e (In-qml_references a contents refs i)
      ]

  qml_references-All :
      (P : Text → Type 0) (contents : Contents) (refs : List Text)
      → ((name text : Text)
          → In (name, text) contents
          → is_qml name ≡ true
          → tooling_path name ≡ false
          → P (clean name) × ((c : Text) → In c candidates → marks text name c ≡ true → P c))
      → All P refs
      → All P (qml_references contents candidates refs)
  unfolding qml_references
  qml_references-All P [] refs f h = h
  qml_references-All P ((name, text) ∷ contents) refs f h =
      elim (Bool-cases (is_qml name && not (tooling_path name))) [
        | inl e ↦
            let (is, other) = and-split (is_qml name) _ e in
            let (own, marked) = f name text (inl refl) is (negated_true _ other) in
            rw e (
              qml_references-All P contents _ (λ n t i. f n t (inr i))
                (mark-All text name P candidates _ marked (add-All P (clean name) refs own h)))
        | inr e ↦ rw e (qml_references-All P contents refs (λ n t i. f n t (inr i)) h)
      ]

  In-qml_files :
      (name text : Text) (contents : Contents) (refs : List Text)
      → In (name, text) contents
      → (is_qml name && not (tooling_path name)) ≡ true
      → In (clean name) (qml_references contents candidates refs)
        × ((path : Text)
            → In path candidates
            → marks text name path ≡ true
            → In path (qml_references contents candidates refs))
  unfolding qml_references
  In-qml_files name text [] refs i h = absurd i
  In-qml_files name text ((other, first) ∷ contents) refs (inl e) h =
      let here : name ≡ other = ap (λ p. p.0) e in
      let same : text ≡ first = ap (λ p. p.1) e in
      let loads : (is_qml other && not (tooling_path other)) ≡ true =
        subst (λ n. (is_qml n && not (tooling_path n)) ≡ true) here h in
      rw loads (
        In-qml_references (clean name) contents _ (
            In-mark first other (clean name) candidates _ (
              subst (λ n. In (clean n) (add (clean other) refs)) (sym here)
                (In-add_self (clean other) refs))),
        λ path c m. In-qml_references path contents _ (
            In-mark_marked first other path candidates _ c
              (subst₂ (λ t n. marks t n path ≡ true) same here m)),
      )
  In-qml_files name text ((other, first) ∷ contents) refs (inr i) h =
      In-qml_files name text contents _ i h

-- A set that the loop ends with is exact.
passes-IsReferenced :
    (fuel : ℕ) (contents : Contents) (files : List File) (manifest : Option Manifest)
    (found : List Text) (path : Text)
    → paths_within fuel contents files manifest ≡ some found
    → All (IsStable contents (candidates_of contents files) found) found
    → In path found
      ↔ IsReferenced contents (candidates_of contents files) (entries_of manifest) path
unfolding paths_within
passes-IsReferenced fuel contents files manifest found path ended stable =
    (λ i. All-In P path found sound i, complete path)
  where
    candidates : List Text
    candidates = candidates_of contents files

    entries : List (Text × Text)
    entries = entries_of manifest

    P : Text → Type 0
    P = IsReferenced contents candidates entries

    seeds : List Text
    seeds = qml_references contents candidates (entry_references entries [])

    sound : All P found
    sound = passes-All contents candidates P from_file fuel seeds found ended (
        qml_references-All candidates P contents (entry_references entries [])
          (λ name text i is other.
            (qml_file name text i is other, λ c j m. from_qml name text c i is other j m))
          (entry_references-All P entries [] entry_point tt))

    keeps : (a : Text) → In a seeds → In a found
    keeps a i = In-passes contents candidates a fuel seeds found ended i

    complete : (a : Text) → P a → In a found
    complete a (entry_point name entry i) =
        keeps _
          (In-qml_references candidates _ contents _ (In-entry_references name entry entries [] i))
    complete a (qml_file name text i is other) =
        keeps _ (In-qml_files candidates name text contents _ i (rw (is, other) refl)).0
    complete a (from_qml name text b i is other j m) =
        keeps b ((In-qml_files candidates name text contents _ i (rw (is, other) refl)).1 b j m)
    complete a (from_file name text b r e j m) =
        let same =
          All-In (IsStable contents candidates found) name found stable (complete name r) text e in
        subst (In b) same (In-mark_marked text name b candidates found j m)

-- The loop that closes the references ends after at most one pass for each candidate and one more:
-- allowed any larger number of passes than there are candidates, it ends, always with the same
-- paths. These, which the program takes for parts of the running plugin, are exactly the paths that
-- are referenced: from the manifest, as a QML file outside the tooling, from such a file, or from a
-- referenced file.
pub runtime_referenced_paths-IsReferenced :
    (fuel : ℕ) (contents : Contents) (files : List File) (manifest : Option Manifest)
    → length (candidates_of contents files) < fuel
    → (paths_within fuel contents files manifest
        ≡ some (runtime_referenced_paths contents files manifest))
      × ((path : Text)
          → In path (runtime_referenced_paths contents files manifest)
            ↔ IsReferenced contents (candidates_of contents files) (entries_of manifest) path)
unfolding runtime_referenced_paths paths_within
runtime_referenced_paths-IsReferenced fuel contents files manifest h =
    let candidates = candidates_of contents files in
    let seeds = first_references contents files manifest in
    let least = suc (length candidates) in
    let (out, ended, stable) =
      passes-AreStable contents candidates least seeds
        (omega (arith, missing_le candidates seeds)) in
    let result = ap found_paths ended in
    (
      passes-more contents candidates least fuel seeds out (omega (arith, h)) ended
          ∙ ap some (sym result),
      λ path.
          subst
            (λ paths. In path paths ↔ IsReferenced contents candidates (entries_of manifest) path)
            (sym result) (passes-IsReferenced least contents files manifest out path ended stable),
    )
