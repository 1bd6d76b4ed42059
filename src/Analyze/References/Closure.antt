-- ===== src/Analyze/References/Closure.antt =====
-- The loop of `runtimeReferencedPaths` ends, with exactly the paths that are referenced.
use plug_and_prejudice.Analyze.Paths.{is_qml, tooling_path}
use plug_and_prejudice.Analyze.References.{
  Contents, Pass, mark_text_references, marks, passes, visit, visit_all,
}
use plug_and_prejudice.Analyze.References.Marks.{length-mark, mark-missing, mark-same}
use plug_and_prejudice.Analyze.References.Sets.{missing}
use plug_and_prejudice.Prelude.{
  All, Bool-cases, In, List, Option-cases, Text, [], arith, false, inl, inr, length, or-split, refl,
  some, subst, suc, sym, true, true-ne-false, zero, ℕ, ◌+◌, ◌<◌, ◌∙◌, ◌∷◌, ◌≡◌, ◌≤◌,
}
use plug_and_prejudice.Prelude.Assoc.{lookup}
use plug_and_prejudice.Report.Validate.Paths.{clean}

-- Referenced, by the source's rules: an entry point of the manifest, a QML file outside the tooling,
-- a candidate that the text of such a file names, and a candidate that the text of a referenced
-- file names.
pub data IsReferenced (contents : Contents) (candidates : List Text) (entries : List (Text × Text))
    : Text → Type 0 where
  entry_point :
      (name entry : Text)
      → In (name, entry) entries
      → IsReferenced contents candidates entries (clean entry)
  qml_file :
      (name text : Text)
      → In (name, text) contents
      → is_qml name ≡ true
      → tooling_path name ≡ false
      → IsReferenced contents candidates entries (clean name)
  from_qml :
      (name text path : Text)
      → In (name, text) contents
      → is_qml name ≡ true
      → tooling_path name ≡ false
      → In path candidates
      → marks text name path ≡ true
      → IsReferenced contents candidates entries path
  from_file :
      (name text path : Text)
      → IsReferenced contents candidates entries name
      → lookup name contents ≡ some text
      → In path candidates
      → marks text name path ≡ true
      → IsReferenced contents candidates entries path

module _ (contents : Contents) (candidates : List Text) where
  -- A file whose references are all there.
  abbrev pub IsStable : List Text → Text → Type 0
  IsStable refs name =
      (text : Text)
      → lookup name contents ≡ some text
      → mark_text_references text name candidates refs ≡ refs

  -- What a pass keeps: the keys only grow, and each new one was missing.
  abbrev Grows : Pass → Pass → Type 0
  Grows p q =
      (length p.references ≤ length q.references)
      × (missing candidates q.references + length q.references
          ≤ missing candidates p.references + length p.references)
      × (p.changed ≡ false → q.changed ≡ true → length p.references < length q.references)

  visit-Grows : (name : Text) (p : Pass) → Grows p (visit contents candidates name p)
  unfolding visit
  visit-Grows name p = elim (Option-cases (lookup name contents)) [
    | inl e ↦ rw (e, visit) (omega arith, omega arith, λ h k. absurd (true-ne-false (sym k ∙ h)))
    | inr (text, e) ↦
        rw (e, visit)
          (
            length-mark text name candidates p.references,
            mark-missing text name candidates candidates p.references (λ c i. i),
            λ h k. ground (arith, length-mark text name candidates p.references),
          )
  ]

  visit_all-Grows : (names : List Text) (p : Pass) → Grows p (visit_all contents candidates names p)
  unfolding visit_all
  visit_all-Grows [] p = (omega arith, omega arith, λ h k. absurd (true-ne-false (sym k ∙ h)))
  visit_all-Grows (name ∷ names) p =
      let q = visit contents candidates name p in
      let (more, fewer, strict) = visit-Grows name p in
      let (more_all, fewer_all, strict_all) = visit_all-Grows names q in
      (
        omega (arith, more, more_all),
        omega (arith, fewer, fewer_all),
        λ h k. elim (Bool-cases q.changed) [
          | inl e ↦ omega (arith, strict h e, more_all)
          | inr e ↦ omega (arith, more, strict_all e k)
        ],
      )

  -- A pass that changes nothing has visited stable files only.
  visit-IsStable :
      (name : Text) (p : Pass)
      → (visit contents candidates name p).changed ≡ false
      → (p.changed ≡ false)
        × ((visit contents candidates name p).references ≡ p.references)
        × IsStable p.references name
  unfolding visit
  visit-IsStable name p h = elim (Option-cases (lookup name contents)) [
    | inl e ↦ let h = rw (e, visit) at h in rw (e, visit) (h, refl, λ text found. cc)
    | inr (text, e) ↦
        let h = rw (e, visit) at h in
        let (before, grown) = or-split p.changed _ h in
        let same = mark-same text name candidates p.references (ground arith) in
        rw (e, visit)
          (
            before,
            same,
            λ other found.
                let equal : text ≡ other = cc in
                subst (λ t. mark_text_references t name candidates p.references ≡ p.references)
                  equal same,
          )
  ]

  visit_all-IsStable :
      (names : List Text) (p : Pass)
      → (visit_all contents candidates names p).changed ≡ false
      → (p.changed ≡ false)
        × ((visit_all contents candidates names p).references ≡ p.references)
        × All (IsStable p.references) names
  unfolding visit_all
  visit_all-IsStable [] p h = (h, refl, tt)
  visit_all-IsStable (name ∷ names) p h =
      let q = visit contents candidates name p in
      let (middle, same, stable) = visit_all-IsStable names q h in
      let (before, same_one, stable_one) = visit-IsStable name p middle in
      (before, same ∙ same_one, (stable_one, subst (λ r. All (IsStable r) names) same_one stable))

  -- With a pass for each missing candidate and one more, the loop ends, with a set that is closed.
  pub passes-AreStable :
      (fuel : ℕ) (refs : List Text)
      → missing candidates refs < fuel
      → (out : List Text) × (passes fuel contents candidates refs ≡ some out)
        × All (IsStable out) out
  unfolding passes
  passes-AreStable zero refs h = absurd (omega (arith, h))
  passes-AreStable (suc fuel) refs h =
      let start : Pass = record { references = refs; changed = false } in
      let p = visit_all contents candidates refs start in
      elim (Bool-cases p.changed) [
        | inl e ↦
            let (_, fewer, strict) = visit_all-Grows refs start in
            let (out, ended, stable) =
              passes-AreStable fuel p.references (omega (arith, h, fewer, strict refl e)) in
            (out, rw e ended, stable)
        | inr e ↦
            let (_, same, stable) = visit_all-IsStable refs start e in
            (p.references, rw e refl, subst (λ r. All (IsStable r) r) (sym same) stable)
      ]

  -- More passes than the loop needs change nothing.
  pub passes-more :
      (fuel more : ℕ) (refs out : List Text)
      → fuel ≤ more
      → passes fuel contents candidates refs ≡ some out
      → passes more contents candidates refs ≡ some out
  unfolding passes
  passes-more zero more refs out h ended = cc
  passes-more (suc fuel) zero refs out h ended = absurd (omega (arith, h))
  passes-more (suc fuel) (suc more) refs out h ended =
      let p = visit_all contents candidates refs (record { references = refs; changed = false }) in
      elim (Bool-cases p.changed) [
        | inl e ↦ rw e (passes-more fuel more p.references out (omega (arith, h)) (rw e at ended))
        | inr e ↦ rw e (rw e at ended)
      ]
