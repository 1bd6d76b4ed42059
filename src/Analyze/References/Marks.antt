-- ===== src/Analyze/References/Marks.antt =====
-- What `markTextReferences` does to the set of references.
use plug_and_prejudice.Analyze.References.{add, mark_text_references, marks}
use plug_and_prejudice.Analyze.References.Sets.{
  In-add, In-add_self, add-All, add-extends, missing, missing-add,
}
use plug_and_prejudice.Prelude.{
  All, Bool-cases, In, List, Text, [], all, ap, append-nil, append_assoc, arith, if◌then◌else◌, inl,
  inr, length, length-append, refl, subst, sym, true, ◌++◌, ◌+◌, ◌∙◌, ◌∷◌, ◌≡◌, ◌≤◌,
}

no_more : (extra : List Text) → length extra ≡ 0 → extra ≡ []
no_more [] h = refl
no_more (x ∷ xs) h = absurd (omega (arith, h))

module _ (text source : Text) where
  -- Marking adds keys behind those that are there.
  pub mark-extends :
      (cs refs : List Text)
      → (extra : List Text) × (mark_text_references text source cs refs ≡ refs ++ extra)
  unfolding mark_text_references add
  mark-extends [] refs = ([], sym (append-nil refs))
  mark-extends (c ∷ cs) refs = elim (Bool-cases (marks text source c)) [
    | inl e ↦
        let (one, first) = add-extends c refs in
        let (others, rest) = mark-extends cs (add c refs) in
        rw e (one ++ others, rest ∙ ap (λ t. t ++ others) first ∙ append_assoc refs one others)
    | inr e ↦ rw e (mark-extends cs refs)
  ]

  -- Marking that adds nothing changes nothing.
  pub mark-same :
      (cs refs : List Text)
      → length (mark_text_references text source cs refs) ≡ length refs
      → mark_text_references text source cs refs ≡ refs
  mark-same cs refs h =
      let (extra, e) = mark-extends cs refs in
      let none_left = no_more extra (omega (arith, length-append refs extra, ap length e)) in
      e ∙ ap (λ t. refs ++ t) none_left ∙ append-nil refs

  pub length-mark :
      (cs refs : List Text) → length refs ≤ length (mark_text_references text source cs refs)
  length-mark cs refs =
      let (extra, e) = mark-extends cs refs in omega (arith, length-append refs extra, ap length e)

  pub mark-missing :
      (all cs refs : List Text)
      → ((c : Text) → In c cs → In c all)
      → missing all (mark_text_references text source cs refs)
          + length (mark_text_references text source cs refs)
        ≤ missing all refs + length refs
  unfolding mark_text_references
  mark-missing all [] refs sub = omega arith
  mark-missing all (c ∷ cs) refs sub = elim (Bool-cases (marks text source c)) [
    | inl e ↦ rw e (
        omega (
          arith,
          mark-missing all cs (add c refs) (λ d i. sub d (inr i)),
          missing-add all c refs (sub c (inl refl)),
        ))
    | inr e ↦ rw e (mark-missing all cs refs λ d i. sub d (inr i))
  ]

  pub In-mark :
      (a : Text) (cs refs : List Text) → In a refs → In a (mark_text_references text source cs refs)
  unfolding mark_text_references
  In-mark a [] refs i = i
  In-mark a (c ∷ cs) refs i = elim (Bool-cases (marks text source c)) [
    | inl e ↦ rw e (In-mark a cs (add c refs) (In-add a c refs i))
    | inr e ↦ rw e (In-mark a cs refs i)
  ]

  pub In-mark_marked :
      (a : Text) (cs refs : List Text)
      → In a cs
      → marks text source a ≡ true
      → In a (mark_text_references text source cs refs)
  unfolding mark_text_references
  In-mark_marked a [] refs i h = absurd i
  In-mark_marked a (c ∷ cs) refs (inl same) h =
      let m : marks text source c ≡ true = subst (λ t. marks text source t ≡ true) same h in
      rw m
        (In-mark a cs (add c refs) (subst (λ t. In t (add c refs)) (sym same) (In-add_self c refs)))
  In-mark_marked a (c ∷ cs) refs (inr i) h =
      In-mark_marked a cs (if marks text source c then add c refs else refs) i h

  pub mark-All :
      (P : Text → Type 0) (cs refs : List Text)
      → ((c : Text) → In c cs → marks text source c ≡ true → P c)
      → All P refs
      → All P (mark_text_references text source cs refs)
  unfolding mark_text_references
  mark-All P [] refs f h = h
  mark-All P (c ∷ cs) refs f h = elim (Bool-cases (marks text source c)) [
    | inl e ↦
        rw e
          (mark-All P cs (add c refs) (λ d i. f d (inr i)) (add-All P c refs (f c (inl refl) e) h))
    | inr e ↦ rw e (mark-All P cs refs (λ d i. f d (inr i)) h)
  ]
