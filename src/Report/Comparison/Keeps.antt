-- ===== src/Report/Comparison/Keeps.antt =====
-- What `AddComparison` keeps of the relationships, and that a second request changes nothing.
use plug_and_prejudice.Prelude.{
  ==_refl, >>=-eq-ok, All, All-In, All-append, All-map, Bool, Bool-cases, In, In-append_left,
  In-append_right, List, Option, Option-cases, Text, Text-eq, [], arith, false, inl, inr, length,
  length-append, less_asymm, less_ntrans, none, ok, refl, some, subst, sym, true, true-ne-false,
  ≡→==, ◌++◌, ◌<◌, ◌==◌, ◌∙◌, ◌∷◌, ◌≡◌, ◌≢◌, ◌≤◌,
}
use plug_and_prejudice.Prelude.Sort.{
  AreRelated, AreRelated-append, In-sort, IsOrdered, length-sort, sort, sort-All, sort-AreRelated,
  sort-IsOrdered,
}
use plug_and_prejudice.Report.Comparison.{
  Comparison, ComparisonBasis-eq, add_comparison, compared, insert_relationship, same_basis,
  same_relationship,
}
use plug_and_prejudice.Report.Comparison.Unrelated.{compared-related}
use plug_and_prejudice.Report.Document.{Report}
use plug_and_prejudice.Report.Graph.Build.{id_less}
use plug_and_prejudice.Report.Kinds.{NodeKind-eq, RelationshipType-eq}
use plug_and_prejudice.Report.Limits.{max_produced_evidence_relations}
use plug_and_prejudice.Report.Observations.{first_such}
use plug_and_prejudice.Report.Records.{ComparisonBasis, Relationship}

abbrev Apart : Relationship → Relationship → Type 0
Apart a b = a.id ≢ b.id

-- The relationships of a graph: in order, apart by their identities, within the limit.
pub record IsGraph (rs : List Relationship) : Type 0 where
  pub ordered : IsOrdered id_less rs
  pub apart : AreRelated Apart rs
  pub few : length rs ≤ max_produced_evidence_relations

first_such-none :
    {A : Type 0} (p : A → Bool) (xs : List A) → first_such p xs ≡ none → All (λ x. p x ≡ false) xs
unfolding first_such
first_such-none p [] h = tt
first_such-none p (x ∷ xs) h = elim (Bool-cases (p x)) [
  | inl e ↦ absurd (ground arith)
  | inr e ↦ (e, first_such-none p xs (rw e at h))
]

first_such-some :
    {A : Type 0} (p : A → Bool) (Q : A → Type 0) (xs : List A)
    → All (λ x. p x ≡ true → Q x) xs
    → (y : A) → first_such p xs ≡ some y
    → Q y
unfolding first_such
first_such-some p Q [] hs y h = absurd (cc h)
first_such-some p Q (x ∷ xs) (hx, hs) y h = elim (Bool-cases (p x)) [
  | inl e ↦ subst Q (cc (rw e at h)) (hx e)
  | inr e ↦ first_such-some p Q xs hs y (rw e at h)
]

same_basis_refl : (o : Option ComparisonBasis) → same_basis o o ≡ true
same_basis_refl none = refl
same_basis_refl (some b) = ==_refl b

same_relationship_refl : (x : Relationship) → same_relationship x x ≡ true
unfolding same_relationship
same_relationship_refl x = rw (
  ==_refl x.type,
  ==_refl x.from_kind,
  ==_refl x.source,
  ==_refl x.to_kind,
  ==_refl x.target,
  same_basis_refl x.comparison,
)

abbrev names_id : Relationship → Relationship → Bool
names_id new e = e.id == new.id

-- A relationship is inserted, or it was there.
data Inserted (new : Relationship) (old last : List Relationship) : Type 0 where
  found :
      (existing : Relationship)
      → first_such (names_id new) old ≡ some existing
      → same_relationship existing new ≡ true
      → last ≡ old
      → Inserted new old last
  added :
      first_such (names_id new) old ≡ none
      → length old < max_produced_evidence_relations
      → last ≡ sort id_less (old ++ new ∷ [])
      → Inserted new old last

inserted :
    (new : Relationship) (old last : List Relationship)
    → insert_relationship new old ≡ ok last
    → Inserted new old last
unfolding insert_relationship
inserted new old last h = elim (Option-cases (first_such (names_id new) old)) [
  | inl e ↦ added e (ground arith) (ground arith)
  | inr (existing, e) ↦ found existing e (ground arith) (ground arith)
]

In-last : (x : Relationship) (xs : List Relationship) → In x (xs ++ x ∷ [])
In-last x xs = In-append_right x xs (x ∷ []) (inl refl)

module _ (new : Relationship) (old : List Relationship)
    (free : first_such (names_id new) old ≡ none) where
  abbrev grown : List Relationship
  grown = sort id_less (old ++ new ∷ [])

  others : All (λ e. names_id new e ≡ false) old
  others = first_such-none (names_id new) old free

  new_is_elsewhere : All (λ e. Apart e new) old
  new_is_elsewhere =
      All-map (λ e. names_id new e ≡ false) (λ e. Apart e new)
        (λ e h same. true-ne-false (sym (≡→== same) ∙ h)) old others

  AgreesWithNew : Relationship → Type 0
  AgreesWithNew e = names_id new e ≡ true → same_relationship e new ≡ true

  found_again :
      (e : Relationship) → first_such (names_id new) grown ≡ some e → same_relationship e new ≡ true
  unfolding AgreesWithNew
  found_again =
      first_such-some (names_id new) (λ e. same_relationship e new ≡ true) grown
        (sort-All id_less AgreesWithNew (old ++ new ∷ []) (
          All-append AgreesWithNew old (new ∷ [])
            (All-map (λ e. names_id new e ≡ false) AgreesWithNew
              (λ e h k. absurd (true-ne-false (sym k ∙ h))) old others)
            ((λ k. same_relationship_refl new), tt)))

  never_lost : first_such (names_id new) grown ≢ none
  never_lost h = true-ne-false (
      sym (==_refl new.id)
      ∙ All-In (λ e. names_id new e ≡ false) new grown (first_such-none (names_id new) grown h)
          (In-sort id_less new (old ++ new ∷ []) (In-last new old)))

-- A relationship that the list has is not inserted.
insert-present :
    (new : Relationship) (rs : List Relationship)
    → ((e : Relationship) → first_such (names_id new) rs ≡ some e → same_relationship e new ≡ true)
    → first_such (names_id new) rs ≢ none
    → insert_relationship new rs ≡ ok rs
unfolding insert_relationship
insert-present new rs agrees some_one = elim (Option-cases (first_such (names_id new) rs)) [
  | inl e ↦ absurd (some_one e)
  | inr (existing, e) ↦ ground (arith, agrees existing e)
]

insert-twice :
    (new : Relationship) (old last : List Relationship)
    → insert_relationship new old ≡ ok last
    → insert_relationship new last ≡ ok last
insert-twice new old last h = elim (inserted new old last h) [
  | found existing e same kept ↦
      subst (λ l. insert_relationship new l ≡ ok l) (sym kept)
        (subst (λ l. insert_relationship new old ≡ ok l) kept h)
  | added free room made ↦
      subst (λ l. insert_relationship new l ≡ ok l) (sym made)
        (insert-present new _ (found_again new old free) (never_lost new old free))
]

insert-IsGraph :
    (new : Relationship) (old last : List Relationship)
    → insert_relationship new old ≡ ok last
    → IsGraph old
    → IsGraph last
insert-IsGraph new old last h g = elim (inserted new old last h) [
  | found existing e same kept ↦ subst IsGraph (sym kept) g
  | added free room made ↦ subst IsGraph (sym made) (record {
    ordered =
        sort-IsOrdered id_less (λ a b. less_asymm a.id b.id) (λ a b c. less_ntrans a.id b.id c.id)
          (old ++ new ∷ []);
    apart =
        sort-AreRelated id_less Apart (λ a b h e. h (sym e)) (old ++ new ∷ [])
          (AreRelated-append Apart old new g.apart (new_is_elsewhere new old free));
    few = omega (arith, length-sort id_less (old ++ new ∷ []), length-append old (new ∷ []), room);
  })
]

-- Every relationship that was there is still there.
insert-In :
    (new : Relationship) (old last : List Relationship)
    → insert_relationship new old ≡ ok last
    → (x : Relationship) → In x old
    → In x last
insert-In new old last h x i = elim (inserted new old last h) [
  | found existing e same kept ↦ subst (In x) (sym kept) i
  | added free room made ↦
      subst (In x) (sym made) (In-sort id_less x _ (In-append_left x old (new ∷ []) i))
]

module _ (digest : Text → Text) where
  steps :
      (v : Comparison) (r s : Report)
      → add_comparison digest v r ≡ ok s
      → (new : Relationship) × (last : List Relationship) × (compared digest v r ≡ ok new)
        × (insert_relationship new r.relationships ≡ ok last)
        × (s ≡ record r { relationships = last })
  unfolding add_comparison
  steps v r s h =
      let (new, made, h) = >>=-eq-ok (compared digest v r) _ h in
      let (last, placed, h) = >>=-eq-ok (insert_relationship new r.relationships) _ h in
      (new, last, made, placed, ground arith)

  settled :
      (v : Comparison) (r : Report) (new : Relationship) (last : List Relationship)
      → compared digest v r ≡ ok new
      → insert_relationship new last ≡ ok last
      → add_comparison digest v (record r { relationships = last })
        ≡ ok (record r { relationships = last })
  unfolding add_comparison
  settled v r new last made placed = rw (compared-related r last digest v, made, placed)

  -- A comparison that is added twice leaves the report as it was after the first time.
  pub add_comparison-twice :
      (v : Comparison) (r s : Report)
      → add_comparison digest v r ≡ ok s
      → add_comparison digest v s ≡ ok s
  add_comparison-twice v r s h =
      let (new, last, made, placed, whole) = steps v r s h in
      subst (λ t. add_comparison digest v t ≡ ok t) (sym whole)
        (settled v r new last made (insert-twice new r.relationships last placed))

  -- A comparison that is added keeps the relationships in the order of their identities, keeps
  -- these identities apart, stays within the limit, and loses no relationship.
  pub add_comparison-IsGraph :
      (v : Comparison) (r s : Report)
      → add_comparison digest v r ≡ ok s
      → IsGraph r.relationships
      → IsGraph s.relationships × ((x : Relationship) → In x r.relationships → In x s.relationships)
  add_comparison-IsGraph v r s h g =
      let (new, last, made, placed, whole) = steps v r s h in
      subst
        (λ t.
          IsGraph t.relationships
          × ((x : Relationship) → In x r.relationships → In x t.relationships))
        (sym whole)
        (
          insert-IsGraph new r.relationships last placed g,
          insert-In new r.relationships last placed,
        )
