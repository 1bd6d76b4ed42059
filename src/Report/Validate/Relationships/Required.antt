-- ===== src/Report/Validate/Relationships/Required.antt =====
-- What the check of one relationship does to the state of the loop.
use plug_and_prejudice.Prelude.{
  ==→≡, >>-eq-ok, >>=-eq-ok, Bool, Bool-cases, List, Option-cases, Text, Text-eq, [], arith, false,
  if◌then◌else◌, inl, inr, is_some, ltb, map, none, not, ok, refl, refuse, refuse-eq-ok, suc, true,
  ◌&&◌, ◌++◌, ◌==◌, ◌||◌, ◌∷◌, ◌≡◌,
}
use plug_and_prejudice.Prelude.Assoc.{lookup, store}
use plug_and_prejudice.Report.Comparison.{is_comparison}
use plug_and_prejudice.Report.Document.{Report}
use plug_and_prejudice.Report.Graph.View.{relationship_id}
use plug_and_prejudice.Report.Kinds.{
  NodeKind, NodeKind-eq, RelationshipType, RelationshipType-discrete, RelationshipType-eq,
}
use plug_and_prejudice.Report.Limits.{max_comparison_relations}
use plug_and_prejudice.Report.Records.{Provenance, Relationship}
use plug_and_prejudice.Report.Validate.Relationships.{
  Progress, add_comparison_pair, base_relationship, count_disagreement, is_required, kind_of, mark,
  tuple_of, validate_comparison, validate_relationship, validate_type,
}

-- The required edges and the identities are as before.
abbrev pub Kept : Progress → Progress → Type 0
Kept p q = (q.required ≡ p.required) × (q.seen ≡ p.seen)

abbrev counting : Progress → Progress
counting p = record p { comparison_count = suc p.comparison_count }

count_disagreement-Kept :
    (v : Relationship) (p q : Progress) → count_disagreement v p ≡ ok q → Kept p q
unfolding count_disagreement
count_disagreement-Kept v p q h = (ground arith, ground arith)

module _ (r : Report) (ps : List (Text × Provenance)) (v : Relationship) (p q : Progress) where
  unchanged : (next : Progress) → ok (counting p) ≡ ok next → Kept p next
  unchanged next h = (cc h, cc h)

  add_comparison_pair-Kept : add_comparison_pair r ps v p ≡ ok q → Kept p q
  unfolding add_comparison_pair
  add_comparison_pair-Kept h =
      let (_, h) =
        >>-eq-ok (refuse (ltb max_comparison_relations (suc p.comparison_count)) _) _ h in
      let (_, h) = >>-eq-ok (validate_comparison r v ps) _ h in
      let (next, counted, h) =
        >>=-eq-ok
          (if v.type == RelationshipType.disagrees_with
            then count_disagreement v (counting p)
            else ok (counting p))
          _ h in
      let (_, h) =
        >>-eq-ok (refuse (is_some (lookup (v.source ++ 0 ∷ v.target) next.comparison_pairs)) _) _
          h in
      let kept : Kept p next = elim (Bool-cases (v.type == RelationshipType.disagrees_with)) [
        | inl e ↦ count_disagreement-Kept v (counting p) next (rw e at counted)
        | inr e ↦ unchanged next (rw e at counted)
      ] in
      (ground (arith, kept.0), ground (arith, kept.1))

  base_relationship-declared :
      (typed : Bool)
      → base_relationship typed v p ≡ ok q
      → Kept p q × (is_required (tuple_of v) p ≡ true)
  base_relationship-declared typed h = (ground arith, ground arith)

  -- What is known of the state where a relationship of a type has passed.
  abbrev pub IsTyped : RelationshipType → Type 0
  IsTyped t = Kept p q × (is_comparison t ≡ false → is_required (tuple_of v) p ≡ true)

  base_typed :
      (t : RelationshipType) (typed : Bool) → base_relationship typed v p ≡ ok q → IsTyped t
  base_typed t typed h =
      ((base_relationship-declared typed h).0, λ _. (base_relationship-declared typed h).1)

  comparison_typed :
      (t : RelationshipType)
      → is_comparison t ≡ true
      → add_comparison_pair r ps v p ≡ ok q
      → IsTyped t
  comparison_typed t e h = (add_comparison_pair-Kept h, λ k. absurd (cc (e, k)))

  pub validate_type-IsTyped : (t : RelationshipType) → validate_type t r ps v p ≡ ok q → IsTyped t
  unfolding validate_type is_comparison RelationshipType-discrete
  validate_type-IsTyped RelationshipType.derived_from h =
      base_typed RelationshipType.derived_from _ h
  validate_type-IsTyped RelationshipType.established_by h =
      base_typed RelationshipType.established_by _ h
  validate_type-IsTyped RelationshipType.inferred_from h =
      base_typed RelationshipType.inferred_from _ h
  validate_type-IsTyped RelationshipType.unknown_because h =
      base_typed RelationshipType.unknown_because _ h
  validate_type-IsTyped RelationshipType.corroborates h =
      comparison_typed RelationshipType.corroborates refl h
  validate_type-IsTyped RelationshipType.disagrees_with h =
      comparison_typed RelationshipType.disagrees_with refl h
  validate_type-IsTyped RelationshipType.duplicates h =
      comparison_typed RelationshipType.duplicates refl h
  validate_type-IsTyped (RelationshipType.other t) h = cc h

-- What one turn of the loop checks and writes.
pub record IsChecked (digest : Text → Text) (v : Relationship) (p q : Progress) : Type 0 where
  pub required : q.required ≡ map (mark (tuple_of v)) p.required
  pub seen : q.seen ≡ store v.id (tuple_of v) p.seen
  pub fresh : lookup v.id p.seen ≡ none
  pub declared : is_comparison v.type ≡ false → is_required (tuple_of v) p ≡ true
  pub named : v.id ≡ relationship_id digest v.type v.from_kind v.source v.to_kind v.target

pub validate_relationship-IsChecked :
    (digest : Text → Text) (r : Report) (kinds : List (Text × NodeKind))
    (ps : List (Text × Provenance)) (v : Relationship) (p q : Progress)
    → validate_relationship digest r kinds ps v p ≡ ok q
    → IsChecked digest v p q
unfolding validate_relationship
validate_relationship-IsChecked digest r kinds ps v p q h =
    let named_id = relationship_id digest v.type v.from_kind v.source v.to_kind v.target in
    let (_, h) =
      >>-eq-ok (refuse (v.id == [] || v.source == [] || v.target == [] || v.source == v.target) _) _
        h in
    let (free, h) = >>-eq-ok (refuse (is_some (lookup v.id p.seen)) _) _ h in
    let (_, h) =
      >>-eq-ok
        (refuse (not (kind_of v.source kinds == v.from_kind && kind_of v.target kinds == v.to_kind))
          _)
        _ h in
    let (named, h) = >>-eq-ok (refuse (not (v.id == named_id)) _) _ h in
    let next = record p { seen = store v.id (tuple_of v) p.seen } in
    let (typed, passed, h) = >>=-eq-ok (validate_type v.type r ps v next) _ h in
    let (kept, declared) = validate_type-IsTyped r ps v next typed v.type passed in
    let fresh = refuse-eq-ok _ _ free in
    let agrees = refuse-eq-ok _ _ named in
    record {
      required = ground (arith, kept.0);
      seen = ground (arith, kept.1);
      fresh = elim (Option-cases (lookup v.id p.seen)) [
        | inl e ↦ e
        | inr (t, e) ↦ absurd (cc (rw e at fresh))
      ];
      declared = declared;
      named = ==→≡ v.id named_id (ground arith);
    }
