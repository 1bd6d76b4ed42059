-- ===== src/Report/Validate/Relationships/Complete.antt =====
-- What the relationships of a report that passes are.
use plug_and_prejudice.Prelude.{
  ==→≡, >>-eq-ok, >>=-eq-ok, All, All-map, Bool, Bool-cases, In, List, Text, Text-eq, [], any, ap,
  arith, false, inl, inr, map, none, not, ok, pass, refl, refuse, refuse-eq-ok, subst, sym, true,
  true-ne-false, ≡→==, ◌==◌, ◌||◌, ◌∙◌, ◌∷◌, ◌≡◌, ◌≢◌,
}
use plug_and_prejudice.Prelude.Assoc.{lookup, store}
use plug_and_prejudice.Prelude.Sort.{AreRelated}
use plug_and_prejudice.Report.Comparison.{is_comparison}
use plug_and_prejudice.Report.Document.{Report}
use plug_and_prejudice.Report.Graph.View.{relationship_id}
use plug_and_prejudice.Report.Kinds.{NodeKind}
use plug_and_prejudice.Report.Records.{Provenance, Relationship}
use plug_and_prejudice.Report.Validate.Relationships.{
  EdgeTuple, EdgeTuple-eq, Progress, mark, no_progress, required_edges, tuple_of, validate_each,
  validate_relationship, validate_relationships, with_value,
}
use plug_and_prejudice.Report.Validate.Relationships.Required.{validate_relationship-IsChecked}

-- The relationships hold every edge that is required, every one that is no comparison is required,
-- their identities are apart, and each identity is the one of the ends.
pub record IsComplete (digest : Text → Text) (r : Report) : Type 0 where
  pub present : All (λ t. In t (map tuple_of r.relationships)) (required_edges r)
  pub declared :
      All (λ v. is_comparison v.type ≡ false → In (tuple_of v) (required_edges r)) r.relationships
  pub apart : AreRelated (λ v w. v.id ≢ w.id) r.relationships
  pub named :
      All
        (λ v. v.id ≡ relationship_id digest v.type v.from_kind v.source v.to_kind v.target)
        r.relationships

-- The keys of the map and its marks.
keys : List (EdgeTuple × Bool) → List EdgeTuple
keys [] = []
keys (e ∷ es) = e.0 ∷ keys es

keys-mark : (t : EdgeTuple) (es : List (EdgeTuple × Bool)) → keys (map (mark t) es) ≡ keys es
unfolding keys
keys-mark t [] = refl
keys-mark t (e ∷ es) = ap (◌∷◌ e.0) (keys-mark t es)

keys-start : (ts : List EdgeTuple) → keys (map (with_value false) ts) ≡ ts
unfolding keys
keys-start [] = refl
keys-start (t ∷ ts) = ap (◌∷◌ t) (keys-start ts)

In-keys :
    (t : EdgeTuple) (es : List (EdgeTuple × Bool)) → any (λ e. e.0 == t) es ≡ true → In t (keys es)
unfolding keys
In-keys t [] h = cc h
In-keys t (e ∷ es) h = elim (Bool-cases (e.0 == t)) [
  | inl k ↦ inl (sym (==→≡ e.0 t k))
  | inr k ↦ inr (In-keys t es (rw k at h))
]

-- Whatever is marked is among some tuples.
abbrev AreSound : List EdgeTuple → List (EdgeTuple × Bool) → Type 0
AreSound ts es = All (λ e. e.1 ≡ true → In e.0 ts) es

AreSound-start : (ts all_ts : List EdgeTuple) → AreSound ts (map (with_value false) all_ts)
AreSound-start ts [] = tt
AreSound-start ts (t ∷ rest) = ((λ h. absurd (cc h)), AreSound-start ts rest)

AreSound-mark :
    (ts : List EdgeTuple) (t : EdgeTuple) (es : List (EdgeTuple × Bool))
    → In t ts
    → AreSound ts es
    → AreSound ts (map (mark t) es)
AreSound-mark ts t [] i h = tt
AreSound-mark ts t (e ∷ es) i (h, hs) = (here, AreSound-mark ts t es i hs)
  where
    here : (e.1 || e.0 == t) ≡ true → In e.0 ts
    here k = elim (Bool-cases e.1) [
      | inl marked ↦ h marked
      | inr free ↦ subst (λ u. In u ts) (sym (==→≡ e.0 t (rw free at k))) i
    ]

AreSound-all :
    (ts : List EdgeTuple) (es : List (EdgeTuple × Bool))
    → AreSound ts es
    → any (λ e. not e.1) es ≡ false
    → All (λ t. In t ts) (keys es)
unfolding keys
AreSound-all ts [] h k = tt
AreSound-all ts (e ∷ es) (h, hs) k = (h (ground arith), AreSound-all ts es hs (ground arith))

In-map : (v : Relationship) (vs : List Relationship) → In v vs → In (tuple_of v) (map tuple_of vs)
In-map v (w ∷ vs) (inl e) = inl (ap tuple_of e)
In-map v (w ∷ vs) (inr i) = inr (In-map v vs i)
In-map v [] i = absurd i

-- The loop from any state on. `ts` holds the tuples of all relationships of the report.
record IsLooped (digest : Text → Text) (ts : List EdgeTuple) (vs : List Relationship)
    (p q : Progress) : Type 0 where
  same_keys : keys q.required ≡ keys p.required
  sound : AreSound ts p.required → AreSound ts q.required
  fresh : All (λ v. lookup v.id p.seen ≡ none) vs
  apart : AreRelated (λ v w. v.id ≢ w.id) vs
  declared : All (λ v. is_comparison v.type ≡ false → In (tuple_of v) (keys p.required)) vs
  named : All (λ v. v.id ≡ relationship_id digest v.type v.from_kind v.source v.to_kind v.target) vs

-- A name that is fresh after a store is another name, and was fresh before.
fresh-store :
    (id : Text) (t : EdgeTuple) (seen : List (Text × EdgeTuple)) (v : Relationship)
    → lookup v.id (store id t seen) ≡ none
    → (id ≢ v.id) × (lookup v.id seen ≡ none)
unfolding lookup
fresh-store id t seen v h = elim (Bool-cases (id == v.id)) [
  | inl e ↦ absurd (cc (rw e at h))
  | inr e ↦ ((λ same. true-ne-false (sym (≡→== same) ∙ e)), rw e at h)
]

module _ (digest : Text → Text) (r : Report) (kinds : List (Text × NodeKind))
    (ps : List (Text × Provenance)) where
  looped :
      (ts : List EdgeTuple) (vs : List Relationship) (p q : Progress)
      → All (λ v. In (tuple_of v) ts) vs
      → validate_each digest r kinds ps vs p ≡ ok q
      → IsLooped digest ts vs p q
  unfolding validate_each
  looped ts [] p q within h =
      let same : p ≡ q = ground arith in
      subst (IsLooped digest ts [] p) same (record {
        same_keys = refl;
        sound = λ s. s;
        fresh = tt;
        apart = tt;
        declared = tt;
        named = tt;
      })
  looped ts (v ∷ vs) p q (here, within) h =
      let (m, first, others) = >>=-eq-ok (validate_relationship digest r kinds ps v p) _ h in
      let c = validate_relationship-IsChecked digest r kinds ps v p m first in
      let w = looped ts vs m q within others in
      let id_fresh : All (λ w. lookup w.id (store v.id (tuple_of v) p.seen) ≡ none) vs =
        subst (λ seen. All (λ w. lookup w.id seen ≡ none) vs) c.seen w.fresh in
      let same : keys m.required ≡ keys p.required =
        ap keys c.required ∙ keys-mark (tuple_of v) p.required in
      record {
        same_keys = w.same_keys ∙ same;
        sound = λ s. w.sound (
            subst (AreSound ts) (sym c.required) (AreSound-mark ts (tuple_of v) p.required here s));
        fresh = (
          c.fresh,
          All-map _ _ (λ w k. (fresh-store v.id (tuple_of v) p.seen w k).1) vs id_fresh,
        );
        apart = (
          All-map _ _ (λ w k. (fresh-store v.id (tuple_of v) p.seen w k).0) vs id_fresh,
          w.apart,
        );
        declared = (
          (λ k. In-keys (tuple_of v) p.required (c.declared k)),
          subst (λ ks. All (λ w. is_comparison w.type ≡ false → In (tuple_of w) ks) vs) same
              w.declared,
        );
        named = (c.named, w.named);
      }

  All-within :
      (vs : List Relationship) (ts : List EdgeTuple)
      → ((v : Relationship) → In v vs → In (tuple_of v) ts)
      → All (λ v. In (tuple_of v) ts) vs
  All-within [] ts h = tt
  All-within (v ∷ vs) ts h = (h v (inl refl), All-within vs ts (λ w i. h w (inr i)))

  -- A report whose relationships pass has, for every resource, every support of a finding and every
  -- operation that an unknown affects, the relationship that says so. It has no other relationship
  -- that is not a comparison, no two have one identity, and the identity is the digest of the ends.
  pub validate_relationships-IsComplete :
      validate_relationships digest r kinds ps ≡ pass → IsComplete digest r
  unfolding validate_relationships no_progress
  validate_relationships-IsComplete h =
      let start = no_progress r in
      let (p, passed, h) = >>=-eq-ok (validate_each digest r kinds ps r.relationships start) _ h in
      let (missing, _) =
        >>-eq-ok
          (refuse (any (λ e. not e.1) p.required) "required evidence relationship is missing") _
          h in
      let ts = map tuple_of r.relationships in
      let w =
        looped ts r.relationships start p
          (All-within r.relationships ts (λ v i. In-map v r.relationships i)) passed in
      let known = keys-start (required_edges r) in
      record {
        present = subst (All (λ t. In t ts)) (w.same_keys ∙ known) (
            AreSound-all ts p.required (w.sound (AreSound-start ts (required_edges r)))
              (refuse-eq-ok _ _ missing));
        declared =
            subst
              (λ ks. All (λ v. is_comparison v.type ≡ false → In (tuple_of v) ks) r.relationships)
              known w.declared;
        apart = w.apart;
        named = w.named;
      }
