-- ===== src/Report/Graph/References.antt =====
-- The assignment of public references in `BuildEvidenceGraph`: the closure `assign` and the loops
-- that call it, with the map from references to identities as state.
use plug_and_prejudice.Prelude.{
  ==→≡, >>-eq-ok, >>=-eq-ok, All, Bool, Bool-cases, List, Option, Result, Text, Text-eq, [], ap,
  ap₂, arith, false, inl, inr, map, none, not, ok, refl, refuse, refuse-eq-ok, some, subst, subst₂,
  sym, true, ◌==◌, ◌>>=◌, ◌>>◌, ◌∷◌, ◌≡◌,
}
use plug_and_prejudice.Prelude.Assoc.{lookup, lookup-store_self, store}
use plug_and_prejudice.Report.Graph.View.{NodeView, node_identity, public_reference}
use plug_and_prejudice.Report.Kinds.{NodeKind}

abbrev pub Names : Type 0
Names = List (Text × Text)

-- Two identities for one reference.
unfoldable pub collides : Text → Option Text → Bool
collides identity none = false
collides identity (some previous) = not (previous == identity)

-- A store that does not collide keeps what the map had.
store-kept :
    (reference identity : Text) (names : Names)
    → collides identity (lookup reference names) ≡ false
    → (k v : Text) → lookup k names ≡ some v
    → lookup k (store reference identity names) ≡ some v
unfolding lookup collides
store-kept reference identity names free k v h = elim (Bool-cases (reference == k)) [
  | inl e ↦
      let same = ==→≡ reference k e in
      let old : lookup reference names ≡ some v =
        subst (λ j. lookup j names ≡ some v) (sym same) h in
      let agrees : (v == identity) ≡ true = ground arith in
      rw e (ap some (sym (==→≡ v identity agrees)))
  | inr e ↦ rw e h
]

module _ (digest : Text → Text) where
  unfoldable pub assign : NodeKind → Text → Names → Result (Text × Names)
  unfolding collides
  assign kind id names = do
    let reference = public_reference digest kind id
    let identity = node_identity kind id
    refuse (collides identity (lookup reference names)) "public reference collision"
    ok (reference, store reference identity names)

  module _ {A : Type 0} (view : NodeView A) where
    unfoldable pub assign_all : List A → Names → Result (List A × Names)
    unfolding assign
    assign_all [] names = ok ([], names)
    assign_all (x ∷ xs) names = do
      (reference, names') ← assign view.kind (view.id x) names
      (ys, last) ← assign_all xs names'
      ok (view.refer reference x ∷ ys, last)

    -- What is known of the references once the loop has ended.
    pub record IsAssigned (xs ys : List A) (names last : Names) : Type 0 where
      pub referred : ys ≡ map (λ x. view.refer (public_reference digest view.kind (view.id x)) x) xs
      pub recorded :
          All (λ y. lookup (view.reference y) last ≡ some (node_identity view.kind (view.id y))) ys
      pub kept : (k v : Text) → lookup k names ≡ some v → lookup k last ≡ some v

  assign-kept :
      (kind : NodeKind) (id : Text) (names last : Names) (reference : Text)
      → assign kind id names ≡ ok (reference, last)
      → (reference ≡ public_reference digest kind id)
        × (lookup reference last ≡ some (node_identity kind id))
        × ((k v : Text) → lookup k names ≡ some v → lookup k last ≡ some v)
  unfolding assign
  assign-kept kind id names last reference h =
      let own = public_reference digest kind id in
      let identity = node_identity kind id in
      let (free, made) =
        >>-eq-ok (refuse (collides identity (lookup own names)) "public reference collision")
          (ok (own, store own identity names)) h in
      let named : own ≡ reference = ground arith in
      let stored : store own identity names ≡ last = ground arith in
      (
        sym named,
        subst (λ m. lookup reference m ≡ some identity) stored
            (subst (λ k. lookup k (store own identity names) ≡ some identity) named
              (lookup-store_self own identity names)),
        λ k v found.
            subst (λ m. lookup k m ≡ some v) stored
              (store-kept own identity names (refuse-eq-ok _ _ free) k v found),
      )

  module _ {A : Type 0} (view : NodeView A) where
    recorded_later :
        (names last : Names)
        → ((k v : Text) → lookup k names ≡ some v → lookup k last ≡ some v)
        → (x : A) (reference : Text)
        → lookup reference names ≡ some (node_identity view.kind (view.id x))
        → lookup (view.reference (view.refer reference x)) last
          ≡ some (node_identity view.kind (view.id (view.refer reference x)))
    recorded_later names last kept x reference h =
        rw (view.reference-refer reference x, view.id-refer reference x) (kept _ _ h)

    -- A loop that ends without an error has given every observation its public reference, the map
    -- holds the identity of each, and nothing that the map held is lost.
    pub assign_all-IsAssigned :
        (xs ys : List A) (names last : Names)
        → assign_all view xs names ≡ ok (ys, last)
        → IsAssigned view xs ys names last
    unfolding assign_all
    assign_all-IsAssigned [] ys names last h =
        let nil_ys : [] ≡ ys = ground arith in
        let same : names ≡ last = ground arith in
        subst₂ (λ zs m. IsAssigned view [] zs names m) nil_ys same
          (record { referred = refl; recorded = tt; kept = λ k v found. found })
    assign_all-IsAssigned (x ∷ xs) ys names last h =
        let (p, first, rest) = >>=-eq-ok (assign view.kind (view.id x) names) _ h in
        let (q, others, made) = >>=-eq-ok (assign_all view xs p.1) _ rest in
        let ih = assign_all-IsAssigned xs q.0 p.1 q.1 others in
        let (named, stored, kept) = assign-kept view.kind (view.id x) names p.1 p.0 first in
        let same_ys : view.refer p.0 x ∷ q.0 ≡ ys = ground arith in
        let same_last : q.1 ≡ last = ground arith in
        subst₂ (λ zs m. IsAssigned view (x ∷ xs) zs names m) same_ys same_last
          (record {
            referred = ap₂ (λ t zs. view.refer t x ∷ zs) named ih.referred;
            recorded = (recorded_later p.1 q.1 ih.kept x p.0 stored, ih.recorded);
            kept = λ k v found. ih.kept k v (kept k v found);
          })
