-- ===== src/Report/Validate/Distinct.antt =====
-- `duplicateString` of internal/report/validate.go against its meaning.
use plug_and_prejudice.Prelude.{
  ==→≡, All, All-map, Bool-cases, List, Option-cases, Text, Text-eq, [], false, inl, inr, is_some,
  none, or-split, refl, sym, true-ne-false, ≡→==, ◌==◌, ◌↔◌, ◌∙◌, ◌∷◌, ◌≡◌, ◌≢◌,
}
use plug_and_prejudice.Prelude.Assoc.{lookup, store}
use plug_and_prejudice.Prelude.Sort.{AreRelated}
use plug_and_prejudice.Report.Validate.Provenance.{duplicate_string, duplicates_seen}

abbrev Unseen : List (Text × Unit {0}) → Text → Type 0
Unseen seen v = lookup v seen ≡ none

lookup-store :
    (v w : Text) (seen : List (Text × Unit {0}))
    → (v ≢ w) × Unseen seen w
    → Unseen (store v tt seen) w
unfolding lookup
lookup-store v w seen (apart, h) = elim (Bool-cases (v == w)) [
  | inl e ↦ absurd (apart (==→≡ v w e))
  | inr e ↦ rw e h
]

store-lookup :
    (v w : Text) (seen : List (Text × Unit {0}))
    → Unseen (store v tt seen) w
    → (v ≢ w) × Unseen seen w
unfolding lookup
store-lookup v w seen h = elim (Bool-cases (v == w)) [
  | inl e ↦ absurd (cc (rw e at h))
  | inr e ↦ ((λ same. true-ne-false (sym (≡→== same) ∙ e)), rw e at h)
]

distinct :
    (vs : List Text) (seen : List (Text × Unit {0}))
    → duplicates_seen vs seen ≡ false
    → All (Unseen seen) vs × AreRelated (λ a b. a ≢ b) vs
unfolding duplicates_seen
distinct [] seen h = (tt, tt)
distinct (v ∷ vs) seen h =
    let (free, rest) = or-split (is_some (lookup v seen)) _ h in
    let (unseen, apart) = distinct vs (store v tt seen) rest in
    let here : Unseen seen v = elim (Option-cases (lookup v seen)) [
      | inl e ↦ e
      | inr (t, e) ↦ absurd (cc (rw e at free))
    ] in
    (
      (here, All-map _ _ (λ w k. (store-lookup v w seen k).1) vs unseen),
      (All-map _ _ (λ w k. (store-lookup v w seen k).0) vs unseen, apart),
    )

no_duplicate :
    (vs : List Text) (seen : List (Text × Unit {0}))
    → All (Unseen seen) vs
    → AreRelated (λ a b. a ≢ b) vs
    → duplicates_seen vs seen ≡ false
unfolding duplicates_seen
no_duplicate [] seen h k = refl
no_duplicate (v ∷ vs) seen (h, hs) (k, ks) =
    rw h (no_duplicate vs (store v tt seen) (later vs hs k) ks)
  where
    later :
        (ws : List Text)
        → All (Unseen seen) ws
        → All (λ w. v ≢ w) ws
        → All (Unseen (store v tt seen)) ws
    later [] a b = tt
    later (w ∷ ws) (a, as_) (b, bs) = (lookup-store v w seen (b, a), later ws as_ bs)

-- A list of strings has no duplicate exactly when no two of its places hold the same string.
pub duplicate_string-none :
    (vs : List Text) → (duplicate_string vs ≡ false) ↔ AreRelated (λ a b. a ≢ b) vs
unfolding duplicate_string
duplicate_string-none vs = (λ h. (distinct vs [] h).1, λ h. no_duplicate vs [] (all_unseen vs) h)
  where
    all_unseen : (ws : List Text) → All (Unseen []) ws
    all_unseen [] = tt
    all_unseen (w ∷ ws) = (unfold lookup in refl, all_unseen ws)
