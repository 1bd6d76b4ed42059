-- ===== src/Analyze/References/Sets.antt =====
-- The lists of keys that stand for the sets of internal/analyze/scope.go.
use plug_and_prejudice.Analyze.References.{add, has}
use plug_and_prejudice.Prelude.{
  ==_refl, ==→≡, All, All-append, Bool-cases, In, In-append_left, In-append_right, List, Text,
  Text-eq, [], ap, append-nil, arith, false, if◌then◌else◌, inl, inr, length, length-append, refl,
  subst, suc, sym, true, ℕ, ◌++◌, ◌+◌, ◌==◌, ◌||◌, ◌∙◌, ◌∷◌, ◌≡◌, ◌≤◌,
}

pub has-In : (a : Text) (xs : List Text) → has a xs ≡ true → In a xs
unfolding has
has-In a [] h = cc
has-In a (x ∷ xs) h = elim (Bool-cases (a == x)) [
  | inl e ↦ inl (==→≡ a x e)
  | inr e ↦ inr (has-In a xs (rw e at h))
]

pub In-add_self : (a : Text) (xs : List Text) → In a (add a xs)
unfolding add
In-add_self a xs = elim (Bool-cases (has a xs)) [
  | inl e ↦ rw e (has-In a xs e)
  | inr e ↦ rw e (In-append_right a xs (a ∷ []) (inl refl))
]

pub In-add : (b a : Text) (xs : List Text) → In b xs → In b (add a xs)
unfolding add
In-add b a xs i = elim (Bool-cases (has a xs)) [
  | inl e ↦ rw e i
  | inr e ↦ rw e (In-append_left b xs (a ∷ []) i)
]

pub add-All : (P : Text → Type 0) (a : Text) (xs : List Text) → P a → All P xs → All P (add a xs)
unfolding add
add-All P a xs p ps = elim (Bool-cases (has a xs)) [
  | inl e ↦ rw e ps
  | inr e ↦ rw e (All-append P xs (a ∷ []) ps (p, tt))
]

add-present : (a : Text) (xs : List Text) → has a xs ≡ true → add a xs ≡ xs
unfolding add
add-present a xs h = rw h refl

add-absent : (a : Text) (xs : List Text) → has a xs ≡ false → add a xs ≡ xs ++ a ∷ []
unfolding add
add-absent a xs h = rw h refl

length-add : (a : Text) (xs : List Text) → has a xs ≡ false → length (add a xs) ≡ suc (length xs)
length-add a xs h = ap length (add-absent a xs h) ∙ omega (arith, length-append xs (a ∷ []))

-- The keys that are not in a set yet.
unfoldable pub missing : List Text → List Text → ℕ
missing [] set = 0
missing (c ∷ cs) set = (if has c set then 0 else 1) + missing cs set

has-append : (b : Text) (xs ys : List Text) → has b (xs ++ ys) ≡ (has b xs || has b ys)
unfolding has
has-append b [] ys = refl
has-append b (x ∷ xs) ys = ground (arith, has-append b xs ys)

has-add : (b a : Text) (xs : List Text) → has b xs ≡ true → has b (add a xs) ≡ true
unfolding add
has-add b a xs h = elim (Bool-cases (has a xs)) [
  | inl e ↦ rw e h
  | inr e ↦ rw e (ground (arith, has-append b xs (a ∷ [])))
]

pub has-add_self : (a : Text) (xs : List Text) → has a (add a xs) ≡ true
unfolding add has
has-add_self a xs = elim (Bool-cases (has a xs)) [
  | inl e ↦ rw e e
  | inr e ↦ rw e (ground (arith, has-append a xs (a ∷ []), ==_refl a))
]

missing-add_le :
    (cs : List Text) (a : Text) (set : List Text) → missing cs (add a set) ≤ missing cs set
unfolding missing
missing-add_le [] a set = omega arith
missing-add_le (c ∷ cs) a set = ground (arith, missing-add_le cs a set, has-add c a set)

missing-add_less :
    (cs : List Text) (a : Text) (set : List Text)
    → has a set ≡ false
    → In a cs
    → suc (missing cs (add a set)) ≤ missing cs set
unfolding missing
missing-add_less [] a set h i = absurd i
missing-add_less (c ∷ cs) a set h (inl e) =
    let absent : has c set ≡ false = subst (λ t. has t set ≡ false) e h in
    let present : has c (add a set) ≡ true =
      subst (λ t. has t (add a set) ≡ true) e (has-add_self a set) in
    ground (arith, missing-add_le cs a set)
missing-add_less (c ∷ cs) a set h (inr i) =
    ground (arith, missing-add_less cs a set h i, has-add c a set)

-- A key that is added is one key less to come.
pub missing-add :
    (cs : List Text) (a : Text) (set : List Text)
    → In a cs
    → missing cs (add a set) + length (add a set) ≤ missing cs set + length set
missing-add cs a set i = elim (Bool-cases (has a set)) [
  | inl e ↦ let same = add-present a set e in rw same (omega arith)
  | inr e ↦ omega (arith, missing-add_less cs a set e i, length-add a set e)
]

pub missing_le : (cs : List Text) (set : List Text) → missing cs set ≤ length cs
unfolding missing
missing_le [] set = omega arith
missing_le (c ∷ cs) set = ground (arith, missing_le cs set)

pub add-extends : (a : Text) (xs : List Text) → (extra : List Text) × (add a xs ≡ xs ++ extra)
unfolding add
add-extends a xs = elim (Bool-cases (has a xs)) [
  | inl e ↦ ([], rw e (sym (append-nil xs)))
  | inr e ↦ (a ∷ [], rw e refl)
]
