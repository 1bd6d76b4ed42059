-- ===== src/Prelude/Sort.antt =====
-- `sort.Slice` by a strict order.
use mathlib.Core.List.Perm
use mathlib.Core.List.{Perm}
use mathlib.Core.Bool.{Bool, true, false}
use mathlib.Core.List.{List, [], ◌∷◌, map}
use mathlib.Core.Path.{◌≡◌, refl, ap, ◌∙◌}
use native.Mathlib.Omega.{arith}
use Prim.Native.Nat.{suc}
use mathlib.Core.Logic.{inl, inr}
use plug_and_prejudice.Prelude.{
  All, All-In, All-append, All-self, Bool-cases, In, if◌then◌else◌, length, ◌++◌, ◌⊎◌,
}

module _ {ℓ} {A : Type ℓ} (lt : A → A → Bool) where
  pub insert : A → List A → List A
  insert a [] = a ∷ []
  insert a (x ∷ xs) = if lt x a then x ∷ insert a xs else a ∷ x ∷ xs

  unfoldable pub sort : List A → List A
  unfolding insert
  sort [] = []
  sort (x ∷ xs) = insert x (sort xs)

  insert-perm : (a : A) (xs : List A) → Perm (insert a xs) (a ∷ xs)
  unfolding insert
  insert-perm a [] = Perm.refl _
  insert-perm a (x ∷ xs) = elim (Bool-cases (lt x a)) [
    | inl h ↦ rw h (Perm.trans (Perm.cons x (insert-perm a xs)) (Perm.swap a x xs))
    | inr h ↦ rw h (Perm.refl _)
  ]

  pub sort-perm : (xs : List A) → Perm (sort xs) xs
  unfolding sort
  sort-perm [] = Perm.refl _
  sort-perm (x ∷ xs) = Perm.trans (insert-perm x (sort xs)) (Perm.cons x (sort-perm xs))

  insert-All {κ} : (P : A → Type κ) (a : A) (xs : List A) → P a → All P xs → All P (insert a xs)
  unfolding insert
  insert-All P a [] h hs = (h, tt)
  insert-All P a (x ∷ xs) h (hx, hs) = elim (Bool-cases (lt x a)) [
    | inl e ↦ rw e (hx, insert-All P a xs h hs)
    | inr e ↦ rw e (h, (hx, hs))
  ]

  pub sort-All {κ} : (P : A → Type κ) (xs : List A) → All P xs → All P (sort xs)
  unfolding sort
  sort-All P [] hs = tt
  sort-All P (x ∷ xs) (h, hs) = insert-All P x (sort xs) h (sort-All P xs hs)

  length-insert : (a : A) (xs : List A) → length (insert a xs) ≡ suc (length xs)
  unfolding insert
  length-insert a [] = refl
  length-insert a (x ∷ xs) = ground (arith, length-insert a xs)

  pub length-sort : (xs : List A) → length (sort xs) ≡ length xs
  unfolding sort
  length-sort [] = refl
  length-sort (x ∷ xs) = omega (arith, length-insert x (sort xs), length-sort xs)

-- In order: nothing stands before something that is less.
abbrev pub IsOrdered {ℓ} : {A : Type ℓ} → (A → A → Bool) → List A → Type 0
IsOrdered lt [] = Unit
IsOrdered lt (x ∷ xs) = All (λ y. lt y x ≡ false) xs × IsOrdered lt xs

module _ {ℓ} {A : Type ℓ} (lt : A → A → Bool) (asymm : (a b : A) → lt a b ≡ true → lt b a ≡ false)
    (ntrans : (a b c : A) → lt b a ≡ false → lt c b ≡ false → lt c a ≡ false) where
  All-ntrans :
      (a x : A) (xs : List A)
      → lt x a ≡ false
      → All (λ y. lt y x ≡ false) xs
      → All (λ y. lt y a ≡ false) xs
  All-ntrans a x [] h hs = tt
  All-ntrans a x (y ∷ xs) h (hy, hs) = (ntrans a x y h hy, All-ntrans a x xs h hs)

  insert-IsOrdered : (a : A) (xs : List A) → IsOrdered lt xs → IsOrdered lt (insert lt a xs)
  unfolding insert
  insert-IsOrdered a [] h = (tt, tt)
  insert-IsOrdered a (x ∷ xs) (h, hs) = elim (Bool-cases (lt x a)) [
    | inl e ↦
        rw e (insert-All lt (λ y. lt y x ≡ false) a xs (asymm x a e) h, insert-IsOrdered a xs hs)
    | inr e ↦ rw e ((e, All-ntrans a x xs e h), (h, hs))
  ]

  pub sort-IsOrdered : (xs : List A) → IsOrdered lt (sort lt xs)
  unfolding sort
  sort-IsOrdered [] = tt
  sort-IsOrdered (x ∷ xs) = insert-IsOrdered x (sort lt xs) (sort-IsOrdered xs)

-- Sorting by keys goes past a function that keeps them.
module _ {ℓ} {A : Type ℓ} (lt : A → A → Bool) (f : A → A)
    (keeps : (a b : A) → lt (f a) (f b) ≡ lt a b) where
  map-insert : (a : A) (xs : List A) → map f (insert lt a xs) ≡ insert lt (f a) (map f xs)
  unfolding insert
  map-insert a [] = refl
  map-insert a (x ∷ xs) = ground (arith, map-insert a xs, keeps x a)

  pub map-sort : (xs : List A) → map f (sort lt xs) ≡ sort lt (map f xs)
  unfolding sort
  map-sort [] = refl
  map-sort (x ∷ xs) = map-insert x (sort lt xs) ∙ ap (insert lt (f x)) (map-sort xs)

-- Sorting loses no element.
module _ {A : Type 0} (lt : A → A → Bool) where
  In-insert : (b a : A) (xs : List A) → (b ≡ a) ⊎ In b xs → In b (insert lt a xs)
  unfolding insert
  In-insert b a [] h = h
  In-insert b a (x ∷ xs) h = elim (Bool-cases (lt x a)) [
    | inl e ↦ rw e (elim h [
      | inl same ↦ inr (In-insert b a xs (inl same))
      | inr (inl same) ↦ inl same
      | inr (inr i) ↦ inr (In-insert b a xs (inr i))
    ])
    | inr e ↦ rw e h
  ]

  pub In-sort : (b : A) (xs : List A) → In b xs → In b (sort lt xs)
  unfolding sort
  In-sort b [] h = h
  In-sort b (x ∷ xs) (inl e) = In-insert b x (sort lt xs) (inl e)
  In-sort b (x ∷ xs) (inr i) = In-insert b x (sort lt xs) (inr (In-sort b xs i))

  pub In-of_sort : (b : A) (xs : List A) → In b (sort lt xs) → In b xs
  In-of_sort b xs i =
      All-In (λ c. In c xs) b (sort lt xs) (sort-All lt (λ c. In c xs) xs (All-self xs)) i

-- A relation between any two elements.
abbrev pub AreRelated : {A : Type 0} → (A → A → Type 0) → List A → Type 0
AreRelated R [] = Unit
AreRelated R (x ∷ xs) = All (R x) xs × AreRelated R xs

pub AreRelated-append :
    {A : Type 0} (R : A → A → Type 0) (xs : List A) (a : A)
    → AreRelated R xs
    → All (λ x. R x a) xs
    → AreRelated R (xs ++ a ∷ [])
AreRelated-append R [] a h k = (tt, tt)
AreRelated-append R (x ∷ xs) a (h, hs) (k, ks) =
    (All-append (R x) xs (a ∷ []) h (k, tt), AreRelated-append R xs a hs ks)

module _ {A : Type 0} (lt : A → A → Bool) (R : A → A → Type 0)
    (symmetric : (a b : A) → R a b → R b a) where
  insert-AreRelated :
      (a : A) (xs : List A) → All (R a) xs → AreRelated R xs → AreRelated R (insert lt a xs)
  unfolding insert
  insert-AreRelated a [] h hs = (tt, tt)
  insert-AreRelated a (x ∷ xs) (h, hs) (k, ks) = elim (Bool-cases (lt x a)) [
    | inl e ↦ rw e (insert-All lt (R x) a xs (symmetric a x h) k, insert-AreRelated a xs hs ks)
    | inr e ↦ rw e ((h, hs), (k, ks))
  ]

  pub sort-AreRelated : (xs : List A) → AreRelated R xs → AreRelated R (sort lt xs)
  unfolding sort
  sort-AreRelated [] h = tt
  sort-AreRelated (x ∷ xs) (h, hs) =
      insert-AreRelated x (sort lt xs) (sort-All lt (R x) xs h) (sort-AreRelated xs hs)
