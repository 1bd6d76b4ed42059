-- ===== src/Prelude/Lists.antt =====
-- Lists measured by native numbers, and the predicates on lists that the components share.
use Prim.Native.Nat.{ℕ, zero, suc, ◌+◌, ◌-◌, ◌≤◌, min}
use mathlib.Core.Path.{◌≡◌, ◌∙◌, ap, refl, subst, sym}
use mathlib.Core.Bool.{Bool, true, false, ◌&&◌, ◌||◌}
use mathlib.Core.List.{List, [], ◌∷◌, ◌++◌, map}
use mathlib.Core.Logic.{◌⊎◌, inl, inr}
use native.Mathlib.Omega.{arith}

module _ {ℓ} {A : Type ℓ} where
  abbrev pub length : List A → ℕ
  length [] = 0
  length (x ∷ xs) = suc (length xs)

  abbrev pub take : ℕ → List A → List A
  take zero xs = []
  take (suc n) [] = []
  take (suc n) (x ∷ xs) = x ∷ take n xs

  abbrev pub drop : ℕ → List A → List A
  drop zero xs = xs
  drop (suc n) [] = []
  drop (suc n) (x ∷ xs) = drop n xs

  pub length-append : (xs ys : List A) → length (xs ++ ys) ≡ length xs + length ys
  length-append [] ys = omega arith
  length-append (x ∷ xs) ys = omega (arith, length-append xs ys)

  pub length-take : (n : ℕ) (xs : List A) → length (take n xs) ≡ min n (length xs)
  length-take zero xs = omega arith
  length-take (suc n) [] = omega arith
  length-take (suc n) (x ∷ xs) = omega (arith, length-take n xs)

  -- `slices.ContainsFunc` and its dual, the shape of the searching loops.
  abbrev pub any : (A → Bool) → List A → Bool
  any p [] = false
  any p (x ∷ xs) = p x || any p xs

  abbrev pub all : (A → Bool) → List A → Bool
  all p [] = true
  all p (x ∷ xs) = p x && all p xs

  -- A predicate of each element.
  abbrev pub All {κ} : (A → Type κ) → List A → Type κ
  All P [] = Unit
  All P (x ∷ xs) = P x × All P xs

-- Membership that keeps its place.
module _ {A : Type 0} where
  abbrev pub In : A → List A → Type 0
  In a [] = ⊥
  In a (x ∷ xs) = (a ≡ x) ⊎ In a xs

  pub In-append_left : (a : A) (xs ys : List A) → In a xs → In a (xs ++ ys)
  In-append_left a [] ys h = absurd h
  In-append_left a (x ∷ xs) ys (inl e) = inl e
  In-append_left a (x ∷ xs) ys (inr h) = inr (In-append_left a xs ys h)

  pub In-append_right : (a : A) (xs ys : List A) → In a ys → In a (xs ++ ys)
  In-append_right a [] ys h = h
  In-append_right a (x ∷ xs) ys h = inr (In-append_right a xs ys h)

module _ {A : Type 0} where
  pub All-append : (P : A → Type 0) (xs ys : List A) → All P xs → All P ys → All P (xs ++ ys)
  All-append P [] ys hx hy = hy
  All-append P (x ∷ xs) ys (h, hx) hy = (h, All-append P xs ys hx hy)

  pub All-map : (P Q : A → Type 0) → ((x : A) → P x → Q x) → (xs : List A) → All P xs → All Q xs
  All-map P Q f [] h = tt
  All-map P Q f (x ∷ xs) (h, hs) = (f x h, All-map P Q f xs hs)

  -- Each element of a list is in it.
  pub All-self : (xs : List A) → All (λ x. In x xs) xs
  All-self [] = tt
  All-self (x ∷ xs) =
      (inl refl, All-map (λ y. In y xs) (λ y. In y (x ∷ xs)) (λ y i. inr i) xs (All-self xs))

  pub All-In : (P : A → Type 0) (x : A) (xs : List A) → All P xs → In x xs → P x
  All-In P x [] h i = absurd i
  All-In P x (y ∷ xs) (h, hs) (inl e) = subst P (sym e) h
  All-In P x (y ∷ xs) (h, hs) (inr i) = All-In P x xs hs i

module _ {ℓ} {A : Type ℓ} where
  pub take_all : (n : ℕ) (xs : List A) → length xs ≤ n → take n xs ≡ xs
  take_all zero [] h = refl
  take_all zero (x ∷ xs) h = absurd (omega (arith, h))
  take_all (suc n) [] h = refl
  take_all (suc n) (x ∷ xs) h = ap ((◌∷◌) x) (take_all n xs (omega arith))

  pub take-append :
      (n : ℕ) (xs ys : List A) → take n (xs ++ ys) ≡ take n xs ++ take (n - length xs) ys
  take-append zero [] ys = refl
  take-append zero (x ∷ xs) ys =
      let gone : 0 ≡ 0 - length (x ∷ xs) = omega arith in ap (λ n. take n ys) gone
  take-append (suc n) [] ys =
      let same : suc n ≡ suc n - length {A = A} [] = omega arith in ap (λ k. take k ys) same
  take-append (suc n) (x ∷ xs) ys =
      let same : n - length xs ≡ suc n - length (x ∷ xs) = omega arith in
      ap ((◌∷◌) x) (take-append n xs ys ∙ ap (λ k. take n xs ++ take k ys) same)

  -- The lists of a list, one after another.
  abbrev pub concat : List (List A) → List A
  concat [] = []
  concat (xs ∷ xss) = xs ++ concat xss

module _ {A B : Type 0} (f : A → B) where
  pub In-mapped : (a : A) (xs : List A) → In a xs → In (f a) (map f xs)
  In-mapped a [] i = i
  In-mapped a (x ∷ xs) (inl e) = inl (ap f e)
  In-mapped a (x ∷ xs) (inr i) = inr (In-mapped a xs i)

  pub In-map : (b : B) (xs : List A) → In b (map f xs) → (a : A) × In a xs × (b ≡ f a)
  In-map b [] i = absurd i
  In-map b (x ∷ xs) (inl e) = (x, inl refl, e)
  In-map b (x ∷ xs) (inr i) = let (a, j, e) = In-map b xs i in (a, inr j, e)

  pub length-map : (xs : List A) → length (map f xs) ≡ length xs
  length-map [] = refl
  length-map (x ∷ xs) = ap suc (length-map xs)
