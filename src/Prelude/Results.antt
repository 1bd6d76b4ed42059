-- ===== src/Prelude/Results.antt =====
-- Go's error results. The message of an error is the source's, without what it formats into it.
use Prim.Native.String.{String}
use mathlib.Core.Path.{◌≡◌, refl}
use mathlib.Core.Bool.{Bool, true, false}
use mathlib.Core.List.{List, [], ◌∷◌}
use native.Mathlib.Omega.{arith}
use plug_and_prejudice.Prelude.Lists.{All}

pub data Result {ℓ} (A : Type ℓ) : Type ℓ where
  ok : A → Result A
  err : String → Result A

abbrev pub Check : Type 0
Check = Result (Unit {0})

abbrev pub pass : Check
pass = ok tt

-- A call whose error is passed on.
infixl 5 ◌>>=◌ ◌>>◌
abbrev pub ◌>>=◌ {ℓ κ} : {A : Type ℓ} {B : Type κ} → Result A → (A → Result B) → Result B
err message >>= next = err message
ok value >>= next = next value

abbrev pub ◌>>◌ {ℓ} : {B : Type ℓ} → Check → Result B → Result B
first >> next = first >>= λ _. next

-- `if bad { return err }`.
abbrev pub refuse : Bool → String → Check
refuse true e = err e
refuse false e = pass

pub >>=-eq-ok {ℓ κ} :
    {A : Type ℓ} {B : Type κ} (first : Result A) (next : A → Result B) {last : B}
    → (first >>= next) ≡ ok last
    → (value : A) × (first ≡ ok value) × (next value ≡ ok last)
>>=-eq-ok (err message) next h = cc
>>=-eq-ok (ok value) next h = (value, refl, h)

pub >>-eq-ok {κ} :
    {B : Type κ} (m : Check) (k : Result B) {b : B} → (m >> k) ≡ ok b → (m ≡ pass) × (k ≡ ok b)
>>-eq-ok (ok tt) k h = (refl, h)
>>-eq-ok (err e) k h = cc

pub refuse-eq-ok : (bad : Bool) (e : String) → refuse bad e ≡ pass → bad ≡ false
refuse-eq-ok true e h = cc
refuse-eq-ok false e h = refl

-- A loop that stops at the first element that is refused.
unfoldable pub each {ℓ} : {A : Type ℓ} → (A → Check) → List A → Check
each check [] = pass
each check (x ∷ xs) = do check x; each check xs

pub each-eq-ok {ℓ} :
    {A : Type ℓ} (check : A → Check) (xs : List A)
    → each check xs ≡ pass
    → All (λ x. check x ≡ pass) xs
unfolding each
each-eq-ok check [] h = tt
each-eq-ok check (x ∷ xs) h =
    let (here, there) = >>-eq-ok (check x) (each check xs) h in (here, each-eq-ok check xs there)

pub each-All {ℓ} :
    {A : Type ℓ} (check : A → Check) (xs : List A)
    → All (λ x. check x ≡ pass) xs
    → each check xs ≡ pass
unfolding each
each-All check [] h = refl
each-All check (x ∷ xs) (here, there) = ground (arith, each-All check xs there)

pub ok-inj {ℓ} : {A : Type ℓ} {a b : A} → ok a ≡ ok b → a ≡ b
ok-inj h = cc
