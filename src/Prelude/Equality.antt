-- ===== src/Prelude/Equality.antt =====
-- `==` of Go on comparable values, as an interface: a Boolean test that decides paths.
use mathlib.Core.Path.{◌≡◌, refl}
use mathlib.Core.Logic.{◌↔◌}
use mathlib.Core.Bool.{Bool, true, false}

pub record Eq {ℓ} (A : Type ℓ) : Type ℓ where
  pub test : A → A → Bool
  pub test_iff : (a b : A) → (test a b ≡ true) ↔ (a ≡ b)

abbrev pub holds {ℓ} : {P : Type ℓ} → Dec P → Bool
holds (yes _) = true
holds (no _) = false

pub holds_iff {ℓ} : {P : Type ℓ} (d : Dec P) → (holds d ≡ true) ↔ P
holds_iff (yes p) = (λ _. p, λ _. refl)
holds_iff (no p) = (λ h. absurd (cc), λ h. absurd (p h))

abbrev pub of_discrete {ℓ} : {A : Type ℓ} → Discrete A → Eq A
of_discrete d = record { test = λ a b. holds (d a b); test_iff = λ a b. holds_iff (d a b) }

infix 50 ◌==◌
abbrev pub ◌==◌ {ℓ} : {A : Type ℓ} ⦃eq : Eq A⦄ → A → A → Bool
◌==◌ ⦃eq⦄ = eq.test

module _ {ℓ} {A : Type ℓ} ⦃e : Eq A⦄ where
  pub ==→≡ : (a b : A) → (a == b) ≡ true → a ≡ b
  ==→≡ a b = (e.test_iff a b).0

  pub ≡→== : {a b : A} → a ≡ b → (a == b) ≡ true
  ≡→== {a} {b} = (e.test_iff a b).1

  pub ==_refl : (a : A) → (a == a) ≡ true
  ==_refl a = (e.test_iff a a).1 refl
