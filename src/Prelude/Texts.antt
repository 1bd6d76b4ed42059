-- ===== src/Prelude/Texts.antt =====
-- Go strings: sequences of bytes, with the functions of package strings that the code calls.
use Prim.Native.Char.{code}
use Prim.Native.Nat.{ℕ, zero, suc, ◌+◌}
use Prim.Native.String.{String}
use mathlib.Core.Path.{◌≡◌, refl, subst}
use mathlib.Core.Logic.{◌↔◌, ◌≢◌, inl, inr}
use mathlib.Core.Bool.{Bool, true, false, ◌&&◌, ◌||◌}
use mathlib.Core.List.{List, [], ◌∷◌}
use native.Mathlib.Omega.{arith}
use plug_and_prejudice.Prelude.Equality.{Eq}
use plug_and_prejudice.Prelude.Tests.{ltb, eqb, leb, if◌then◌else◌, Bool-cases}

abbrev pub Text : Type 0
Text = List ℕ

-- The bytes of a literal, which is ASCII wherever the sources write one.
abbrev pub codes : String → Text
codes String.[] = []
codes (String.◌∷◌ c s) = code c ∷ codes s

unfoldable pub text_eq : Text → Text → Bool
text_eq [] [] = true
text_eq (x ∷ xs) (y ∷ ys) = eqb x y && text_eq xs ys
text_eq _ _ = false

pub text_eq_iff : (a b : Text) → (text_eq a b ≡ true) ↔ (a ≡ b)
unfolding text_eq
text_eq_iff (x ∷ a) (y ∷ b) = ground (arith, text_eq_iff a b)
text_eq_iff _ _ = ground arith

instance abbrev pub Text-eq : Eq Text
Text-eq = record { test = text_eq; test_iff = text_eq_iff }

Dec-text : (a b : Text) (v : Bool) → text_eq a b ≡ v → Dec (a ≡ b)
Dec-text a b true h = yes ((text_eq_iff a b).0 h)
Dec-text a b false h = no λ e. ground (arith, (text_eq_iff a b).1 e)

unfoldable pub Text-discrete : Discrete Text
unfolding Dec-text text_eq
Text-discrete a b = Dec-text a b (text_eq a b) refl

-- `a < b` on strings: bytewise, a proper prefix first.
unfoldable pub less : Text → Text → Bool
less [] [] = false
less [] (y ∷ ys) = true
less (x ∷ xs) [] = false
less (x ∷ xs) (y ∷ ys) = if eqb x y then less xs ys else ltb x y

unfoldable pub has_prefix : Text → Text → Bool
has_prefix s [] = true
has_prefix [] (p ∷ ps) = false
has_prefix (c ∷ s) (p ∷ ps) = eqb c p && has_prefix s ps

unfoldable pub contains : Text → Text → Bool
unfolding has_prefix
contains [] p = has_prefix [] p
contains (c ∷ s) p = has_prefix (c ∷ s) p || contains s p

-- `strings.ToLower`, on ASCII letters; other bytes are kept.
unfoldable pub to_lower : Text → Text
to_lower [] = []
to_lower (c ∷ s) = (if leb b'A' c && leb c b'Z' then c + 32 else c) ∷ to_lower s

pub less_irrefl : (a : Text) → less a a ≡ false
unfolding less
less_irrefl [] = refl
less_irrefl (x ∷ a) = ground (arith, less_irrefl a)

pub less_trans : (a b c : Text) → less a b ≡ true → less b c ≡ true → less a c ≡ true
unfolding less
less_trans [] [] c h k = cc
less_trans [] (y ∷ b) [] h k = cc
less_trans [] (y ∷ b) (z ∷ c) h k = refl
less_trans (x ∷ a) [] c h k = cc
less_trans (x ∷ a) (y ∷ b) [] h k = cc
less_trans (x ∷ a) (y ∷ b) (z ∷ c) h k = ground (arith, less_trans a b c)

-- Two different strings are ordered one way or the other.
pub less_total : (a b : Text) → less a b ≡ false → less b a ≡ false → a ≡ b
unfolding less
less_total [] [] h k = refl
less_total [] (y ∷ b) h k = cc
less_total (x ∷ a) [] h k = cc
less_total (x ∷ a) (y ∷ b) h k = ground (arith, less_total a b)

pub text_ne : (a b : Text) → text_eq a b ≡ false → a ≢ b
text_ne a b h e = ground (arith, (text_eq_iff a b).1 e)

-- `utf8.ValidString`. A continuation byte is 10xxxxxx; the first byte bounds the second one, so that
-- overlong forms, surrogates and values beyond U+10FFFF are refused.
abbrev within : ℕ → ℕ → ℕ → Bool
within lo hi c = leb lo c && leb c hi

abbrev second_low : ℕ → ℕ
second_low c = if eqb c 0xe0 then 0xa0 else if eqb c 0xf0 then 0x90 else 0x80

abbrev second_high : ℕ → ℕ
second_high c = if eqb c 0xed then 0x9f else if eqb c 0xf4 then 0x8f else 0xbf

-- The number of bytes behind a first byte, or 4 for a byte that starts nothing.
abbrev trailing : ℕ → ℕ
trailing c =
    if ltb c 0x80
    then 0
    else if within 0xc2 0xdf c
    then 1
    else if within 0xe0 0xef c
    then 2
    else if within 0xf0 0xf4 c
    then 3
    else 4

-- `expect` more bytes, the next one between `lo` and `hi`.
utf8_from : ℕ → ℕ → ℕ → Text → Bool
utf8_from zero lo hi [] = true
utf8_from (suc n) lo hi [] = false
utf8_from zero lo hi (c ∷ s) =
    let rest = utf8_from (trailing c) (second_low c) (second_high c) s in
    if eqb (trailing c) 4 then false else rest
utf8_from (suc n) lo hi (c ∷ s) = within lo hi c && utf8_from n 0x80 0xbf s

unfoldable pub valid_utf8 : Text → Bool
unfolding utf8_from
valid_utf8 s = utf8_from 0 0 0 s

pub less_asymm : (a b : Text) → less a b ≡ true → less b a ≡ false
less_asymm a b h = elim (Bool-cases (less b a)) [
  | inl k ↦ absurd (ground (arith, less_trans a b a h k, less_irrefl a))
  | inr k ↦ k
]

-- "Not before" is transitive.
pub less_ntrans : (a b c : Text) → less b a ≡ false → less c b ≡ false → less c a ≡ false
less_ntrans a b c h k = elim (Bool-cases (less c a)) [
  | inl m ↦ elim (Bool-cases (less a b)) [
    | inl n ↦ absurd (ground (arith, less_trans c a b m n))
    | inr n ↦
        let same = less_total a b n h in
        absurd (ground (arith, subst (λ t. less c t ≡ true) same m))
  ]
  | inr m ↦ m
]
