-- ===== src/Prelude/Encoding.antt =====
-- What the code uses of packages strconv, encoding/hex and encoding/binary: decimal and hexadecimal
-- texts, and big-endian words.
use plug_and_prejudice.Prelude.{
  List, Text, [], ap, arith, codes, if◌then◌else◌, leb, length, ltb, refl, suc, sym, zero, ℕ, ◌%◌,
  ◌&&◌, ◌*◌, ◌++◌, ◌+◌, ◌-◌, ◌/◌, ◌<◌, ◌^◌, ◌∙◌, ◌∷◌, ◌≡◌,
}

-- The digits of `n` in front of `out`. A number has no more digits than its value plus one.
digits : ℕ → ℕ → Text → Text
digits zero n out = out
digits (suc fuel) n out =
    let rest = digits fuel (n / 10) ((b'0' + n % 10) ∷ out) in
    if ltb n 10 then (b'0' + n) ∷ out else rest

-- `strconv.AppendInt(nil, n, 10)` of a number that is not negative.
unfoldable pub decimal : ℕ → Text
unfolding digits
decimal n = digits (suc n) n []

-- Reads decimal digits up to the first byte that is none, which it takes away too.
read_decimal : ℕ → Text → ℕ × Text
read_decimal acc [] = (acc, [])
read_decimal acc (c ∷ s) =
    let rest = read_decimal (acc * 10 + (c - b'0')) s in
    if leb b'0' c && leb c b'9' then rest else (acc, s)

digits-append :
    (fuel n : ℕ) (out rest : Text) → digits fuel n out ++ rest ≡ digits fuel n (out ++ rest)
unfolding digits
digits-append zero n out rest = refl
digits-append (suc fuel) n out rest =
    ground (arith, digits-append fuel (n / 10) ((b'0' + n % 10) ∷ out) rest)

read_digit :
    (n d : ℕ) (out : Text)
    → d < 10
    → read_decimal n ((b'0' + d) ∷ out) ≡ read_decimal (n * 10 + d) out
unfolding read_decimal
read_digit n d out h = let e : b'0' + d - b'0' ≡ d = omega arith in ground (arith, e)

read-digits :
    (fuel n : ℕ) (out : Text) → n < fuel → read_decimal 0 (digits fuel n out) ≡ read_decimal n out
unfolding digits
read-digits zero n out h = absurd (omega arith)
read-digits (suc fuel) n out h =
    let e : n / 10 * 10 + n % 10 ≡ n = omega arith in
    ground (
      arith,
      read_digit 0 n out,
      read_digit (n / 10) (n % 10) out,
      read-digits fuel (n / 10) ((b'0' + n % 10) ∷ out),
      e,
    )

read-decimal : (n : ℕ) (rest : Text) → read_decimal 0 (decimal n ++ b':' ∷ rest) ≡ (n, rest)
unfolding decimal read_decimal
read-decimal n rest =
    ground (arith, digits-append (suc n) n [] (b':' ∷ rest), read-digits (suc n) n (b':' ∷ rest))

-- A number in decimal and a colon in front of a text determine both.
pub decimal_inj :
    (n m : ℕ) (r s : Text) → decimal n ++ b':' ∷ r ≡ decimal m ++ b':' ∷ s → (n ≡ m) × (r ≡ s)
decimal_inj n m r s e =
    let both : Path (ℕ × Text) (n, r) (m, s) =
      sym (read-decimal n r) ∙ ap (read_decimal 0) e ∙ read-decimal m s in
    (ap (λ p. p.0) both, ap (λ p. p.1) both)

abbrev pub word_size : ℕ
word_size = 2 ^ 64

-- `binary.BigEndian.PutUint64`.
unfoldable pub big_endian : ℕ → Text
big_endian n =
    (n / 2 ^ 56 % 256)
    ∷ (n / 2 ^ 48 % 256)
    ∷ (n / 2 ^ 40 % 256)
    ∷ (n / 2 ^ 32 % 256)
    ∷ (n / 2 ^ 24 % 256)
    ∷ (n / 2 ^ 16 % 256)
    ∷ (n / 2 ^ 8 % 256)
    ∷ (n % 256)
    ∷ []

pub append_inj {ℓ} :
    {A : Type ℓ} (a b c d : List A) → length a ≡ length b → a ++ c ≡ b ++ d → (a ≡ b) × (c ≡ d)
append_inj [] [] c d h e = (refl, e)
append_inj [] (y ∷ b) c d h e = absurd (omega arith)
append_inj (x ∷ a) [] c d h e = absurd (omega arith)
append_inj (x ∷ a) (y ∷ b) c d h e = ground (arith, append_inj a b c d)

from_bytes : Text → ℕ → ℕ
from_bytes [] acc = acc
from_bytes (b ∷ s) acc = from_bytes s (acc * 256 + b)

big_endian-value : (n : ℕ) → n < word_size → from_bytes (big_endian n) 0 ≡ n
unfolding big_endian from_bytes
big_endian-value n h = omega arith

-- A word in front of a text determines both.
pub big_endian_inj :
    (n m : ℕ) (r s : Text)
    → n < word_size
    → m < word_size
    → big_endian n ++ r ≡ big_endian m ++ s
    → (n ≡ m) × (r ≡ s)
big_endian_inj n m r s hn hm e =
    let (words, rests) =
      append_inj (big_endian n) (big_endian m) r s (unfold big_endian in refl) e in
    (sym (big_endian-value n hn) ∙ ap (λ b. from_bytes b 0) words ∙ big_endian-value m hm, rests)

-- `hex.EncodeToString`.
hex_digit : ℕ → ℕ
hex_digit d = if ltb d 10 then b'0' + d else b'a' + (d - 10)

unfoldable pub hex : Text → Text
unfolding hex_digit
hex [] = []
hex (b ∷ s) = hex_digit (b / 16) ∷ hex_digit (b % 16) ∷ hex s

decimal_test : decimal 1204 ≡ codes "1204"
unfolding decimal
decimal_test = refl

hex_test : hex (0 ∷ 171 ∷ []) ≡ codes "00ab"
unfolding hex
hex_test = refl
