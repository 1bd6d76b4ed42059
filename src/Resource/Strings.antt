-- ===== src/Resource/Strings.antt =====
-- The functions of the packages strings and strconv of Go that internal/resource/scope.go calls.
-- White space is ASCII.
use plug_and_prejudice.Analyze.Languages.{has_suffix}
use plug_and_prejudice.Prelude.{
  Bool, List, Option, Text, Text-eq, [], codes, drop, eqb, has_prefix, if◌then◌else◌, leb, length,
  ltb, none, refl, some, suc, take, text_eq, zero, ℕ, ◌&&◌, ◌*◌, ◌+◌, ◌-◌, ◌==◌, ◌^◌, ◌||◌, ◌∷◌,
  ◌≡◌,
}
use plug_and_prejudice.Prelude.Int.{negsuc, pos, ℤ}

abbrev pub is_space : ℕ → Bool
is_space c = eqb c b' ' || (leb 9 c && leb c 13)

abbrev pub is_digit : ℕ → Bool
is_digit c = leb b'0' c && leb c b'9'

-- One more byte in front of the first field.
abbrev pub prepend : ℕ → List Text → List Text
prepend c [] = (c ∷ []) ∷ []
prepend c (field ∷ rest) = (c ∷ field) ∷ rest

-- `strings.Split(s, "\n")`.
unfoldable pub lines : Text → List Text
lines [] = [] ∷ []
lines (c ∷ s) = let rest = lines s in if eqb c b'\n' then [] ∷ rest else prepend c rest

-- The pieces between white space, which may be empty.
unfoldable pub pieces : Text → List Text
pieces [] = [] ∷ []
pieces (c ∷ s) = let rest = pieces s in if is_space c then [] ∷ rest else prepend c rest

unfoldable pub non_empty : List Text → List Text
non_empty [] = []
non_empty (s ∷ ss) = let rest = non_empty ss in if s == [] then rest else s ∷ rest

-- `strings.Fields`.
unfoldable pub fields : Text → List Text
unfolding pieces non_empty
fields s = non_empty (pieces s)

unfoldable pub trim_left_space : Text → Text
trim_left_space [] = []
trim_left_space (c ∷ s) = if is_space c then trim_left_space s else c ∷ s

unfoldable pub trim_right_space : Text → Text
trim_right_space [] = []
trim_right_space (c ∷ s) =
    let rest = trim_right_space s in if rest == [] && is_space c then [] else c ∷ rest

unfoldable pub trim_space : Text → Text
unfolding trim_left_space trim_right_space
trim_space s = trim_left_space (trim_right_space s)

unfoldable pub trim_prefix : Text → Text → Text
trim_prefix s p = if has_prefix s p then drop (length p) s else s

unfoldable pub trim_suffix : Text → Text → Text
trim_suffix s p = if has_suffix s p then take (length s - length p) s else s

unfoldable pub digits_value : ℕ → Text → Option ℕ
digits_value value [] = some value
digits_value value (c ∷ s) =
    let rest = digits_value (value * 10 + (c - b'0')) s in if is_digit c then rest else none

-- `strconv.ParseInt(s, 10, 64)`, without its error.
abbrev pub magnitude : Text → Option ℕ
magnitude [] = none
magnitude (c ∷ s) = digits_value 0 (c ∷ s)

abbrev pub positive : Option ℕ → Option ℤ
positive none = none
positive (some n) = if ltb n (2 ^ 63) then some (pos n) else none

abbrev pub negated : Option ℕ → Option ℤ
negated none = none
negated (some zero) = some (pos 0)
negated (some (suc n)) = if ltb n (2 ^ 63) then some (negsuc n) else none

unfoldable pub parse_int : Text → Option ℤ
unfolding digits_value
parse_int [] = none
parse_int (c ∷ s) =
    if eqb c b'-'
    then negated (magnitude s)
    else if eqb c b'+'
    then positive (magnitude s)
    else positive (magnitude (c ∷ s))

fields_test : fields (codes " max\t100000\n") ≡ codes "max" ∷ codes "100000" ∷ []
unfolding fields text_eq
fields_test = refl

parse_test : parse_int (codes "-42") ≡ some (negsuc 41)
unfolding parse_int digits_value
parse_test = refl

overflow_test : parse_int (codes "9223372036854775808") ≡ none
unfolding parse_int digits_value
overflow_test = refl
