-- ===== src/Sandbox/Names.antt =====
-- `validDisplayName` of internal/sandbox/sandbox.go, and `validPluginID` of
-- cmd/plug-prejudice-broker/main.go, whose pattern is ^[A-Za-z0-9][A-Za-z0-9._-]*$. A byte outside
-- ASCII belongs to a character that both refuse.
use plug_and_prejudice.Prelude.{
  ==_refl, Bool, Bool-cases, Text, Text-eq, [], all, and-split, any, arith, codes, contains, eqb,
  false, has_prefix, if◌then◌else◌, inl, inr, leb, length, ltb, not, or-split, pass, refl, subst,
  suc, sym, text_eq, true, true-ne-false, ℕ, ◌&&◌, ◌==◌, ◌||◌, ◌∙◌, ◌∷◌, ◌≡◌,
}
use plug_and_prejudice.Report.Validate.Paths.{
  clean, join, kept_segments, pushed, reversed, segments, validate_relative_path,
}

abbrev pub is_alphanumeric : ℕ → Bool
is_alphanumeric c =
    (leb b'A' c && leb c b'Z') || (leb b'a' c && leb c b'z') || (leb b'0' c && leb c b'9')

abbrev pub is_punctuation : ℕ → Bool
is_punctuation c = eqb c b'.' || eqb c b'_' || eqb c b'-'

-- The loop over the characters, from the position `index`.
unfoldable pub display_characters : ℕ → Text → Bool
display_characters index [] = true
display_characters index (c ∷ s) =
    let rest = display_characters (suc index) s in
    if is_alphanumeric c || (ltb 0 index && is_punctuation c) then rest else false

unfoldable pub valid_display_name : Text → Bool
unfolding display_characters
valid_display_name value =
    if value == [] || ltb 255 (length value)
    then false
    else if display_characters 0 value
    then not (contains value (codes ".."))
    else false

unfoldable pub matches_pattern : Text → Bool
matches_pattern [] = false
matches_pattern (c ∷ s) = is_alphanumeric c && all (λ d. is_alphanumeric d || is_punctuation d) s

unfoldable pub valid_plugin_id : Text → Bool
unfolding matches_pattern
valid_plugin_id id = matches_pattern id && not (contains id (codes ".."))

display_rest :
    (index : ℕ) (s : Text)
    → display_characters (suc index) s ≡ all (λ d. is_alphanumeric d || is_punctuation d) s
unfolding display_characters
display_rest index [] = refl
display_rest index (c ∷ s) = ground (arith, display_rest (suc index) s)

display_pattern : (c : ℕ) (s : Text) → display_characters 0 (c ∷ s) ≡ matches_pattern (c ∷ s)
unfolding display_characters matches_pattern
display_pattern c s = ground (arith, display_rest 0 s)

-- The sandbox takes exactly the names that the broker takes for a plugin and that have at most 255
-- bytes.
pub valid_display_name-valid_plugin_id :
    (name : Text) → valid_display_name name ≡ (valid_plugin_id name && leb (length name) 255)
unfolding valid_display_name valid_plugin_id matches_pattern text_eq
valid_display_name-valid_plugin_id [] = refl
valid_display_name-valid_plugin_id (c ∷ s) = ground (arith, display_pattern c s)

-- A plugin ID has no separator, so it is one segment.
one_segment : (c : ℕ) (s : Text) → any (eqb b'/') (c ∷ s) ≡ false → segments (c ∷ s) ≡ (c ∷ s) ∷ []
unfolding segments
one_segment c [] h = ground arith
one_segment c (d ∷ s) h =
    let rest : segments (d ∷ s) ≡ (d ∷ s) ∷ [] = one_segment d s (ground arith) in
    let here : eqb c b'/' ≡ false = ground arith in rw (here, rest) refl

allowed-none :
    (bad : ℕ) (s : Text)
    → (is_alphanumeric bad || is_punctuation bad) ≡ false
    → all (λ d. is_alphanumeric d || is_punctuation d) s ≡ true
    → any (eqb bad) s ≡ false
allowed-none bad [] h k = refl
allowed-none bad (d ∷ s) h k = elim (Bool-cases (eqb bad d)) [
  | inl e ↦
      let same : bad ≡ d = ground arith in
      let here = (and-split (is_alphanumeric d || is_punctuation d) _ k).0 in
      absurd (
        true-ne-false
          (sym here ∙ subst (λ n. (is_alphanumeric n || is_punctuation n) ≡ false) same h))
  | inr e ↦ rw e (allowed-none bad s h (and-split (is_alphanumeric d || is_punctuation d) _ k).1)
]

clean_name :
    (c : ℕ) (s : Text)
    → is_alphanumeric c ≡ true
    → any (eqb b'/') (c ∷ s) ≡ false
    → clean (c ∷ s) ≡ c ∷ s
unfolding clean kept_segments pushed reversed join has_prefix text_eq
clean_name c s h k =
    let (first, rest) = or-split (eqb b'/' c) (any (eqb b'/') s) k in
    let relative : eqb c b'/' ≡ false = ground arith in
    let no_dot : eqb c b'.' ≡ false = ground arith in rw (one_segment c s k, relative, no_dot) refl

named :
    (c : ℕ) (s : Text)
    → is_alphanumeric c ≡ true
    → any (eqb b'\\') (c ∷ s) ≡ false
    → any (eqb 0) (c ∷ s) ≡ false
    → clean (c ∷ s) ≡ c ∷ s
    → validate_relative_path (c ∷ s) ≡ pass
unfolding validate_relative_path text_eq has_prefix
named c s first backslash nul same =
    let no_dot : eqb c b'.' ≡ false = ground arith in
    let no_slash : eqb c b'/' ≡ false = ground arith in
    rw (backslash, nul, same, ==_refl (c ∷ s), no_dot, no_slash) refl

-- A plugin ID is a single segment of a path, and a safe one.
pub valid_plugin_id-IsSegment :
    (id : Text)
    → valid_plugin_id id ≡ true
    → (segments id ≡ id ∷ []) × (validate_relative_path id ≡ pass)
unfolding valid_plugin_id matches_pattern validate_relative_path
valid_plugin_id-IsSegment [] h = cc
valid_plugin_id-IsSegment (c ∷ s) h =
    let (pattern, _) = and-split (matches_pattern (c ∷ s)) _ h in
    let (first, rest) = and-split (is_alphanumeric c) _ pattern in
    let slash : any (eqb b'/') (c ∷ s) ≡ false =
      ground (arith, allowed-none b'/' s (ground arith) rest) in
    let backslash : any (eqb b'\\') (c ∷ s) ≡ false =
      ground (arith, allowed-none b'\\' s (ground arith) rest) in
    let nul : any (eqb 0) (c ∷ s) ≡ false = ground (arith, allowed-none 0 s (ground arith) rest) in
    let same = clean_name c s first slash in
    (one_segment c s slash, named c s first backslash nul same)
