-- ===== src/Report/Validate/Paths/Safe.antt =====
-- Which paths `validateRelativePath` accepts.
use plug_and_prejudice.Prelude.{
  ==→≡, >>-eq-ok, All, Bool-cases, List, Text, Text-eq, [], any, ap, arith, codes, eqb, false,
  has_prefix, inl, inr, not, or-split, pass, refl, refuse, refuse-eq-ok, subst, sym, text_eq, true,
  true-ne-false, ℕ, ≡→==, ◌&&◌, ◌++◌, ◌==◌, ◌||◌, ◌∙◌, ◌∷◌, ◌≡◌, ◌≢◌, ◌⊎◌,
}
use plug_and_prejudice.Report.Validate.Paths.{
  clean, dot, dot_dot, join, kept_segments, pushed, reversed, segments, validate_relative_path,
}

abbrev pub IsProper : Text → Type 0
IsProper s = (s ≢ []) × (s ≢ dot) × (s ≢ dot_dot)

-- No slash.
abbrev IsWhole : Text → Type 0
IsWhole s = any (eqb b'/') s ≡ false

-- A byte in front of a text that has a segment.
abbrev extended : ℕ → List Text → List Text
extended c [] = (c ∷ []) ∷ []
extended c (s ∷ ss) = (c ∷ s) ∷ ss

segments-slash : (cs : Text) → segments (b'/' ∷ cs) ≡ [] ∷ segments cs
unfolding segments
segments-slash cs = refl

segments-other :
    (c : ℕ) (cs : Text) → eqb c b'/' ≡ false → segments (c ∷ cs) ≡ extended c (segments cs)
unfolding segments
segments-other c cs h = rw h (same (segments cs))
  where
    same :
        (rest : List Text)
        → (elim rest [ [] ↦ (c ∷ []) ∷ [] | s ∷ ss ↦ (c ∷ s) ∷ ss ]) ≡ extended c rest
    same [] = refl
    same (s ∷ ss) = refl

extended-IsWhole :
    (c : ℕ) (ss : List Text) → eqb c b'/' ≡ false → All IsWhole ss → All IsWhole (extended c ss)
extended-IsWhole c [] h k = (ground arith, tt)
extended-IsWhole c (s ∷ ss) h (k, ks) = (ground arith, ks)

segments-IsWhole : (t : Text) → All IsWhole (segments t)
segments-IsWhole [] = unfold segments in (refl, tt)
segments-IsWhole (c ∷ cs) = elim (Bool-cases (eqb c b'/')) [
  | inl e ↦
      let slash : b'/' ≡ c = ground arith in
      subst (λ d. All IsWhole (segments (d ∷ cs))) slash
        (rw (segments-slash cs) (refl, segments-IsWhole cs))
  | inr e ↦ rw (segments-other c cs e) (extended-IsWhole c (segments cs) e (segments-IsWhole cs))
]

-- A segment in front of a slash, and a last one.
segments-front : (s t : Text) → IsWhole s → segments (s ++ b'/' ∷ t) ≡ s ∷ segments t
segments-front [] t h = segments-slash t
segments-front (c ∷ cs) t h =
    segments-other c (cs ++ b'/' ∷ t) (ground arith)
    ∙ ap (extended c) (segments-front cs t (ground arith))

segments-last : (s : Text) → IsWhole s → segments s ≡ s ∷ []
segments-last [] h = unfold segments in refl
segments-last (c ∷ cs) h =
    segments-other c cs (ground arith) ∙ ap (extended c) (segments-last cs (ground arith))

segments-join :
    (s : Text) (ss : List Text) → All IsWhole (s ∷ ss) → segments (join (s ∷ ss)) ≡ s ∷ ss
unfolding join
segments-join s [] (h, _) = segments-last s h
segments-join s (t ∷ ss) (h, hs) =
    segments-front s (join (t ∷ ss)) h ∙ ap (◌∷◌ s) (segments-join t ss hs)

-- The segments that are kept of a path that is not rooted: above ".." stands anything, below it
-- only "..".
abbrev IsTop : Text → List Text → Type 0
IsTop s [] = Unit
IsTop s (t ∷ ss) = s ≡ dot_dot → t ≡ dot_dot

abbrev IsStack : List Text → Type 0
IsStack [] = Unit
IsStack (s ∷ ss) = (IsWhole s × (s ≢ []) × (s ≢ dot)) × IsTop s ss × IsStack ss

ne_of : {s t : Text} → (s == t) ≡ false → s ≢ t
ne_of h e = true-ne-false (sym (≡→== e) ∙ h)

climbs : (s t : Text) → s ≡ dot_dot → (s == dot_dot && not (t == dot_dot)) ≡ false → t ≡ dot_dot
climbs s t e h = let same : (s == dot_dot) ≡ true = ≡→== e in ==→≡ t dot_dot (ground arith)

pushed-IsStack :
    (s : Text) (stack : List Text) → IsWhole s → IsStack stack → IsStack (pushed false s stack)
unfolding pushed
pushed-IsStack s [] h k = elim (Bool-cases (s == [] || s == dot || false)) [
  | inl e ↦ rw e tt
  | inr e ↦
      let (some_text, rest) = or-split (s == [] || s == dot) false e in
      let (full, moves) = or-split (s == []) (s == dot) some_text in
      rw e ((h, ne_of full, ne_of moves), tt, tt)
]
pushed-IsStack s (t ∷ ss) h k = elim (Bool-cases (s == [] || s == dot)) [
  | inl e ↦ rw e k
  | inr e ↦ elim (Bool-cases (s == dot_dot && not (t == dot_dot))) [
    | inl up ↦ rw (e, up) k.2
    | inr stay ↦
        let (full, moves) = or-split (s == []) (s == dot) e in
        rw (e, stay) ((h, ne_of full, ne_of moves), λ same. climbs s t same stay, k)
  ]
]

kept-IsStack :
    (ss stack : List Text) → All IsWhole ss → IsStack stack → IsStack (kept_segments false ss stack)
unfolding kept_segments
kept-IsStack [] stack h k = k
kept-IsStack (s ∷ ss) stack (h, hs) k =
    kept-IsStack ss (pushed false s stack) hs (pushed-IsStack s stack h k)

-- The segment that was kept first.
bottom : Text → List Text → Text
bottom s [] = s
bottom s (t ∷ ss) = bottom t ss

all-IsProper :
    (s : Text) (ss : List Text) → IsStack (s ∷ ss) → bottom s ss ≢ dot_dot → All IsProper (s ∷ ss)
unfolding bottom
all-IsProper s [] ((whole, full, moves), top, k) h = ((full, moves, h), tt)
all-IsProper s (t ∷ ss) ((whole, full, moves), top, k) h =
    let rest = all-IsProper t ss k h in
    let (t_full, t_moves, t_stays) = rest.0 in ((full, moves, λ e. t_stays (top e)), rest)

-- Turning the stack over puts its bottom in front.
reversed-bottom :
    (s : Text) (ss out : List Text)
    → (tail : List Text) × (reversed (s ∷ ss) out ≡ bottom s ss ∷ tail)
unfolding reversed bottom
reversed-bottom s [] out = (out, refl)
reversed-bottom s (t ∷ ss) out = reversed-bottom t ss (s ∷ out)

reversed-All :
    (P : Text → Type 0) (ss out : List Text) → All P ss → All P out → All P (reversed ss out)
unfolding reversed
reversed-All P [] out h k = k
reversed-All P (s ∷ ss) out (h, hs) k = reversed-All P ss (s ∷ out) hs (h, k)

stack-IsWhole : (ss : List Text) → IsStack ss → All IsWhole ss
stack-IsWhole [] h = tt
stack-IsWhole (s ∷ ss) ((whole, _, _), _, k) = (whole, stack-IsWhole ss k)

-- A path whose first segment is "..".
climbing :
    (tail : List Text)
    → (join (dot_dot ∷ tail) ≡ dot_dot) ⊎ (has_prefix (join (dot_dot ∷ tail)) (codes "../") ≡ true)
unfolding join has_prefix
climbing [] = inl refl
climbing (t ∷ ts) = inr (empty_prefix (join (t ∷ ts)))
  where
    empty_prefix : (t : Text) → has_prefix t [] ≡ true
    empty_prefix [] = refl
    empty_prefix (c ∷ t) = refl

-- A path that is what its segments leave, and neither climbs nor stays.
settled-IsProper :
    (stack : List Text) (v : Text)
    → IsStack stack
    → join (reversed stack []) ≡ v
    → v ≢ []
    → v ≢ dot_dot
    → has_prefix v (codes "../") ≡ false
    → All IsProper (segments v)
settled-IsProper [] v k e full up climb = absurd (full (sym e ∙ (unfold join reversed in refl)))
settled-IsProper (s ∷ ss) v k e full up climb =
    let (tail, turned) = reversed-bottom s ss [] in
    let low : bottom s ss ≢ dot_dot = λ b. elim (climbing tail) [
      | inl same ↦ up (sym e ∙ ap join turned ∙ ap (λ t. join (t ∷ tail)) b ∙ same)
      | inr prefix ↦ true-ne-false (
          sym prefix
          ∙ ap (λ t. has_prefix t (codes "../"))
              (sym (ap (λ t. join (t ∷ tail)) b) ∙ sym (ap join turned) ∙ e)
          ∙ climb)
    ] in
    let proper = reversed-All IsProper (s ∷ ss) [] (all-IsProper s ss k low) tt in
    let whole = reversed-All IsWhole (s ∷ ss) [] (stack-IsWhole (s ∷ ss) k) tt in
    subst (λ t. All IsProper (segments t)) (ap join (sym turned) ∙ e)
      (subst (All IsProper)
        (sym (segments-join (bottom s ss) tail (subst (All IsWhole) turned whole)))
        (subst (All IsProper) turned proper))

clean_nil : clean [] ≢ []
unfolding clean segments has_prefix text_eq
clean_nil h = cc h

module _ (v : Text) where
  cleaned :
      has_prefix v (codes "/") ≡ false
      → clean v ≡ v
      → v ≢ dot
      → join (reversed (kept_segments false (segments v) []) []) ≡ v
  unfolding clean
  cleaned rooted same stays =
      elim (Bool-cases (join (reversed (kept_segments false (segments v) []) []) == [])) [
        | inl e ↦ absurd (stays (sym (rw (rooted, e) at same)))
        | inr e ↦ rw (rooted, e) at same
      ]

  -- An accepted path is relative and stays below the directory that it starts in: it has no
  -- backslash and no NUL, and no segment of it is empty, "." or "..".
  pub validate_relative_path-IsSafe :
      validate_relative_path v ≡ pass
      → All IsProper (segments v) × (any (eqb b'\\') v ≡ false) × (any (eqb 0) v ≡ false)
  unfolding validate_relative_path
  validate_relative_path-IsSafe h =
      let (bytes, h) = >>-eq-ok (refuse (any (eqb b'\\') v || any (eqb 0) v) _) _ h in
      let checks = refuse-eq-ok _ _ h in
      let same : clean v ≡ v = ==→≡ (clean v) v (ground arith) in
      let stays : (clean v == dot) ≡ false = ground arith in
      let up : (clean v == dot_dot) ≡ false = ground arith in
      let climb : has_prefix (clean v) (codes "../") ≡ false = ground arith in
      let rooted : has_prefix (clean v) (codes "/") ≡ false = ground arith in
      let root : has_prefix v (codes "/") ≡ false =
        subst (λ t. has_prefix t (codes "/") ≡ false) same rooted in
      let whole = cleaned root same (λ e. ne_of stays (same ∙ e)) in
      let (backslash, nul) =
        or-split (any (eqb b'\\') v) (any (eqb 0) v) (refuse-eq-ok _ _ bytes) in
      (
        settled-IsProper (kept_segments false (segments v) []) v
            (kept-IsStack (segments v) [] (segments-IsWhole v) tt) whole
            (λ e. clean_nil (subst (λ t. clean t ≡ t) e same)) (λ e. ne_of up (same ∙ e))
            (subst (λ t. has_prefix t (codes "../") ≡ false) same climb),
        backslash,
        nul,
      )
