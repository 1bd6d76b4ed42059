-- ===== src/Report/Canonical/Order.antt =====
-- The comparators are total orders on what they compare.
use Prim.Native.Nat.{Ordering}
use plug_and_prejudice.Prelude.{
  Bool-cases, Text, ap, arith, false, inl, inr, less_asymm, less_total, less_trans, refl, subst,
  sym, true, true-ne-false, ◌↔◌, ◌∙◌, ◌≡◌, ◌≢◌, ◌⊎◌,
}
use plug_and_prejudice.Prelude.Int.{ℤ}
use plug_and_prejudice.Report.Canonical.{
  comes_first, compare_evidence, compare_int, compare_limitation, compare_scan_error,
  compare_string, or_else,
}
use plug_and_prejudice.Report.Kinds.{scope_text}
use plug_and_prejudice.Report.Records.{Evidence}

-- A comparison that can be turned round, that is transitive, and that respects equals.
pub record IsComparator {A : Type 0} (compare : A → A → Ordering) : Type 0 where
  pub flips : (a b : A) → compare a b ≡ Ordering.lt → compare b a ≡ Ordering.gt
  pub flips_back : (a b : A) → compare a b ≡ Ordering.gt → compare b a ≡ Ordering.lt
  pub trans :
      (a b c : A)
      → compare a b ≡ Ordering.lt
      → compare b c ≡ Ordering.lt
      → compare a c ≡ Ordering.lt
  pub equal_left : (a b c : A) → compare a b ≡ Ordering.eq → compare a c ≡ compare b c

module _ {A : Type 0} (key : A → Text) where
  pub compare_string-IsComparator : IsComparator (λ a b. compare_string (key a) (key b))
  unfolding compare_string
  compare_string-IsComparator = record {
    flips = λ a b h. ground (arith, less_asymm (key a) (key b));
    flips_back = λ a b h. ground (arith, less_asymm (key b) (key a));
    trans = λ a b c h k. ground (arith, less_trans (key a) (key b) (key c));
    equal_left = λ a b c h.
        ap (λ t. compare_string t (key c))
          (less_total (key a) (key b) (ground arith) (ground arith));
  }

module _ {A : Type 0} (key : A → ℤ) where
  pub compare_int-IsComparator : IsComparator (λ a b. compare_int (key a) (key b))
  unfolding compare_int
  compare_int-IsComparator = record {
    flips = λ a b h. ground arith;
    flips_back = λ a b h. ground arith;
    trans = λ a b c h k. ground arith;
    equal_left = λ a b c h. ground arith;
  }

Ordering-cases : (o : Ordering) → (o ≡ Ordering.lt) ⊎ ((o ≡ Ordering.eq) ⊎ (o ≡ Ordering.gt))
Ordering-cases Ordering.lt = inl refl
Ordering-cases Ordering.eq = inr (inl refl)
Ordering-cases Ordering.gt = inr (inr refl)

module _ {A : Type 0} (f : A → A → Ordering) (hf : IsComparator f) where
  flips_equal : (a b : A) → f a b ≡ Ordering.eq → f b a ≡ Ordering.eq
  flips_equal a b h = elim (Ordering-cases (f b a)) [
    | inl k ↦ absurd (cc (h, hf.flips b a k))
    | inr (inl k) ↦ k
    | inr (inr k) ↦ absurd (cc (h, hf.flips_back b a k))
  ]

  comes_first-lt : (a b : A) → comes_first f a b ≡ true → f a b ≡ Ordering.lt
  comes_first-lt a b h = elim (Ordering-cases (f a b)) [
    | inl k ↦ k
    | inr (inl k) ↦ cc (rw (k, comes_first) at h)
    | inr (inr k) ↦ cc (rw (k, comes_first) at h)
  ]

  lt-comes_first : (a b : A) → f a b ≡ Ordering.lt → comes_first f a b ≡ true
  lt-comes_first a b h = rw (h, comes_first)

  -- What is no less than another.
  not_lt : (a b : A) → comes_first f a b ≡ false → f a b ≢ Ordering.lt
  not_lt a b h k = true-ne-false (sym (lt-comes_first a b k) ∙ h)

  not_first : (a b : A) → f a b ≢ Ordering.lt → comes_first f a b ≡ false
  not_first a b h = elim (Bool-cases (comes_first f a b)) [
    | inl k ↦ absurd (h (comes_first-lt a b k))
    | inr k ↦ k
  ]

  pub comes_first-asymm : (a b : A) → comes_first f a b ≡ true → comes_first f b a ≡ false
  comes_first-asymm a b h =
      not_first b a (λ k. absurd (cc (k, hf.flips a b (comes_first-lt a b h))))

  pub comes_first-ntrans :
      (a b c : A)
      → comes_first f b a ≡ false
      → comes_first f c b ≡ false
      → comes_first f c a ≡ false
  comes_first-ntrans a b c h k = not_first c a (λ m. elim (Ordering-cases (f a b)) [
    | inl below ↦ not_lt c b k (hf.trans c a b m below)
    | inr (inl same) ↦
        not_lt c b k (hf.flips_back b c (sym (hf.equal_left a b c same) ∙ hf.flips c a m))
    | inr (inr above) ↦ not_lt b a h (hf.flips_back a b above)
  ])

module _ {A : Type 0} (f g : A → A → Ordering) (hf : IsComparator f) (hg : IsComparator g) where
  or_else_trans :
      (a b c : A)
      → or_else (f a b) (g a b) ≡ Ordering.lt
      → or_else (f b c) (g b c) ≡ Ordering.lt
      → or_else (f a c) (g a c) ≡ Ordering.lt
  unfolding or_else
  or_else_trans a b c h k = elim (Ordering-cases (f a b)) [
    | inl below ↦ elim (Ordering-cases (f b c)) [
      | inl next ↦ rw (hf.trans a b c below next)
      | inr (inl same) ↦
          rw (
            hf.flips_back c a
              (hf.equal_left c b a (flips_equal f hf b c same) ∙ hf.flips a b below))
      | inr (inr above) ↦ cc (rw above at k)
    ]
    | inr (inl same) ↦ rw (hf.equal_left a b c same) (elim (Ordering-cases (f b c)) [
      | inl next ↦ rw next
      | inr (inl equal) ↦ rw equal (hg.trans a b c (rw same at h) (rw equal at k))
      | inr (inr above) ↦ cc (rw above at k)
    ])
    | inr (inr above) ↦ cc (rw above at h)
  ]

  or_else-equal_left :
      (a b c : A)
      → or_else (f a b) (g a b) ≡ Ordering.eq
      → or_else (f a c) (g a c) ≡ or_else (f b c) (g b c)
  unfolding or_else
  or_else-equal_left a b c h = elim (Ordering-cases (f a b)) [
    | inl k ↦ cc (rw k at h)
    | inr (inl k) ↦ rw (hf.equal_left a b c k, hg.equal_left a b c (rw k at h))
    | inr (inr k) ↦ cc (rw k at h)
  ]

  pub or_else-IsComparator : IsComparator (λ a b. or_else (f a b) (g a b))
  unfolding or_else
  or_else-IsComparator = record {
    flips = λ a b h. elim (Ordering-cases (f a b)) [
      | inl k ↦ rw (hf.flips a b k)
      | inr (inl k) ↦ rw (flips_equal f hf a b k) (hg.flips a b (rw k at h))
      | inr (inr k) ↦ cc (rw k at h)
    ];
    flips_back = λ a b h. elim (Ordering-cases (f a b)) [
      | inl k ↦ cc (rw k at h)
      | inr (inl k) ↦ rw (flips_equal f hf a b k) (hg.flips_back a b (rw k at h))
      | inr (inr k) ↦ rw (hf.flips_back a b k)
    ];
    trans = or_else_trans;
    equal_left = or_else-equal_left;
  }

pub compare_evidence-IsComparator : IsComparator compare_evidence
unfolding compare_evidence
compare_evidence-IsComparator =
    or_else-IsComparator _ _ (compare_string-IsComparator (λ e. e.input_id)) (
      or_else-IsComparator _ _ (compare_string-IsComparator (λ e. e.path)) (
        or_else-IsComparator _ _ (compare_int-IsComparator (λ e. e.line_start)) (
          or_else-IsComparator _ _ (compare_int-IsComparator (λ e. e.line_end)) (
            or_else-IsComparator _ _ (compare_string-IsComparator (λ e. e.operation))
              (compare_string-IsComparator (λ e. e.excerpt))))))

pub compare_limitation-IsComparator : IsComparator compare_limitation
unfolding compare_limitation
compare_limitation-IsComparator =
    or_else-IsComparator _ _ (compare_string-IsComparator (λ l. l.code)) (
      or_else-IsComparator _ _ (compare_string-IsComparator (λ l. l.path)) (
        or_else-IsComparator _ _ (compare_string-IsComparator (λ l. scope_text l.scope))
          (compare_string-IsComparator (λ l. l.description))))

pub compare_scan_error-IsComparator : IsComparator compare_scan_error
unfolding compare_scan_error
compare_scan_error-IsComparator =
    or_else-IsComparator _ _ (compare_string-IsComparator (λ e. e.code)) (
      or_else-IsComparator _ _ (compare_string-IsComparator (λ e. e.path))
        (compare_string-IsComparator (λ e. e.message)))

or_else-eq : (a b : Ordering) → or_else a b ≡ Ordering.eq → (a ≡ Ordering.eq) × (b ≡ Ordering.eq)
unfolding or_else
or_else-eq Ordering.lt b h = cc h
or_else-eq Ordering.eq b h = (refl, h)
or_else-eq Ordering.gt b h = cc h

compare_string-eq : (s t : Text) → compare_string s t ≡ Ordering.eq → s ≡ t
unfolding compare_string
compare_string-eq s t h = less_total s t (ground arith) (ground arith)

compare_int-eq : (x y : ℤ) → compare_int x y ≡ Ordering.eq → x ≡ y
unfolding compare_int
compare_int-eq x y h = ground arith

module _ {A : Type 0} (compare : A → A → Ordering) (h : IsComparator compare) where
  compare_refl : (a : A) → compare a a ≡ Ordering.eq
  compare_refl a = elim (Ordering-cases (compare a a)) [
    | inl k ↦ cc (k, h.flips a a k)
    | inr (inl k) ↦ k
    | inr (inr k) ↦ cc (k, h.flips_back a a k)
  ]

-- The comparator of evidence calls two records equal exactly when they agree on every field, so that
-- the order of the evidence of an observation is fixed by its records alone.
pub compare_evidence-eq : (a b : Evidence) → (compare_evidence a b ≡ Ordering.eq) ↔ (a ≡ b)
unfolding compare_evidence
compare_evidence-eq a b = (
  agree,
  λ e.
      subst (λ c. compare_evidence a c ≡ Ordering.eq) e
        (compare_refl compare_evidence compare_evidence-IsComparator a),
)
  where
    agree : compare_evidence a b ≡ Ordering.eq → a ≡ b
    agree h =
        let (input, h) = or_else-eq (compare_string a.input_id b.input_id) _ h in
        let (path, h) = or_else-eq (compare_string a.path b.path) _ h in
        let (start, h) = or_else-eq (compare_int a.line_start b.line_start) _ h in
        let (end_, h) = or_else-eq (compare_int a.line_end b.line_end) _ h in
        let (performed, excerpt) = or_else-eq (compare_string a.operation b.operation) _ h in
        cc (
          compare_string-eq a.input_id b.input_id input,
          compare_string-eq a.path b.path path,
          compare_int-eq a.line_start b.line_start start,
          compare_int-eq a.line_end b.line_end end_,
          compare_string-eq a.operation b.operation performed,
          compare_string-eq a.excerpt b.excerpt excerpt,
        )
