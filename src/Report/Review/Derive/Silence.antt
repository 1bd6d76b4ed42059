-- ===== src/Report/Review/Derive/Silence.antt =====
-- The level of unknown behavior says when nothing is unknown.
use plug_and_prejudice.Prelude.{
  ==→≡, Bool-cases, List, Text, Text-eq, [], arith, codes, if◌then◌else◌, inl, inr, length, ltb,
  not, refl, sym, text_eq, text_ne, true, ≡→==, ◌==◌, ◌↔◌, ◌∙◌, ◌∷◌, ◌≡◌,
}
use plug_and_prejudice.Report.Document.{Report}
use plug_and_prejudice.Report.Kinds.{Scope, Scope-eq}
use plug_and_prejudice.Report.Records.{Limitation, ScanError, Unknown}
use plug_and_prejudice.Report.Review.Summary.{
  is_budget, is_serious, limitation_level, unknown_level, unknowns_level,
}

module _ {P : Type 0} where
  high_ne_none : codes "high" ≡ codes "none" → P
  unfolding text_eq
  high_ne_none e = absurd (text_ne (codes "high") (codes "none") refl e)

  moderate_ne_none : codes "moderate" ≡ codes "none" → P
  unfolding text_eq
  moderate_ne_none e = absurd (text_ne (codes "moderate") (codes "none") refl e)

  low_ne_none : codes "low" ≡ codes "none" → P
  unfolding text_eq
  low_ne_none e = absurd (text_ne (codes "low") (codes "none") refl e)

raised :
    {P : Type 0} (level : Text)
    → (if not (level == codes "high") then codes "moderate" else level) ≡ codes "none"
    → P
raised level h = elim (Bool-cases (level == codes "high")) [
  | inl e ↦ high_ne_none (sym (==→≡ level (codes "high") e) ∙ rw e at h)
  | inr e ↦ moderate_ne_none (rw e at h)
]

lowered :
    {P : Type 0} (level : Text)
    → (if level == codes "none" then codes "low" else level) ≡ codes "none"
    → P
lowered level h = elim (Bool-cases (level == codes "none")) [
  | inl e ↦ low_ne_none (rw e at h)
  | inr e ↦ absurd (ground (arith, ≡→== (rw e at h)))
]

limitation_level-none :
    (ls : List Limitation) (level : Text)
    → limitation_level ls level ≡ codes "none"
    → (ls ≡ []) × (level ≡ codes "none")
unfolding limitation_level
limitation_level-none [] level h = (refl, h)
limitation_level-none (l ∷ ls) level h = elim (Bool-cases (is_budget l)) [
  | inl b ↦ high_ne_none (rw b at h)
  | inr b ↦ elim (Bool-cases (l.scope == Scope.runtime)) [
    | inl t ↦ raised level (limitation_level-none ls _ (rw t at (rw b at h))).1
    | inr t ↦ lowered level (limitation_level-none ls _ (rw t at (rw b at h))).1
  ]
]

unknowns_level-none :
    (us : List Unknown) (ls : List Limitation) (level : Text)
    → unknowns_level us ls level ≡ codes "none"
    → (us ≡ []) × (ls ≡ []) × (level ≡ codes "none")
unfolding unknowns_level
unknowns_level-none [] ls level h =
    let (gone, same) = limitation_level-none ls level h in (refl, gone, same)
unknowns_level-none (u ∷ us) ls level h = elim (Bool-cases (is_serious u)) [
  | inl b ↦ high_ne_none (rw b at h)
  | inr b ↦ elim (Bool-cases (u.scope == Scope.runtime)) [
    | inl t ↦ moderate_ne_none (unknowns_level-none us ls _ (rw t at (rw b at h))).2
    | inr t ↦ lowered level (unknowns_level-none us ls _ (rw t at (rw b at h))).2
  ]
]

-- The level of unknown behavior is "none" exactly when the report has no scan error, no unknown and
-- no limitation.
pub unknown_level-none :
    (r : Report)
    → (unknown_level r ≡ codes "none")
      ↔ ((r.errors ≡ []) × (r.unknowns ≡ []) × (r.limitations ≡ []))
unfolding unknown_level
unknown_level-none r = (only r.errors, none_if)
  where
    only :
        (es : List ScanError)
        → (if ltb 0 (length es)
            then codes "high"
            else unknowns_level r.unknowns r.limitations (codes "none"))
          ≡ codes "none"
        → (es ≡ []) × (r.unknowns ≡ []) × (r.limitations ≡ [])
    only [] h =
        let (no_unknowns, no_limitations, same) =
          unknowns_level-none r.unknowns r.limitations _ h in
        (refl, no_unknowns, no_limitations)
    only (e ∷ es) h =
        let some_error : ltb 0 (length (e ∷ es)) ≡ true = ground arith in
        high_ne_none (rw some_error at h)

    none_if :
        (r.errors ≡ []) × (r.unknowns ≡ []) × (r.limitations ≡ []) → unknown_level r ≡ codes "none"
    none_if (a, b, c) = rw (a, b, c) refl
