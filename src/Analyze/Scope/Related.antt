-- ===== src/Analyze/Scope/Related.antt =====
-- What `relatedScope` says of several operations.
use plug_and_prejudice.Analyze.Scope.{related_scope, select_scope}
use plug_and_prejudice.Prelude.{
  ==→≡, All, Bool-cases, List, Option-cases, Text, Text-eq, [], ap, false, inl, inr, refl, some,
  subst, sym, true-ne-false, ≡→==, ◌++◌, ◌==◌, ◌↔◌, ◌∙◌, ◌∷◌, ◌≡◌, ◌≢◌,
}
use plug_and_prejudice.Prelude.Assoc.{lookup}
use plug_and_prejudice.Report.Kinds.{Scope, Scope-discrete, Scope-eq}

scope_ne : (a b : Scope) → a ≢ b → (a == b) ≡ false
scope_ne a b h = elim (Bool-cases (a == b)) [ inl e ↦ absurd (h (==→≡ a b e)) | inr e ↦ e ]

-- Names of operations in a row that all have one scope.
abbrev pub AllHave : Scope → List (Text × Scope) → List Text → Type 0
AllHave s scopes ids = All (λ id. lookup id scopes ≡ some s) ids

select_scope-some :
    (s scope : Scope) (ids : List Text) (scopes : List (Text × Scope))
    → s ≢ Scope.unknown
    → scope ≢ Scope.other []
    → (select_scope scope ids scopes ≡ s) ↔ ((scope ≡ s) × AllHave s scopes ids)
unfolding select_scope
select_scope-some s scope [] scopes known set =
    let set : (scope == Scope.other []) ≡ false = scope_ne scope (Scope.other []) set in
    rw set (λ h. (h, tt), λ (h, _). h)
select_scope-some s scope (id ∷ ids) scopes known set =
    let kept : (scope == Scope.other []) ≡ false = scope_ne scope (Scope.other []) set in
    elim (Option-cases (lookup id scopes)) [
      | inl e ↦ rw (e, select_scope) (λ h. absurd (known (sym h)), λ (_, (h, _)). absurd (cc))
      | inr (other, e) ↦ elim (Bool-cases (scope == other)) [
        | inl same ↦
            rw (e, kept, same, select_scope)
              (
                λ h.
                    let (here, rest) = (select_scope-some s scope ids scopes known set).0 h in
                    (here, (ap some (sym (==→≡ scope other same) ∙ here), rest)),
                λ (here, (_, rest)).
                    (select_scope-some s scope ids scopes known set).1 (here, rest),
              )
        | inr differ ↦
            rw (e, kept, differ, select_scope)
              (
                λ h. absurd (known (sym h)),
                λ (here, (there, _)).
                    let equal : scope ≡ other = cc in
                    absurd (true-ne-false (sym (≡→== equal) ∙ differ)),
              )
      ]
    ]

-- Operations that have no scope yet, and then at least one, which all have the scope.
abbrev pub AreOne : Scope → List (Text × Scope) → List Text → Type 0
AreOne s scopes ids =
    (before : List Text) × (id : Text) × (rest : List Text) × (ids ≡ before ++ id ∷ rest)
    × AllHave (Scope.other []) scopes before
    × AllHave s scopes (id ∷ rest)

related-AreOne :
    (ids : List Text) (scopes : List (Text × Scope)) (s : Scope)
    → s ≢ Scope.unknown
    → select_scope (Scope.other []) ids scopes ≡ s
    → (s ≢ Scope.other []) × AreOne s scopes ids
unfolding select_scope Scope-discrete
related-AreOne [] scopes s known h = absurd (known (sym h))
related-AreOne (id ∷ ids) scopes s known h = elim (Option-cases (lookup id scopes)) [
  | inl e ↦ absurd (known (sym (rw (e, select_scope) at h)))
  | inr (scope, e) ↦
      let h : select_scope scope ids scopes ≡ s = rw (e, select_scope) at h in
      elim (Bool-cases (scope == Scope.other [])) [
        | inl k ↦
            let empty = ==→≡ scope (Scope.other []) k in
            let (set, (before, first, rest, same, hb, hr)) =
              related-AreOne ids scopes s known
                (subst (λ t. select_scope t ids scopes ≡ s) empty h) in
            (set, (id ∷ before, first, rest, ap ((◌∷◌) id) same, (e ∙ ap some empty, hb), hr))
        | inr k ↦
            let set : scope ≢ Scope.other [] = (λ empty. true-ne-false (sym (≡→== empty) ∙ k)) in
            let (here, rest) = (select_scope-some s scope ids scopes known set).0 h in
            (
              subst (λ t. t ≢ Scope.other []) here set,
              ([], id, ids, refl, tt, (e ∙ ap some here, rest)),
            )
      ]
]

AreOne-related :
    (before : List Text) (id : Text) (rest : List Text) (scopes : List (Text × Scope)) (s : Scope)
    → s ≢ Scope.unknown
    → s ≢ Scope.other []
    → AllHave (Scope.other []) scopes before
    → AllHave s scopes (id ∷ rest)
    → select_scope (Scope.other []) (before ++ id ∷ rest) scopes ≡ s
unfolding select_scope Scope-discrete
AreOne-related [] id rest scopes s known set hb (here, there) =
    rw (here, select_scope) ((select_scope-some s s rest scopes known set).1 (refl, there))
AreOne-related (b ∷ before) id rest scopes s known set (hb, hs) hr =
    rw (hb, select_scope) (AreOne-related before id rest scopes s known set hs hr)

-- A record that names operations has a scope other than unknown exactly if this is not the empty
-- text and the operations that it names are, in their order, any number whose scope is the empty
-- text and then at least one, which all have that scope.
pub related_scope_iff :
    (ids : List Text) (scopes : List (Text × Scope)) (s : Scope)
    → s ≢ Scope.unknown
    → (related_scope ids scopes ≡ s) ↔ ((s ≢ Scope.other []) × AreOne s scopes ids)
unfolding related_scope
related_scope_iff ids scopes s known = (
  related-AreOne ids scopes s known,
  λ (set, (before, id, rest, same, hb, hr)).
      subst (λ t. select_scope (Scope.other []) t scopes ≡ s) (sym same)
        (AreOne-related before id rest scopes s known set hb hr),
)
