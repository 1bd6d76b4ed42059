-- ===== src/Report/Validate/Inputs/Bound.antt =====
-- What the evidence inputs of a report are that pass under the policy of the program.
use plug_and_prejudice.Prelude.{
  ==→≡, >>-eq-ok, >>=-eq-ok, All, All-map, Bool-cases, List, Option-cases, Text, Text-eq, [],
  and-split, arith, eqb, false, inl, inr, is_some, length, ltb, none, not, ok, pass, refuse,
  refuse-eq-ok, some, subst, sym, true, true-ne-false, ℕ, ≡→==, ◌&&◌, ◌==◌, ◌||◌, ◌∙◌, ◌∷◌, ◌≡◌,
  ◌≢◌, ◌≤◌,
}
use plug_and_prejudice.Prelude.Assoc.{lookup, store}
use plug_and_prejudice.Prelude.Sort.{AreRelated}
use plug_and_prejudice.Report.Kinds.{EvidenceInputType, EvidenceInputType-eq}
use plug_and_prejudice.Report.Limits.{
  max_evidence_inputs, omarchy_audit_input_format, omarchy_audit_input_version,
  target_evidence_input_id,
}
use plug_and_prejudice.Report.Observations.{first_such}
use plug_and_prejudice.Report.Records.{EvidenceInput}
use plug_and_prejudice.Report.Validate.Inputs.{
  ExternalEvidenceInputPolicy, Inputs, applies, binds_target, collect_inputs, supported_policies,
  validate_evidence_inputs, validate_external_input, validate_input, validate_input_type,
}

abbrev IsUnbound : EvidenceInput → Type 0
IsUnbound i = i.type ≡ EvidenceInputType.omarchy_audit → i.subject_root_digest ≡ []

-- The inputs are few and apart, no external one claims to be about the target, and the target's own
-- is bound to the root digest.
pub record AreBound (root : Text) (inputs : List EvidenceInput) (values : Inputs) : Type 0 where
  pub few : length inputs ≤ max_evidence_inputs
  pub apart : AreRelated (λ i j. i.id ≢ j.id) inputs
  pub unbound : All IsUnbound inputs
  pub target :
      (t : EvidenceInput) × (lookup target_evidence_input_id values ≡ some t)
      × (t.type ≡ EvidenceInputType.target)
      × (t.subject_root_digest ≡ root)

-- No supported policy supplies a root digest.
silent_policy :
    (i : EvidenceInput) (policy : ExternalEvidenceInputPolicy)
    → first_such (applies i) supported_policies ≡ some policy
    → policy.supplies_subject_root_digest ≡ false
unfolding first_such
silent_policy i policy h =
    elim (Bool-cases (
      applies i (record {
        type = EvidenceInputType.omarchy_audit;
        format = omarchy_audit_input_format;
        version = omarchy_audit_input_version;
        requires_document_sha256 = true;
        supplies_subject_root_digest = false;
      }))) [ inl e ↦ cc (rw e at h) | inr e ↦ cc (rw e at h) ]

unbound_external :
    (i : EvidenceInput)
    → validate_external_input supported_policies i ≡ pass
    → i.subject_root_digest ≡ []
unfolding validate_external_input first_such
unbound_external i h = elim (Option-cases (first_such (applies i) supported_policies)) [
  | inl e ↦ cc (rw (e, validate_external_input) at h)
  | inr (policy, e) ↦
      let (_, h) =
        >>-eq-ok (refuse (i.id == target_evidence_input_id) _) _
          (rw (e, validate_external_input) at h) in
      let (_, h) =
        >>-eq-ok (refuse (policy.requires_document_sha256 && i.document_sha256 == []) _) _ h in
      let silent = refuse-eq-ok _ _ h in
      let none_supplied = silent_policy i policy e in ==→≡ i.subject_root_digest [] (ground arith)
]

fresh-store :
    (i j : EvidenceInput) (values : Inputs)
    → lookup j.id (store i.id i values) ≡ none
    → (i.id ≢ j.id) × (lookup j.id values ≡ none)
unfolding lookup
fresh-store i j values h = elim (Bool-cases (i.id == j.id)) [
  | inl e ↦ absurd (cc (rw e at h))
  | inr e ↦ ((λ same. true-ne-false (sym (≡→== same) ∙ e)), rw e at h)
]

module _ (root : Text) where
  -- One input that passes was not there before, and is unbound.
  input-IsUnbound :
      (i : EvidenceInput) (values : Inputs)
      → validate_input root supported_policies i values ≡ pass
      → IsUnbound i × (lookup i.id values ≡ none)
  unfolding validate_input
  input-IsUnbound i values h =
      let (_, h) =
        >>-eq-ok (refuse (i.id == [] || i.label == [] || i.format == [] || i.version == []) _) _
          h in
      let (free, h) = >>-eq-ok (refuse (is_some (lookup i.id values)) _) _ h in
      let (typed, h) = >>-eq-ok (validate_input_type i.type supported_policies i) _ h in
      let fresh = refuse-eq-ok _ _ free in
      (
        (λ e. unbound_external i (external i.type e typed)),
        elim (Option-cases (lookup i.id values)) [
          | inl e ↦ e
          | inr (t, e) ↦ absurd (cc (rw e at fresh))
        ],
      )
    where
      external :
          (t : EvidenceInputType)
          → t ≡ EvidenceInputType.omarchy_audit
          → validate_input_type t supported_policies i ≡ pass
          → validate_external_input supported_policies i ≡ pass
      external t e h = rw e at h

  collected :
      (is : List EvidenceInput) (values last : Inputs) (count total : ℕ)
      → collect_inputs root supported_policies is values count ≡ ok (last, total)
      → All IsUnbound is
        × All (λ i. lookup i.id values ≡ none) is
        × AreRelated (λ i j. i.id ≢ j.id) is
  unfolding collect_inputs
  collected [] values last count total h = (tt, tt, tt)
  collected (i ∷ is) values last count total h =
      let (first, h) = >>-eq-ok (validate_input root supported_policies i values) _ h in
      let (unbound, fresh) = input-IsUnbound i values first in
      let (others, known, apart) = collected is (store i.id i values) last _ total h in
      (
        (unbound, others),
        (fresh, All-map _ _ (λ j k. (fresh-store i j values k).1) is known),
        (All-map _ _ (λ j k. (fresh-store i j values k).0) is known, apart),
      )

  bound_target :
      (values : Inputs)
      → binds_target root values ≡ true
      → (t : EvidenceInput) × (lookup target_evidence_input_id values ≡ some t)
        × (t.type ≡ EvidenceInputType.target)
        × (t.subject_root_digest ≡ root)
  unfolding binds_target
  bound_target values h = elim (Option-cases (lookup target_evidence_input_id values)) [
    | inl e ↦ absurd (cc (rw (e, binds_target) at h))
    | inr (t, e) ↦
        let (typed, same) =
          and-split (t.type == EvidenceInputType.target) (t.subject_root_digest == root)
            (rw (e, binds_target) at h) in
        (t, e, ==→≡ t.type EvidenceInputType.target typed, ==→≡ t.subject_root_digest root same)
  ]

  -- Evidence inputs that pass under the policy of the program are few and have distinct identities,
  -- no external input claims a root digest, and the target's own input bears the report's.
  pub validate_evidence_inputs-AreBound :
      (inputs : List EvidenceInput) (values : Inputs)
      → validate_evidence_inputs root supported_policies inputs ≡ ok values
      → AreBound root inputs values
  unfolding validate_evidence_inputs
  validate_evidence_inputs-AreBound inputs values h =
      let (bounded, h) =
        >>-eq-ok (refuse (eqb (length inputs) 0 || ltb max_evidence_inputs (length inputs)) _) _
          h in
      let (c, all_read, h) = >>=-eq-ok (collect_inputs root supported_policies inputs [] 0) _ h in
      let (bound, h) = >>-eq-ok (refuse (not (eqb c.1 1) || not (binds_target root c.0)) _) _ h in
      let (unbound, _, apart) = collected inputs [] c.0 0 c.1 all_read in
      let within = refuse-eq-ok _ _ bounded in
      let valid = refuse-eq-ok _ _ bound in
      let same : c.0 ≡ values = ground arith in
      subst (AreBound root inputs) same (record {
        few = ground arith;
        apart = apart;
        unbound = unbound;
        target = bound_target c.0 (ground arith);
      })
