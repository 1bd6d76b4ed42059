-- ===== src/Report/Subject.antt =====
-- `resourceComparisonSubject` of internal/report/semantic_subject.go.
use plug_and_prejudice.Prelude.{
  List, Text, [], append-nil, append_assoc, ap₂, arith, codes, length, refl, sym, ◌++◌, ◌∙◌, ◌∷◌,
  ◌≡◌,
}
use plug_and_prejudice.Prelude.Encoding.{append_inj, decimal, decimal_inj}

abbrev pub resource_comparison_subject_version : Text
resource_comparison_subject_version = codes "resource-subject/v1"

-- The loop: each field behind its decimal byte length.
unfoldable pub append_fields : Text → List Text → Text
append_fields result [] = result
append_fields result (f ∷ fs) = append_fields (result ++ b':' ∷ (decimal (length f) ++ b':' ∷ f)) fs

unfoldable pub resource_comparison_subject : Text → Text → Text → Text
unfolding append_fields
resource_comparison_subject kind access value =
    append_fields resource_comparison_subject_version (kind ∷ access ∷ value ∷ [])

-- The fields without an accumulator.
framed : List Text → Text
framed [] = []
framed (f ∷ fs) = b':' ∷ (decimal (length f) ++ b':' ∷ (f ++ framed fs))

append_fields-framed :
    (result : Text) (fs : List Text) → append_fields result fs ≡ result ++ framed fs
unfolding append_fields framed
append_fields-framed result [] = sym (append-nil result)
append_fields-framed result (f ∷ fs) =
    simp (append_fields-framed (result ++ b':' ∷ (decimal (length f) ++ b':' ∷ f)) fs, append_assoc)

framed_inj : (fs gs : List Text) → framed fs ≡ framed gs → fs ≡ gs
unfolding framed
framed_inj [] [] e = refl
framed_inj [] (g ∷ gs) e = cc
framed_inj (f ∷ fs) [] e = cc
framed_inj (f ∷ fs) (g ∷ gs) e =
    let (lengths, texts) =
      decimal_inj (length f) (length g) (f ++ framed fs) (g ++ framed gs) (ground arith) in
    let (heads, tails) = append_inj f g (framed fs) (framed gs) lengths texts in
    ap₂ (◌∷◌) heads (framed_inj fs gs tails)

-- The subject determines the kind, the access and the value of a resource, whatever bytes they
-- hold.
pub resource_comparison_subject_inj :
    (kind access value kind' access' value' : Text)
    → resource_comparison_subject kind access value
      ≡ resource_comparison_subject kind' access' value'
    → (kind ≡ kind') × (access ≡ access') × (value ≡ value')
unfolding resource_comparison_subject
resource_comparison_subject_inj k a v k' a' v' e =
    let fields = k ∷ a ∷ v ∷ [] in
    let fields' = k' ∷ a' ∷ v' ∷ [] in
    let version = resource_comparison_subject_version in
    let whole =
      sym (append_fields-framed version fields) ∙ e ∙ append_fields-framed version fields' in
    let same = framed_inj fields fields' (append_inj version version _ _ refl whole).1 in
    (cc same, cc same, cc same)
