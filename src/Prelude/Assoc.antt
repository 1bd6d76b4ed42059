-- ===== src/Prelude/Assoc.antt =====
-- A Go map with string keys, as an association list. The latest entry of a key comes first.
use plug_and_prejudice.Prelude.{
  ==_refl, List, Option, Text, Text-eq, [], if◌then◌else◌, none, some, ◌==◌, ◌∷◌, ◌≡◌,
}

module _ {V : Type 0} where
  unfoldable pub lookup : Text → List (Text × V) → Option V
  lookup k [] = none
  lookup k ((j, v) ∷ m) = if j == k then some v else lookup k m

  -- `m[k] = v`.
  abbrev pub store : Text → V → List (Text × V) → List (Text × V)
  store k v m = (k, v) ∷ m

  pub lookup-store_self : (k : Text) (v : V) (m : List (Text × V)) → lookup k (store k v m) ≡ some v
  unfolding lookup
  lookup-store_self k v m = rw (==_refl k)

-- `m[k]` of a map of strings is empty where the key is missing.
unfoldable pub lookup_or_empty : Text → List (Text × Text) → Text
unfolding lookup
lookup_or_empty k m = elim (lookup k m) [ none ↦ [] | some v ↦ v ]
