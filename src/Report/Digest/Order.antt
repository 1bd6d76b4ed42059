-- ===== src/Report/Digest/Order.antt =====
-- The digest depends neither on what later analysis records nor on the order of the files.
use plug_and_prejudice.Prelude.{
  All, All-In, In, List, Text, [], ap, ap₂, false, inl, inr, length-map, less, less_asymm,
  less_ntrans, less_total, map, refl, sym, ◌∙◌, ◌∷◌, ◌≡◌, ◌≢◌,
}
use plug_and_prejudice.Prelude.Sort.{
  AreRelated, In-of_sort, In-sort, IsOrdered, map-sort, sort, sort-AreRelated, sort-IsOrdered,
}
use plug_and_prejudice.Report.Digest.{
  file_record, file_stream, inventory_root_digest, inventory_stream, path_less,
}
use plug_and_prejudice.Report.Records.{File}

abbrev pub HaveOtherPaths : File → File → Type 0
HaveOtherPaths a b = a.path ≢ b.path

-- Files whose paths differ from one another.
abbrev pub AreDistinct : List File → Type 0
AreDistinct = AreRelated HaveOtherPaths

abbrev pub IsWithin : List File → List File → Type 0
IsWithin xs ys = (x : File) → In x xs → In x ys

-- The first file of a list that is in order comes first in each such list.
first-same :
    (x y : File) (xs ys : List File)
    → All (λ z. path_less z x ≡ false) xs
    → All (λ z. path_less z y ≡ false) ys
    → All (HaveOtherPaths y) ys
    → In x (y ∷ ys)
    → In y (x ∷ xs)
    → x ≡ y
first-same x y xs ys hx hy other (inl e) j = e
first-same x y xs ys hx hy other (inr i) (inl e) = sym e
first-same x y xs ys hx hy other (inr i) (inr j) =
    let later = All-In (λ z. path_less z y ≡ false) x ys hy i in
    let earlier = All-In (λ z. path_less z x ≡ false) y xs hx j in
    absurd (All-In (HaveOtherPaths y) x ys other i (sym (less_total x.path y.path later earlier)))

rest-IsWithin :
    (x y : File) (xs ys : List File)
    → x ≡ y
    → All (HaveOtherPaths x) xs
    → IsWithin (x ∷ xs) (y ∷ ys)
    → IsWithin xs ys
rest-IsWithin x y xs ys same other within z i = elim (within z (inr i)) [
  | inl e ↦
      absurd (All-In (HaveOtherPaths x) z xs other i (ap (λ (f : File). f.path) (same ∙ sym e)))
  | inr j ↦ j
]

ordered-same :
    (xs ys : List File)
    → IsOrdered path_less xs
    → IsOrdered path_less ys
    → AreDistinct xs
    → AreDistinct ys
    → IsWithin xs ys
    → IsWithin ys xs
    → xs ≡ ys
ordered-same [] [] ox oy dx dy there back = refl
ordered-same [] (y ∷ ys) ox oy dx dy there back = absurd (back y (inl refl))
ordered-same (x ∷ xs) [] ox oy dx dy there back = absurd (there x (inl refl))
ordered-same (x ∷ xs) (y ∷ ys) (hx, ox) (hy, oy) (fx, dx) (fy, dy) there back =
    let same = first-same x y xs ys hx hy fy (there x (inl refl)) (back y (inl refl)) in
    ap₂ (◌∷◌) same (
      ordered-same xs ys ox oy dx dy (rest-IsWithin x y xs ys same fx there)
        (rest-IsWithin y x ys xs (sym same) fy back))

sort-same :
    (xs ys : List File)
    → AreDistinct xs
    → AreDistinct ys
    → IsWithin xs ys
    → IsWithin ys xs
    → sort path_less xs ≡ sort path_less ys
sort-same xs ys dx dy there back =
    ordered-same (sort path_less xs) (sort path_less ys) (ordered xs) (ordered ys) (distinct xs dx)
      (distinct ys dy) (λ z i. In-sort path_less z ys (there z (In-of_sort path_less z xs i)))
      (λ z i. In-sort path_less z xs (back z (In-of_sort path_less z ys i)))
  where
    ordered : (zs : List File) → IsOrdered path_less (sort path_less zs)
    ordered =
        sort-IsOrdered path_less (λ a b. less_asymm a.path b.path)
          (λ a b c. less_ntrans a.path b.path c.path)

    distinct : (zs : List File) → AreDistinct zs → AreDistinct (sort path_less zs)
    distinct = sort-AreRelated path_less HaveOtherPaths (λ a b h e. h (sym e))

-- A change of files that keeps what the digest binds.
pub record KeepsRetained (f : File → File) : Type 0 where
  pub path : (x : File) → (f x).path ≡ x.path
  pub kind : (x : File) → (f x).kind ≡ x.kind
  pub mode : (x : File) → (f x).mode ≡ x.mode
  pub size : (x : File) → (f x).size ≡ x.size
  pub sha256 : (x : File) → (f x).sha256 ≡ x.sha256
  pub link_target : (x : File) → (f x).link_target ≡ x.link_target
  pub skip_reason : (x : File) → (f x).skip_reason ≡ x.skip_reason

module _ (f : File → File) (k : KeepsRetained f) where
  file_stream-map : (xs : List File) → file_stream (map f xs) ≡ file_stream xs
  unfolding file_stream file_record
  file_stream-map [] = refl
  file_stream-map (x ∷ xs) =
      simp
        (k.path, k.kind, k.mode, k.size, k.sha256, k.link_target, k.skip_reason, file_stream-map xs)

  path_less-eq : (x y : File) → path_less (f x) (f y) ≡ path_less x y
  path_less-eq x y = ap₂ less (k.path x) (k.path y)

  inventory_stream-map : (xs : List File) → inventory_stream (map f xs) ≡ inventory_stream xs
  unfolding inventory_stream
  inventory_stream-map xs = rw (
    ← map-sort path_less f path_less-eq xs,
    length-map f (sort path_less xs),
    file_stream-map (sort path_less xs),
  )

  -- A change of the files that keeps the path, kind, mode, size, SHA-256, link target and skip reason
  -- of each of them leaves the root digest as it was, whatever else it writes.
  pub inventory_root_digest-map :
      (sha256 : Text → Text) (xs : List File)
      → inventory_root_digest sha256 (map f xs) ≡ inventory_root_digest sha256 xs
  unfolding inventory_root_digest
  inventory_root_digest-map sha256 xs = rw inventory_stream-map

  -- Two lists of the same files, whose paths differ from one another, have the same root digest,
  -- whatever their order. This holds also where each file of one list is changed, so long as its
  -- path, kind, mode, size, SHA-256, link target and skip reason are kept.
  pub inventory_root_digest-same :
      (sha256 : Text → Text) (xs ys : List File)
      → AreDistinct xs
      → AreDistinct ys
      → IsWithin xs ys
      → IsWithin ys xs
      → inventory_root_digest sha256 (map f xs) ≡ inventory_root_digest sha256 ys
  unfolding inventory_root_digest inventory_stream
  inventory_root_digest-same sha256 xs ys dx dy there back =
      inventory_root_digest-map sha256 xs ∙ rw (sort-same xs ys dx dy there back) refl
