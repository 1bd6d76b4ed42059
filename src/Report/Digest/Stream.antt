-- ===== src/Report/Digest/Stream.antt =====
-- The hashed stream determines the retained observation.
use plug_and_prejudice.Prelude.{
  >>=-eq-ok, All, List, Text, [], ap, append_assoc, ap₂, arith, each, err, length, map, ok, refl,
  refuse, sym, ◌++◌, ◌<◌, ◌∙◌, ◌∷◌, ◌≡◌,
}
use plug_and_prejudice.Prelude.Encoding.{append_inj, big_endian, big_endian_inj, word_size}
use plug_and_prejudice.Prelude.Int.{ltb_ℤ, natural, pos, pos_part, ℤ}
use plug_and_prejudice.Prelude.Sort.{length-sort, sort, sort-All}
use plug_and_prejudice.Report.Digest.{
  check_field, checked_fields, digest_string, file_record, file_stream, inventory_digest_domain,
  inventory_stream, path_less,
}
use plug_and_prejudice.Report.Records.{File}

-- The fields of a file that the digest binds.
pub record Retained : Type 0 where
  pub path : Text
  pub kind : Text
  pub mode : Text
  pub size : ℤ
  pub sha256 : Text
  pub link_target : Text
  pub skip_reason : Text

abbrev pub retained : File → Retained
retained f = record {
  path = f.path;
  kind = f.kind;
  mode = f.mode;
  size = f.size;
  sha256 = f.sha256;
  link_target = f.link_target;
  skip_reason = f.skip_reason;
}

-- Lengths and sizes are machine words.
pub record FitsWords (f : File) : Type 0 where
  pub path : length f.path < word_size
  pub kind : length f.kind < word_size
  pub mode : length f.mode < word_size
  pub size : pos_part f.size < word_size
  pub sha256 : length f.sha256 < word_size
  pub link_target : length f.link_target < word_size
  pub skip_reason : length f.skip_reason < word_size

digest_string_inj :
    (a b r s : Text)
    → length a < word_size
    → length b < word_size
    → digest_string a ++ r ≡ digest_string b ++ s
    → (a ≡ b) × (r ≡ s)
unfolding digest_string
digest_string_inj a b r s ha hb e =
    let (lengths, rests) =
      big_endian_inj (length a) (length b) (a ++ r) (b ++ s) ha hb
        (sym (append_assoc _ a r) ∙ e ∙ append_assoc _ b s) in
    append_inj a b r s lengths rests

-- The record of a file in front of a text, bracketed to the right.
abbrev record_before : File → Text → Text
record_before f rest =
    digest_string f.path
    ++ (digest_string f.kind
        ++ (digest_string f.mode
            ++ (big_endian (pos_part f.size)
                ++ (digest_string f.sha256
                    ++ (digest_string f.link_target ++ (digest_string f.skip_reason ++ rest))))))

file_record-append : (f : File) (rest : Text) → file_record f ++ rest ≡ record_before f rest
unfolding file_record
file_record-append f rest = simp append_assoc

module _ (f g : File) (hf : FitsWords f) (hg : FitsWords g) where
  record_before_inj :
      (r s : Text)
      → f.size ≡ pos (pos_part f.size)
      → g.size ≡ pos (pos_part g.size)
      → record_before f r ≡ record_before g s
      → (retained f ≡ retained g) × (r ≡ s)
  record_before_inj r s nf ng e =
      let (path, e) = digest_string_inj f.path g.path _ _ hf.path hg.path e in
      let (kind, e) = digest_string_inj f.kind g.kind _ _ hf.kind hg.kind e in
      let (mode, e) = digest_string_inj f.mode g.mode _ _ hf.mode hg.mode e in
      let (size, e) = big_endian_inj (pos_part f.size) (pos_part g.size) _ _ hf.size hg.size e in
      let (sum, e) = digest_string_inj f.sha256 g.sha256 _ _ hf.sha256 hg.sha256 e in
      let (link, e) =
        digest_string_inj f.link_target g.link_target _ _ hf.link_target hg.link_target e in
      let (skip, e) =
        digest_string_inj f.skip_reason g.skip_reason r s hf.skip_reason hg.skip_reason e in
      let sizes : f.size ≡ g.size = nf ∙ ap pos size ∙ sym ng in
      (
        (λ i. record {
          path = path i;
          kind = kind i;
          mode = mode i;
          size = sizes i;
          sha256 = sum i;
          link_target = link i;
          skip_reason = skip i;
        }),
        e,
      )

-- A stream that was made begins with the record of its first file.
stream_split :
    (f : File) (fs : List File) (s : Text)
    → file_stream (f ∷ fs) ≡ ok s
    → (f.size ≡ pos (pos_part f.size))
      × ((t : Text) × (file_stream fs ≡ ok t) × (s ≡ record_before f t))
unfolding file_stream
stream_split f fs s h = (natural f.size (ground arith), parts)
  where
    parts : (t : Text) × (file_stream fs ≡ ok t) × (s ≡ record_before f t)
    parts =
        let (u, _, h) =
          >>=-eq-ok
            (refuse (ltb_ℤ f.size (pos 0)) "inventory digest cannot encode a negative file size") _
            h in
        let (u, _, h) = >>=-eq-ok (each check_field (checked_fields f)) _ h in
        let (t, made, whole) = >>=-eq-ok (file_stream fs) _ h in
        (t, made, ap (λ r. elim r [ ok x ↦ x | err _ ↦ [] ]) (sym whole) ∙ file_record-append f t)

file_stream_inj :
    (fs gs : List File) (s : Text)
    → All FitsWords fs
    → All FitsWords gs
    → length fs ≡ length gs
    → file_stream fs ≡ ok s
    → file_stream gs ≡ ok s
    → map retained fs ≡ map retained gs
file_stream_inj [] [] s hf hg n h k = refl
file_stream_inj [] (g ∷ gs) s hf hg n h k = absurd (omega arith)
file_stream_inj (f ∷ fs) [] s hf hg n h k = absurd (omega arith)
file_stream_inj (f ∷ fs) (g ∷ gs) s (hf, hfs) (hg, hgs) n h k =
    let (nf, parts) = stream_split f fs s h in
    let (t, made, whole) = parts in
    let (ng, parts') = stream_split g gs s k in
    let (t', made', whole') = parts' in
    let (same, tails) = record_before_inj f g hf hg t t' nf ng (sym whole ∙ whole') in
    ap₂ (◌∷◌) same (file_stream_inj fs gs t hfs hgs (omega arith) made (made' ∙ ap ok (sym tails)))

stream_parts :
    (files : List File) (s : Text)
    → inventory_stream files ≡ ok s
    → (t : Text) × (file_stream (sort path_less files) ≡ ok t)
      × (s ≡ digest_string inventory_digest_domain ++ (big_endian (length files) ++ t))
unfolding inventory_stream
stream_parts files s h =
    let (t, made, whole) = >>=-eq-ok (file_stream (sort path_less files)) _ h in
    (
      t,
      made,
      ap (λ r. elim r [ ok x ↦ x | err _ ↦ [] ]) (sym whole) ∙ rw (length-sort path_less files),
    )

-- Two inventories whose digests hash the same bytes agree, in the order of their paths, on the path,
-- kind, mode, size, SHA-256, link target and skip reason of every file.
pub inventory_stream_inj :
    (xs ys : List File) (s : Text)
    → All FitsWords xs
    → All FitsWords ys
    → length xs < word_size
    → length ys < word_size
    → inventory_stream xs ≡ ok s
    → inventory_stream ys ≡ ok s
    → map retained (sort path_less xs) ≡ map retained (sort path_less ys)
inventory_stream_inj xs ys s hx hy nx ny h k =
    let (t, made, whole) = stream_parts xs s h in
    let (t', made', whole') = stream_parts ys s k in
    let domain = digest_string inventory_digest_domain in
    let (_, counted) = append_inj domain domain _ _ refl (sym whole ∙ whole') in
    let (lengths, streams) = big_endian_inj (length xs) (length ys) t t' nx ny counted in
    file_stream_inj (sort path_less xs) (sort path_less ys) t (sort-All path_less FitsWords xs hx)
      (sort-All path_less FitsWords ys hy)
      (length-sort path_less xs ∙ lengths ∙ sym (length-sort path_less ys)) made
      (made' ∙ ap ok (sym streams))
