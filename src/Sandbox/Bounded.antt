-- ===== src/Sandbox/Bounded.antt =====
-- What the bounded buffer keeps of the bytes that are written to it.
use plug_and_prejudice.Prelude.{
  Bool-cases, List, Text, [], ap, append-nil, append_assoc, arith, concat, if◌then◌else◌, inl, inr,
  leb, length, length-append, ltb, refl, subst, suc, sym, take, take-append, take_all, true, zero,
  ℕ, ◌++◌, ◌+◌, ◌-◌, ◌∙◌, ◌∷◌, ◌≡◌, ◌≤◌,
}
use plug_and_prejudice.Sandbox.Buffer.{Buffer, fresh, overflow, write, write_all}

-- The buffer after the bytes `sofar`.
abbrev Holds : Text → Buffer → Type 0
Holds sofar b =
    (b.buffer ≡ take b.limit sofar)
    × (b.failed ≡ ltb b.limit (length sofar))
    × (b.cancelled ≡ ltb b.limit (length sofar))

-- The cases of `Write`, on the parts of the buffer.
kept_take :
    (bound : ℕ) (sofar piece : Text)
    → ltb bound (length sofar) ≡ true
    → take bound (sofar ++ piece) ≡ take bound sofar
kept_take bound sofar piece h =
    let gone : bound - length sofar ≡ 0 = ground arith in
    take-append bound sofar piece
    ∙ ap (λ n. take bound sofar ++ take n piece) gone
    ∙ append-nil (take bound sofar)

partial_take :
    (bound : ℕ) (sofar piece : Text)
    → length sofar ≤ bound
    → take bound (sofar ++ piece) ≡ sofar ++ take (bound - length sofar) piece
partial_take bound sofar piece h =
    take-append bound sofar piece
    ∙ ap (λ t. t ++ take (bound - length sofar) piece) (take_all bound sofar h)

whole_take :
    (bound : ℕ) (sofar piece : Text)
    → length piece + length sofar ≤ bound
    → take bound (sofar ++ piece) ≡ sofar ++ piece
whole_take bound sofar piece h =
    take_all bound (sofar ++ piece) (omega (arith, length-append sofar piece))

-- The guard `remaining > 0` changes nothing.
guarded_part :
    (remaining : ℕ) (kept piece : Text)
    → (if ltb 0 remaining then kept ++ take remaining piece else kept)
      ≡ kept ++ take remaining piece
guarded_part zero kept piece = sym (append-nil kept)
guarded_part (suc n) kept piece = ground arith

write-limit : (piece : Text) (b : Buffer) → (write piece b).after.limit ≡ b.limit
unfolding write overflow
write-limit piece b = ground arith

write-Holds :
    (sofar piece : Text) (b : Buffer) → Holds sofar b → Holds (sofar ++ piece) (write piece b).after
unfolding write overflow
write-Holds sofar piece b (hb, hf, hc) = elim (Bool-cases b.failed) [
  | inl e ↦
      let kept = hb ∙ sym (kept_take b.limit sofar piece (sym hf ∙ e)) in
      rw e
        (kept, ground (arith, length-append sofar piece), ground (arith, length-append sofar piece))
  | inr e ↦
      let fits : length sofar ≤ b.limit = ground arith in
      let all : b.buffer ≡ sofar = hb ∙ take_all b.limit sofar fits in
      let sizes : length b.buffer ≡ length sofar = ap length all in
      elim (Bool-cases (leb (length piece + length b.buffer) b.limit)) [
        | inl k ↦
            let whole =
              ap (λ t. t ++ piece) all ∙ sym (whole_take b.limit sofar piece (ground arith)) in
            rw (e, k)
              (
                whole,
                ground (arith, length-append sofar piece),
                ground (arith, length-append sofar piece),
              )
        | inr k ↦
            let part = partial_take b.limit sofar piece fits in
            rw (e, k)
              (
                guarded_part (b.limit - length b.buffer) b.buffer piece
                    ∙ ap (λ t. t ++ take (b.limit - length t) piece) all
                    ∙ sym part,
                ground (arith, length-append sofar piece),
                ground (arith, length-append sofar piece),
              )
      ]
]

write_all-Holds :
    (sofar : Text) (pieces : List Text) (b : Buffer)
    → Holds sofar b
    → Holds (sofar ++ concat pieces) (write_all pieces b)
unfolding write_all
write_all-Holds sofar [] b h = subst (λ t. Holds t b) (sym (append-nil sofar)) h
write_all-Holds sofar (piece ∷ pieces) b h =
    subst (λ t. Holds t (write_all pieces (write piece b).after))
      (append_assoc sofar piece (concat pieces))
      (write_all-Holds (sofar ++ piece) pieces (write piece b).after (write-Holds sofar piece b h))

write_all-limit : (pieces : List Text) (b : Buffer) → (write_all pieces b).limit ≡ b.limit
unfolding write_all
write_all-limit [] b = refl
write_all-limit (piece ∷ pieces) b =
    write_all-limit pieces (write piece b).after ∙ write-limit piece b

-- However a process cuts its output into pieces, a fresh buffer keeps the longest prefix of the
-- output that its limit allows, and it reports an error and cancels the process exactly if that is
-- not the whole output.
pub write_all-fresh :
    (bound : ℕ) (pieces : List Text)
    → ((write_all pieces (fresh bound)).buffer ≡ take bound (concat pieces))
      × ((write_all pieces (fresh bound)).failed ≡ ltb bound (length (concat pieces)))
      × ((write_all pieces (fresh bound)).cancelled ≡ ltb bound (length (concat pieces)))
write_all-fresh bound pieces =
    subst
      (λ n.
        ((write_all pieces (fresh bound)).buffer ≡ take n (concat pieces))
        × ((write_all pieces (fresh bound)).failed ≡ ltb n (length (concat pieces)))
        × ((write_all pieces (fresh bound)).cancelled ≡ ltb n (length (concat pieces))))
      (write_all-limit pieces (fresh bound)) (write_all-Holds [] pieces (fresh bound) (empty bound))
  where
    empty : (n : ℕ) → Holds [] (fresh n)
    empty zero = (refl, refl, refl)
    empty (suc n) = (refl, ground arith, ground arith)
