-- ===== src/Svndiff/Insn/Bounds.antt =====
-- What `decode_insn` consumes, and the loop over the instructions section.
use mrksvnup.Base.{
  ℕ, zero, suc, ◌+◌, ◌-◌, ◌/◌, ◌%◌, ◌^◌, ◌≤◌, ◌<◌, ◌≡◌, ◌≢◌, refl, ap, ◌∙◌, List, [], ◌∷◌, ◌++◌,
  Bytes, Outcome, ok, fail, fault, stuck, length, >>=-ne-stuck, arith, All, ℤ, length-append,
  >>=-eq-ok,
}
use mathlib.Core.List.{append_assoc, append-nil}
use mrksvnup.Svndiff.Number.{Cursor}
use mrksvnup.Svndiff.Number.Bounds.{Advances, read_number-Advances, read_number-ne-stuck}
use mrksvnup.Svndiff.Insn.{Insn, decode_len, decode_offset, decode_insn, insn_loop, section_insns}
use mrksvnup.Svndiff.Insn.RoundTrip.{
  IsWritable, encode_insn, encode_insn_pos, decode_insn-encode_insn,
}

-- As `Advances`, or no move at all.
record Reaches (from to : Cursor) : Type 0 where
  moves : length to.0 ≤ length from.0
  nearer : to.1 ≤ from.1
  in_step : to.1 + length from.0 ≡ from.1 + length to.0

decode_len-Reaches :
    (low : ℕ) (from to : Cursor) (z : ℤ) → decode_len low from ≡ ok (to, z) → Reaches from to
unfolding decode_len
decode_len-Reaches low from to z e = ground (arith, read_number-Advances 1 from to z)

decode_offset-Reaches :
    (code : ℕ) (from to : Cursor) (z : ℤ) → decode_offset code from ≡ ok (to, z) → Reaches from to
unfolding decode_offset
decode_offset-Reaches code from to z e = ground (arith, read_number-Advances 2 from to z)

decode_len-ne-stuck : (low : ℕ) (from : Cursor) → decode_len low from ≢ stuck
unfolding decode_len
decode_len-ne-stuck low from = ground (arith, read_number-ne-stuck 1 from)

decode_offset-ne-stuck : (code : ℕ) (from : Cursor) → decode_offset code from ≢ stuck
unfolding decode_offset
decode_offset-ne-stuck code from = ground (arith, read_number-ne-stuck 2 from)

-- A successful `decode_insn` moves the cursor on, both ends in step.
pub decode_insn-Advances :
    (from to : Cursor) (i : Insn) → decode_insn from ≡ ok (to, i) → 0 < from.1 → Advances from to
unfolding decode_insn
decode_insn-Advances ([], left) to i e h = cc
decode_insn-Advances (c ∷ s, left) to i e h =
    let ((s1, len), e1, r1) = >>=-eq-ok (decode_len (c % 2 ^ 6) (s, left - 1)) _ e in
    let ((s2, offset), e2, r2) = >>=-eq-ok (decode_offset (c / 2 ^ 6 % 2 ^ 2) s1) _ r1 in
    ground (
      arith,
      decode_len-Reaches _ (s, left - 1) s1 len e1,
      decode_offset-Reaches _ s1 s2 offset e2,
      r2,
    )

insn_loop_step :
    (fuel : ℕ) (s : Bytes) (left : ℕ) (to : Cursor) (i : Insn) (insns : List Insn)
    → 0 < left
    → decode_insn (s, left) ≡ ok (to, i)
    → insn_loop (suc fuel) (s, left) insns ≡ insn_loop fuel to (insns ++ i ∷ [])
unfolding insn_loop
insn_loop_step fuel s zero to i insns h e = elim h [ ]
insn_loop_step fuel s (suc left) to i insns h e = rw (insn_loop, e) refl

decode_insn-ne-stuck : (from : Cursor) → decode_insn from ≢ stuck
unfolding decode_insn
decode_insn-ne-stuck ([], left) = λ e. cc
decode_insn-ne-stuck (c ∷ s, left) =
    >>=-ne-stuck (decode_len (c % 2 ^ 6) (s, left - 1)) _ (decode_len-ne-stuck _ _) λ (s1, len) _.
      >>=-ne-stuck (decode_offset (c / 2 ^ 6 % 2 ^ 2) s1) _ (decode_offset-ne-stuck _ _) λ _ _ e. cc

-- Fuel above the bytes before `insend` is enough: the loop always ends.
insn_loop-ne-stuck :
    (fuel : ℕ) (from : Cursor) (insns : List Insn)
    → from.1 < fuel
    → insn_loop fuel from insns ≢ stuck
unfolding insn_loop
insn_loop-ne-stuck zero from insns h = elim h [ ]
insn_loop-ne-stuck (suc fuel) (s, zero) insns h = λ e. cc
insn_loop-ne-stuck (suc fuel) (s, suc left) insns h =
    by_result (decode_insn (s, suc left)) refl (insn_loop-ne-stuck fuel)
  where
    by_result :
        (r : Outcome (Cursor × Insn))
        → decode_insn (s, suc left) ≡ r
        → ((to : Cursor) (more : List Insn) → to.1 < fuel → insn_loop fuel to more ≢ stuck)
        → insn_loop (suc fuel) (s, suc left) insns ≢ stuck
    by_result (ok (to, i)) e rest =
        let a = decode_insn-Advances (s, suc left) to i e (omega arith) in
        rw (insn_loop, e) (rest to (insns ++ i ∷ []) (omega arith))
    by_result (fail k) e rest = rw (insn_loop, e) (λ x. cc)
    by_result fault e rest = rw (insn_loop, e) (λ x. cc)
    by_result stuck e rest = absurd (decode_insn-ne-stuck _ e)

-- Reading an instructions section always ends.
pub section_insns-ne-stuck : (b : Bytes) → section_insns b ≢ stuck
unfolding section_insns
section_insns-ne-stuck b = insn_loop-ne-stuck (suc (length b)) (b, length b) [] (omega arith)

abbrev pub encode_insns : List Insn → Bytes
encode_insns [] = []
encode_insns (i ∷ is) = encode_insn i ++ encode_insns is

-- The loop returns every instruction of a section, in order, behind those it was given.
insn_loop-encode_insns :
    (is : List Insn) (fuel : ℕ) (insns : List Insn) (beyond : Bytes)
    → All IsWritable is
    → length (encode_insns is) < fuel
    → insn_loop fuel (encode_insns is ++ beyond, length (encode_insns is)) insns ≡ ok (insns ++ is)
unfolding insn_loop
insn_loop-encode_insns is zero insns beyond w h = elim h [ ]
insn_loop-encode_insns [] (suc fuel) insns beyond w h = rw append-nil
insn_loop-encode_insns (i ∷ is) (suc fuel) insns beyond (w, ws) h =
    let size = length-append (encode_insn i) (encode_insns is) in
    let rest = encode_insns is ++ beyond in
    let one = encode_insn_pos i in
    let left : length (encode_insns (i ∷ is)) - length (encode_insn i) ≡ length (encode_insns is) =
      omega (arith, size) in
    rw (append_assoc (encode_insn i) (encode_insns is) beyond) (
      insn_loop_step fuel (encode_insn i ++ rest) _ _ i insns (omega (arith, size, one))
        (decode_insn-encode_insn i rest (length (encode_insns (i ∷ is))) w (omega (arith, size)))
      ∙ rw left (
          insn_loop-encode_insns is fuel (insns ++ i ∷ []) beyond ws (omega (arith, size, one))
          ∙ ap (λ (l : List Insn). ok l) (append_assoc insns (i ∷ []) is)))

-- The instructions of a section are read back, all of them and in order.
pub section_insns-encode_insns :
    (is : List Insn) → All IsWritable is → section_insns (encode_insns is) ≡ ok is
unfolding section_insns
section_insns-encode_insns is w =
    let bare = append-nil (encode_insns is) in
    rw bare at (insn_loop-encode_insns is (suc (length (encode_insns is))) [] [] w (omega arith))
