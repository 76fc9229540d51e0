-- ===== src/Svndiff/Insn/RoundTrip.antt =====
-- The instruction format of svndiff documents, and `decode_insn` on it.
use mrksvnup.Base.{
  ℕ, zero, suc, ◌+◌, ◌-◌, ◌*◌, ◌/◌, ◌%◌, ◌^◌, ◌≤◌, ◌<◌, ◌≡◌, ◌≢◌, [], ◌∷◌, ◌++◌, Bytes,
  if◌then◌else◌, ltb, leb, ◌==◌, ◌&&◌, ok, length, arith, ℤ, pos, negsuc, length-append,
}
use mathlib.Core.List.{append_assoc}
use mrksvnup.Svndiff.Number.{Cursor, encode_number}
use mrksvnup.Svndiff.Number.RoundTrip.{read_number-encode_number}
use mrksvnup.Svndiff.Insn.{txdelta_new, Insn, decode_len, decode_offset, decode_insn}

-- A length or an offset that the format can hold.
abbrev pub IsLength : ℤ → Type 0
IsLength (pos n) = n < 2 ^ 63
IsLength (negsuc n) = ⊥

abbrev pub IsOffset : ℕ → ℤ → Type 0
IsOffset code z = (code ≡ txdelta_new → z ≡ negsuc 0) × (code ≢ txdelta_new → IsLength z)

-- An instruction as `decode_insn` leaves it: a new instruction has no offset.
pub record IsWritable (i : Insn) : Type 0 where
  pub code_fits : i.code < 4
  pub len_fits : IsLength i.len
  pub offset_fits : IsOffset i.code i.offset

abbrev pub magnitude : ℤ → ℕ
magnitude (pos n) = n
magnitude (negsuc n) = 0

-- A length of 1 to 63 stands in the first byte, any other behind it.
unfoldable pub encode_head : ℕ → ℕ → Bytes
encode_head code len =
    if leb 1 len && ltb len 64 then (code * 64 + len) ∷ [] else (code * 64) ∷ encode_number len

unfoldable pub encode_offset : ℕ → ℤ → Bytes
encode_offset code z = if code == txdelta_new then [] else encode_number (magnitude z)

unfoldable pub encode_insn : Insn → Bytes
encode_insn i = encode_head i.code (magnitude i.len) ++ encode_offset i.code i.offset

pub encode_insn_pos : (i : Insn) → 0 < length (encode_insn i)
unfolding encode_insn encode_head
encode_insn_pos i = ground arith

decode_offset-encode_offset :
    (code : ℕ) (z : ℤ) (rest : Bytes) (left : ℕ)
    → IsOffset code z
    → length (encode_offset code z) ≤ left
    → decode_offset code (encode_offset code z ++ rest, left)
      ≡ ok ((rest, left - length (encode_offset code z)), z)
unfolding encode_offset decode_offset
decode_offset-encode_offset code (pos n) rest left h fits =
    ground (arith, h.0, h.1, read_number-encode_number 2 n rest left)
decode_offset-encode_offset code (negsuc n) rest left h fits = ground (arith, h.0, h.1)

-- What stands behind the first byte of an instruction.
len_tail : ℕ → Bytes
len_tail len = if leb 1 len && ltb len 64 then [] else encode_number len

abbrev short_len : ℕ → ℕ
short_len len = if leb 1 len && ltb len 64 then len else 0

encode_head_lem : (code len : ℕ) → encode_head code len ≡ (code * 64 + short_len len) ∷ len_tail len
unfolding encode_head len_tail
encode_head_lem code len = ground arith

decode_len-len_tail :
    (n : ℕ) (rest : Bytes) (left : ℕ)
    → n < 2 ^ 63
    → length (len_tail n) ≤ left
    → decode_len (short_len n) (len_tail n ++ rest, left)
      ≡ ok ((rest, left - length (len_tail n)), pos n)
unfolding len_tail decode_len
decode_len-len_tail n rest left h fits = ground (arith, read_number-encode_number 1 n rest left)

decode_insn-head :
    (code low : ℕ) (tail : Bytes) (left : ℕ) (len offset : ℤ) (s1 s2 : Cursor)
    → code < 4
    → low < 64
    → decode_len low (tail, left) ≡ ok (s1, len)
    → decode_offset code s1 ≡ ok (s2, offset)
    → decode_insn ((code * 64 + low) ∷ tail, suc left)
      ≡ ok (s2, record { code = code; offset = offset; len = len })
unfolding decode_insn
decode_insn-head code low tail left len offset s1 s2 hc hl e1 e2 =
    let ec : (code * 64 + low) / 2 ^ 6 % 2 ^ 2 ≡ code = omega arith in
    let el : (code * 64 + low) % 2 ^ 6 ≡ low = omega arith in
    let ef : suc left - 1 ≡ left = omega arith in rw (ec, el, ef, e1) (rw e2)

decode_insn-parts :
    (code n : ℕ) (offset : ℤ) (rest : Bytes) (l : ℕ)
    → code < 4
    → n < 2 ^ 63
    → IsOffset code offset
    → length (len_tail n) + length (encode_offset code offset) ≤ l
    → decode_insn
        ((code * 64 + short_len n) ∷ (len_tail n ++ (encode_offset code offset ++ rest)), suc l)
      ≡ ok (
        (rest, l - length (len_tail n) - length (encode_offset code offset)),
        record { code = code; offset = offset; len = pos n },
      )
decode_insn-parts code n offset rest l hc hn ho fits =
    decode_insn-head code (short_len n) _ l (pos n) offset _ _ hc (ground arith)
      (decode_len-len_tail n (encode_offset code offset ++ rest) l hn (omega arith))
      (decode_offset-encode_offset code offset rest (l - length (len_tail n)) ho (omega arith))

encode_insn-parts :
    (code n : ℕ) (offset : ℤ) (rest : Bytes) (left : ℕ)
    → code < 4
    → n < 2 ^ 63
    → IsOffset code offset
    → length (encode_head code n ++ encode_offset code offset) ≤ left
    → decode_insn ((encode_head code n ++ encode_offset code offset) ++ rest, left)
      ≡ ok (
        (rest, left - length (encode_head code n ++ encode_offset code offset)),
        record { code = code; offset = offset; len = pos n },
      )
encode_insn-parts code n offset rest zero hc hn ho fits =
    absurd (omega (arith, rw (encode_head_lem code n, length-append) at fits))
encode_insn-parts code n offset rest (suc l) hc hn ho fits =
    let size = length-append (len_tail n) (encode_offset code offset) in
    rw (encode_head_lem code n, append_assoc (len_tail n) (encode_offset code offset) rest)
      (ground (
        arith,
        size,
        decode_insn-parts code n offset rest l hc hn ho
            (omega (arith, size, rw (encode_head_lem code n) at fits)),
      ))

-- `decode_insn` reads back every instruction that the format can hold.
pub decode_insn-encode_insn :
    (i : Insn) (rest : Bytes) (left : ℕ)
    → IsWritable i
    → length (encode_insn i) ≤ left
    → decode_insn (encode_insn i ++ rest, left) ≡ ok ((rest, left - length (encode_insn i)), i)
unfolding encode_insn
decode_insn-encode_insn i rest left w fits = by_sign i.len w.len_fits fits
  where
    by_sign :
        (len : ℤ)
        → IsLength len
        → length (encode_head i.code (magnitude len) ++ encode_offset i.code i.offset) ≤ left
        → decode_insn
            ((encode_head i.code (magnitude len) ++ encode_offset i.code i.offset) ++ rest, left)
          ≡ ok (
            (
              rest,
              left - length (encode_head i.code (magnitude len) ++ encode_offset i.code i.offset),
            ),
            record { code = i.code; offset = i.offset; len = len },
          )
    by_sign (pos n) h f =
        encode_insn-parts i.code n i.offset rest left w.code_fits h w.offset_fits f
    by_sign (negsuc n) h f = elim h [ ]
