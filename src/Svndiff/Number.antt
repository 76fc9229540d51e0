-- ===== src/Svndiff/Number.antt =====
-- `decode_number` of src/svndiff.c, and the number format of svndiff documents.
pub mod RoundTrip
pub mod Bounds
use mrksvnup.Base.{
  ℕ, zero, suc, ◌+◌, ◌-◌, ◌*◌, ◌/◌, ◌%◌, ◌^◌, min, List, [], ◌∷◌, Bytes, if◌then◌else◌, ltb,
  Outcome, ok, fail, fault, ◌>>=◌, on_fail, ℤ, to_long,
}

-- The pair of pointers (start, end): the bytes from `start` to the end of the object that it
-- points into, and how many of them lie before `end` (0 once `start` has passed `end`).
abbrev pub Cursor : Type 0
Cursor = Bytes × ℕ

abbrev pub max_encoded_int_len : ℕ
max_encoded_int_len = 10

-- The `for` loop. The first argument is `end - start` for the local `end`. The byte at `start`
-- is read before the test `start < end`. The value is the bit pattern of the `long`; a shifted
-- value has its low seven bits clear, so that `|` is a sum.
pub number_loop : ℕ → Bytes → ℕ → ℕ → Outcome (Cursor × ℕ)
number_loop n [] left val = fault
number_loop zero (c ∷ s) left val = fail 0
number_loop (suc n) (c ∷ s) left val =
    let val' = val * 2 ^ 7 % 2 ^ 64 + c % 2 ^ 7 in
    let more = number_loop n s (left - 1) val' in
    if ltb c 0x80 then ok ((s, left - 1), val') else more

unfoldable pub decode_number : Cursor → Outcome (Cursor × ℕ)
unfolding number_loop
decode_number (s, left) = number_loop (min left max_encoded_int_len) s left 0

-- `decode_number` into a `long` field, with the caller's own error number.
unfoldable pub read_number : ℕ → Cursor → Outcome (Cursor × ℤ)
read_number k from = do (to, v) ← on_fail k (decode_number from); ok (to, to_long v)

-- The continued bytes of the number format for `v`, most significant first, in front of `tail`.
unfoldable pub high_bytes : ℕ → ℕ → Bytes → Bytes
high_bytes zero v tail = (v % 128 + 128) ∷ tail
high_bytes (suc k) v tail =
    let more = high_bytes k (v / 128) ((v % 128 + 128) ∷ tail) in
    if ltb v 128 then (v + 128) ∷ tail else more

-- The number format: seven bits a byte, most significant first, the top bit set on every byte
-- but the last. Nine continued bytes hold any 63-bit value.
unfoldable pub encode_number : ℕ → Bytes
encode_number v = if ltb v 128 then v ∷ [] else high_bytes 8 (v / 128) (v % 128 ∷ [])
