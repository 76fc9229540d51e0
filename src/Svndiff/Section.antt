-- ===== src/Svndiff/Section.antt =====
-- `decode_bytes` of src/svndiff.c: a section of a window, stored or compressed.
pub mod RoundTrip
use mrksvnup.Base.{
  ℕ, ◌+◌, ◌-◌, ◌%◌, ◌^◌, Bytes, if◌then◌else◌, ltb, leb, ◌||◌, ◌==◌, Option, none, some, Outcome,
  ok, fail, fault, ◌>>=◌, on_fail, length, take, drop,
}
use mrksvnup.Svndiff.Number.{Cursor, decode_number}

-- zlib's `uncompress`: the compressed bytes and the room for the result; `none` is an error.
abbrev pub Uncompress : Type 0
Uncompress = Bytes → ℕ → Option Bytes

-- `uncompress` into a buffer of `sz` bytes.
inflate : Uncompress → Bytes → ℕ → Outcome Bytes
inflate uncompress stored sz = elim (uncompress stored sz) [ none ↦ fail 2 | some b ↦ ok b ]

-- The section behind its original length. `encoded` is `encoded_len` less the bytes of that
-- number, in `size_t`; it wraps where the number is longer. A section that reaches behind the object,
-- as a wrapped one does, is a fault: `memcpy` or `uncompress` is then called with a length that its
-- source does not have, and what they do is left open. So is an original length above 2 ^ 63, which no
-- allocation serves. The bytes before `end` are not counted here.
section_body : Uncompress → ℕ → ℕ → Cursor → Outcome (Cursor × Bytes)
unfolding inflate
section_body uncompress sz encoded (s, left) =
    if ltb (length s) encoded || leb (2 ^ 63) sz then fault else (do
      b ← if encoded == sz then ok (take sz s) else inflate uncompress (take encoded s) sz
      ok ((drop encoded s, left - encoded), b))

pub decode_bytes : Uncompress → ℕ → Cursor → Outcome (Cursor × Bytes)
decode_bytes uncompress encoded_len from = do
  (to, orig_len) ← on_fail 1 (decode_number from)
  let used = length from.0 - length to.0
  section_body uncompress orig_len ((encoded_len + 2 ^ 64 - used) % 2 ^ 64) to
