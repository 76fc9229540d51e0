-- ===== src/Svndiff/Section/RoundTrip.antt =====
-- The section format of svndiff documents, and `decode_bytes` on it.
use mrksvnup.Base.{
  ℕ, ◌+◌, ◌-◌, ◌%◌, ◌^◌, ◌≤◌, ◌<◌, ◌≡◌, ◌≢◌, ◌⊎◌, ap, ◌∙◌, ◌++◌, Bytes, inl, inr, ok, stuck,
  >>=-ne-stuck, on_fail-ne-stuck, length, arith, on_fail, some, length-append, >>=-eq-ok,
  on_fail-eq-ok, take-length-append, drop-length-append, length-drop,
}
use mathlib.Core.List.{append_assoc}
use mrksvnup.Svndiff.Number.{Cursor, decode_number, encode_number}
use mrksvnup.Svndiff.Number.RoundTrip.{decode_number-encode_number}
use mrksvnup.Svndiff.Number.Bounds.{decode_number_takes, decode_number-ne-stuck}
use mrksvnup.Svndiff.Section.{Uncompress, section_body, decode_bytes}

-- `packed` stands for the bytes `b`: it is `b` itself, or a compressed form of another length.
abbrev pub Packs : Uncompress → Bytes → Bytes → Type 0
Packs uncompress b packed =
    (packed ≡ b) ⊎ ((length packed ≢ length b) × (uncompress packed (length b) ≡ some b))

-- A section: the original length, and the packed bytes.
abbrev pub encode_section : Bytes → Bytes → Bytes
encode_section b packed = encode_number (length b) ++ packed

section_body-packed :
    (uncompress : Uncompress) (b packed rest : Bytes) (left : ℕ)
    → Packs uncompress b packed
    → length b < 2 ^ 63
    → section_body uncompress (length b) (length packed) (packed ++ rest, left)
      ≡ ok ((rest, left - length packed), b)
unfolding section_body
section_body-packed uncompress b packed rest left (inl same) h = ground (
  arith,
  same,
  length-append packed rest,
  take-length-append packed rest,
  drop-length-append packed rest,
)
section_body-packed uncompress b packed rest left (inr (other, unpacks)) h = ground (
  arith,
  other,
  unpacks,
  length-append packed rest,
  take-length-append packed rest,
  drop-length-append packed rest,
)

decode_bytes_step :
    (uncompress : Uncompress) (encoded_len : ℕ) (from to : Cursor) (v used : ℕ)
    → decode_number from ≡ ok (to, v)
    → length from.0 - length to.0 ≡ used
    → decode_bytes uncompress encoded_len from
      ≡ section_body uncompress v ((encoded_len + 2 ^ 64 - used) % 2 ^ 64) to
unfolding decode_bytes
decode_bytes_step uncompress encoded_len from to v used e d = rw (e, d)

-- `decode_bytes` reads back a section, stored or compressed, given its encoded length.
pub decode_bytes-encode_section :
    (uncompress : Uncompress) (b packed rest : Bytes) (left : ℕ)
    → Packs uncompress b packed
    → length b < 2 ^ 63
    → length (encode_section b packed) < 2 ^ 63
    → length (encode_section b packed) ≤ left
    → decode_bytes uncompress
        (length (encode_section b packed))
        (encode_section b packed ++ rest, left)
      ≡ ok ((rest, left - length (encode_section b packed)), b)
decode_bytes-encode_section uncompress b packed rest left p hb hs fits =
    let n = encode_number (length b) in
    let size = length-append n packed in
    let used : length (n ++ (packed ++ rest)) - length (packed ++ rest) ≡ length n =
      omega (arith, length-append n (packed ++ rest)) in
    let encoded : (length (n ++ packed) + 2 ^ 64 - length n) % 2 ^ 64 ≡ length packed =
      omega (arith, size) in
    rw (append_assoc n packed rest) (
      decode_bytes_step uncompress (length (n ++ packed)) (n ++ (packed ++ rest), left) _ _ _
        (decode_number-encode_number (length b) (packed ++ rest) left (omega arith)
          (omega (arith, size)))
        used
      ∙ rw encoded (
          section_body-packed uncompress b packed rest (left - length n) p hb
          ∙ ap (λ (l : ℕ). ok ((rest, l), b)) (omega (arith, size))))

section_body-shrinks :
    (uncompress : Uncompress) (sz encoded : ℕ) (from to : Cursor) (b : Bytes)
    → section_body uncompress sz encoded from ≡ ok (to, b)
    → (length to.0 ≤ length from.0) × (to.1 ≤ from.1)
unfolding section_body
section_body-shrinks uncompress sz encoded from to b e = ground (arith, length-drop encoded from.0)

-- A successful `decode_bytes` moves the cursor on; the section may reach behind `end`.
pub decode_bytes_moves :
    (uncompress : Uncompress) (encoded_len : ℕ) (from to : Cursor) (b : Bytes)
    → decode_bytes uncompress encoded_len from ≡ ok (to, b)
    → (length to.0 < length from.0) × (to.1 < from.1)
unfolding decode_bytes
decode_bytes_moves uncompress encoded_len from to b e =
    let ((mid, orig), read, body) = >>=-eq-ok (on_fail 1 (decode_number from)) _ e in
    omega (
      arith,
      decode_number_takes from mid orig (on_fail-eq-ok 1 _ read),
      section_body-shrinks uncompress orig _ mid to b body,
    )

section_body-ne-stuck :
    (uncompress : Uncompress) (sz encoded : ℕ) (from : Cursor)
    → section_body uncompress sz encoded from ≢ stuck
unfolding section_body
section_body-ne-stuck uncompress sz encoded from = ground arith

pub decode_bytes-ne-stuck :
    (uncompress : Uncompress) (encoded_len : ℕ) (from : Cursor)
    → decode_bytes uncompress encoded_len from ≢ stuck
unfolding decode_bytes
decode_bytes-ne-stuck uncompress encoded_len from =
    >>=-ne-stuck (on_fail 1 (decode_number from)) _
      (on_fail-ne-stuck 1 _ (decode_number-ne-stuck from))
      λ (to, v) _. section_body-ne-stuck uncompress v _ to
