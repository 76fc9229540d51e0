-- ===== src/Http/Url.antt =====
-- `http_urlencode_reserved` and `http_urldecode` of src/http.c.
pub mod RoundTrip
use mrksvnup.Base.{
  within, ℕ, zero, suc, ◌+◌, ◌-◌, ◌*◌, ◌/◌, ◌%◌, Bool, true, false, ◌&&◌, ◌||◌, leb, ltb, ◌==◌,
  if◌then◌else◌, [], ◌∷◌, Bytes, Option, none, some, Outcome, ok, fail, stuck, ◌^◌, length,
}

-- `charflags[c] & RFC3986_UNRESERVED`: the entries 4 of the table.
unfoldable pub is_unreserved : ℕ → Bool
is_unreserved c =
    c == b'-' || c == b'.' || within b'A' b'Z' c || c == b'_' || within b'a' b'z' c || c == b'~'

unfoldable pub hex_digit : ℕ → ℕ
hex_digit cc = if ltb cc 10 then b'0' + cc else b'A' + (cc - 10)

abbrev pub write : ℕ → ℕ → (ℕ → ℕ) → ℕ → ℕ
write dst c mem i = if i == dst then c else mem i

-- `*(res + j++) = c`, with an `unsigned int` for `j`.
abbrev pub put_char : ℕ → (ℕ → ℕ) × ℕ → (ℕ → ℕ) × ℕ
put_char c (res, j) = (write j c res, suc j % 2 ^ 32)

-- One character, and the loop over the string.
unfoldable pub encode_char : ℕ → (ℕ → ℕ) × ℕ → (ℕ → ℕ) × ℕ
unfolding is_unreserved hex_digit
encode_char c at_j =
    if is_unreserved c
    then put_char c at_j
    else put_char (hex_digit (c % 16)) (put_char (hex_digit (c / 16)) (put_char b'%' at_j))

unfoldable pub encode_loop : Bytes → (ℕ → ℕ) × ℕ → (ℕ → ℕ) × ℕ
unfolding encode_char
encode_loop [] at_j = at_j
encode_loop (c ∷ s) at_j = encode_loop s (encode_char c at_j)

-- `http_urlencode_reserved`, with the bytes that `malloc` has left in `res`, and with FAIL for a
-- `malloc` without memory left out. A string whose size `i`, an `unsigned int`, never reaches is read
-- for ever.
unfoldable pub http_urlencode_reserved : (ℕ → ℕ) → Bytes → Outcome (ℕ → ℕ)
unfolding encode_loop
http_urlencode_reserved res s =
    let (res', j) = encode_loop s (res, 0) in
    if ltb (length s) (2 ^ 32) then ok (write j 0 res') else stuck

-- What `http_urldecode` takes for a hexadecimal digit.
unfoldable pub hex_value : ℕ → Option ℕ
hex_value c =
    if within b'0' b'9' c
    then some (c - b'0')
    else if within b'a' b'f' c
    then some (c - b'a' + 10)
    else if within b'A' b'F' c
    then some (c - b'A' + 10)
    else none

-- The loop, on fuel; the string at `src` is decoded in place, to `dst`. The result is the buffer and
-- the returned pointer; `fail 1` is NULL.
unfoldable pub decode_loop : ℕ → (ℕ → ℕ) → ℕ → ℕ → Outcome ((ℕ → ℕ) × ℕ)
unfolding hex_value
decode_loop zero mem src dst = stuck
decode_loop (suc fuel) mem src dst = elim (mem src == 0) [
  | true ↦ ok (mem, dst)
  | false ↦ elim (mem src == b'%') [
    | true ↦ elim (hex_value (mem (suc src))) [
      | none ↦ fail 1
      | some h ↦
          let high = write dst (h * 16) mem in
          elim (hex_value (high (suc (suc src)))) [
            | none ↦ fail 1
            | some l ↦
                decode_loop fuel (write dst (high dst + l) high) (suc (suc (suc src))) (suc dst)
          ]
    ]
    | false ↦ decode_loop fuel (write dst (mem src) mem) (suc src) (suc dst)
  ]
]

-- `http_urldecode`, on the string at `s` with its NUL within the next `size` places.
unfoldable pub http_urldecode : ℕ → (ℕ → ℕ) → ℕ → Outcome ((ℕ → ℕ) × ℕ)
unfolding decode_loop
http_urldecode size mem s = decode_loop size mem s s
