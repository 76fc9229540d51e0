-- ===== src/Svndiff/Number/RoundTrip.antt =====
-- `decode_number` on the number format, with any bytes behind it.
use mrksvnup.Base.{
  ℕ, zero, suc, ◌+◌, ◌-◌, ◌*◌, ◌/◌, ◌%◌, ◌^◌, ◌≤◌, ◌<◌, min, ◌≡◌, refl, ap, ◌∙◌, [], ◌∷◌, ◌++◌,
  Bytes, if◌then◌else◌, ltb, Bool-cases, inl, inr, ok, length, arith, ℤ, pos, to_long_pos,
}
use mrksvnup.Svndiff.Number.{number_loop, decode_number, high_bytes, encode_number, read_number}

-- How many bytes `high_bytes` writes.
high_count : ℕ → ℕ → ℕ
high_count zero v = 1
high_count (suc k) v = let more = suc (high_count k (v / 128)) in if ltb v 128 then 1 else more

high_count-le : (k v : ℕ) → high_count k v ≤ k + 1
unfolding high_count
high_count-le zero v = omega arith
high_count-le (suc k) v = ground (arith, high_count-le k (v / 128))

length-high_bytes :
    (k v : ℕ) (tail : Bytes) → length (high_bytes k v tail) ≡ high_count k v + length tail
unfolding high_count high_bytes
length-high_bytes zero v tail = omega arith
length-high_bytes (suc k) v tail =
    ground (arith, length-high_bytes k (v / 128) ((v % 128 + 128) ∷ tail))

high_bytes-append :
    (k v : ℕ) (tail rest : Bytes) → high_bytes k v tail ++ rest ≡ high_bytes k v (tail ++ rest)
unfolding high_bytes
high_bytes-append zero v tail rest = refl
high_bytes-append (suc k) v tail rest =
    ground (arith, high_bytes-append k (v / 128) ((v % 128 + 128) ∷ tail) rest)

-- One continued byte carries the loop on.
number_loop_more :
    (n d : ℕ) (s : Bytes) (left val : ℕ)
    → d < 128
    → val * 128 + d < 2 ^ 64
    → number_loop (suc n) ((d + 128) ∷ s) (suc left) val ≡ number_loop n s left (val * 128 + d)
unfolding number_loop
number_loop_more n d s left val hd fits = ground arith

-- A byte below 128 ends the number.
number_loop_last :
    (n d : ℕ) (s : Bytes) (left val : ℕ)
    → d < 128
    → val * 128 + d < 2 ^ 64
    → number_loop (suc n) (d ∷ s) (suc left) val ≡ ok ((s, left), val * 128 + d)
unfolding number_loop
number_loop_last n d s left val hd fits = ground arith

number_loop-high_bytes :
    (k v n : ℕ) (tail : Bytes) (left : ℕ)
    → v < 128 ^ suc k
    → v < 2 ^ 64
    → number_loop (high_count k v + n) (high_bytes k v tail) (high_count k v + left) 0
      ≡ number_loop n tail left v
unfolding high_count high_bytes
number_loop-high_bytes zero v n tail left h fits = ground (arith, number_loop_more n v tail left 0)
number_loop-high_bytes (suc k) v n tail left h fits = ground (
  arith,
  number_loop_more n v tail left 0,
  number_loop_more n (v % 128) tail left (v / 128),
  number_loop-high_bytes k (v / 128) (suc n) ((v % 128 + 128) ∷ tail) (suc left),
)

-- The bytes of a number are 1 to 10.
pub length-encode_number :
    (v : ℕ) → (1 ≤ length (encode_number v)) × (length (encode_number v) ≤ 10)
unfolding encode_number
length-encode_number v =
    ground (arith, length-high_bytes 8 (v / 128) (v % 128 ∷ []), high_count-le 8 (v / 128))

long_number :
    (v n : ℕ) (rest : Bytes) (left : ℕ)
    → v < 2 ^ 64
    → number_loop
        (high_count 8 (v / 128) + suc n)
        (high_bytes 8 (v / 128) (v % 128 ∷ rest))
        (high_count 8 (v / 128) + suc left)
        0
      ≡ ok ((rest, left), v)
long_number v n rest left h =
    number_loop-high_bytes 8 (v / 128) (suc n) (v % 128 ∷ rest) (suc left) (omega arith)
      (omega arith)
    ∙ number_loop_last n (v % 128) rest left (v / 128) (omega arith) (omega arith)
    ∙ ap (λ (t : ℕ). ok ((rest, left), t)) (omega arith)

short_number :
    (v : ℕ) (rest : Bytes) (left : ℕ)
    → v < 128
    → 1 ≤ left
    → number_loop (min left 10) (v ∷ rest) left 0 ≡ ok ((rest, left - 1), v)
unfolding number_loop
short_number v rest left h fits =
    ground (arith, number_loop_last (min left 10 - 1) v rest (left - 1) 0)

-- `decode_number` reads back every number that fits 64 bits, whatever follows it, and leaves the
-- cursor behind its last byte, when `end` is not before that.
pub decode_number-encode_number :
    (v : ℕ) (rest : Bytes) (left : ℕ)
    → v < 2 ^ 64
    → length (encode_number v) ≤ left
    → decode_number (encode_number v ++ rest, left)
      ≡ ok ((rest, left - length (encode_number v)), v)
unfolding encode_number decode_number
decode_number-encode_number v rest left h fits = elim (Bool-cases (ltb v 128)) [
  | inl small ↦ rw small (ground (arith, short_number v rest left))
  | inr large ↦ ground (
    arith,
    length-high_bytes 8 (v / 128) (v % 128 ∷ []),
    high_count-le 8 (v / 128),
    high_bytes-append 8 (v / 128) (v % 128 ∷ []) rest,
    long_number v (min left 10 - high_count 8 (v / 128) - 1) rest
        (left - high_count 8 (v / 128) - 1),
  )
]

-- The same into a `long` field.
pub read_number-encode_number :
    (k v : ℕ) (rest : Bytes) (left : ℕ)
    → v < 2 ^ 63
    → length (encode_number v) ≤ left
    → read_number k (encode_number v ++ rest, left)
      ≡ ok ((rest, left - length (encode_number v)), pos v)
unfolding read_number
read_number-encode_number k v rest left h fits =
    rw (decode_number-encode_number v rest left (omega arith) fits)
      (ap (λ (z : ℤ). ok ((rest, left - length (encode_number v)), z)) (to_long_pos v h))
