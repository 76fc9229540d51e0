-- ===== src/Svndiff/Number/Bounds.antt =====
-- What a successful `decode_number` consumes, and when it refuses.
use mrksvnup.Base.{
  ℕ, zero, suc, ◌+◌, ◌-◌, ◌*◌, ◌%◌, ◌^◌, ◌≤◌, ◌<◌, min, ◌≡◌, ◌≢◌, refl, [], ◌∷◌, Bytes, ok, fail,
  fault, stuck, >>=-ne-stuck, on_fail-ne-stuck, >>=-eq-ok, on_fail-eq-ok, on_fail, ℤ, length, arith,
  All, take,
}
use mrksvnup.Svndiff.Number.{Cursor, number_loop, decode_number, read_number}

-- A cursor `to` stands behind `from`, by at least one byte, and both count the same distance.
pub record Advances (from to : Cursor) : Type 0 where
  pub moves : length to.0 < length from.0
  pub nearer : to.1 < from.1
  pub in_step : to.1 + length from.0 ≡ from.1 + length to.0

pub Advances-trans : (a b c : Cursor) → Advances a b → Advances b c → Advances a c
Advances-trans a b c p q = omega arith

number_loop_takes :
    (n : ℕ) (s : Bytes) (left val : ℕ) (to : Cursor) (v : ℕ)
    → n ≤ left
    → number_loop n s left val ≡ ok (to, v)
    → Advances (s, left) to × (length s ≤ length to.0 + n) × (v < 2 ^ 64)
unfolding number_loop
number_loop_takes n [] left val to v h e = cc
number_loop_takes zero (c ∷ s) left val to v h e = cc
number_loop_takes (suc n) (c ∷ s) left val to v h e =
    ground (arith, number_loop_takes n s (left - 1) (val * 2 ^ 7 % 2 ^ 64 + c % 2 ^ 7) to v)

-- A successful `decode_number` takes 1 to 10 bytes, none of them at or behind `end`, and its
-- value is a 64-bit pattern.
pub decode_number_takes :
    (from to : Cursor) (v : ℕ)
    → decode_number from ≡ ok (to, v)
    → Advances from to × (length from.0 ≤ length to.0 + 10) × (v < 2 ^ 64)
unfolding decode_number
decode_number_takes from to v e =
    ground (arith, number_loop_takes (min from.1 10) from.0 from.1 0 to v)

number_loop-eq-fail :
    (n : ℕ) (s : Bytes) (left val : ℕ)
    → n < length s
    → All (λ c. 128 ≤ c) (take n s)
    → number_loop n s left val ≡ fail 0
unfolding number_loop
number_loop-eq-fail n [] left val h a = elim h [ ]
number_loop-eq-fail zero (c ∷ s) left val h a = refl
number_loop-eq-fail (suc n) (c ∷ s) left val h a =
    ground (arith, number_loop-eq-fail n s (left - 1) (val * 2 ^ 7 % 2 ^ 64 + c % 2 ^ 7))

number_loop-ne-fault :
    (n : ℕ) (s : Bytes) (left val : ℕ) → n < length s → number_loop n s left val ≡ fault → ⊥
unfolding number_loop
number_loop-ne-fault n [] left val h = elim h [ ]
number_loop-ne-fault zero (c ∷ s) left val h = λ e. cc
number_loop-ne-fault (suc n) (c ∷ s) left val h =
    ground (arith, number_loop-ne-fault n s (left - 1) (val * 2 ^ 7 % 2 ^ 64 + c % 2 ^ 7))

number_loop-ne-stuck : (n : ℕ) (s : Bytes) (left val : ℕ) → number_loop n s left val ≢ stuck
unfolding number_loop
number_loop-ne-stuck n [] left val = λ e. cc
number_loop-ne-stuck zero (c ∷ s) left val = λ e. cc
number_loop-ne-stuck (suc n) (c ∷ s) left val =
    ground (arith, number_loop-ne-stuck n s (left - 1) (val * 2 ^ 7 % 2 ^ 64 + c % 2 ^ 7))

-- With a byte behind `end` that may be read, `decode_number` stays inside the object, and it
-- refuses a number of which every byte before `end`, up to ten, has its top bit set.
pub decode_number_refuses :
    (s : Bytes) (left : ℕ)
    → left < length s
    → (decode_number (s, left) ≢ fault)
      × (All (λ c. 128 ≤ c) (take (min left 10) s) → decode_number (s, left) ≡ fail 0)
unfolding decode_number
decode_number_refuses s left h = (
  number_loop-ne-fault (min left 10) s left 0 (omega arith),
  number_loop-eq-fail (min left 10) s left 0 (omega arith),
)

pub decode_number-ne-stuck : (from : Cursor) → decode_number from ≢ stuck
unfolding decode_number
decode_number-ne-stuck from = number_loop-ne-stuck (min from.1 10) from.0 from.1 0

pub read_number-ne-stuck : (k : ℕ) (from : Cursor) → read_number k from ≢ stuck
unfolding read_number
read_number-ne-stuck k from =
    >>=-ne-stuck (on_fail k (decode_number from)) _
      (on_fail-ne-stuck k _ (decode_number-ne-stuck from)) λ _ _ e. cc

pub read_number-Advances :
    (k : ℕ) (from to : Cursor) (z : ℤ) → read_number k from ≡ ok (to, z) → Advances from to
unfolding read_number
read_number-Advances k from to z e =
    let ((to', v), read, rest) = >>=-eq-ok (on_fail k (decode_number from)) _ e in
    ground (arith, decode_number_takes from to' v (on_fail-eq-ok k _ read))
