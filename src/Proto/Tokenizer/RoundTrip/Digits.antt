-- ===== src/Proto/Tokenizer/RoundTrip/Digits.antt =====
-- Decimal numbers, and bytes in a buffer.
use mrksvnup.Base.{
  ℕ, zero, suc, ◌+◌, ◌-◌, ◌*◌, ◌/◌, ◌%◌, ◌^◌, ◌≤◌, ◌<◌, ◌≡◌, refl, ap, ltb, if◌then◌else◌, [], ◌∷◌,
  Bytes, length, arith, All,
}
use mrksvnup.Base.Buffers.{Holds}
use mrksvnup.Proto.Tokenizer.{is_digit, digits_value}

abbrev pub IsDigit : ℕ → Type 0
IsDigit c = (b'0' ≤ c) × (c ≤ b'9')

-- What a run of digits stands for, behind the value `acc`.
unfoldable pub value : Bytes → ℕ → ℕ
value [] acc = acc
value (c ∷ cs) acc = value cs (acc * 10 + (c - b'0'))

-- The digits of `n`, in front of `tail`: up to `k + 1` of them.
unfoldable pub decimal : ℕ → ℕ → Bytes → Bytes
decimal zero n tail = (n % 10 + b'0') ∷ tail
decimal (suc k) n tail =
    let more = decimal k (n / 10) ((n % 10 + b'0') ∷ tail) in
    if ltb n 10 then (n + b'0') ∷ tail else more

-- A number in decimal, without leading zeros, as `printf` writes it: nineteen digits are enough
-- for a `long`.
unfoldable pub decimal_text : ℕ → Bytes
unfolding decimal
decimal_text n = decimal 18 n []

pub decimal-value :
    (k n : ℕ) (tail : Bytes) → n < 10 ^ suc k → value (decimal k n tail) 0 ≡ value tail n
unfolding value decimal
decimal-value zero n tail low = ap (value tail) (omega arith)
decimal-value (suc k) n tail low =
    let high : n / 10 < 10 ^ suc k = omega arith in
    ground (arith, decimal-value k (n / 10) ((n % 10 + b'0') ∷ tail) high)

pub decimal-All : (k n : ℕ) (tail : Bytes) → All IsDigit tail → All IsDigit (decimal k n tail)
unfolding decimal
decimal-All zero n tail rest = ((omega arith), rest)
decimal-All (suc k) n tail rest =
    let more = decimal-All k (n / 10) ((n % 10 + b'0') ∷ tail) (omega arith, rest) in ground arith

pub length-decimal_pos : (k n : ℕ) (tail : Bytes) → 0 < length (decimal k n tail)
unfolding decimal
length-decimal_pos zero n tail = omega arith
length-decimal_pos (suc k) n tail =
    ground (arith, length-decimal_pos k (n / 10) ((n % 10 + b'0') ∷ tail))

pub digits_value-Holds :
    (bytes : ℕ → ℕ) (p : ℕ) (ds : Bytes) (acc : ℕ)
    → Holds bytes p ds
    → All IsDigit ds
    → digits_value bytes (length ds) p acc ≡ value ds acc
unfolding Holds value digits_value is_digit
digits_value-Holds bytes p [] acc h all = refl
digits_value-Holds bytes p (d ∷ ds) acc (here, there) (digit, digits) =
    ground (arith, digits_value-Holds bytes (suc p) ds (acc * 10 + (d - b'0')) there digits)

-- The facts about `decimal_text` that reading it back takes.
pub decimal_text-value : (n : ℕ) → n < 2 ^ 63 → value (decimal_text n) 0 ≡ n
unfolding decimal_text value
decimal_text-value n fits = decimal-value 18 n [] (omega arith)

pub decimal_text-All : (n : ℕ) → All IsDigit (decimal_text n)
unfolding decimal_text
decimal_text-All n = decimal-All 18 n [] tt

pub length-decimal_text_pos : (n : ℕ) → 0 < length (decimal_text n)
unfolding decimal_text
length-decimal_text_pos n = length-decimal_pos 18 n []

length-decimal-le : (k n : ℕ) (tail : Bytes) → length (decimal k n tail) ≤ suc k + length tail
unfolding decimal
length-decimal-le zero n tail = omega arith
length-decimal-le (suc k) n tail =
    ground (arith, length-decimal-le k (n / 10) ((n % 10 + b'0') ∷ tail))

pub length-decimal_text-le : (n : ℕ) → length (decimal_text n) ≤ 19
unfolding decimal_text
length-decimal_text-le n = omega (arith, length-decimal-le 18 n [])
