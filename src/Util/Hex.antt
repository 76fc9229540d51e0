-- ===== src/Util/Hex.antt =====
-- `bin2hex` and `all_spaces` of src/svnc_util.c. The array that `bin2hex` fills is its result.
use mrksvnup.Base.{
  ℕ, ◌+◌, ◌-◌, ◌*◌, ◌/◌, ◌%◌, ◌<◌, ◌≡◌, refl, ap, Bool, true, false, ◌||◌, ◌==◌, if◌then◌else◌, ltb,
  [], ◌∷◌, Bytes, IsByte, All, length, Option, none, some, arith,
}
use mrksvnup.Http.Url.{hex_value}

unfoldable pub all_spaces : Bytes → Bool
all_spaces [] = true
all_spaces (c ∷ s) =
    let rest = all_spaces s in if c == 10 || c == b' ' || c == 9 || c == 13 then rest else false

-- A digit, from the high or the low half of a byte.
unfoldable pub half_digit : ℕ → ℕ
half_digit cc = if ltb cc 10 then b'0' + cc else b'a' + cc - 10

unfoldable pub bin2hex : Bytes → Bytes
bin2hex [] = []
bin2hex (c ∷ bin) = half_digit (c / 16) ∷ half_digit (c % 16) ∷ bin2hex bin

-- What two digits for each byte stand for, where all are hexadecimal digits.
unfoldable pub hex2bin : Bytes → Option Bytes
hex2bin [] = some []
hex2bin (c ∷ []) = none
hex2bin (c ∷ d ∷ hex) =
    let rest = hex2bin hex in
    elim (hex_value c) [
      | none ↦ none
      | some h ↦ elim (hex_value d) [
        | none ↦ none
        | some l ↦ elim rest [ none ↦ none | some bin ↦ some ((h * 16 + l) ∷ bin) ]
      ]
    ]

half_digit-hex_value : (cc : ℕ) → cc < 16 → hex_value (half_digit cc) ≡ some cc
unfolding half_digit hex_value
half_digit-hex_value cc low = ground arith

-- The two digits that `bin2hex` writes for each byte are hexadecimal, and stand for the byte: two
-- digits for each byte in order, and nothing else, and they are read back as the bytes.
pub bin2hex-hex2bin :
    (bin : Bytes)
    → All IsByte bin
    → (hex2bin (bin2hex bin) ≡ some bin) × (length (bin2hex bin) ≡ 2 * length bin)
unfolding bin2hex hex2bin
bin2hex-hex2bin [] bytes = (refl, refl)
bin2hex-hex2bin (c ∷ bin) (byte, bytes) =
    let (ih, len) = bin2hex-hex2bin bin bytes in
    let high = half_digit-hex_value (c / 16) (omega arith) in
    let low = half_digit-hex_value (c % 16) (omega arith) in
    (rw (high, low, ih, hex2bin) (ap (λ x. some (x ∷ bin)) (omega arith)), omega arith)
