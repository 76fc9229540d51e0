-- ===== src/Http/Url/RoundTrip.antt =====
-- `http_urldecode`, in place, on what `http_urlencode_reserved` makes.
use mrksvnup.Base.{
  ℕ, zero, suc, ◌+◌, ◌*◌, ◌/◌, ◌%◌, ◌-◌, ◌^◌, ltb, ◌≤◌, ◌<◌, ◌≡◌, inl, inr, refl, sym, subst, ap,
  Bool, length-append, ◌∙◌, true, false, if◌then◌else◌, [], ◌∷◌, ◌++◌, Bytes, length, arith, All,
  IsByte, Bool-cases, some, ok,
}
use mrksvnup.Base.Buffers.{Holds, Holds-written_before}
use mrksvnup.Http.Url.{
  is_unreserved, hex_digit, write, put_char, encode_char, encode_loop, http_urlencode_reserved,
  hex_value, decode_loop, http_urldecode,
}

-- A string with each byte that is not unreserved as `%` and two digits.
unfoldable pub percent_text : Bytes → Bytes
unfolding is_unreserved hex_digit
percent_text [] = []
percent_text (c ∷ s) =
    let rest = percent_text s in
    if is_unreserved c then c ∷ rest else b'%' ∷ hex_digit (c / 16) ∷ hex_digit (c % 16) ∷ rest

hex_value-hex_digit : (n : ℕ) → n < 16 → hex_value (hex_digit n) ≡ some n
unfolding hex_value hex_digit
hex_value-hex_digit n low = ground arith

-- A byte that stands for itself.
plain-step :
    (fuel : ℕ) (mem : ℕ → ℕ) (src dst : ℕ)
    → is_unreserved (mem src) ≡ true
    → decode_loop (suc fuel) mem src dst
      ≡ decode_loop fuel (write dst (mem src) mem) (suc src) (suc dst)
unfolding is_unreserved decode_loop
plain-step fuel mem src dst plain = ground arith

-- An escaped byte; the place of decoding is not ahead of the place of reading.
escape-step :
    (fuel : ℕ) (mem : ℕ → ℕ) (c src dst : ℕ)
    → c < 256
    → dst ≤ src
    → mem src ≡ b'%'
    → mem (suc src) ≡ hex_digit (c / 16)
    → mem (suc (suc src)) ≡ hex_digit (c % 16)
    → decode_loop (suc fuel) mem src dst
      ≡ decode_loop fuel (write dst c (write dst (c / 16 * 16) mem)) (suc (suc (suc src))) (suc dst)
unfolding decode_loop
escape-step fuel mem c src dst byte behind escape high low =
    let first = write dst (c / 16 * 16) mem in
    let far : first (suc (suc src)) ≡ mem (suc (suc src)) = ground arith in
    let whole : first dst + c % 16 ≡ c = ground arith in
    let h : hex_value (mem (suc src)) ≡ some (c / 16) =
      ap hex_value high ∙ hex_value-hex_digit (c / 16) (omega arith) in
    let l : hex_value (first (suc (suc src))) ≡ some (c % 16) =
      ap hex_value (far ∙ low) ∙ hex_value-hex_digit (c % 16) (omega arith) in
    ground (arith, h, l, whole)

encode-nil : (mem : ℕ → ℕ) (src : ℕ) → Holds mem src (percent_text [] ++ 0 ∷ []) → mem src ≡ 0
unfolding Holds percent_text
encode-nil mem src holds = holds.0

encode-plain :
    (c : ℕ) (s : Bytes) → is_unreserved c ≡ true → percent_text (c ∷ s) ≡ c ∷ percent_text s
unfolding percent_text
encode-plain c s plain =
    ap
      (λ b.
        if b
        then c ∷ percent_text s
        else b'%' ∷ hex_digit (c / 16) ∷ hex_digit (c % 16) ∷ percent_text s)
      plain

encode-escape :
    (c : ℕ) (s : Bytes)
    → is_unreserved c ≡ false
    → percent_text (c ∷ s) ≡ b'%' ∷ hex_digit (c / 16) ∷ hex_digit (c % 16) ∷ percent_text s
unfolding percent_text
encode-escape c s plain =
    ap
      (λ b.
        if b
        then c ∷ percent_text s
        else b'%' ∷ hex_digit (c / 16) ∷ hex_digit (c % 16) ∷ percent_text s)
      plain

-- The loop ends with the bytes of `bs` from `dst` on, and the places before `dst` as they were.
Decodes : ℕ → (ℕ → ℕ) → ℕ → ℕ → Bytes → Type 0
unfolding Holds
Decodes fuel mem src dst bs =
    (mem' : ℕ → ℕ) × (decode_loop fuel mem src dst ≡ ok (mem', dst + length bs))
    × Holds mem' dst bs
    × ((i : ℕ) → i < dst → mem' i ≡ mem i)

Decodes-nil :
    (fuel : ℕ) (mem : ℕ → ℕ) (src dst : ℕ) → mem src ≡ 0 → Decodes (suc fuel) mem src dst []
unfolding Decodes Holds decode_loop
Decodes-nil fuel mem src dst ends = (mem, ground arith, tt, λ i low. refl)

-- A round that leaves `c` at `dst` and the places before as they were.
Decodes-cons :
    (fuel : ℕ) (mem mem' : ℕ → ℕ) (src src' dst c : ℕ) (bs : Bytes)
    → decode_loop (suc fuel) mem src dst ≡ decode_loop fuel mem' src' (suc dst)
    → mem' dst ≡ c
    → ((i : ℕ) → i < dst → mem' i ≡ mem i)
    → Decodes fuel mem' src' (suc dst) bs
    → Decodes (suc fuel) mem src dst (c ∷ bs)
unfolding Decodes Holds
Decodes-cons fuel mem mem' src src' dst c bs step at same (last, ends, holds, kept) = (
  last,
  step ∙ ends ∙ ap (λ p. ok (last, p)) (omega arith),
  (kept dst (omega arith) ∙ at, holds),
  λ i low. kept i (omega arith) ∙ same i low,
)

write-at : (dst c : ℕ) (mem : ℕ → ℕ) → write dst c mem dst ≡ c
write-at dst c mem = ground arith

write-before : (dst c : ℕ) (mem : ℕ → ℕ) (i : ℕ) → i < dst → write dst c mem i ≡ mem i
write-before dst c mem i low = ground arith

encoded-Decodes :
    (bs : Bytes) (fuel : ℕ) (mem : ℕ → ℕ) (src dst : ℕ)
    → dst ≤ src
    → All IsByte bs
    → Holds mem src (percent_text bs ++ 0 ∷ [])
    → length (percent_text bs) < fuel
    → Decodes fuel mem src dst bs
unfolding Holds
encoded-Decodes bs zero mem src dst behind bytes holds enough = absurd (omega arith)
encoded-Decodes [] (suc fuel) mem src dst behind bytes holds enough =
    Decodes-nil fuel mem src dst (encode-nil mem src holds)
encoded-Decodes (c ∷ s) (suc fuel) mem src dst behind (byte, bytes) holds enough =
    let loop = encoded-Decodes s fuel in
    elim (Bool-cases (is_unreserved c)) [
      | inl plain ↦
          let e = encode-plain c s plain in
          let (here, there) = subst (λ e. Holds mem src (e ++ 0 ∷ [])) e holds in
          let n : length (c ∷ percent_text s) < suc fuel =
            subst (λ e. length e < suc fuel) e enough in
          let out = write dst (mem src) mem in
          Decodes-cons fuel mem out src (suc src) dst c s
            (plain-step fuel mem src dst (ap is_unreserved here ∙ plain))
            (write-at dst (mem src) mem ∙ here) (write-before dst (mem src) mem)
            (loop out (suc src) (suc dst) (omega arith) bytes
              (Holds-written_before mem (mem src) dst (suc src) _ (omega arith) there)
              (omega arith))
      | inr escape ↦
          let e = encode-escape c s escape in
          let (one, (two, (three, there))) = subst (λ e. Holds mem src (e ++ 0 ∷ [])) e holds in
          let n : length (b'%' ∷ b'%' ∷ b'%' ∷ percent_text s) < suc fuel =
            subst (λ e. length e < suc fuel) e enough in
          let first = write dst (c / 16 * 16) mem in
          let after = suc (suc (suc src)) in
          Decodes-cons fuel mem (write dst c first) src after dst c s
            (escape-step fuel mem c src dst byte behind one two three) (write-at dst c first)
            (λ i low. write-before dst c first i low ∙ write-before dst (c / 16 * 16) mem i low)
            (loop (write dst c first) after (suc dst) (omega arith) bytes
              (Holds-written_before first c dst after _ (omega arith)
                (Holds-written_before mem (c / 16 * 16) dst after _ (omega arith) there))
              (omega arith))
    ]

-- The bytes of a list, one after the other.
abbrev put_all : Bytes → (ℕ → ℕ) × ℕ → (ℕ → ℕ) × ℕ
put_all [] at_j = at_j
put_all (c ∷ cs) at_j = put_all cs (put_char c at_j)

put_all-append :
    (xs ys : Bytes) (at_j : (ℕ → ℕ) × ℕ) → put_all (xs ++ ys) at_j ≡ put_all ys (put_all xs at_j)
put_all-append [] ys at_j = refl
put_all-append (x ∷ xs) ys at_j = put_all-append xs ys (put_char x at_j)

-- Below 2^32 the bytes stand from `j` on, and those before `j` are kept.
put_all-Holds :
    (xs : Bytes) (res : ℕ → ℕ) (j : ℕ)
    → j + length xs < 2 ^ 32
    → Holds (put_all xs (res, j)).0 j xs × ((i : ℕ) → i < j → (put_all xs (res, j)).0 i ≡ res i)
unfolding Holds
put_all-Holds [] res j low = (tt, λ i less. refl)
put_all-Holds (x ∷ xs) res j low =
    let next : suc j % 2 ^ 32 ≡ suc j = omega arith in
    let (holds, kept) = put_all-Holds xs (write j x res) (suc j) (omega arith) in
    let here = kept j (omega arith) ∙ write-at j x res in
    subst
      (λ j'.
        Holds (put_all xs (write j x res, j')).0 j (x ∷ xs)
        × ((i : ℕ) → i < j → (put_all xs (write j x res, j')).0 i ≡ res i))
      (sym next) ((here, holds), λ i less. kept i (omega arith) ∙ write-before j x res i less)

encode_char-plain :
    (c : ℕ) (s : Bytes) (at_j : (ℕ → ℕ) × ℕ) (b : Bool)
    → is_unreserved c ≡ b
    → put_all (percent_text s) (encode_char c at_j) ≡ put_all (percent_text (c ∷ s)) at_j
unfolding encode_char percent_text
encode_char-plain c s at_j true e = rw (e)
encode_char-plain c s at_j false e = rw (e)

encode_loop-put_all :
    (s : Bytes) (at_j : (ℕ → ℕ) × ℕ) → encode_loop s at_j ≡ put_all (percent_text s) at_j
unfolding encode_loop percent_text
encode_loop-put_all [] at_j = refl
encode_loop-put_all (c ∷ s) at_j =
    encode_loop-put_all s (encode_char c at_j) ∙ encode_char-plain c s at_j (is_unreserved c) refl

length-percent_text-le : (s : Bytes) → length (percent_text s) ≤ 3 * length s
unfolding percent_text
length-percent_text-le [] = omega arith
length-percent_text-le (c ∷ s) = ground (arith, length-percent_text-le s)

-- Where three times the length of the bytes `bs` is below 2^32 - 1 and below `size`, which is where the
-- counters of the source do not wrap: `http_urlencode_reserved` ends, and `http_urldecode` on the
-- string that it returns, in place and within `size` places, returns the pointer `length bs` places
-- behind its start, where `bs` stands then.
pub http_urldecode-http_urlencode_reserved :
    (bs : Bytes) (size : ℕ) (res : ℕ → ℕ)
    → All IsByte bs
    → 3 * length bs < 2 ^ 32 - 1
    → 3 * length bs < size
    → (mem mem' : ℕ → ℕ) × (http_urlencode_reserved res bs ≡ ok mem)
      × (http_urldecode size mem 0 ≡ ok (mem', length bs))
      × Holds mem' 0 bs
unfolding http_urldecode http_urlencode_reserved Decodes
http_urldecode-http_urlencode_reserved bs size res bytes fits enough =
    let text = percent_text bs in
    let short = length-percent_text-le bs in
    let end = length-append text (0 ∷ []) in
    let mem = (put_all (text ++ 0 ∷ []) (res, 0)).0 in
    let (holds, before) = put_all-Holds (text ++ 0 ∷ []) res 0 (omega (arith, short, end)) in
    let (mem', ends, decoded, kept) =
      encoded-Decodes bs size mem 0 0 (omega arith) bytes holds (omega (arith, short)) in
    let counts : ltb (length bs) (2 ^ 32) ≡ true = ground arith in
    (
      mem,
      mem',
      rw (counts) (
          ap ok (
            ap (λ o. write o.1 0 o.0) (encode_loop-put_all bs (res, 0))
            ∙ sym (ap (λ o. o.0) (put_all-append text (0 ∷ []) (res, 0))))),
      ends ∙ ap (λ n. ok (mem', n)) (omega arith),
      decoded,
    )
