-- ===== src/Http/Crlf.antt =====
-- `findcrlf` of src/http.c: the first pair of CR and LF.
use mrksvnup.Base.{
  ℕ, suc, ◌≡◌, refl, sym, ap, ◌∙◌, Bool, true, false, ◌&&◌, ◌==◌, if◌then◌else◌, [], ◌∷◌, ◌++◌,
  Bytes, length, Option, none, some, arith,
}

-- The byte behind is LF, and within the bounds.
abbrev lf_next : Bytes → Bool
lf_next [] = false
lf_next (c ∷ s) = c == 10

abbrev behind : Option ℕ → Option ℕ
behind none = none
behind (some i) = some (suc i)

-- The offset of the pointer that it returns, in the `sz` bytes at `s`; `none` is NULL.
unfoldable pub findcrlf : Bytes → Option ℕ
findcrlf [] = none
findcrlf (c ∷ s) = let rest = behind (findcrlf s) in if c == 13 && lf_next s then some 0 else rest

-- No CR of these bytes has a LF directly behind it.
unfoldable pub NoPair : Bytes → Type 0
NoPair [] = Unit
NoPair (c ∷ s) = ((c == 13 && lf_next s) ≡ false) × NoPair s

-- What a result says: with none, there is no pair; with an offset, there is a pair, behind a line of
-- so many bytes, and neither the line nor its CR ends a pair before.
unfoldable pub Found : Bytes → Option ℕ → Type 0
unfolding NoPair
Found s none = NoPair s
Found s (some i) =
    (line : Bytes) × (rest : Bytes) × (s ≡ line ++ 13 ∷ 10 ∷ rest)
    × (length line ≡ i)
    × NoPair (line ++ 13 ∷ [])

lf_next-append : (line xs ys : Bytes) → lf_next (line ++ 13 ∷ xs) ≡ lf_next (line ++ 13 ∷ ys)
lf_next-append [] xs ys = refl
lf_next-append (c ∷ line) xs ys = refl

Found-nil : Found [] none
unfolding Found NoPair
Found-nil = tt

Found-hit : (c : ℕ) (s : Bytes) → (c == 13 && lf_next s) ≡ true → Found (c ∷ s) (some 0)
unfolding Found NoPair
Found-hit c [] hit = absurd (ground arith)
Found-hit c (d ∷ s) hit =
    let cr : c ≡ 13 = ground arith in
    let lf : d ≡ 10 = ground arith in ([], s, (λ i. cr i ∷ lf i ∷ s), refl, (refl, tt))

Found-behind :
    (c : ℕ) (s : Bytes) (r : Option ℕ)
    → (c == 13 && lf_next s) ≡ false
    → Found s r
    → Found (c ∷ s) (behind r)
unfolding Found NoPair
Found-behind c s none miss found = (miss, found)
Found-behind c s (some i) miss (line, rest, shape, size, clear) = (
  c ∷ line,
  rest,
  ap (λ s. c ∷ s) shape,
  omega arith,
  (
    ap (λ b. c == 13 && b) (lf_next-append line [] (10 ∷ rest) ∙ sym (ap (λ s. lf_next s) shape))
        ∙ miss,
    clear,
  ),
)

Found-if :
    (b : Bool) (s : Bytes) (x y : Option ℕ)
    → (b ≡ true → Found s x)
    → (b ≡ false → Found s y)
    → Found s (if b then x else y)
Found-if true s x y p q = p refl
Found-if false s x y p q = q refl

-- `findcrlf` returns NULL where no CR has a LF directly behind it among the bytes, and otherwise the
-- place of the first CR that has one.
pub findcrlf-Found : (s : Bytes) → Found s (findcrlf s)
unfolding findcrlf
findcrlf-Found [] = Found-nil
findcrlf-Found (c ∷ s) =
    Found-if (c == 13 && lf_next s) (c ∷ s) _ _ (Found-hit c s)
      (λ miss. Found-behind c s (findcrlf s) miss (findcrlf-Found s))
