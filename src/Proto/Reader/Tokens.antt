-- ===== src/Proto/Reader/Tokens.antt =====
-- The tokens that stand in a buffer, as `parse_one_value` reads them one by one.
use mrksvnup.Base.{
  ℕ, zero, suc, ◌+◌, ◌-◌, ◌≤◌, ◌<◌, ◌≡◌, refl, sym, subst, ap, ◌∙◌, inl, inr, true, false, ◌==◌,
  if◌then◌else◌, List, [], ◌∷◌, ◌++◌, Bytes, length, arith, All, length-append,
}
use mrksvnup.Base.Buffers.{
  Holds, Holds-append_left, Holds-append_right, Holds-written, Holds-written_before,
}
use mrksvnup.Proto.Stream.{View, views, advanced, written}
use mrksvnup.Proto.Tokenizer.{
  TokState, State, done, is_out, is_space, is_digit, is_alpha, is_word, parse_one_value,
}
use mrksvnup.Proto.Tokenizer.RoundTrip.Digits.{
  decimal_text, decimal_text-value, decimal_text-All, length-decimal_text_pos,
}
use mrksvnup.Proto.Tokenizer.RoundTrip.Tokens.{moved, views-list_open, views-list_close}
use mrksvnup.Proto.Tokenizer.RoundTrip.Numbers.{number_read, number-run_digits}
use mrksvnup.Proto.Tokenizer.RoundTrip.Strings.{string_read, past_string, string-run_digits}
use mrksvnup.Proto.Tokenizer.RoundTrip.Words.{
  IsWordByte, IsWord, word_read, views-word, views-behind_list,
}
use mrksvnup.Proto.Unpack.Tokens.{Token, number, word, string, open_list, close_list}
use mrksvnup.Proto.Reader.Spelled.{
  bytes_from, string_at, body, Fits, Parts, Spells, Placed, Shows, Read,
}

-- A byte written in front of the tokens leaves them.
pub Spells-written :
    (bytes : ℕ → ℕ) (c q e p : ℕ) (ts : List Token)
    → q < p
    → Spells bytes e p ts
    → Spells (λ i. if i == q then c else bytes i) e p ts
unfolding Spells
Spells-written bytes c q e p [] far h = tt
Spells-written bytes c q e p (t ∷ ts) far (fits, holds, parts, inside, rest) =
    let k = p + length (body t) in
    let same : (if k == q then c else bytes k) ≡ bytes k = ground arith in
    (
      fits,
      Holds-written_before bytes c q p (body t) far holds,
      subst (Parts t) (sym same) parts,
      inside,
      Spells-written bytes c q e (suc k) ts (omega arith) rest,
    )

pub bytes_from-Holds :
    (bytes : ℕ → ℕ) (p : ℕ) (xs : Bytes) → Holds bytes p xs → bytes_from bytes p (length xs) ≡ xs
unfolding bytes_from Holds
bytes_from-Holds bytes p [] h = refl
bytes_from-Holds bytes p (x ∷ xs) (here, there) =
    λ i. here i ∷ bytes_from-Holds bytes (suc p) xs there i

word_byte-pos : (c : ℕ) → IsWordByte c → 0 < c
unfolding is_word is_alpha is_digit
word_byte-pos c letter = ground arith

pub string_at-Holds :
    (bytes : ℕ → ℕ) (p n : ℕ) (xs : Bytes)
    → All IsWordByte xs
    → Holds bytes p xs
    → bytes (p + length xs) ≡ 0
    → length xs < n
    → string_at bytes p n ≡ xs
unfolding string_at Holds
string_at-Holds bytes p zero xs letters h nul less = absurd (omega arith)
string_at-Holds bytes p (suc n) [] letters h nul less =
    let here : bytes p ≡ 0 = ap bytes (omega arith) ∙ nul in ground arith
string_at-Holds bytes p (suc n) (x ∷ xs) (letter, letters) (here, there) nul less =
    let cons = word_byte-pos x letter in
    let tail =
      string_at-Holds bytes (suc p) n xs letters there (ap bytes (omega arith) ∙ nul)
        (omega arith) in
    ground (arith, tail, cons)

IsWord-All : (w : Bytes) → IsWord w → All IsWordByte w
IsWord-All [] empty = absurd (omega arith)
IsWord-All (c ∷ cs) (letter, first, letters) = (letter, letters)

-- The next token is read.
abbrev pub Next : State → View → Token → List Token → Type 0
Next st v t ts =
    (st' : State) × (v' : View) × (parse_one_value views st v ≡ (done, st', v'))
    × Read (st', v') t ts

module _ (ts : List Token) (st : State) (v : View) (out : is_out st.tokenizer_state ≡ true)
    (fresh : st.backtrack ≡ false) where
  read_open : Spells v.bytes v.seod v.spos (open_list ∷ ts) → Next st v open_list ts
  unfolding Read Placed Shows Spells body Holds Fits
  read_open (fits, (here, _), parts, inside, rest) =
      let k : v.spos + length (body open_list) ≡ suc v.spos = omega arith in
      (
        _,
        _,
        views-list_open st v out here (omega arith),
        (
          fresh,
          (omega arith),
          inr (
            refl,
            subst (λ k. is_space (v.bytes k) ≡ true) k parts,
            (omega arith),
            subst (λ k. Spells v.bytes v.seod (suc k) ts) k rest,
          ),
          refl,
          tt,
          (λ e. (fits, (here, tt), parts, inside, rest)),
        ),
      )

  read_close : Spells v.bytes v.seod v.spos (close_list ∷ ts) → Next st v close_list ts
  unfolding Read Placed Shows Spells body Holds Fits
  read_close (fits, (here, _), parts, inside, rest) =
      let k : v.spos + length (body close_list) ≡ suc v.spos = omega arith in
      (
        _,
        _,
        views-list_close st v out here (omega arith),
        (
          fresh,
          (omega arith),
          inr (
            refl,
            subst (λ k. is_space (v.bytes k) ≡ true) k parts,
            (omega arith),
            subst (λ k. Spells v.bytes v.seod (suc k) ts) k rest,
          ),
          refl,
          tt,
          (λ e. (fits, (here, tt), parts, inside, rest)),
        ),
      )

  read_number : (n : ℕ) → Spells v.bytes v.seod v.spos (number n ∷ ts) → Next st v (number n) ts
  unfolding Read Placed Shows Spells body Holds Fits is_space
  read_number n (fits, holds, parts, inside, rest) =
      let ds = decimal_text n in
      let q = v.spos + length ds in
      let is_n = decimal_text-value n fits in
      let rest' = Spells-written v.bytes 0 q v.seod (suc q) ts (omega arith) rest in
      let nul : (if q == q then 0 else v.bytes q) ≡ 0 = ground arith in
      (
        number_read v.spos (length ds) n st,
        advanced (written 0 (moved (length ds) v)),
        number-run_digits ds st v (length-decimal_text_pos n) out (omega arith) (decimal_text-All n)
              holds parts inside
            ∙ ap
                (λ k. (
                  done,
                  number_read v.spos (length ds) k st,
                  advanced (written 0 (moved (length ds) v)),
                ))
                is_n,
        (
          fresh,
          (omega arith),
          inl (refl, rest'),
          refl,
          refl,
          (λ e. (
            fits,
            Holds-written v.bytes 0 q v.spos ds (omega arith) holds,
            ap is_space nul,
            inside,
            rest',
          )),
        ),
      )

  read_word : (w : Bytes) → Spells v.bytes v.seod v.spos (word w ∷ ts) → Next st v (word w) ts
  unfolding Read Placed Shows Spells body Holds Fits is_space
  read_word w (fits, holds, parts, inside, rest) =
      let q = v.spos + length w in
      let rest' = Spells-written v.bytes 0 q v.seod (suc q) ts (omega arith) rest in
      let holds' = Holds-written v.bytes 0 q v.spos w (omega arith) holds in
      let nul : (if q == q then 0 else v.bytes q) ≡ 0 = ground arith in
      (
        word_read v.spos (length w) st,
        advanced (written 0 (moved (length w) v)),
        views-word w st v fits out holds parts inside,
        (
          fresh,
          (omega arith),
          inl (refl, rest'),
          refl,
          string_at-Holds (written 0 (moved (length w) v)).bytes v.spos (v.seod - v.spos) w
              (IsWord-All w fits) holds' nul (omega arith),
          (λ e. (fits, holds', ap is_space nul, inside, rest')),
        ),
      )

  read_string : (s : Bytes) → Spells v.bytes v.seod v.spos (string s ∷ ts) → Next st v (string s) ts
  unfolding Read Placed Shows Spells body Holds Fits
  read_string s (fits, holds, parts, inside, rest) =
      let ds = decimal_text (length s) in
      let q = v.spos + length ds in
      let a = suc q in
      let w = written 0 (moved (length ds) v) in
      let k : v.spos + length (ds ++ b':' ∷ s) ≡ a + length s =
        omega (arith, length-append ds (b':' ∷ s)) in
      let (colon, content) = Holds-append_right v.bytes v.spos q ds (b':' ∷ s) refl holds in
      let space : v.bytes (a + length s) ≡ b' ' = subst (λ k. v.bytes k ≡ b' ') k parts in
      let inside' : a + length s < v.seod = omega arith in
      let behind = subst (λ k. Spells v.bytes v.seod (suc k) ts) k rest in
      let n : a + length s - a ≡ length s = omega arith in
      (
        string_read a (length s) st,
        past_string (length ds) (length s) v,
        string-run_digits ds (length s) st v (length-decimal_text_pos (length s)) out
            (decimal_text-value (length s) fits) fits (decimal_text-All (length s))
            (Holds-append_left v.bytes v.spos ds (b':' ∷ s) holds) colon (ground arith) inside',
        (
          fresh,
          (omega arith),
          inl (
            refl,
            Spells-written w.bytes 0 (a + length s) v.seod (suc (a + length s)) ts (omega arith)
                (Spells-written v.bytes 0 q v.seod (suc (a + length s)) ts (omega arith) behind),
          ),
          refl,
          ap (bytes_from (past_string (length ds) (length s) v).bytes a) n
              ∙ bytes_from-Holds (past_string (length ds) (length s) v).bytes a s (
                  Holds-written w.bytes 0 (a + length s) a s (omega arith)
                    (Holds-written_before v.bytes 0 q a s (omega arith) content)),
          (λ e. absurd (ground (arith, e))),
        ),
      )

  read_token : (t : Token) → Spells v.bytes v.seod v.spos (t ∷ ts) → Next st v t ts
  read_token (number n) h = read_number n h
  read_token (word w) h = read_word w h
  read_token (string s) h = read_string s h
  read_token open_list h = read_open h
  read_token close_list h = read_close h

-- Also behind a parenthesis.
pub Placed-Next :
    (t : Token) (ts : List Token) (st : State) (v : View)
    → st.r_start ≤ v.spos
    → st.backtrack ≡ false
    → Placed st.tokenizer_state v (t ∷ ts)
    → Next st v t ts
unfolding Placed
Placed-Next t ts st v start fresh (inl (out, here)) = read_token ts st v out fresh t here
Placed-Next t ts st v start fresh (inr (list, space, inside, behind)) =
    let open_ : State = record st { tokenizer_state = TokState.start } in
    let (st', v', e, read) = read_token ts open_ (advanced v) refl fresh t behind in
    (st', v', views-behind_list st st' v v' list space inside e, read)

pub Placed-more :
    (t : Token) (ts : List Token) (k : TokState) (v : View) → Placed k v (t ∷ ts) → v.spos < v.seod
unfolding Placed Spells
Placed-more t ts k v (inl (out, (fits, holds, parts, inside, rest))) = omega arith
Placed-more t ts k v (inr (list, space, inside, behind)) = inside
