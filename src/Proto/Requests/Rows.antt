-- ===== src/Proto/Requests/Rows.antt =====
-- Packers that append a row of tokens.
use mrksvnup.Base.{
  ℕ, ◌+◌, ◌<◌, ◌^◌, ◌≡◌, inl, inr, refl, sym, subst, ap, ◌∙◌, [], ◌∷◌, ◌++◌, List, Bytes, length,
  length-append, none, some, Outcome, ok, ◌>>=◌, on_fail, pos, to_int, to_int_pos, arith,
}
use mathlib.Core.List.{append_assoc, append-nil}
use mrksvnup.Proto.Tokenizer.RoundTrip.Strings.{string_text}
use mrksvnup.Proto.Tokenizer.RoundTrip.Numbers.{number_text}
use mrksvnup.Proto.Unpack.Tokens.{Token, number, word, string, open_list, close_list}
use mrksvnup.Proto.Pack.{Output, IsOutput, packed, pack_word, pack_number, pack_string, pack_list}
use mrksvnup.Proto.Pack.Text.{
  Appends, checked-Appends, >>=-Appends, pack_string-Appends, pack_list-Appends, number-Appends,
}

-- A row of tokens as the server reads it, with a space behind each token.
unfoldable pub token_text : Token → Bytes
token_text (number n) = number_text n []
token_text (word w) = w ++ b' ' ∷ []
token_text (string s) = string_text s []
token_text open_list = b'(' ∷ b' ' ∷ []
token_text close_list = b')' ∷ b' ' ∷ []

unfoldable pub tokens_text : List Token → Bytes
unfolding token_text
tokens_text [] = []
tokens_text (t ∷ ts) = token_text t ++ tokens_text ts

pub tokens_text-append :
    (ts ts' : List Token) → tokens_text (ts ++ ts') ≡ tokens_text ts ++ tokens_text ts'
unfolding tokens_text
tokens_text-append [] ts' = refl
tokens_text-append (t ∷ ts) ts' =
    ap (λ x. token_text t ++ x) (tokens_text-append ts ts')
    ∙ sym (append_assoc (token_text t) (tokens_text ts) (tokens_text ts'))

module _ (o : Output) (text : o.Out → Bytes) (laws : IsOutput o text) where
  -- A packer that fails, or appends the row `ts`.
  pub record Rows (f : o.Out → Outcome o.Out) (ts : List Token) : Type 0 where
    pub appends : (out : o.Out) → Appends o text laws (f out) out (tokens_text ts)

  on_fail-Appends :
      (k : ℕ) (m : Outcome o.Out) (out : o.Out) (s : Bytes)
      → Appends o text laws m out s
      → Appends o text laws (on_fail k m) out s
  on_fail-Appends k m out s (inl (j, e)) = inl (k, ap (on_fail k) e)
  on_fail-Appends k m out s (inr (out', e, grown)) = inr (out', ap (on_fail k) e, grown)

module _ {o : Output} {text : o.Out → Bytes} {laws : IsOutput o text} where
  pub last-Rows :
      {f : o.Out → Outcome o.Out} {ts : List Token} (k : ℕ)
      → Rows o text laws f ts
      → Rows o text laws (λ out. on_fail k (f out)) ts
  last-Rows {f = f} {ts = ts} k rows = record {
    appends = λ out. on_fail-Appends o text laws k (f out) out (tokens_text ts) (rows.appends out);
  }

  -- A packer with an error number of its own, and one behind it.
  pub before-Rows :
      {f g : o.Out → Outcome o.Out} {ts ts' : List Token} (k : ℕ)
      → Rows o text laws f ts
      → Rows o text laws g ts'
      → Rows o text laws (λ out. on_fail k (f out) >>= g) (ts ++ ts')
  before-Rows {f = f} {g = g} {ts = ts} {ts' = ts'} k rows rows' = record {
    appends = λ out.
        subst (Appends o text laws (on_fail k (f out) >>= g) out) (sym (tokens_text-append ts ts'))
          (>>=-Appends o text laws (on_fail k (f out)) g out (tokens_text ts) (tokens_text ts')
            (on_fail-Appends o text laws k (f out) out (tokens_text ts) (rows.appends out))
            rows'.appends);
  }

  pub ok-Rows : Rows o text laws ok []
  unfolding tokens_text
  ok-Rows = record { appends = λ out. inr (out, refl, sym (append-nil (text out))) }

  row_of :
      (f : o.Out → Outcome o.Out) (t : Token)
      → ((out : o.Out) → Appends o text laws (f out) out (token_text t))
      → Rows o text laws f (t ∷ [])
  unfolding tokens_text
  row_of f t appends = record {
    appends = λ out.
        subst (Appends o text laws (f out) out) (sym (append-nil (token_text t))) (appends out);
  }

  pub word-Rows : (w : Bytes) → Rows o text laws (pack_word o w) (word w ∷ [])
  unfolding token_text pack_word
  word-Rows w =
      let short : length (w ++ b' ' ∷ []) < length w + 2 =
        omega (arith, length-append w (b' ' ∷ [])) in
      row_of (pack_word o w) (word w) λ out.
        checked-Appends o text laws 1 _ out (w ++ b' ' ∷ [])
          (laws.nprintf_lem (length w + 2) (w ++ b' ' ∷ []) out short)

  pub string-Rows : (s : Bytes) → Rows o text laws (pack_string o s) (string s ∷ [])
  unfolding token_text
  string-Rows s = row_of (pack_string o s) (string s) (pack_string-Appends o text laws s)

  pub number-Rows : (n : ℕ) → Rows o text laws (pack_number o (pos n)) (number n ∷ [])
  unfolding token_text
  number-Rows n = row_of (pack_number o (pos n)) (number n) (number-Appends o text laws n)

  pub int-Rows :
      (n : ℕ) → n < 2 ^ 31 → Rows o text laws (pack_number o (to_int (pos n))) (number n ∷ [])
  int-Rows n low =
      subst (λ m. Rows o text laws (pack_number o m) (number n ∷ [])) (sym (to_int_pos n low))
        (number-Rows n)

  pub list-Rows :
      {f : o.Out → Outcome o.Out} {ts : List Token}
      → Rows o text laws f ts
      → Rows o text laws (pack_list o (some f)) (open_list ∷ (ts ++ close_list ∷ []))
  unfolding tokens_text token_text
  list-Rows {f = f} {ts = ts} rows = record {
    appends = λ out.
        subst (Appends o text laws (pack_list o (some f) out) out)
          (ap (λ x. b'(' ∷ b' ' ∷ x) (sym (tokens_text-append ts (close_list ∷ []))))
          (pack_list-Appends o text laws f (tokens_text ts) rows.appends out);
  }

  pub empty_list-Rows : Rows o text laws (pack_list o none) (open_list ∷ close_list ∷ [])
  unfolding pack_list packed
  empty_list-Rows = list-Rows ok-Rows
