-- ===== src/Proto/Pack/Text.antt =====
-- What the packers append, as the tokenizer reads it.
use mrksvnup.Base.{
  ℕ, ◌+◌, ◌≤◌, ◌<◌, ◌^◌, ◌≡◌, ◌⊎◌, inl, inr, sym, subst, ap, ◌∙◌, true, [], ◌∷◌, ◌++◌, Bytes,
  length, length-append, Option, none, some, Outcome, ok, fail, ◌>>=◌, pos, arith,
}
use mathlib.Core.List.{append_assoc}
use mrksvnup.Base.Buffers.{Holds, Holds-append_right}
use mrksvnup.Proto.Stream.{Bytestream, IsBytestream, View}
use mrksvnup.Proto.Tokenizer.{State, is_out, done, parse_one_value}
use mrksvnup.Proto.Tokenizer.Simulation.{outcome}
use mrksvnup.Proto.Tokenizer.RoundTrip.Digits.{decimal_text, length-decimal_text-le}
use mrksvnup.Proto.Tokenizer.RoundTrip.Strings.{
  string_text, string_start, string_read, string_view, parse_one_value-string_text,
}
use mrksvnup.Proto.Tokenizer.RoundTrip.Numbers.{
  number_text, number_read, number_view, parse_one_value-number_text,
}
use mrksvnup.Proto.Pack.{
  Output, IsOutput, checked, signed_text, pack_number, pack_string, packed, pack_list,
}

length-string_text :
    (bs : Bytes) → length (string_text bs []) ≡ length (decimal_text (length bs)) + length bs + 2
length-string_text bs = omega (
  arith,
  length-append (decimal_text (length bs)) (b':' ∷ (bs ++ b' ' ∷ [])),
  length-append bs (b' ' ∷ []),
)

module _ (o : Output) (text : o.Out → Bytes) (laws : IsOutput o text) where
  -- A packer fails, or it appends `s` to what the stream `out` has.
  abbrev pub Appends : Outcome o.Out → o.Out → Bytes → Type 0
  Appends m out s =
      ((k : ℕ) × (m ≡ fail k)) ⊎ ((out' : o.Out) × (m ≡ ok out') × (text out' ≡ text out ++ s))

  pub checked-Appends :
      (k : ℕ) (r : Option o.Out) (out : o.Out) (s : Bytes)
      → (r ≡ none) ⊎ ((out' : o.Out) × (r ≡ some out') × (text out' ≡ text out ++ s))
      → Appends (checked k r) out s
  checked-Appends k r out s (inl e) = inl (k, ap (checked k) e)
  checked-Appends k r out s (inr (out', e, grown)) = inr (out', ap (checked k) e, grown)

  pub >>=-Appends :
      (m : Outcome o.Out) (f : o.Out → Outcome o.Out) (out : o.Out) (s t : Bytes)
      → Appends m out s
      → ((out' : o.Out) → Appends (f out') out' t)
      → Appends (m >>= f) out (s ++ t)
  >>=-Appends m f out s t (inl (k, e)) next = inl (k, ap (λ m. m >>= f) e)
  >>=-Appends m f out s t (inr (mid, e, grown)) next = elim (next mid) [
    | inl (k, e') ↦ inl (k, ap (λ m. m >>= f) e ∙ e')
    | inr (out', e', grown') ↦ inr (
      out',
      ap (λ m. m >>= f) e ∙ e',
      grown' ∙ ap (λ x. x ++ t) grown ∙ append_assoc (text out) s t,
    )
  ]

  Appends-ok :
      (m : Outcome o.Out) (out out' : o.Out) (s : Bytes)
      → Appends m out s
      → m ≡ ok out'
      → text out' ≡ text out ++ s
  Appends-ok m out out' s (inl (k, e)) h =
      let clash : fail k ≡ ok out' = sym e ∙ h in absurd (ground (arith, clash))
  Appends-ok m out out' s (inr (last, e, grown)) h =
      let same : last ≡ out' = ground (arith, e, h) in ap text (sym same) ∙ grown

  pub pack_string-Appends :
      (bs : Bytes) (out : o.Out) → Appends (pack_string o bs out) out (string_text bs [])
  unfolding pack_string
  pack_string-Appends bs out =
      let ds = decimal_text (length bs) in
      let front = ds ++ b':' ∷ [] in
      let short : length front < 32 =
        omega (arith, length-append ds (b':' ∷ []), length-decimal_text-le (length bs)) in
      subst (Appends (pack_string o bs out) out) (append_assoc ds (b':' ∷ []) (bs ++ b' ' ∷ [])) (
        >>=-Appends (checked 1 (o.nprintf 32 front out)) _ out front (bs ++ b' ' ∷ [])
          (checked-Appends 1 _ out front (laws.nprintf_lem 32 front out short))
          (λ out.
            >>=-Appends (checked 2 (o.cat bs out)) _ out bs (b' ' ∷ [])
              (checked-Appends 2 _ out bs (laws.cat_lem bs out))
              (λ out. checked-Appends 3 _ out (b' ' ∷ []) (laws.cat_lem (b' ' ∷ []) out))))

  packed-Appends :
      (f : o.Out → Outcome o.Out) (out : o.Out) (s : Bytes)
      → Appends (f out) out s
      → Appends (packed o (some f) out) out s
  unfolding packed
  packed-Appends f out s (inl (k, e)) = inl (2, ground (arith, e))
  packed-Appends f out s (inr (out', e, grown)) = inr (out', ground (arith, e), grown)

  -- On an output stream that follows its laws, with a callback that always fails or appends `s`:
  -- `pack_list` fails, or it appends a left parenthesis and a space, then `s`, then a right
  -- parenthesis and a space.
  pub pack_list-Appends :
      (f : o.Out → Outcome o.Out) (s : Bytes)
      → ((out : o.Out) → Appends (f out) out s)
      → (out : o.Out)
      → Appends (pack_list o (some f) out) out ((b'(' ∷ b' ' ∷ []) ++ (s ++ (b')' ∷ b' ' ∷ [])))
  unfolding pack_list packed
  pack_list-Appends f s callback out =
      >>=-Appends (checked 1 (o.nprintf 3 (b'(' ∷ b' ' ∷ []) out)) _ out (b'(' ∷ b' ' ∷ [])
        (s ++ (b')' ∷ b' ' ∷ []))
        (checked-Appends 1 _ out _ (laws.nprintf_lem 3 (b'(' ∷ b' ' ∷ []) out (omega arith)))
        (λ out.
          >>=-Appends (packed o (some f) out) _ out s (b')' ∷ b' ' ∷ [])
            (packed-Appends f out s (callback out))
            (λ out.
              checked-Appends 3 _ out _ (laws.nprintf_lem 3 (b')' ∷ b' ' ∷ []) out (omega arith))))

  pub number-Appends :
      (n : ℕ) (out : o.Out) → Appends (pack_number o (pos n) out) out (number_text n [])
  unfolding pack_number signed_text
  number-Appends n out =
      let short : length (number_text n []) < 32 =
        omega (arith, length-append (decimal_text n) (b' ' ∷ []), length-decimal_text-le n) in
      checked-Appends 1 _ out _ (laws.nprintf_lem 32 (number_text n []) out short)

  module _ (b : Bytestream) (view : b.Stream → View) (reads : IsBytestream b view) where
    -- Where `pack_string` has returned 0 for a string shorter than 2^63 bytes, and a lawful stream
    -- holds all that the output stream then holds, with its position where the output stream ended
    -- before, and outside a token: `parse_one_value` returns 0 in the state TS_STRING_OUT, with the
    -- range of the string's bytes and their number, and the buffer holds the string in that range.
    pub parse_one_value-pack_string :
        (bs : Bytes) (out out' : o.Out) (st : State) (s : b.Stream)
        → pack_string o bs out ≡ ok out'
        → length bs < 2 ^ 63
        → Holds (view s).bytes 0 (text out')
        → (view s).spos ≡ length (text out)
        → length (text out') ≤ (view s).seod
        → is_out st.tokenizer_state ≡ true
        → (outcome b view reads (parse_one_value b st s) ≡ (
          done,
          string_read (string_start bs (view s).spos) (length bs) st,
          string_view bs (view s),
        ))
          × Holds (string_view bs (view s)).bytes (string_start bs (view s).spos) bs
    parse_one_value-pack_string bs out out' st s packed fits holds here inside out_of =
        let v = view s in
        let grown = Appends-ok _ out out' _ (pack_string-Appends bs out) packed in
        let there : Holds v.bytes v.spos (string_text bs []) =
          Holds-append_right v.bytes 0 v.spos (text out) (string_text bs []) (omega arith)
            (subst (Holds v.bytes 0) grown holds) in
        let total : length (text out') ≡ length (text out) + length (string_text bs []) =
          ap length grown ∙ length-append (text out) (string_text bs []) in
        let room : string_start bs v.spos + length bs < v.seod =
          omega (arith, length-string_text bs) in
        let read = parse_one_value-string_text b view reads bs [] st s out_of fits there room in
        (read.0, read.1)

    -- Where `pack_number` has returned 0 for an `int` that is not negative, and a lawful stream holds
    -- all that the output stream then holds, with its position where the output stream ended before,
    -- and outside a token: `parse_one_value` returns 0 in the state TS_NUM_OUT with the number.
    pub parse_one_value-pack_number :
        (n : ℕ) (out out' : o.Out) (st : State) (s : b.Stream)
        → pack_number o (pos n) out ≡ ok out'
        → n < 2 ^ 31
        → Holds (view s).bytes 0 (text out')
        → (view s).spos ≡ length (text out)
        → length (text out') ≤ (view s).seod
        → is_out st.tokenizer_state ≡ true
        → outcome b view reads (parse_one_value b st s)
          ≡ (done, number_read (view s).spos (length (decimal_text n)) n st, number_view n (view s))
    parse_one_value-pack_number n out out' st s packed fits holds here inside out_of =
        let v = view s in
        let grown = Appends-ok _ out out' _ (number-Appends n out) packed in
        let there : Holds v.bytes v.spos (number_text n []) =
          Holds-append_right v.bytes 0 v.spos (text out) (number_text n []) (omega arith)
            (subst (Holds v.bytes 0) grown holds) in
        let total : length (text out') ≡ length (text out) + length (number_text n []) =
          ap length grown ∙ length-append (text out) (number_text n []) in
        let room : v.spos + length (decimal_text n) < v.seod =
          omega (arith, length-append (decimal_text n) (b' ' ∷ [])) in
        let read =
          parse_one_value-number_text b view reads n [] st s out_of (omega arith) there room in
        read.0
