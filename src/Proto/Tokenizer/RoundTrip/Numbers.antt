-- ===== src/Proto/Tokenizer/RoundTrip/Numbers.antt =====
-- Numbers and list tokens, as `parse_one_value` reads them.
use mrksvnup.Base.{
  ℕ, suc, ◌+◌, ◌-◌, ◌*◌, ◌^◌, ◌<◌, ◌≡◌, refl, ap, ◌∙◌, true, [], ◌∷◌, ◌++◌, Bytes, length, arith,
  All,
}
use mrksvnup.Proto.Stream.{Bytestream, IsBytestream, View, views, advanced, written}
use mrksvnup.Proto.Tokenizer.{is_space, TokState, State, done, is_out, parse_one_value}
use mrksvnup.Proto.Tokenizer.Simulation.{outcome, parse_one_value-outcome}
use mrksvnup.Proto.Tokenizer.RoundTrip.Digits.{
  IsDigit, value, decimal_text, decimal_text-value, decimal_text-All, length-decimal_text_pos,
}
use mrksvnup.Base.Buffers.{Holds, Holds-append_left, Holds-append_right, Holds-written_before}
use mrksvnup.Proto.Tokenizer.RoundTrip.Tokens.{moved, parse_loop-return, number-space}
use mrksvnup.Proto.Tokenizer.RoundTrip.Strings.{number-start, strtol-Holds}

-- The state behind the number `n`, of `m` digits from place `a` on.
abbrev pub number_read : ℕ → ℕ → ℕ → State → State
number_read a m n st = record st {
  tokenizer_state = TokState.num_out;
  r_start = a;
  r_end = a + m;
  i = n;
}

-- A number as the protocol writes it, with a space and a rest behind it.
abbrev pub number_text : ℕ → Bytes → Bytes
number_text n rest = decimal_text n ++ b' ' ∷ rest

abbrev pub number_view : ℕ → View → View
number_view n v = advanced (written 0 (moved (length (decimal_text n)) v))

pub number-run_digits :
    (ds : Bytes) (st : State) (v : View)
    → 0 < length ds
    → is_out st.tokenizer_state ≡ true
    → value ds 0 < 2 ^ 63
    → All IsDigit ds
    → Holds v.bytes v.spos ds
    → is_space (v.bytes (v.spos + length ds)) ≡ true
    → v.spos + length ds < v.seod
    → parse_one_value views st v ≡ (
      done,
      number_read v.spos (length ds) (value ds 0) st,
      advanced (written 0 (moved (length ds) v)),
    )
unfolding parse_one_value
number-run_digits [] st v cons out fits digits holds space inside = absurd (omega arith)
number-run_digits (d ∷ ds) st v cons out fits digits holds space inside =
    let w = moved (length (d ∷ ds)) v in
    let fuel = 2 * (v.seod - v.spos) + 2 in
    let left = fuel - (length ds + 2) in
    let num : State = record st { tokenizer_state = TokState.num_in; r_start = v.spos } in
    number-start d ds fuel (suc left) st v (omega arith) out digits holds (omega arith)
    ∙ parse_loop-return left num _ w _ done inside (number-space TokState.num_in num w refl space)
    ∙ ap
        (λ k. (
          done,
          number_read v.spos (length (d ∷ ds)) k st,
          advanced (written 0 (moved (length (d ∷ ds)) v)),
        ))
        (strtol-Holds (d ∷ ds) v holds digits fits)

space_here : (v : View) (p : ℕ) → v.bytes p ≡ b' ' → is_space (v.bytes p) ≡ true
unfolding is_space
space_here v p space = ground arith

views-number_text :
    (n : ℕ) (rest : Bytes) (st : State) (v : View)
    → is_out st.tokenizer_state ≡ true
    → n < 2 ^ 63
    → Holds v.bytes v.spos (number_text n rest)
    → v.spos + length (decimal_text n) < v.seod
    → parse_one_value views st v
      ≡ (done, number_read v.spos (length (decimal_text n)) n st, number_view n v)
unfolding Holds
views-number_text n rest st v out fits holds inside =
    let ds = decimal_text n in
    let (space, behind) =
      Holds-append_right v.bytes v.spos (v.spos + length ds) ds (b' ' ∷ rest) refl holds in
    let is_n = decimal_text-value n fits in
    number-run_digits ds st v (length-decimal_text_pos n) out (omega arith) (decimal_text-All n)
      (Holds-append_left v.bytes v.spos ds (b' ' ∷ rest) holds)
      (space_here v (v.spos + length ds) space) inside
    ∙ ap (λ k. (done, number_read v.spos (length ds) k st, number_view n v)) is_n

module _ (b : Bytestream) (view : b.Stream → View) (laws : IsBytestream b view) where
  -- Outside a token, on a lawful stream that holds the decimal text of a number below 2^63, a space
  -- and a rest, all but the rest before the end of data: `parse_one_value` returns 0 in the state
  -- TS_NUM_OUT with the number and the range of its digits, and the rest stands, unchanged, at the
  -- new position.
  pub parse_one_value-number_text :
      (n : ℕ) (rest : Bytes) (st : State) (s : b.Stream)
      → is_out st.tokenizer_state ≡ true
      → n < 2 ^ 63
      → Holds (view s).bytes (view s).spos (number_text n rest)
      → (view s).spos + length (decimal_text n) < (view s).seod
      → (outcome b view laws (parse_one_value b st s) ≡ (
        done,
        number_read (view s).spos (length (decimal_text n)) n st,
        number_view n (view s),
      ))
        × Holds (number_view n (view s)).bytes (number_view n (view s)).spos rest
  unfolding Holds
  parse_one_value-number_text n rest st s out fits holds inside =
      let v = view s in
      let q = v.spos + length (decimal_text n) in
      let (space, behind) =
        Holds-append_right v.bytes v.spos q (decimal_text n) (b' ' ∷ rest) refl holds in
      (
        parse_one_value-outcome b view laws st s
            ∙ views-number_text n rest st v out fits holds inside,
        Holds-written_before v.bytes 0 q (suc q) rest (omega arith) behind,
      )
