-- ===== src/Proto/Tokenizer/RoundTrip/Strings.antt =====
-- Strings with their length in front, as `parse_one_value` reads them.
use mrksvnup.Base.{
  ℕ, suc, ◌+◌, ◌-◌, ◌*◌, ◌^◌, ◌≤◌, ◌<◌, min, ◌≡◌, refl, sym, subst, ap, ◌∙◌, true, ◌==◌,
  if◌then◌else◌, [], ◌∷◌, ◌++◌, Bytes, length, arith, All,
}
use mrksvnup.Proto.Stream.{Bytestream, IsBytestream, View, views, advanced, written}
use mrksvnup.Proto.Tokenizer.{TokState, State, done, is_out, strtol, parse_loop, parse_one_value}
use mrksvnup.Proto.Tokenizer.RoundTrip.Digits.{
  IsDigit, value, decimal_text, decimal_text-value, decimal_text-All, length-decimal_text_pos,
  digits_value-Holds,
}
use mrksvnup.Base.Buffers.{
  Holds, Holds-append_left, Holds-append_right, Holds-written, Holds-written_before,
}
use mrksvnup.Proto.Tokenizer.Simulation.{outcome, parse_one_value-outcome}
use mrksvnup.Proto.Tokenizer.RoundTrip.Tokens.{
  moved, parse_loop-again, parse_loop-return, digit-first, colon-again, string-last, string-space,
  fuel-eq, digits-run, string-run,
}

-- What a run of digits leaves for `strtol`, once the byte behind it is NUL.
pub strtol-Holds :
    (ds : Bytes) (v : View)
    → Holds v.bytes v.spos ds
    → All IsDigit ds
    → value ds 0 < 2 ^ 63
    → strtol (written 0 (moved (length ds) v)).bytes (v.spos + length ds - v.spos) v.spos
      ≡ value ds 0
strtol-Holds ds v holds digits fits =
    let w = written 0 (moved (length ds) v) in
    let count : v.spos + length ds - v.spos ≡ length ds = omega arith in
    ap (λ n. strtol w.bytes n v.spos) count
    ∙ ap (λ n. min n (2 ^ 63 - 1))
        (digits_value-Holds w.bytes v.spos ds 0
          (Holds-written v.bytes 0 (v.spos + length ds) v.spos ds (omega arith) holds) digits)
    ∙ (omega arith)

pub number-start :
    (d : ℕ) (ds : Bytes) (total fuel : ℕ) (st : State) (v : View)
    → total ≡ suc (length ds + fuel)
    → is_out st.tokenizer_state ≡ true
    → All IsDigit (d ∷ ds)
    → Holds v.bytes v.spos (d ∷ ds)
    → v.spos + length (d ∷ ds) ≤ v.seod
    → parse_loop views total st v
      ≡ parse_loop views fuel
          (record st { tokenizer_state = TokState.num_in; r_start = v.spos })
          (moved (length (d ∷ ds)) v)
unfolding Holds
number-start d ds total fuel st v enough out (digit, digits) (here, there) inside =
    let num : State = record st { tokenizer_state = TokState.num_in; r_start = v.spos } in
    fuel-eq total (suc (length ds + fuel)) st v enough
    ∙ parse_loop-again (length ds + fuel) st num v (advanced v) (omega arith)
        (digit-first st.tokenizer_state st v out (subst IsDigit (sym here) digit))
    ∙ digits-run ds (length ds + fuel) fuel num (advanced v) refl refl digits there (omega arith)
    ∙ ap (λ p. parse_loop views fuel num (record v { spos = p })) (omega arith)

-- The state behind a string of `n` bytes from place `a` on.
abbrev pub string_read : ℕ → ℕ → State → State
string_read a n st = record st {
  tokenizer_state = TokState.string_out;
  r_start = a;
  r_end = a + n;
  i = n;
}

-- The view behind it: the colon and the byte behind the string are NUL.
abbrev pub past_string : ℕ → ℕ → View → View
past_string m n v = advanced (written 0 (moved n (advanced (written 0 (moved m v)))))

colon-run :
    (ds : Bytes) (n fuel : ℕ) (st : State) (v : View)
    → value ds 0 ≡ n
    → n < 2 ^ 63
    → All IsDigit ds
    → Holds v.bytes v.spos ds
    → v.bytes (v.spos + length ds) ≡ b':'
    → v.spos + length ds < v.seod
    → parse_loop views
        (suc fuel)
        (record st { tokenizer_state = TokState.num_in; r_start = v.spos })
        (moved (length ds) v)
      ≡ parse_loop views fuel
          (record st {
            tokenizer_state = TokState.string_in;
            r_start = suc (v.spos + length ds);
            r_end = v.spos + length ds;
            i = n;
          })
          (advanced (written 0 (moved (length ds) v)))
colon-run ds n fuel st v is_n fits digits holds colon inside =
    let num : State = record st { tokenizer_state = TokState.num_in; r_start = v.spos } in
    let w = moved (length ds) v in
    parse_loop-again fuel num _ w _ inside (colon-again TokState.num_in num w refl colon)
    ∙ ap
        (λ k.
          parse_loop views fuel
            (record st {
              tokenizer_state = TokState.string_in;
              r_start = suc (v.spos + length ds);
              r_end = v.spos + length ds;
              i = k;
            })
            (advanced (written 0 w)))
        (strtol-Holds ds v holds digits (omega arith) ∙ is_n)

content-run :
    (n fuel : ℕ) (st : State) (v : View)
    → v.spos + n < v.seod
    → v.bytes (v.spos + n) ≡ b' '
    → parse_loop views
        (n + suc (suc fuel))
        (record st { tokenizer_state = TokState.string_in; r_start = v.spos; i = n })
        v
      ≡ (done, string_read v.spos n st, advanced (written 0 (moved n v)))
content-run n fuel st v inside space =
    let open_ : State = record st {
      tokenizer_state = TokState.string_in;
      r_start = v.spos;
      i = n;
    } in
    let check : State = record open_ {
      tokenizer_state = TokState.string_check;
      r_end = v.spos + n;
    } in
    string-run n (n + suc (suc fuel)) (suc (suc fuel)) open_ v refl refl refl (omega arith)
    ∙ parse_loop-again (suc fuel) open_ check (moved n v) (moved n v) inside
        (string-last TokState.string_in open_ (moved n v) refl refl)
    ∙ parse_loop-return fuel check (string_read v.spos n st) (moved n v) _ done inside
        (string-space TokState.string_check check (moved n v) refl space)

-- A string behind the digits `ds` of its length.
pub string-run_digits :
    (ds : Bytes) (n : ℕ) (st : State) (v : View)
    → 0 < length ds
    → is_out st.tokenizer_state ≡ true
    → value ds 0 ≡ n
    → n < 2 ^ 63
    → All IsDigit ds
    → Holds v.bytes v.spos ds
    → v.bytes (v.spos + length ds) ≡ b':'
    → (written 0 (moved (length ds) v)).bytes (suc (v.spos + length ds) + n) ≡ b' '
    → suc (v.spos + length ds) + n < v.seod
    → parse_one_value views st v
      ≡ (done, string_read (suc (v.spos + length ds)) n st, past_string (length ds) n v)
unfolding parse_one_value
string-run_digits [] n st v cons out is_n fits digits holds colon space inside =
    absurd (omega arith)
string-run_digits (d ∷ ds) n st v cons out is_n fits digits holds colon space inside =
    let v2 = advanced (written 0 (moved (length (d ∷ ds)) v)) in
    let fuel = 2 * (v.seod - v.spos) + 2 in
    let left = fuel - (length ds + n + 4) in
    let opened : State = record st { r_end = v.spos + length (d ∷ ds) } in
    number-start d ds fuel (suc (n + suc (suc left))) st v (omega arith) out digits holds
      (omega arith)
    ∙ colon-run (d ∷ ds) n (n + suc (suc left)) st v is_n fits digits holds colon (omega arith)
    ∙ content-run n left opened v2 inside space

-- A string as the protocol writes it, with a space and a rest behind it.
abbrev pub string_text : Bytes → Bytes → Bytes
string_text bs rest = decimal_text (length bs) ++ b':' ∷ (bs ++ b' ' ∷ rest)

-- The place of its first byte, when its text is at `p`.
abbrev pub string_start : Bytes → ℕ → ℕ
string_start bs p = suc (p + length (decimal_text (length bs)))

abbrev pub string_view : Bytes → View → View
string_view bs v = past_string (length (decimal_text (length bs))) (length bs) v

string_view-Holds :
    (bs rest : Bytes) (v : View)
    → Holds v.bytes (string_start bs v.spos) (bs ++ b' ' ∷ rest)
    → Holds (string_view bs v).bytes (string_start bs v.spos) bs
      × Holds (string_view bs v).bytes (string_view bs v).spos rest
unfolding Holds
string_view-Holds bs rest v holds =
    let a = string_start bs v.spos in
    let (space, behind) =
      Holds-append_right v.bytes a (a + length bs) bs (b' ' ∷ rest) refl holds in
    let q = v.spos + length (decimal_text (length bs)) in
    let w = written 0 (moved (length (decimal_text (length bs))) v) in
    (
      Holds-written w.bytes 0 (a + length bs) a bs (omega arith) (
          Holds-written_before v.bytes 0 q a bs (omega arith)
            (Holds-append_left v.bytes a bs (b' ' ∷ rest) holds)),
      Holds-written_before w.bytes 0 (a + length bs) (suc (a + length bs)) rest (omega arith)
          (Holds-written_before v.bytes 0 q (suc (a + length bs)) rest (omega arith) behind),
    )

views-string_text :
    (bs rest : Bytes) (st : State) (v : View)
    → is_out st.tokenizer_state ≡ true
    → length bs < 2 ^ 63
    → Holds v.bytes v.spos (string_text bs rest)
    → string_start bs v.spos + length bs < v.seod
    → parse_one_value views st v
      ≡ (done, string_read (string_start bs v.spos) (length bs) st, string_view bs v)
unfolding Holds
views-string_text bs rest st v out fits holds inside =
    let ds = decimal_text (length bs) in
    let q = v.spos + length ds in
    let (colon, content) =
      Holds-append_right v.bytes v.spos q ds (b':' ∷ (bs ++ b' ' ∷ rest)) refl holds in
    let (space, behind) =
      Holds-append_right v.bytes (suc q) (suc q + length bs) bs (b' ' ∷ rest) refl content in
    let not_colon : (if suc q + length bs == q then 0 else v.bytes (suc q + length bs)) ≡ b' ' =
      ground arith in
    string-run_digits ds (length bs) st v (length-decimal_text_pos (length bs)) out
      (decimal_text-value (length bs) fits) fits (decimal_text-All (length bs))
      (Holds-append_left v.bytes v.spos ds (b':' ∷ (bs ++ b' ' ∷ rest)) holds) colon not_colon
      inside

module _ (b : Bytestream) (view : b.Stream → View) (laws : IsBytestream b view) where
  -- Outside a token, on a lawful stream that holds the text of a string shorter than 2^63 bytes, a
  -- space and a rest, all but the rest before the end of data: `parse_one_value` returns 0 in the
  -- state TS_STRING_OUT with the range of the string's bytes and their number, those bytes are
  -- unchanged in the buffer, and the rest stands, unchanged, at the new position.
  pub parse_one_value-string_text :
      (bs rest : Bytes) (st : State) (s : b.Stream)
      → is_out st.tokenizer_state ≡ true
      → length bs < 2 ^ 63
      → Holds (view s).bytes (view s).spos (string_text bs rest)
      → string_start bs (view s).spos + length bs < (view s).seod
      → (outcome b view laws (parse_one_value b st s) ≡ (
        done,
        string_read (string_start bs (view s).spos) (length bs) st,
        string_view bs (view s),
      ))
        × Holds (string_view bs (view s)).bytes (string_start bs (view s).spos) bs
        × Holds (string_view bs (view s)).bytes (string_view bs (view s)).spos rest
  unfolding Holds
  parse_one_value-string_text bs rest st s out fits holds inside =
      let v = view s in
      let q = v.spos + length (decimal_text (length bs)) in
      let (colon, content) =
        Holds-append_right v.bytes v.spos q (decimal_text (length bs)) (b':' ∷ (bs ++ b' ' ∷ rest))
          refl holds in
      let (inside', behind) = string_view-Holds bs rest v content in
      (
        parse_one_value-outcome b view laws st s
            ∙ views-string_text bs rest st v out fits holds inside,
        inside',
        behind,
      )
