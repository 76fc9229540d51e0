-- ===== src/Proto/Reader/Again.antt =====
-- The step back of `read_one_value`, to a number and to a string.
use mrksvnup.Base.{
  ℕ, suc, ◌+◌, ◌^◌, ◌<◌, ◌≡◌, refl, sym, subst, ap, ◌∙◌, Bool, true, false, leb, ◌∷◌, Bytes, length,
  arith,
}
use mrksvnup.Base.Buffers.{Holds, Holds-append_left, Holds-written}
use mrksvnup.Proto.Stream.{Bytestream, IsBytestream, View, views}
use mrksvnup.Proto.Tokenizer.{
  TokState, State, Res, done, need_more, eod, stuck, error, is_out, is_space, parse_one_value,
}
use mrksvnup.Proto.Tokenizer.Simulation.{outcome, parse_one_value-outcome}
use mrksvnup.Proto.Tokenizer.RoundTrip.Digits.{
  decimal_text, decimal_text-value, decimal_text-All, length-decimal_text_pos,
}
use mrksvnup.Proto.Tokenizer.RoundTrip.Tokens.{views-list_open}
use mrksvnup.Proto.Tokenizer.RoundTrip.Numbers.{
  number_text, number_read, number_view, number-run_digits, parse_one_value-number_text,
}
use mrksvnup.Proto.Tokenizer.RoundTrip.Strings.{
  string_text, string_start, string_read, string_view, parse_one_value-string_text,
}
use mrksvnup.Proto.Reader.{settle, read_round, read_loop, step_back, read_one_value}

-- The view with its position at `p`.
abbrev pub at : ℕ → View → View
at p v = record v { spos = p }

-- The digits of `n` stand at `r_start`, with a space or a NUL behind them, before the end of data.
ShowsNumber : ℕ → State × View → Type 0
ShowsNumber n (st, v) =
    Holds v.bytes st.r_start (decimal_text n)
    × (is_space (v.bytes (st.r_start + length (decimal_text n))) ≡ true)
    × (st.r_start + length (decimal_text n) < v.seod)

number_view-ShowsNumber :
    (n : ℕ) (rest : Bytes) (st : State) (v : View)
    → Holds v.bytes v.spos (number_text n rest)
    → v.spos + length (decimal_text n) < v.seod
    → ShowsNumber n (number_read v.spos (length (decimal_text n)) n st, number_view n v)
unfolding ShowsNumber is_space
number_view-ShowsNumber n rest st v holds inside =
    let ds = decimal_text n in
    (
      Holds-written v.bytes 0 (v.spos + length ds) v.spos ds (omega arith)
          (Holds-append_left v.bytes v.spos ds (b' ' ∷ rest) holds),
      ground arith,
      inside,
    )

-- A left parenthesis stands at `r_start`, before the end of data.
ShowsOpen : State × View → Type 0
ShowsOpen (st, v) = (v.bytes st.r_start ≡ b'(') × (st.r_start < v.seod)

string_view-ShowsOpen :
    (bs : Bytes) (st : State) (v : View)
    → let cs : Bytes = b'(' ∷ bs in
      Holds (string_view cs v).bytes (string_start cs v.spos) cs
      → string_start cs v.spos < v.seod
      → ShowsOpen (string_read (string_start cs v.spos) (length cs) st, string_view cs v)
unfolding ShowsOpen Holds
string_view-ShowsOpen bs st v holds inside = (holds.0, inside)

module _ (b : Bytestream) (view : b.Stream → View) (laws : IsBytestream b view)
    (consume : b.Stream → Bool × b.Stream) where
  settle-done :
      (loop : State → b.Stream → Res × State × b.Stream) (o : Res × State × b.Stream) (st : State)
      (v : View)
      → outcome b view laws o ≡ (done, st, v)
      → outcome b view laws (settle b consume loop o) ≡ (done, st, v)
  settle-done loop (done, st', s') st v h = h
  settle-done loop (need_more, st', s') st v h =
      let e : need_more ≡ done = ap (λ o. o.0) h in absurd (ground (arith, e))
  settle-done loop (eod, st', s') st v h = h
  settle-done loop (stuck, st', s') st v h = h
  settle-done loop (error k, st', s') st v h = h

  pub read_round-full :
      (loop : State → b.Stream → Res × State × b.Stream) (d : Bool) (st st' : State) (s : b.Stream)
      (v' : View)
      → d ≡ false
      → parse_one_value views st (view s) ≡ (done, st', v')
      → outcome b view laws (read_round b consume loop d st s) ≡ (done, st', v')
  unfolding read_round
  read_round-full loop true st st' s v' e h = absurd (ground arith)
  read_round-full loop false st st' s v' e h =
      settle-done loop (parse_one_value b st s) st' v'
        (parse_one_value-outcome b view laws st s ∙ h)

  -- With the step back, the token at `r_start` is read from the start.
  read_one_value-back :
      (fuel : ℕ) (st st' : State) (s : b.Stream) (v' : View)
      → st.r_start < (view s).seod
      → parse_one_value views
          (record st { tokenizer_state = TokState.start; backtrack = false })
          (at st.r_start (view s))
        ≡ (done, st', v')
      → outcome b view laws (read_one_value b consume (suc fuel) (record st { backtrack = true }) s)
        ≡ (done, st', v')
  unfolding read_one_value step_back read_loop
  read_one_value-back fuel st st' s v' inside h =
      let s1 = b.set_spos st.r_start s in
      let st1 : State = record st { tokenizer_state = TokState.start; backtrack = false } in
      read_round-full (read_loop b consume fuel) (b.sneedmore s1) st1 st' s1 v'
        (laws.sneedmore_lem s1
          ∙ ap (λ v. leb v.seod v.spos) (laws.set_spos_lem st.r_start s)
          ∙ (ground arith))
        (ap (parse_one_value views st1) (laws.set_spos_lem st.r_start s) ∙ h)

  -- A number token at `r_start`, with a space or a NUL behind it.
  read_one_value-number :
      (n fuel : ℕ) (st : State) (s : b.Stream)
      → n < 2 ^ 63
      → ShowsNumber n (st, view s)
      → outcome b view laws (read_one_value b consume (suc fuel) (record st { backtrack = true }) s)
        ≡ (
          done,
          number_read st.r_start (length (decimal_text n)) n (record st { backtrack = false }),
          number_view n (at st.r_start (view s)),
        )
  unfolding ShowsNumber
  read_one_value-number n fuel st s fits (holds, space, inside) =
      let v = at st.r_start (view s) in
      let ds = decimal_text n in
      let st1 : State = record st { tokenizer_state = TokState.start; backtrack = false } in
      let is_n = decimal_text-value n fits in
      read_one_value-back fuel st _ s _ (omega arith) (
        number-run_digits ds st1 v (length-decimal_text_pos n) refl (omega arith)
          (decimal_text-All n) holds space inside
        ∙ ap
            (λ k. (
              done,
              number_read st.r_start (length ds) k (record st { backtrack = false }),
              number_view n v,
            ))
            is_n)

  -- Where `parse_one_value` reads a number as in `parse_one_value-number_text`, and its format asks
  -- for something else, `read_one_value` then returns the same number again, with the same range,
  -- and leaves the stream at the same position; its loop asks for no data.
  pub read_one_value-number_again :
      (n fuel : ℕ) (rest : Bytes) (st : State) (s : b.Stream)
      → is_out st.tokenizer_state ≡ true
      → n < 2 ^ 63
      → Holds (view s).bytes (view s).spos (number_text n rest)
      → (view s).spos + length (decimal_text n) < (view s).seod
      → outcome b view laws (
          read_one_value b consume
            (suc fuel)
            (record (parse_one_value b st s).1 { backtrack = true })
            (parse_one_value b st s).2)
        ≡ (
          done,
          number_read (view s).spos (length (decimal_text n)) n (record st { backtrack = false }),
          number_view n (at (view s).spos (number_view n (view s))),
        )
  read_one_value-number_again n fuel rest st s out fits holds inside =
      let v = view s in
      let ds = decimal_text n in
      let o = parse_one_value b st s in
      let read = parse_one_value-number_text b view laws n rest st s out fits holds inside in
      let left : (o.1, view o.2) ≡ (number_read v.spos (length ds) n st, number_view n v) =
        ap (λ o. (o.1, o.2)) read.0 in
      read_one_value-number n fuel o.1 o.2 fits
        (subst (ShowsNumber n) (sym left) (number_view-ShowsNumber n rest st v holds inside))
      ∙ ap
          (λ p. (
            done,
            number_read p.0.r_start (length ds) n (record p.0 { backtrack = false }),
            number_view n (at p.0.r_start p.1),
          ))
          left

  -- A left parenthesis at `r_start`.
  read_one_value-open :
      (fuel : ℕ) (st : State) (s : b.Stream)
      → ShowsOpen (st, view s)
      → outcome b view laws (read_one_value b consume (suc fuel) (record st { backtrack = true }) s)
        ≡ (
          done,
          record st { tokenizer_state = TokState.list_start; backtrack = false },
          at (suc st.r_start) (view s),
        )
  unfolding ShowsOpen
  read_one_value-open fuel st s (here, inside) =
      let st1 : State = record st { tokenizer_state = TokState.start; backtrack = false } in
      read_one_value-back fuel st _ s _ inside
        (views-list_open st1 (at st.r_start (view s)) refl here inside)

  -- Where `parse_one_value` reads a string as in `parse_one_value-string_text`, whose contents begin
  -- with a left parenthesis, and its format asks for something else, `read_one_value` then returns
  -- the start of a list, TS_LIST_START, at the first byte of the contents.
  pub read_one_value-string_again :
      (bs rest : Bytes) (fuel : ℕ) (st : State) (s : b.Stream)
      → is_out st.tokenizer_state ≡ true
      → length (b'(' ∷ bs) < 2 ^ 63
      → Holds (view s).bytes (view s).spos (string_text (b'(' ∷ bs) rest)
      → string_start (b'(' ∷ bs) (view s).spos + length (b'(' ∷ bs) < (view s).seod
      → outcome b view laws (
          read_one_value b consume
            (suc fuel)
            (record (parse_one_value b st s).1 { backtrack = true })
            (parse_one_value b st s).2)
        ≡ (
          done,
          record (string_read (string_start (b'(' ∷ bs) (view s).spos) (length (b'(' ∷ bs)) st) {
            tokenizer_state = TokState.list_start;
            backtrack = false;
          },
          at (suc (string_start (b'(' ∷ bs) (view s).spos)) (string_view (b'(' ∷ bs) (view s)),
        )
  read_one_value-string_again bs rest fuel st s out fits holds inside =
      let v = view s in
      let cs = b'(' ∷ bs in
      let o = parse_one_value b st s in
      let read = parse_one_value-string_text b view laws cs rest st s out fits holds inside in
      let at_start : string_start cs v.spos < v.seod = omega arith in
      let left : (o.1, view o.2)
          ≡ (string_read (string_start cs v.spos) (length cs) st, string_view cs v) =
        ap (λ o. (o.1, o.2)) read.0 in
      let shown = string_view-ShowsOpen bs st v read.1 at_start in
      read_one_value-open fuel o.1 o.2 (subst ShowsOpen (sym left) shown)
      ∙ ap
          (λ p. (
            done,
            record p.0 { tokenizer_state = TokState.list_start; backtrack = false },
            at (suc p.0.r_start) p.1,
          ))
          left
