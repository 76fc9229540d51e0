-- ===== src/Proto/Tokenizer/Simulation.antt =====
-- `parse_one_value` on a lawful stream, against `parse_one_value` on the view of the stream.
use mrksvnup.Base.{
  ℕ, zero, suc, ◌+◌, ◌-◌, ◌*◌, ◌≡◌, refl, ap, ◌∙◌, Bool, true, false, ◌==◌, if◌then◌else◌, arith,
}
use mrksvnup.Proto.Stream.{Bytestream, IsBytestream, View, views}
use mrksvnup.Proto.Tokenizer.{
  TokState, State, Res, Round, again, return, is_space, is_digit, is_word, string_step, space_step,
  list_step, digit_step, colon_step, word_step, char_step, tok_step, parse_loop, parse_one_value,
  after, round,
}

module _ (b : Bytestream) (view : b.Stream → View) (laws : IsBytestream b view) where
  seen : Round b → Round views
  seen (again st s) = again st (view s)
  seen (return r st s) = return r st (view s)

  space_step-seen :
      (t : TokState) (st : State) (s : b.Stream)
      → seen (space_step b t st s) ≡ space_step views t st (view s)
  unfolding seen space_step
  space_step-seen TokState.start st s = ground (arith, laws.sincr_lem s)
  space_step-seen TokState.tok_in st s =
      ground (arith, laws.spos_lem s, laws.set_spchr_lem 0 s, laws.sincr_lem (b.set_spchr 0 s))
  space_step-seen _ st s = ground (
    arith,
    laws.sincr_lem s,
    laws.spos_lem s,
    laws.set_spchr_lem 0 s,
    laws.sincr_lem (b.set_spchr 0 s),
    laws.sdata_lem (b.set_spchr 0 s),
  )

  string_step-seen :
      (st : State) (s : b.Stream) → seen (string_step b st s) ≡ string_step views st (view s)
  unfolding seen string_step
  string_step-seen st s = ground (arith, laws.sincr_lem s, laws.spos_lem s)

  list_step-seen :
      (into : TokState) (k : ℕ) (t : TokState) (st : State) (s : b.Stream)
      → seen (list_step b into k t st s) ≡ list_step views into k t st (view s)
  unfolding seen list_step
  list_step-seen into k t st s = ground (arith, laws.sincr_lem s, laws.spos_lem s)

  digit_step-seen :
      (t : TokState) (st : State) (s : b.Stream)
      → seen (digit_step b t st s) ≡ digit_step views t st (view s)
  unfolding seen digit_step
  digit_step-seen _ st s = ground (arith, laws.sincr_lem s, laws.spos_lem s)

  word_step-seen :
      (t : TokState) (st : State) (s : b.Stream)
      → seen (word_step b t st s) ≡ word_step views t st (view s)
  unfolding seen word_step
  word_step-seen _ st s = ground (arith, laws.sincr_lem s, laws.spos_lem s)

  colon_step-seen :
      (t : TokState) (st : State) (s : b.Stream)
      → seen (colon_step b t st s) ≡ colon_step views t st (view s)
  unfolding seen colon_step
  colon_step-seen _ st s = ground (
    arith,
    laws.spos_lem s,
    laws.set_spchr_lem 0 s,
    laws.sincr_lem (b.set_spchr 0 s),
    laws.sdata_lem (b.sincr (b.set_spchr 0 s)),
    laws.spos_lem (b.sincr (b.set_spchr 0 s)),
  )

  seen-if :
      (c : Bool) (x y : Round b) (x' y' : Round views)
      → seen x ≡ x'
      → seen y ≡ y'
      → seen (if c then x else y) ≡ (if c then x' else y')
  seen-if true x y x' y' p q = p
  seen-if false x y x' y' p q = q

  char_step-seen :
      (c : ℕ) (t : TokState) (st : State) (s : b.Stream)
      → seen (char_step b c t st s) ≡ char_step views c t st (view s)
  unfolding seen char_step
  char_step-seen c t st s = seen-if (is_space c) _ _ _ _ (space_step-seen t st s) (
      seen-if (c == b'(') _ _ _ _ (list_step-seen TokState.list_start 2 t st s) (
        seen-if (c == b')') _ _ _ _ (list_step-seen TokState.list_end 3 t st s) (
          seen-if (is_digit c) _ _ _ _ (digit_step-seen t st s) (
            seen-if (c == b':') _ _ _ _ (colon_step-seen t st s)
              (seen-if (is_word c) _ _ _ _ (word_step-seen t st s) refl)))))

  char_step-seen_here :
      (t : TokState) (st : State) (s : b.Stream)
      → seen (char_step b (b.sdata s (b.spos s)) t st s)
        ≡ char_step views ((view s).bytes (view s).spos) t st (view s)
  char_step-seen_here t st s =
      char_step-seen (b.sdata s (b.spos s)) t st s
      ∙ ap (λ c. char_step views c t st (view s)) (λ i. laws.sdata_lem s i (laws.spos_lem s i))

  tok_step-seen :
      (t : TokState) (st : State) (s : b.Stream)
      → seen (tok_step b t st s) ≡ tok_step views t st (view s)
  unfolding tok_step
  tok_step-seen TokState.string_in st s = string_step-seen st s
  tok_step-seen t st s = char_step-seen_here t st s

  -- The result of a call, with the view of the stream that it leaves.
  abbrev pub outcome : Res × State × b.Stream → Res × State × View
  outcome (r, st, s) = (r, st, view s)

  after-outcome :
      (f : State → b.Stream → Res × State × b.Stream) (g : State → View → Res × State × View)
      → ((st : State) (s : b.Stream) → outcome (f st s) ≡ g st (view s))
      → (r : Round b) → outcome (after b f r) ≡ after views g (seen r)
  unfolding after seen
  after-outcome f g same (again st s) = same st s
  after-outcome f g same (return r st s) = refl

  round-outcome :
      (f : State → b.Stream → Res × State × b.Stream) (g : State → View → Res × State × View)
      → ((st : State) (s : b.Stream) → outcome (f st s) ≡ g st (view s))
      → (d : Bool) (st : State) (s : b.Stream)
      → outcome (round b f d st s) ≡ round views g d st (view s)
  unfolding round
  round-outcome f g same true st s = refl
  round-outcome f g same false st s =
      after-outcome f g same (tok_step b st.tokenizer_state st s)
      ∙ ap (after views g) (tok_step-seen st.tokenizer_state st s)

  parse_loop-outcome :
      (fuel : ℕ) (st : State) (s : b.Stream)
      → outcome (parse_loop b fuel st s) ≡ parse_loop views fuel st (view s)
  unfolding parse_loop
  parse_loop-outcome zero st s = refl
  parse_loop-outcome (suc fuel) st s =
      round-outcome (parse_loop b fuel) (parse_loop views fuel) (parse_loop-outcome fuel)
        (b.sneedmore s) st s
      ∙ ap (λ d. round views (parse_loop views fuel) d st (view s)) (laws.sneedmore_lem s)

  -- On every stream that follows the laws, `parse_one_value` returns what it returns on the view of
  -- the stream, with the same state, and leaves the stream whose view it leaves there.
  pub parse_one_value-outcome :
      (st : State) (s : b.Stream)
      → outcome (parse_one_value b st s) ≡ parse_one_value views st (view s)
  unfolding parse_one_value
  parse_one_value-outcome st s =
      parse_loop-outcome (2 * (b.seod s - b.spos s) + 2) st s
      ∙ ap (λ n. parse_loop views n st (view s))
          (λ i. 2 * (laws.seod_lem s i - laws.spos_lem s i) + 2)
