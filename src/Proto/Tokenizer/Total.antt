-- ===== src/Proto/Tokenizer/Total.antt =====
-- The measure of the loop of `parse_one_value`, and how far it reads.
use mrksvnup.Base.{
  ℕ, zero, suc, ◌+◌, ◌-◌, ◌*◌, ◌≤◌, ◌<◌, ◌≡◌, ◌≢◌, ◌⊎◌, inl, refl, sym, subst, Bool, true, false,
  leb, ◌==◌, if◌then◌else◌, arith,
}
use mrksvnup.Proto.Stream.{Bytestream, IsBytestream, View, views}
use mrksvnup.Proto.Tokenizer.{
  TokState, State, Res, Round, again, return, need_more, stuck, error, is_space, is_digit, is_word,
  string_step, space_step, list_step, digit_step, colon_step, word_step, char_step, tok_step,
  parse_loop, parse_one_value, after, round,
}
use mrksvnup.Proto.Tokenizer.Simulation.{parse_one_value-outcome}

-- The loop's measure: a string's end costs one round more.
abbrev extra : TokState → ℕ
extra TokState.string_in = 1
extra _ = 0

abbrev measure : TokState → View → ℕ
measure t v = 2 * (v.seod - v.spos) + extra t

-- From `v` the stream went forward to `v'`, not behind the end of the data.
abbrev pub IsForward : View → View → Type 0
IsForward v v' = (v'.seod ≡ v.seod) × (v.spos ≤ v'.spos) × (v'.spos ≤ v.seod)

Proceeds : TokState → View → Round views → Type 0
Proceeds t v (again st' v') = IsForward v v' × (measure st'.tokenizer_state v' < measure t v)
Proceeds t v (return r st' v') = IsForward v v' × (r ≢ stuck) × (r ≢ need_more)

Proceeds-if :
    (t : TokState) (v : View) (c : Bool) (x y : Round views)
    → Proceeds t v x
    → Proceeds t v y
    → Proceeds t v (if c then x else y)
Proceeds-if t v true x y p q = p
Proceeds-if t v false x y p q = q

space_step-Proceeds :
    (t : TokState) (st : State) (v : View)
    → v.spos < v.seod
    → Proceeds t v (space_step views t st v)
unfolding space_step Proceeds
space_step-Proceeds _ st v more = ground arith

string_step-Proceeds :
    (st : State) (v : View)
    → v.spos < v.seod
    → Proceeds TokState.string_in v (string_step views st v)
unfolding string_step Proceeds
string_step-Proceeds st v more = ground arith

list_step-Proceeds :
    (into : TokState) (k : ℕ) (t : TokState) (st : State) (v : View)
    → v.spos < v.seod
    → Proceeds t v (list_step views into k t st v)
unfolding list_step Proceeds
list_step-Proceeds into k t st v more = ground arith

digit_step-Proceeds :
    (t : TokState) (st : State) (v : View)
    → v.spos < v.seod
    → Proceeds t v (digit_step views t st v)
unfolding digit_step Proceeds
digit_step-Proceeds _ st v more = ground arith

word_step-Proceeds :
    (t : TokState) (st : State) (v : View) → v.spos < v.seod → Proceeds t v (word_step views t st v)
unfolding word_step Proceeds
word_step-Proceeds _ st v more = ground arith

colon_step-Proceeds :
    (t : TokState) (st : State) (v : View)
    → v.spos < v.seod
    → Proceeds t v (colon_step views t st v)
unfolding colon_step Proceeds
colon_step-Proceeds _ st v more = ground arith

refuse-Proceeds :
    (k : ℕ) (t : TokState) (st : State) (v : View)
    → v.spos < v.seod
    → Proceeds t v (return (error k) st v)
unfolding Proceeds
refuse-Proceeds k t st v more = ground arith

char_step-Proceeds :
    (c : ℕ) (t : TokState) (st : State) (v : View)
    → v.spos < v.seod
    → Proceeds t v (char_step views c t st v)
unfolding char_step
char_step-Proceeds c t st v more =
    Proceeds-if t v (is_space c) _ _ (space_step-Proceeds t st v more) (
      Proceeds-if t v (c == b'(') _ _ (list_step-Proceeds TokState.list_start 2 t st v more) (
        Proceeds-if t v (c == b')') _ _ (list_step-Proceeds TokState.list_end 3 t st v more) (
          Proceeds-if t v (is_digit c) _ _ (digit_step-Proceeds t st v more) (
            Proceeds-if t v (c == b':') _ _ (colon_step-Proceeds t st v more) (
              Proceeds-if t v (is_word c) _ _ (word_step-Proceeds t st v more)
                (refuse-Proceeds 7 t st v more))))))

tok_step-Proceeds :
    (t : TokState) (st : State) (v : View) → v.spos < v.seod → Proceeds t v (tok_step views t st v)
unfolding tok_step
tok_step-Proceeds TokState.string_in st v more = string_step-Proceeds st v more
tok_step-Proceeds t st v more = char_step-Proceeds (v.bytes v.spos) t st v more

-- What a call comes to, from `v`: an answer, all data read if it asks for more, and no step back.
Answers : View → Res × State × View → Type 0
Answers v (r, st', v') = (r ≢ stuck) × IsForward v v' × ((r ≢ need_more) ⊎ (v'.spos ≡ v.seod))

IsForward-Answers :
    (v v' : View) (o : Res × State × View) → IsForward v v' → Answers v' o → Answers v o
unfolding Answers
IsForward-Answers v v' (r, st, w) ahead (ends, ahead', full) = ground arith

after-Answers :
    (fuel : ℕ) (v : View)
    → ((st : State) (v : View)
        → v.spos ≤ v.seod
        → measure st.tokenizer_state v < fuel
        → Answers v (parse_loop views fuel st v))
    → (t : TokState) (r : Round views) → measure t v < suc fuel
    → Proceeds t v r
    → Answers v (after views (parse_loop views fuel) r)
unfolding Proceeds after Answers
after-Answers fuel v loop t (again st' v') low (ahead, less) =
    IsForward-Answers v v' (parse_loop views fuel st' v') ahead
      (loop st' v' (ground arith) (ground arith))
after-Answers fuel v loop t (return r st' v') low (ahead, n1, n2) =
    return-Answers r st' v' ahead n1 n2
  where
    return-Answers :
        (r : Res) (st' : State) (v' : View)
        → IsForward v v'
        → r ≢ stuck
        → r ≢ need_more
        → Answers v (r, st', v')
    return-Answers r st' v' ahead n1 n2 = (n1, ahead, inl n2)

round-Answers :
    (fuel : ℕ) (st : State) (v : View)
    → ((st : State) (v : View)
        → v.spos ≤ v.seod
        → measure st.tokenizer_state v < fuel
        → Answers v (parse_loop views fuel st v))
    → v.spos ≤ v.seod
    → measure st.tokenizer_state v < suc fuel
    → (d : Bool) → leb v.seod v.spos ≡ d
    → Answers v (round views (parse_loop views fuel) d st v)
unfolding round Answers
round-Answers fuel st v loop inside low true full = ground arith
round-Answers fuel st v loop inside low false more =
    after-Answers fuel v loop st.tokenizer_state (tok_step views st.tokenizer_state st v) low
      (tok_step-Proceeds st.tokenizer_state st v (ground arith))

parse_loop-Answers :
    (fuel : ℕ) (st : State) (v : View)
    → v.spos ≤ v.seod
    → measure st.tokenizer_state v < fuel
    → Answers v (parse_loop views fuel st v)
unfolding parse_loop
parse_loop-Answers zero st v inside low = ground arith
parse_loop-Answers (suc fuel) st v inside low =
    round-Answers fuel st v (parse_loop-Answers fuel) inside low (leb v.seod v.spos) refl

views-Answers : (st : State) (v : View) → v.spos ≤ v.seod → Answers v (parse_one_value views st v)
unfolding parse_one_value
views-Answers st v inside =
    parse_loop-Answers (2 * (v.seod - v.spos) + 2) st v inside (extra-low st.tokenizer_state)
  where
    extra-low : (t : TokState) → measure t v < 2 * (v.seod - v.spos) + 2
    extra-low _ = ground arith

module _ (b : Bytestream) (view : b.Stream → View) (laws : IsBytestream b view) where
  -- On a lawful stream whose position is not behind its end of data, `parse_one_value` ends, it
  -- does not move the position back nor behind the end of data, which stays, and when it asks for
  -- more data it has read all there was.
  pub parse_one_value-Answers :
      (st : State) (s : b.Stream)
      → (view s).spos ≤ (view s).seod
      → ((parse_one_value b st s).0 ≢ stuck)
        × IsForward (view s) (view (parse_one_value b st s).2)
        × (((parse_one_value b st s).0 ≢ need_more)
            ⊎ ((view (parse_one_value b st s).2).spos ≡ (view s).seod))
  unfolding Answers
  parse_one_value-Answers st s inside =
      subst (Answers (view s)) (sym (parse_one_value-outcome b view laws st s))
        (views-Answers st (view s) inside)
