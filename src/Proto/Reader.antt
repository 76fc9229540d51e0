-- ===== src/Proto/Reader.antt =====
-- `read_one_value` of src/svnproto_unpack.c: the tokenizer over a stream that is filled on demand, and
-- the step back to a token that did not match its format.
pub mod Again
pub mod Spelled
pub mod Tokens
pub mod Laws
pub mod Texts
pub mod Runs
use mrksvnup.Base.{ℕ, zero, suc, Bool, true, false}
use mrksvnup.Proto.Stream.{Bytestream}
use mrksvnup.Proto.Tokenizer.{
  TokState, State, Res, done, need_more, eod, stuck, error, parse_one_value, start,
}

-- `bytestream_consume_data` is a parameter, with the descriptor in it: whether it returned 0, and the
-- stream that it leaves.
module _ (b : Bytestream) (consume : b.Stream → Bool × b.Stream) where
  open b use {Stream, sneedmore, set_spos}

  -- What follows a call of `parse_one_value`.
  abbrev settle :
      (State → Stream → Res × State × Stream) → Res × State × Stream → Res × State × Stream
  settle loop (need_more, st, s) = elim (sneedmore s) [
    | true ↦ loop st s
    | false ↦ (need_more, st, s)
  ]
  settle loop (r, st, s) = (r, st, s)

  -- A round of the loop, on a stream with data or without.
  pub read_round :
      (State → Stream → Res × State × Stream) → Bool → State → Stream → Res × State × Stream
  read_round loop true st s =
      let (filled, s') = consume s in
      elim filled [ true ↦ settle loop (parse_one_value b st s') | false ↦ (eod, st, s') ]
  read_round loop false st s = settle loop (parse_one_value b st s)

  -- `while (res == PARSE_NEED_MORE)`, on fuel: one unit for each time that data is asked for.
  read_loop : ℕ → State → Stream → Res × State × Stream
  read_loop zero st s = (stuck, st, s)
  read_loop (suc fuel) st s = read_round (read_loop fuel) (sneedmore s) st s

  unfoldable pub step_back : State → Stream → State × Stream
  step_back st s = elim st.backtrack [
    | true ↦
        (record st { tokenizer_state = TokState.start; backtrack = false }, set_spos st.r_start s)
    | false ↦ (st, s)
  ]

  pub read_one_value : ℕ → State → Stream → Res × State × Stream
  read_one_value fuel st s = let (st', s') = step_back st s in read_loop fuel st' s'
