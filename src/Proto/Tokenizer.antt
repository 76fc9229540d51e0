-- ===== src/Proto/Tokenizer.antt =====
-- `parse_one_value` of src/svnproto_unpack.c: the tokenizer of the ra_svn protocol.
pub mod Simulation
pub mod Total
pub mod RoundTrip
use mrksvnup.Base.{
  within, ℕ, zero, suc, ◌+◌, ◌-◌, ◌*◌, ◌^◌, min, Bool, true, false, ◌&&◌, ◌||◌, leb, ltb, ◌==◌,
  if◌then◌else◌,
}
use mrksvnup.Proto.Stream.{Bytestream}

-- The values of `tokenizer_state`, with the source's names less their prefix `TS_`.
pub data TokState : Type 0 where
  start tok_in tok_out list_start list_end : TokState
  string_in string_check string_out num_in num_out : TokState

-- `tokenizer_state & TS_OUT`
abbrev pub is_out : TokState → Bool
is_out TokState.start = true
is_out TokState.tok_out = true
is_out TokState.num_out = true
is_out TokState.string_out = true
is_out _ = false

-- `svnproto_state_t`; `r_start` and `r_end` are the range `r`.
pub record State : Type 0 where
  pub r_start : ℕ
  pub r_end : ℕ
  pub i : ℕ
  pub tokenizer_state : TokState
  pub backtrack : Bool

abbrev pub svnproto_state_init : State
svnproto_state_init = record {
  r_start = 0;
  r_end = 0;
  i = 0;
  tokenizer_state = TokState.start;
  backtrack = false;
}

unfoldable pub is_space : ℕ → Bool
is_space c = c == b' ' || c == 9 || c == 10 || c == 13 || c == 0

unfoldable pub is_digit : ℕ → Bool
is_digit c = within b'0' b'9' c

unfoldable pub is_alpha : ℕ → Bool
is_alpha c = within b'a' b'z' c || within b'A' b'Z' c

unfoldable pub is_word : ℕ → Bool
unfolding is_alpha is_digit
is_word c = is_alpha c || is_digit c || c == b'-'

-- `strtol` with base 10, at the first of `n` bytes: digits up to the first other byte. The result
-- is clamped to the largest `long`.
unfoldable pub digits_value : (ℕ → ℕ) → ℕ → ℕ → ℕ → ℕ
digits_value bytes zero p acc = acc
digits_value bytes (suc n) p acc =
    let more = digits_value bytes n (suc p) (acc * 10 + (bytes p - b'0')) in
    if is_digit (bytes p) then more else acc

abbrev pub strtol : (ℕ → ℕ) → ℕ → ℕ → ℕ
strtol bytes n p = min (digits_value bytes n p 0) (2 ^ 63 - 1)

-- How a call ends. `error k` is `PARSE_ONE_VALUE + k`, `eod` is `PARSE_EOD`, which only
-- `read_one_value` returns, and `stuck` is nothing in C: the loop of the model ran out of fuel.
pub data Res : Type 0 where
  done need_more eod stuck : Res
  error : ℕ → Res

module _ (b : Bytestream) where
  open b use {Stream, spos, seod, sdata, sneedmore, sincr, set_spchr}

  -- One round of the loop: `continue`, or a return.
  pub data Round : Type 0 where
    again : State → Stream → Round
    return : Res → State → Stream → Round

  -- The value is complete: the byte behind it is passed, and the call returns.
  abbrev finish : State → Stream → Round
  finish st s = return done st (sincr s)

  abbrev refuse : ℕ → State → Stream → Round
  refuse k st s = return (error k) st s

  -- In a string, `i` bytes long.
  string_step : State → Stream → Round
  string_step st s =
      if ltb (spos s) (st.r_start + st.i)
      then again st (sincr s)
      else again (record st { tokenizer_state = TokState.string_check; r_end = spos s }) s

  -- At a space, which ends what is open; the byte is overwritten by NUL.
  space_step : TokState → State → Stream → Round
  space_step TokState.tok_in st s =
      finish (record st { tokenizer_state = TokState.tok_out; r_end = spos s }) (set_spchr 0 s)
  space_step TokState.list_start st s =
      again (record st { tokenizer_state = TokState.start }) (sincr s)
  space_step TokState.list_end st s =
      again (record st { tokenizer_state = TokState.start }) (sincr s)
  space_step TokState.num_in st s =
      let s' = set_spchr 0 s in
      finish
        (record st {
          tokenizer_state = TokState.num_out;
          r_end = spos s;
          i = strtol (sdata s') (spos s - st.r_start) st.r_start;
        })
        s'
  space_step TokState.string_check st s =
      finish (record st { tokenizer_state = TokState.string_out }) (set_spchr 0 s)
  space_step t st s = if is_out t then again st (sincr s) else refuse 1 st s

  -- At a parenthesis.
  list_step : TokState → ℕ → TokState → State → Stream → Round
  list_step into k t st s =
      if is_out t
      then finish (record st { tokenizer_state = into; r_start = spos s }) s
      else refuse k st s

  digit_step : TokState → State → Stream → Round
  digit_step TokState.num_in st s = again st (sincr s)
  digit_step TokState.tok_in st s = again st (sincr s)
  digit_step t st s =
      if is_out t
      then again (record st { tokenizer_state = TokState.num_in; r_start = spos s }) (sincr s)
      else refuse 4 st s

  -- At the colon behind the length of a string.
  colon_step : TokState → State → Stream → Round
  colon_step TokState.num_in st s =
      let s' = sincr (set_spchr 0 s) in
      again
        (record st {
          tokenizer_state = TokState.string_in;
          r_end = spos s;
          i = strtol (sdata s') (spos s - st.r_start) st.r_start;
          r_start = spos s';
        })
        s'
  colon_step _ st s = refuse 5 st s

  word_step : TokState → State → Stream → Round
  word_step TokState.tok_in st s = again st (sincr s)
  word_step t st s =
      if is_out t
      then again (record st { tokenizer_state = TokState.tok_in; r_start = spos s }) (sincr s)
      else refuse 6 st s

  char_step : ℕ → TokState → State → Stream → Round
  char_step c t st s =
      if is_space c
      then space_step t st s
      else if c == b'('
      then list_step TokState.list_start 2 t st s
      else if c == b')'
      then list_step TokState.list_end 3 t st s
      else if is_digit c
      then digit_step t st s
      else if c == b':'
      then colon_step t st s
      else if is_word c
      then word_step t st s
      else refuse 7 st s

  pub tok_step : TokState → State → Stream → Round
  tok_step TokState.string_in st s = string_step st s
  tok_step t st s = char_step (sdata s (spos s)) t st s

  -- What follows a round: the rest of the loop, or the return.
  pub after : (State → Stream → Res × State × Stream) → Round → Res × State × Stream
  after rest (again st s) = rest st s
  after rest (return r st s) = (r, st, s)

  -- One test of the loop, on `SNEEDMORE(in)`, with what follows it.
  round : (State → Stream → Res × State × Stream) → Bool → State → Stream → Res × State × Stream
  round rest true st s = (need_more, st, s)
  round rest false st s = after rest (tok_step st.tokenizer_state st s)

  -- `while (!SNEEDMORE(in))`, on fuel.
  pub parse_loop : ℕ → State → Stream → Res × State × Stream
  parse_loop zero st s = (stuck, st, s)
  parse_loop (suc fuel) st s = round (parse_loop fuel) (sneedmore s) st s

  -- Two rounds a byte are enough: only the round behind the last byte of a string takes none.
  pub parse_one_value : State → Stream → Res × State × Stream
  parse_one_value st s = parse_loop (2 * (seod s - spos s) + 2) st s
