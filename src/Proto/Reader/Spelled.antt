-- ===== src/Proto/Reader/Spelled.antt =====
-- Tokens as they stand in the buffer of a stream, and the reader of them that `read_one_value`,
-- `byte_chunk` and the range `r` of src/svnproto_unpack.c make.
use mrksvnup.Base.{
  ℕ, zero, suc, ◌+◌, ◌-◌, ◌^◌, ◌≤◌, ◌<◌, ◌≡◌, ◌⊎◌, Bool, true, false, ◌==◌, if◌then◌else◌, List, [],
  ◌∷◌, ◌++◌, Bytes, length, Option, none, some,
}
use mrksvnup.Base.Buffers.{Holds}
use mrksvnup.Proto.Stream.{Bytestream, View, views}
use mrksvnup.Proto.Tokenizer.{
  TokState, State, Res, done, need_more, eod, stuck, error, is_out, is_space,
}
use mrksvnup.Proto.Tokenizer.RoundTrip.Digits.{decimal_text}
use mrksvnup.Proto.Tokenizer.RoundTrip.Words.{IsWord, is_list}
use mrksvnup.Proto.Reader.{step_back, read_one_value}
use mrksvnup.Proto.Unpack.{Code, success, other, Reader}
use mrksvnup.Proto.Unpack.Tokens.{
  Token, number, word, string, open_list, close_list, state_of, is_steady,
}

-- `n` bytes from place `p` on.
unfoldable pub bytes_from : (ℕ → ℕ) → ℕ → ℕ → Bytes
bytes_from bytes p zero = []
bytes_from bytes p (suc n) = bytes p ∷ bytes_from bytes (suc p) n

-- The string at place `p`, up to its NUL, in `n` bytes.
unfoldable pub string_at : (ℕ → ℕ) → ℕ → ℕ → Bytes
string_at bytes p zero = []
string_at bytes p (suc n) =
    let rest = string_at bytes (suc p) n in if bytes p == 0 then [] else bytes p ∷ rest

-- What the callers see of the result; `PARSE_NEED_MORE` is -2 and `PARSE_EOD` -3.
unfoldable pub read_code : {S : Type 0} → Res × State × S → Option (Code × (State × S))
read_code (done, st, s) = some (success, (st, s))
read_code (need_more, st, s) = some (other 2, (st, s))
read_code (eod, st, s) = some (other 3, (st, s))
read_code (stuck, st, s) = none
read_code (error k, st, s) = some (other (100 + k), (st, s))

-- `bytestream_recycle` is a parameter: the number of bytes that it drops, and the stream it leaves.
-- The range moves with the bytes; an end that is behind is 0 here and below 0 in C, where it is
-- not read, since a list has set `r.start` only.
module _ (b : Bytestream) (consume : b.Stream → Bool × b.Stream)
    (bytestream_recycle : ℕ → b.Stream → ℕ × b.Stream) where
  unfoldable pub recycled : State × b.Stream → State × b.Stream
  recycled (st, s) =
      let (k, s') = bytestream_recycle st.r_start s in
      (record st { r_start = st.r_start - k; r_end = st.r_end - k }, s')

  abbrev pub stream_reader : ℕ → Reader
  stream_reader fuel = record {
    R = State × b.Stream;
    read = λ r. read_code (read_one_value b consume fuel r.0 r.1);
    tok = λ r. r.0.tokenizer_state;
    number = λ r. r.0.i;
    word = λ r. string_at (b.sdata r.1) r.0.r_start (b.seod r.1 - r.0.r_start);
    chunk = λ r. bytes_from (b.sdata r.1) r.0.r_start (r.0.r_end - r.0.r_start);
    step_back = λ r. (record r.0 { backtrack = true }, r.1);
    recycle = recycled;
  }

-- What `bytestream_recycle(in, 512, start)` does to the view: it drops some bytes in front of `start`
-- and of the position, and moves the others down.
pub record Recycles (b : Bytestream) (view : b.Stream → View)
    (bytestream_recycle : ℕ → b.Stream → ℕ × b.Stream) : Type 0 where
  pub dropped_le : (start : ℕ) (s : b.Stream) → (bytestream_recycle start s).0 ≤ start
  pub view_lem :
      (start : ℕ) (s : b.Stream)
      → start ≤ (view s).spos
      → let k : ℕ = (bytestream_recycle start s).0 in
        view (bytestream_recycle start s).1 ≡ record {
          bytes = λ i. (view s).bytes (k + i);
          spos = (view s).spos - k;
          seod = (view s).seod - k;
        }

-- A token's bytes, up to what is behind it.
unfoldable pub body : Token → Bytes
body (number n) = decimal_text n
body (word w) = w
body (string s) = decimal_text (length s) ++ b':' ∷ s
body open_list = b'(' ∷ []
body close_list = b')' ∷ []

-- A number or a length is a `long`, and a word has the bytes of a word.
unfoldable pub Fits : Token → Type 0
Fits (number n) = n < 2 ^ 63
Fits (word w) = IsWord w
Fits (string s) = length s < 2 ^ 63
Fits _ = Unit

-- The byte behind a token: the tokenizer leaves a NUL there, which it takes for a space.
abbrev pub Parts : Token → ℕ → Type 0
Parts (string s) c = c ≡ b' '
Parts _ c = is_space c ≡ true

-- From place `p` on stand the tokens, each with a space behind it, and all before the end `e`.
unfoldable pub Spells : (ℕ → ℕ) → ℕ → ℕ → List Token → Type 0
Spells bytes e p [] = Unit
Spells bytes e p (t ∷ ts) =
    Fits t
    × Holds bytes p (body t)
    × Parts t (bytes (p + length (body t)))
    × (p + length (body t) < e)
    × Spells bytes e (suc (p + length (body t))) ts

-- The tokens stand at the position; behind a parenthesis, its space is still to come.
unfoldable pub Placed : TokState → View → List Token → Type 0
Placed t v ts =
    ((is_out t ≡ true) × Spells v.bytes v.seod v.spos ts)
    ⊎ ((is_list t ≡ true)
        × (is_space (v.bytes v.spos) ≡ true)
        × (v.spos < v.seod)
        × Spells v.bytes v.seod (suc v.spos) ts)

-- The tokens come next, once a step back that is asked for is done.
unfoldable pub Coming : State × View → List Token → Type 0
Coming (st, v) ts =
    (st.r_start ≤ v.spos)
    × (let (st', v') = step_back views (λ s. (false, s)) st v in Placed st'.tokenizer_state v' ts)

-- What the state and the view show of a token.
unfoldable pub Shows : Token → State × View → Type 0
Shows (number n) (st, v) = st.i ≡ n
Shows (word w) (st, v) = string_at v.bytes st.r_start (v.seod - st.r_start) ≡ w
Shows (string s) (st, v) = bytes_from v.bytes st.r_start (st.r_end - st.r_start) ≡ s
Shows _ _ = Unit

-- A token was read last, and others come next; a step back to it finds it again, but for a string.
unfoldable pub Read : State × View → Token → List Token → Type 0
Read (st, v) t ts =
    (st.backtrack ≡ false)
    × (st.r_start ≤ v.spos)
    × Placed st.tokenizer_state v ts
    × (st.tokenizer_state ≡ state_of t)
    × Shows t (st, v)
    × (is_steady t ≡ true → Spells v.bytes v.seod st.r_start (t ∷ ts))
