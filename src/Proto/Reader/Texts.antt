-- ===== src/Proto/Reader/Texts.antt =====
-- Tokens as a text: the bytes that the protocol has for them, a space behind each.
use mrksvnup.Base.{
  ℕ, zero, suc, ◌+◌, ◌-◌, ◌^◌, ◌≤◌, ◌≡◌, ◌≢◌, refl, inl, Bool, true, false, ◌&&◌, ltb, List, [],
  ◌∷◌, ◌++◌, Bytes, length, length-append, some, arith, All,
}
use mrksvnup.Base.Buffers.{Holds, Holds-append_left, Holds-append_right}
use mrksvnup.Proto.Stream.{Bytestream, IsBytestream, View, views, views-IsBytestream}
use mrksvnup.Proto.Tokenizer.{
  State, Res, done, need_more, eod, stuck, error, is_out, is_digit, is_space, is_word,
  svnproto_state_init,
}
use mrksvnup.Proto.Tokenizer.RoundTrip.Words.{IsWordByte}
use mrksvnup.Proto.Unpack.{Reader, success, nomatch}
use mrksvnup.Proto.Unpack.Tokens.{
  Token, number, word, string, open_list, close_list, state_of, IsReader,
}
use mrksvnup.Proto.Reader.{step_back, read_one_value}
use mrksvnup.Proto.Reader.Spelled.{
  read_code, stream_reader, Recycles, body, Fits, Parts, Spells, Coming, Placed, Shows, Read,
}
use mrksvnup.Proto.Reader.Laws.{Ahead, At, read-Ahead, stream_reader-IsReader}

unfoldable pub text_of : List Token → Bytes
unfolding body
text_of [] = []
text_of (t ∷ ts) = body t ++ b' ' ∷ text_of ts

-- Where a stream has the text of tokens, the tokens stand.
space-Parts : (t : Token) (c : ℕ) → c ≡ b' ' → Parts t c
unfolding is_space
space-Parts (string s) c e = e
space-Parts (number n) c e = ground arith
space-Parts (word w) c e = ground arith
space-Parts open_list c e = ground arith
space-Parts close_list c e = ground arith

pub text_of-Spells :
    (bytes : ℕ → ℕ) (e p : ℕ) (ts : List Token)
    → All Fits ts
    → Holds bytes p (text_of ts)
    → p + length (text_of ts) ≤ e
    → Spells bytes e p ts
unfolding Spells text_of Holds
text_of-Spells bytes e p [] fits h inside = tt
text_of-Spells bytes e p (t ∷ ts) (fit, fits) h inside =
    let q = p + length (body t) in
    let (space, behind) = Holds-append_right bytes p q (body t) (b' ' ∷ text_of ts) refl h in
    let len = length-append (body t) (b' ' ∷ text_of ts) in
    (
      fit,
      Holds-append_left bytes p (body t) (b' ' ∷ text_of ts) h,
      space-Parts t (bytes q) space,
      (omega (arith, len)),
      text_of-Spells bytes e (suc q) ts fits behind (omega (arith, len)),
    )

-- Tests of what a token may be.
abbrev not_digit : Bool → Bool
not_digit true = false
not_digit false = true

abbrev letters : Bytes → Bool
letters [] = true
letters (c ∷ cs) = is_word c && letters cs

unfoldable pub fits : Token → Bool
fits (number n) = ltb n (2 ^ 63)
fits (word []) = false
fits (word (c ∷ cs)) = (is_word c && not_digit (is_digit c)) && letters cs
fits (string s) = ltb (length s) (2 ^ 63)
fits _ = true

unfoldable pub all_fit : List Token → Bool
unfolding fits
all_fit [] = true
all_fit (t ∷ ts) = fits t && all_fit ts

letters-All : (cs : Bytes) → letters cs ≡ true → All IsWordByte cs
letters-All [] e = tt
letters-All (c ∷ cs) e = ((ground (arith, e)), letters-All cs (ground (arith, e)))

fits-Fits : (t : Token) → fits t ≡ true → Fits t
unfolding fits Fits
fits-Fits (number n) e = ground (arith, e)
fits-Fits (word []) e = absurd (ground (arith, e))
fits-Fits (word (c ∷ cs)) e =
    ((ground (arith, e)), (ground (arith, e)), letters-All cs (ground (arith, e)))
fits-Fits (string s) e = ground (arith, e)
fits-Fits open_list e = tt
fits-Fits close_list e = tt

pub all_fit-All : (ts : List Token) → all_fit ts ≡ true → All Fits ts
unfolding all_fit
all_fit-All [] e = tt
all_fit-All (t ∷ ts) e = (fits-Fits t (ground (arith, e)), all_fit-All ts (ground (arith, e)))

-- A buffer with the bytes of a list.
unfoldable pub buffer : Bytes → ℕ → ℕ
buffer [] i = 0
buffer (c ∷ cs) zero = c
buffer (c ∷ cs) (suc i) = buffer cs i

Holds-later :
    (c : ℕ) (cs xs : Bytes) (p : ℕ) → Holds (buffer cs) p xs → Holds (buffer (c ∷ cs)) (suc p) xs
unfolding Holds buffer
Holds-later c cs [] p h = tt
Holds-later c cs (x ∷ xs) p (here, there) = (here, Holds-later c cs xs (suc p) there)

pub Holds-buffer : (xs : Bytes) → Holds (buffer xs) 0 xs
unfolding Holds buffer
Holds-buffer [] = tt
Holds-buffer (x ∷ xs) = (refl, Holds-later x xs xs 0 (Holds-buffer xs))

-- `read_one_value` on a buffer that gets no more data, and that the recycling moves down.
abbrev pub no_data : View → Bool × View
no_data v = (false, v)

abbrev pub moved_down : ℕ → View → ℕ × View
moved_down k v = (k, record { bytes = λ i. v.bytes (k + i); spos = v.spos - k; seod = v.seod - k })

pub moved_down-Recycles : Recycles views (λ v. v) moved_down
moved_down-Recycles = record {
  dropped_le = λ start v. (omega arith);
  view_lem = λ start v low. refl;
}

abbrev pub buffer_reader : Reader
buffer_reader = stream_reader views no_data moved_down 1

abbrev pub AheadBuffer : State × View → List Token → Type 0
AheadBuffer r ts =
    Ahead views (λ v. v) views-IsBytestream no_data moved_down moved_down-Recycles r ts

abbrev pub AtBuffer : State × View → Token → List Token → Type 0
AtBuffer r t ts = At views (λ v. v) views-IsBytestream no_data moved_down moved_down-Recycles r t ts

pub buffer_reader-IsReader : IsReader buffer_reader AheadBuffer AtBuffer
buffer_reader-IsReader =
    stream_reader-IsReader views (λ v. v) views-IsBytestream no_data moved_down moved_down-Recycles
      0

-- The buffer before anything is read.
abbrev pub from_tokens : List Token → State × View
from_tokens ts = (
  svnproto_state_init,
  record { bytes = buffer (text_of ts); spos = 0; seod = length (text_of ts) },
)

pub from_tokens-Ahead : (ts : List Token) → all_fit ts ≡ true → AheadBuffer (from_tokens ts) ts
unfolding Coming Placed step_back
from_tokens-Ahead ts fit = (
  (omega arith),
  inl (
    refl,
    text_of-Spells (buffer (text_of ts)) (length (text_of ts)) 0 ts (all_fit-All ts fit)
        (Holds-buffer (text_of ts)) (omega arith),
  ),
)

-- The reader has no errors of the class SVNPROTO_VUNPACK.
read_code-ne-nomatch :
    {S : Type 0} (o : Res × State × S) (r' : State × S) (k : ℕ) → read_code o ≢ some (nomatch k, r')
unfolding read_code
read_code-ne-nomatch (done, st, s) r' k e = cc
read_code-ne-nomatch (need_more, st, s) r' k e = cc
read_code-ne-nomatch (eod, st, s) r' k e = cc
read_code-ne-nomatch (stuck, st, s) r' k e = cc
read_code-ne-nomatch (error j, st, s) r' k e = cc

pub stream_reader-ne-nomatch :
    (b : Bytestream) (consume : b.Stream → Bool × b.Stream)
    (bytestream_recycle : ℕ → b.Stream → ℕ × b.Stream) (fuel : ℕ) (r r' : State × b.Stream) (k : ℕ)
    → (stream_reader b consume bytestream_recycle fuel).read r ≢ some (nomatch k, r')
stream_reader-ne-nomatch b consume bytestream_recycle fuel r r' k =
    read_code-ne-nomatch (read_one_value b consume fuel r.0 r.1) r' k

module _ (b : Bytestream) (view : b.Stream → View) (laws : IsBytestream b view)
    (consume : b.Stream → Bool × b.Stream) (bytestream_recycle : ℕ → b.Stream → ℕ × b.Stream)
    (moves : Recycles b view bytestream_recycle) where
  -- Outside a token, with no step back asked for and the range not behind the position, on a lawful
  -- stream that holds the text of tokens, each with a space behind it, all before the end of data,
  -- with numbers and lengths below 2^63 and words that the tokenizer takes for one: `read_one_value`,
  -- with one round of its loop or more, returns 0 in the state of the first token, with its number,
  -- with its word at `r.start`, or with the bytes of its string in the range, and the other tokens
  -- come next.
  pub read_one_value-text_of :
      (fuel : ℕ) (t : Token) (ts : List Token) (st : State) (s : b.Stream)
      → is_out st.tokenizer_state ≡ true
      → st.backtrack ≡ false
      → st.r_start ≤ (view s).spos
      → All Fits (t ∷ ts)
      → Holds (view s).bytes (view s).spos (text_of (t ∷ ts))
      → (view s).spos + length (text_of (t ∷ ts)) ≤ (view s).seod
      → (r : State × b.Stream) × (read_code (read_one_value b consume (suc fuel) st s)
          ≡ some (success, r))
        × (r.0.tokenizer_state ≡ state_of t)
        × Shows t (r.0, view r.1)
        × Ahead b view laws consume bytestream_recycle moves r ts
  unfolding Coming Placed step_back Read
  read_one_value-text_of fuel t ts st s out fresh start fits holds inside =
      let spells =
        text_of-Spells (view s).bytes (view s).seod (view s).spos (t ∷ ts) fits holds inside in
      let (r, e, read) =
        read-Ahead b view laws consume bytestream_recycle moves fuel t ts st s
          (start, rw (fresh) (inl (out, spells))) in
      (
        r,
        e,
        read.3,
        read.4,
        (stream_reader-IsReader b view laws consume bytestream_recycle moves fuel).go_on r t ts
            read,
      )
