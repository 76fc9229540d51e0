-- ===== src/Proto/Unpack/Tokens.antt =====
-- What a reader of tokens promises: the laws under which a client of `Reader` works.
use mrksvnup.Base.{ℕ, ◌≡◌, Bool, true, false, List, ◌∷◌, Bytes, some}
use mrksvnup.Proto.Tokenizer.{TokState}
use mrksvnup.Proto.Unpack.{success, Reader}

pub data Token : Type 0 where
  number : ℕ → Token
  word : Bytes → Token
  string : Bytes → Token
  open_list close_list : Token

-- The state of the tokenizer behind a token.
abbrev pub state_of : Token → TokState
state_of (number n) = TokState.num_out
state_of (word w) = TokState.tok_out
state_of (string s) = TokState.string_out
state_of open_list = TokState.list_start
state_of close_list = TokState.list_end

-- A token that is read again as it was when the reader steps back to it. A string is not.
abbrev pub is_steady : Token → Bool
is_steady (string s) = false
is_steady _ = true

-- `Ahead r ts`: the tokens that come next. `At r t ts`: `t` was read last, and `ts` come next.
pub record IsReader (d : Reader) (Ahead : d.R → List Token → Type 0)
    (At : d.R → Token → List Token → Type 0) : Type 0 where
  pub read_lem :
      (r : d.R) (t : Token) (ts : List Token)
      → Ahead r (t ∷ ts)
      → (r' : d.R) × (d.read r ≡ some (success, r')) × At r' t ts
  pub go_on : (r : d.R) (t : Token) (ts : List Token) → At r t ts → Ahead r ts
  pub step_back_lem :
      (r : d.R) (t : Token) (ts : List Token)
      → is_steady t ≡ true
      → At r t ts
      → Ahead (d.step_back r) (t ∷ ts)
  pub tok_lem : (r : d.R) (t : Token) (ts : List Token) → At r t ts → d.tok r ≡ state_of t
  pub number_lem : (r : d.R) (n : ℕ) (ts : List Token) → At r (number n) ts → d.number r ≡ n
  pub word_lem : (r : d.R) (w : Bytes) (ts : List Token) → At r (word w) ts → d.word r ≡ w
  pub chunk_lem : (r : d.R) (s : Bytes) (ts : List Token) → At r (string s) ts → d.chunk r ≡ s
  pub recycle_lem : (r : d.R) (ts : List Token) → Ahead r ts → Ahead (d.recycle r) ts
