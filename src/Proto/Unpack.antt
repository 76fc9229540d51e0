-- ===== src/Proto/Unpack.antt =====
-- `svnproto_vunpack` of src/svnproto_unpack.c: values read by a format. A format is a string of
-- items: parentheses, n (number), w (word), s (string), S (a callback for a string) and r (a callback
-- that reads by itself), each of the last five with `?` or `*` behind it or not.
pub mod Values
pub mod Calls
pub mod Format
pub mod Tokens
pub mod Formats
pub mod Stores
pub mod Steps
pub mod Repeats
pub mod Matches
pub mod Rounds
pub mod Nested
pub mod Runs
use mrksvnup.Base.{
  ℕ, zero, suc, ◌+◌, ◌==◌, Bool, true, false, ◌||◌, if◌then◌else◌, List, [], ◌∷◌, Bytes, length,
  Option, none, some,
}
use mrksvnup.Proto.Tokenizer.{TokState}

-- A result code: 0, `SVNPROTO_VUNPACK + k`, and a code of another class.
pub data Code : Type 0 where
  success : Code
  nomatch : ℕ → Code
  other : ℕ → Code

-- What is stored through the pointers of the argument list.
pub data Value : Type 0 where
  long : ℕ → Value
  null : Value
  text : Bytes → Value

-- The stream and the tokenizer's state, as the function uses them; Proto.Reader.Spelled has the ones
-- of the source, and Proto.Reader.Laws shows that they keep the laws (IsReader). They are: `read_one_value`, whose result is
-- `none` where it does not end; the state of the tokenizer; `st->i`; the string at `r.start`; the
-- bytes of the range `r`; `st->backtrack = 1`; and what follows an item `r`, the recycling of the
-- buffer.
pub record Reader : Type 1 where
  pub R : Type 0
  pub read : R → Option (Code × R)
  pub tok : R → TokState
  pub number : R → ℕ
  pub word : R → Bytes
  pub chunk : R → Bytes
  pub step_back : R → R
  pub recycle : R → R

abbrev pub is_num_out : TokState → Bool
is_num_out TokState.num_out = true
is_num_out _ = false

abbrev pub is_tok_out : TokState → Bool
is_tok_out TokState.tok_out = true
is_tok_out _ = false

abbrev pub is_string_out : TokState → Bool
is_string_out TokState.string_out = true
is_string_out _ = false

abbrev pub is_list_start : TokState → Bool
is_list_start TokState.list_start = true
is_list_start _ = false

abbrev pub is_list_end : TokState → Bool
is_list_end TokState.list_end = true
is_list_end _ = false

-- What stands behind the letter of an item.
pub data Times : Type 0 where
  once optional many : Times

-- `ch1`, and the format behind the item.
unfoldable pub modifier : Bytes → Times × Bytes
modifier [] = (once, [])
modifier (c ∷ spec) =
    if c == b'?' then (optional, spec) else if c == b'*' then (many, spec) else (once, c ∷ spec)

-- `res` at the end: two codes by which a callback ends its item are no errors.
unfoldable pub suppressed : Code → Code
suppressed success = success
suppressed (nomatch k) = if k == 100 || k == 101 then success else nomatch k
suppressed (other k) = other k

-- A caller's memory is a type `U`, which the stores and the callbacks change.
module _ (d : Reader) (U : Type 0) where
  open d use {R, read, tok, step_back, recycle}

  -- An argument: a pointer to a variable or to an array, where a store writes or appends, or a
  -- callback with its `udata`. Each may be NULL. An array takes values as its item reads them.
  pub data Argument : Type 0 where
    store : Option (Value → U → U) → Argument
    callback : Option (R → U → Option (Code × R × U)) → Argument

  -- How an item ends: with the next one, or at `END`; `fault` is an argument that is not there, or of
  -- another kind, and `stuck` is a loop of the model without fuel, or a call that does not end.
  pub data Step : Type 0 where
    next : Code → List Argument → R → U → Step
    stop : Code → R → U → Step
    fault stuck : Step

  -- How the call ends.
  pub data Unpacked : Type 0 where
    unpacked : Code → R → U → Unpacked
    fault stuck : Unpacked

  -- `if ((res = read_one_value(ctx->fd, in, st)) != 0) goto END;`
  unfoldable pub reading : R → U → (R → Step) → Step
  reading r u then_ = elim (read r) [
    | none ↦ stuck
    | some (success, r') ↦ then_ r'
    | some (nomatch k, r') ↦ stop (nomatch k) r' u
    | some (other k, r') ↦ stop (other k) r' u
  ]
