-- ===== src/Proto/Unpack/Steps.antt =====
-- The steps of `svnproto_vunpack` on one token: an item that takes it, and one that leaves it.
use mrksvnup.Base.{
  ℕ, suc, ◌<◌, ◌≡◌, refl, ap, ◌∙◌, Bool, true, false, List, ◌∷◌, Bytes, some, arith,
}
use mrksvnup.Proto.Tokenizer.{TokState}
use mrksvnup.Proto.Unpack.{
  Code, success, nomatch, Value, long, text, Reader, is_list_start, is_list_end, Times, once,
  optional, modifier, suppressed, Argument, store, Step, next, stop, Unpacked, unpacked, reading,
}
use mrksvnup.Proto.Unpack.Values.{list_item, value_item, value_read, values_loop, stored}
use mrksvnup.Proto.Unpack.Format.{item, proceed, ended, items_loop}
use mrksvnup.Proto.Unpack.Tokens.{
  Token, number, word, string, open_list, close_list, state_of, IsReader,
}
use mrksvnup.Proto.Unpack.Formats.{
  Kind, numbers, words, strings, letter, fits, value_of, absent_value, error_of, opens, closes,
}
use mrksvnup.Proto.Unpack.Stores.{test_of, test_of-state_of, getter, item-letter}

module _ (d : Reader) (Ahead : d.R → List Token → Type 0) (At : d.R → Token → List Token → Type 0)
    (laws : IsReader d Ahead At) (U : Type 0) where
  -- The token `t` has been read.
  pub reading-success :
      (r r' : d.R) (u : U) (k : d.R → Step d U)
      → d.read r ≡ some (success, r')
      → reading d U r u k ≡ k r'
  unfolding reading
  reading-success r r' u k e = rw (e, reading)

  pub kind_read :
      (k : Kind) (r : d.R) (t : Token) (ts : List Token)
      → At r t ts
      → test_of k (d.tok r) ≡ fits k t
  kind_read k r t ts at = ap (test_of k) (laws.tok_lem r t ts at) ∙ test_of-state_of k t

  getter_read :
      (k : Kind) (r : d.R) (t : Token) (ts : List Token)
      → fits k t ≡ true
      → At r t ts
      → getter d U k r ≡ value_of t
  getter_read numbers r (number n) ts fit at = ap long (laws.number_lem r n ts at)
  getter_read words r (word w) ts fit at = ap text (laws.word_lem r w ts at)
  getter_read strings r (string s) ts fit at = ap text (laws.chunk_lem r s ts at)
  getter_read _ r t ts fit at = absurd (ground arith)

  -- The call ends with `c`, the memory `u`, and the tokens `rest`.
  abbrev pub Ends : Unpacked d U → U → Code → List Token → Type 0
  Ends x u c rest = (r' : d.R) × (x ≡ unpacked c r' u) × Ahead r' rest

  -- A round of the loop over the format.
  pub round_lem :
      (left fuel c : ℕ) (spec spec' : Bytes) (times : Times) (args : List (Argument d U)) (r : d.R)
      (u : U) (step : Step d U)
      → modifier spec ≡ (times, spec')
      → item d U c success fuel times args r u ≡ step
      → items_loop d U (suc left) fuel success (c ∷ spec) args r u
        ≡ proceed d U (λ res' args' r' u'. items_loop d U left fuel res' spec' args' r' u') step
  unfolding items_loop
  round_lem left fuel c spec spec' times args r u step e e' = rw (e, e')

  -- An item of values behind the reading of its first token.
  pub item_read :
      (put : Value → U → U) (k : Kind) (fuel : ℕ) (times : Times) (args : List (Argument d U))
      (r r' : d.R) (u : U)
      → d.read r ≡ some (success, r')
      → item d U (letter k) success fuel times (store (some put) ∷ args) r u
        ≡ value_read d U
            (test_of k)
            (getter d U k)
            (absent_value k)
            (error_of k)
            fuel
            times
            (some put)
            args
            r'
            u
  unfolding value_item
  item_read put k fuel times args r r' u e =
      item-letter d U k fuel times (store (some put) ∷ args) r u ∙ reading-success r r' u _ e

  stored-put :
      (put : Value → U → U) (k : Kind) (r : d.R) (t : Token) (ts : List Token) (u : U)
      → fits k t ≡ true
      → At r t ts
      → stored d U (some put) (getter d U k r) u ≡ put (value_of t) u
  unfolding stored
  stored-put put k r t ts u fit at = ap (λ v. put v u) (getter_read k r t ts fit at)

  pub once_taken :
      (put : Value → U → U) (k : Kind) (fuel : ℕ) (args : List (Argument d U)) (r : d.R) (t : Token)
      (ts : List Token) (u : U)
      → fits k t ≡ true
      → At r t ts
      → value_read d U
          (test_of k)
          (getter d U k)
          (absent_value k)
          (error_of k)
          fuel
          once
          (some put)
          args
          r
          u
        ≡ next success args r (put (value_of t) u)
  unfolding value_read
  once_taken put k fuel args r t ts u fit at =
      rw (kind_read k r t ts at ∙ fit) (ap (next success args r) (stored-put put k r t ts u fit at))

  pub optional_taken :
      (put : Value → U → U) (k : Kind) (fuel : ℕ) (args : List (Argument d U)) (r : d.R) (t : Token)
      (ts : List Token) (u : U)
      → fits k t ≡ true
      → At r t ts
      → value_read d U
          (test_of k)
          (getter d U k)
          (absent_value k)
          (error_of k)
          fuel
          optional
          (some put)
          args
          r
          u
        ≡ next success args r (put (value_of t) u)
  unfolding value_read
  optional_taken put k fuel args r t ts u fit at =
      rw (kind_read k r t ts at ∙ fit) (ap (next success args r) (stored-put put k r t ts u fit at))

  pub once_left :
      (put : Value → U → U) (k : Kind) (fuel : ℕ) (args : List (Argument d U)) (r : d.R) (t : Token)
      (ts : List Token) (u : U)
      → fits k t ≡ false
      → At r t ts
      → value_read d U
          (test_of k)
          (getter d U k)
          (absent_value k)
          (error_of k)
          fuel
          once
          (some put)
          args
          r
          u
        ≡ stop (nomatch (error_of k)) (d.step_back r) u
  unfolding value_read
  once_left put k fuel args r t ts u fit at = rw (kind_read k r t ts at ∙ fit)

  pub optional_left :
      (put : Value → U → U) (k : Kind) (fuel : ℕ) (args : List (Argument d U)) (r : d.R) (t : Token)
      (ts : List Token) (u : U)
      → fits k t ≡ false
      → At r t ts
      → value_read d U
          (test_of k)
          (getter d U k)
          (absent_value k)
          (error_of k)
          fuel
          optional
          (some put)
          args
          r
          u
        ≡ next success args (d.step_back r) (put (absent_value k) u)
  unfolding value_read stored
  optional_left put k fuel args r t ts u fit at = rw (kind_read k r t ts at ∙ fit)

  -- A round of the loop of a run.
  pub run_taken :
      (put : Value → U → U) (k : Kind) (fuel : ℕ) (args : List (Argument d U)) (r r' : d.R)
      (t : Token) (ts : List Token) (u : U)
      → fits k t ≡ true
      → At r t ts
      → d.read r ≡ some (success, r')
      → values_loop d U (test_of k) (getter d U k) (some put) args (suc fuel) r u
        ≡ values_loop d U (test_of k) (getter d U k) (some put) args fuel r' (put (value_of t) u)
  unfolding values_loop
  run_taken put k fuel args r r' t ts u fit at e =
      rw (kind_read k r t ts at ∙ fit, values_loop)
        (reading-success r r' _ _ e
          ∙ ap (values_loop d U (test_of k) (getter d U k) (some put) args fuel r')
              (stored-put put k r t ts u fit at))

  pub run_left :
      (put : Value → U → U) (k : Kind) (fuel : ℕ) (args : List (Argument d U)) (r : d.R) (t : Token)
      (ts : List Token) (u : U)
      → fits k t ≡ false
      → At r t ts
      → values_loop d U (test_of k) (getter d U k) (some put) args (suc fuel) r u
        ≡ next success args (d.step_back r) u
  unfolding values_loop
  run_left put k fuel args r t ts u fit at = rw (kind_read k r t ts at ∙ fit, values_loop)

  -- A round whose item goes on to the next one.
  pub round-next :
      (left fuel c : ℕ) (spec spec' : Bytes) (times : Times) (args args' : List (Argument d U))
      (r r' : d.R) (u u' end : U) (code : Code) (rest : List Token)
      → modifier spec ≡ (times, spec')
      → item d U c success fuel times args r u ≡ next success args' r' u'
      → Ends (items_loop d U left fuel success spec' args' r' u') end code rest
      → Ends (items_loop d U (suc left) fuel success (c ∷ spec) args r u) end code rest
  unfolding proceed
  round-next left fuel c spec spec' times args args' r r' u u' end code rest e step
        (last, ends, ahead) =
      (last, round_lem left fuel c spec spec' times args r u _ e step ∙ ends, ahead)

  -- A round whose item does not match.
  pub round-stop :
      (left fuel c k : ℕ) (spec spec' : Bytes) (times : Times) (args : List (Argument d U))
      (r r' : d.R) (u : U) (rest : List Token)
      → k < 100
      → modifier spec ≡ (times, spec')
      → item d U c success fuel times args r u ≡ stop (nomatch k) r' u
      → Ahead r' rest
      → Ends (items_loop d U (suc left) fuel success (c ∷ spec) args r u) u (nomatch k) rest
  unfolding proceed ended suppressed
  round-stop left fuel c k spec spec' times args r r' u rest small e step ahead =
      (r', round_lem left fuel c spec spec' times args r u _ e step ∙ ground arith, ahead)

  -- A parenthesis.
  pub paren_taken :
      (test : TokState → Bool) (k : ℕ) (args : List (Argument d U)) (r r' : d.R) (t : Token)
      (ts : List Token) (u : U)
      → test (state_of t) ≡ true
      → d.read r ≡ some (success, r')
      → At r' t ts
      → list_item d U test k args r u ≡ next success args r' u
  unfolding list_item
  paren_taken test k args r r' t ts u fit read at =
      reading-success r r' u _ read ∙ rw (ap test (laws.tok_lem r' t ts at) ∙ fit)

  pub paren_left :
      (test : TokState → Bool) (k : ℕ) (args : List (Argument d U)) (r r' : d.R) (t : Token)
      (ts : List Token) (u : U)
      → test (state_of t) ≡ false
      → d.read r ≡ some (success, r')
      → At r' t ts
      → list_item d U test k args r u ≡ stop (nomatch k) (d.step_back r') u
  unfolding list_item
  paren_left test k args r r' t ts u fit read at =
      reading-success r r' u _ read ∙ rw (ap test (laws.tok_lem r' t ts at) ∙ fit)

pub opens-state_of : (t : Token) → is_list_start (state_of t) ≡ opens t
opens-state_of open_list = refl
opens-state_of _ = refl

pub closes-state_of : (t : Token) → is_list_end (state_of t) ≡ closes t
closes-state_of close_list = refl
closes-state_of _ = refl
