-- ===== src/Proto/Unpack/Stores.antt =====
-- The arguments of a format that stores values, and what the stores do.
use mrksvnup.Base.{ℕ, suc, ◌≡◌, refl, Bool, List, [], ◌∷◌, some}
use mrksvnup.Proto.Tokenizer.{TokState}
use mrksvnup.Proto.Unpack.{
  success, Value, long, text, Reader, is_num_out, is_tok_out, is_string_out, Times, Argument, store,
}
use mrksvnup.Proto.Unpack.Values.{number_item, word_item, string_item, value_item}
use mrksvnup.Proto.Unpack.Format.{item}
use mrksvnup.Proto.Unpack.Tokens.{Token, number, word, string, state_of}
use mrksvnup.Proto.Unpack.Formats.{
  Kind, numbers, words, strings, Item, open_item, close_item, one, maybe, run, letter, fits,
  absent_value, error_of,
}

abbrev pub test_of : Kind → TokState → Bool
test_of numbers = is_num_out
test_of words = is_tok_out
test_of strings = is_string_out

pub test_of-state_of : (k : Kind) (t : Token) → test_of k (state_of t) ≡ fits k t
test_of-state_of numbers (number n) = refl
test_of-state_of words (word w) = refl
test_of-state_of strings (string s) = refl
test_of-state_of _ _ = refl

-- What the stores behind the first one do.
abbrev pub later : {U : Type 0} → (ℕ → Value → U → U) → ℕ → Value → U → U
later puts i = puts (suc i)

-- The values that one store has written, in order.
unfoldable pub written : {U : Type 0} → (Value → U → U) → List Value → U → U
written put [] u = u
written put (v ∷ vs) u = written put vs (put v u)

-- A group of values for each store, in order.
unfoldable pub stores : {U : Type 0} → (ℕ → Value → U → U) → List (List Value) → U → U
unfolding written
stores puts [] u = u
stores puts (g ∷ gs) u = stores (later puts) gs (written (puts 0) g u)

module _ (d : Reader) (U : Type 0) where
  -- An argument for each item of values: a store of `puts`.
  abbrev pub arguments : List Item → (ℕ → Value → U → U) → List (Argument d U)
  arguments [] puts = []
  arguments (open_item ∷ is) puts = arguments is puts
  arguments (close_item ∷ is) puts = arguments is puts
  arguments (one k ∷ is) puts = store (some (puts 0)) ∷ arguments is (later puts)
  arguments (maybe k ∷ is) puts = store (some (puts 0)) ∷ arguments is (later puts)
  arguments (run k ∷ is) puts = store (some (puts 0)) ∷ arguments is (later puts)

  abbrev pub getter : Kind → d.R → Value
  getter numbers r = long (d.number r)
  getter words r = text (d.word r)
  getter strings r = text (d.chunk r)

  pub item-letter :
      (k : Kind) (fuel : ℕ) (times : Times) (args : List (Argument d U)) (r : d.R) (u : U)
      → item d U (letter k) success fuel times args r u
        ≡ value_item d U (test_of k) (getter k) (absent_value k) (error_of k) fuel times args r u
  unfolding item number_item word_item string_item
  item-letter numbers fuel times args r u = refl
  item-letter words fuel times args r u = refl
  item-letter strings fuel times args r u = refl
