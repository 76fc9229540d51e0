-- ===== src/Proto/Unpack/Formats.antt =====
-- The formats of values as data, and what they say of a row of tokens.
use mrksvnup.Base.{ℕ, ◌≡◌, Bool, true, false, List, [], ◌∷◌, Bytes, refl}
use mrksvnup.Proto.Unpack.{Code, success, nomatch, Value, long, null, text, once, modifier}
use mrksvnup.Proto.Unpack.Tokens.{Token, number, word, string, open_list, close_list, is_steady}

pub data Kind : Type 0 where
  numbers words strings : Kind

-- Items of a format: a parenthesis, one value, a value that may be absent, a run of values.
pub data Item : Type 0 where
  open_item close_item : Item
  one maybe run : Kind → Item

abbrev pub letter : Kind → ℕ
letter numbers = b'n'
letter words = b'w'
letter strings = b's'

-- The text of a format.
unfoldable pub spec_text : List Item → Bytes
spec_text [] = []
spec_text (open_item ∷ is) = b'(' ∷ spec_text is
spec_text (close_item ∷ is) = b')' ∷ spec_text is
spec_text (one k ∷ is) = letter k ∷ spec_text is
spec_text (maybe k ∷ is) = letter k ∷ b'?' ∷ spec_text is
spec_text (run k ∷ is) = letter k ∷ b'*' ∷ spec_text is

-- A token of a kind, and the value that it stores.
abbrev pub fits : Kind → Token → Bool
fits numbers (number n) = true
fits words (word w) = true
fits strings (string s) = true
fits _ _ = false

abbrev pub value_of : Token → Value
value_of (number n) = long n
value_of (word w) = text w
value_of (string s) = text s
value_of _ = null

abbrev pub absent_value : Kind → Value
absent_value numbers = long 0
absent_value _ = null

abbrev pub error_of : Kind → ℕ
error_of numbers = 3
error_of words = 4
error_of strings = 5

abbrev pub opens : Token → Bool
opens open_list = true
opens _ = false

abbrev pub closes : Token → Bool
closes close_list = true
closes _ = false

-- `Reads is ts groups code rest`: the items `is`, on the tokens `ts`, store the values `groups`, a
-- list for each item of values that is reached, and end with `code`, and the tokens `rest` come
-- next. A token that does not fit is not taken.
pub data Reads : List Item → List Token → List (List Value) → Code → List Token → Type 0 where
  finished : {ts : List Token} → Reads [] ts [] success ts
  opened :
      {is : List Item} {ts rest : List Token} {vs : List (List Value)} {c : Code}
      → Reads is ts vs c rest
      → Reads (open_item ∷ is) (open_list ∷ ts) vs c rest
  closed :
      {is : List Item} {ts rest : List Token} {vs : List (List Value)} {c : Code}
      → Reads is ts vs c rest
      → Reads (close_item ∷ is) (close_list ∷ ts) vs c rest
  not_opened :
      {is : List Item} {t : Token} {ts : List Token}
      → opens t ≡ false
      → is_steady t ≡ true
      → Reads (open_item ∷ is) (t ∷ ts) [] (nomatch 1) (t ∷ ts)
  not_closed :
      {is : List Item} {t : Token} {ts : List Token}
      → closes t ≡ false
      → is_steady t ≡ true
      → Reads (close_item ∷ is) (t ∷ ts) [] (nomatch 2) (t ∷ ts)
  taken :
      {k : Kind} {is : List Item} {t : Token} {ts rest : List Token} {vs : List (List Value)}
      {c : Code}
      → fits k t ≡ true
      → Reads is ts vs c rest
      → Reads (one k ∷ is) (t ∷ ts) ((value_of t ∷ []) ∷ vs) c rest
  not_taken :
      {k : Kind} {is : List Item} {t : Token} {ts : List Token}
      → fits k t ≡ false
      → is_steady t ≡ true
      → Reads (one k ∷ is) (t ∷ ts) [] (nomatch (error_of k)) (t ∷ ts)
  present :
      {k : Kind} {is : List Item} {t : Token} {ts rest : List Token} {vs : List (List Value)}
      {c : Code}
      → fits k t ≡ true
      → Reads is ts vs c rest
      → Reads (maybe k ∷ is) (t ∷ ts) ((value_of t ∷ []) ∷ vs) c rest
  absent :
      {k : Kind} {is : List Item} {t : Token} {ts rest : List Token} {vs : List (List Value)}
      {c : Code}
      → fits k t ≡ false
      → is_steady t ≡ true
      → Reads is (t ∷ ts) vs c rest
      → Reads (maybe k ∷ is) (t ∷ ts) ((absent_value k ∷ []) ∷ vs) c rest
  more :
      {k : Kind} {is : List Item} {t : Token} {ts rest : List Token} {g : List Value}
      {vs : List (List Value)} {c : Code}
      → fits k t ≡ true
      → Reads (run k ∷ is) ts (g ∷ vs) c rest
      → Reads (run k ∷ is) (t ∷ ts) ((value_of t ∷ g) ∷ vs) c rest
  no_more :
      {k : Kind} {is : List Item} {t : Token} {ts rest : List Token} {vs : List (List Value)}
      {c : Code}
      → fits k t ≡ false
      → is_steady t ≡ true
      → Reads is (t ∷ ts) vs c rest
      → Reads (run k ∷ is) (t ∷ ts) ([] ∷ vs) c rest

-- No item begins with a modifier.
pub modifier-spec_text : (is : List Item) → modifier (spec_text is) ≡ (once, spec_text is)
unfolding modifier spec_text
modifier-spec_text [] = refl
modifier-spec_text (open_item ∷ is) = refl
modifier-spec_text (close_item ∷ is) = refl
modifier-spec_text (one numbers ∷ is) = refl
modifier-spec_text (one words ∷ is) = refl
modifier-spec_text (one strings ∷ is) = refl
modifier-spec_text (maybe numbers ∷ is) = refl
modifier-spec_text (maybe words ∷ is) = refl
modifier-spec_text (maybe strings ∷ is) = refl
modifier-spec_text (run numbers ∷ is) = refl
modifier-spec_text (run words ∷ is) = refl
modifier-spec_text (run strings ∷ is) = refl
