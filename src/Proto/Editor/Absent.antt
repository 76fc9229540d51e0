-- ===== src/Proto/Editor/Absent.antt =====
-- Parameters of commands that may be absent.
use mrksvnup.Base.{ℕ, ◌≡◌, refl, List, [], ◌∷◌, Bytes, Option, none, some}
use mrksvnup.Proto.Unpack.{long, null, text, success, Value}
use mrksvnup.Proto.Unpack.Tokens.{Token, close_list}
use mrksvnup.Proto.Unpack.Formats.{Item, maybe, numbers, strings, Reads, present, absent}
use mrksvnup.Proto.Client.{long_of, text_of}
use mrksvnup.Proto.Editor.Edits.{maybe_number, maybe_string, maybe_copy}
use mrksvnup.Proto.Editor.Meaning.{revision_of}

-- What an item stores for a number, a string or a copy that may be absent.
abbrev pub number_value : Option ℕ → Value
number_value none = long 0
number_value (some n) = long n

abbrev pub string_value : Option Bytes → Value
string_value none = null
string_value (some s) = text s

abbrev pub copy_path_value : Option (Bytes × ℕ) → Value
copy_path_value none = null
copy_path_value (some copy) = text copy.0

abbrev pub copy_rev_value : Option (Bytes × ℕ) → Value
copy_rev_value none = long 0
copy_rev_value (some copy) = long copy.1

-- Each in front of the end of a list.
pub number_or_end :
    {is : List Item} {ts rest : List Token} {vs : List (List Value)} (n : Option ℕ)
    → Reads is (close_list ∷ ts) vs success rest
    → Reads
        (maybe numbers ∷ is)
        (maybe_number n (close_list ∷ ts))
        ((number_value n ∷ []) ∷ vs)
        success
        rest
number_or_end none reads = absent refl refl reads
number_or_end (some n) reads = present refl reads

pub string_or_end :
    {is : List Item} {ts rest : List Token} {vs : List (List Value)} (s : Option Bytes)
    → Reads is (close_list ∷ ts) vs success rest
    → Reads
        (maybe strings ∷ is)
        (maybe_string s (close_list ∷ ts))
        ((string_value s ∷ []) ∷ vs)
        success
        rest
string_or_end none reads = absent refl refl reads
string_or_end (some s) reads = present refl reads

pub copy_or_end :
    {is : List Item} {ts rest : List Token} {vs : List (List Value)} (copy : Option (Bytes × ℕ))
    → Reads is (close_list ∷ ts) vs success rest
    → Reads
        (maybe strings ∷ maybe numbers ∷ is)
        (maybe_copy copy (close_list ∷ ts))
        ((copy_path_value copy ∷ []) ∷ (copy_rev_value copy ∷ []) ∷ vs)
        success
        rest
copy_or_end none reads = absent refl refl (absent refl refl reads)
copy_or_end (some (path, rev)) reads = present refl (present refl reads)

pub long_of-number_value : (n : Option ℕ) → long_of (number_value n) ≡ revision_of n
long_of-number_value none = refl
long_of-number_value (some n) = refl

pub text_of-string_value : (s : Option Bytes) → text_of (string_value s) ≡ s
text_of-string_value none = refl
text_of-string_value (some s) = refl
