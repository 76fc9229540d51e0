-- ===== src/Proto/Unpack/Runs.antt =====
-- Concrete runs of `svnproto_vunpack`, on a buffer that `read_one_value` reads.
use mrksvnup.Base.{ℕ, ◌≡◌, refl, List, [], ◌∷◌, ◌++◌, arith}
use mrksvnup.Proto.Unpack.{success, Value, long, null, unpacked}
use mrksvnup.Proto.Unpack.Tokens.{Token, number, open_list, close_list}
use mrksvnup.Proto.Unpack.Formats.{
  Item, open_item, close_item, one, maybe, run, numbers, words, spec_text, Reads, finished, opened,
  closed, taken, absent, more, no_more,
}
use mrksvnup.Proto.Stream.{View}
use mrksvnup.Proto.Tokenizer.{State, is_word}
use mrksvnup.Proto.Reader.Texts.{
  all_fit, buffer_reader, AheadBuffer, AtBuffer, buffer_reader-IsReader, from_tokens,
  from_tokens-Ahead,
}
use mrksvnup.Proto.Unpack.Format.{svnproto_vunpack}
use mrksvnup.Proto.Unpack.Stores.{arguments, stores}
use mrksvnup.Proto.Unpack.Matches.{svnproto_vunpack-Reads}

-- "(nw?n*)" on "( 7 8 9 )".
abbrev items : List Item
items = open_item ∷ one numbers ∷ maybe words ∷ run numbers ∷ close_item ∷ []

abbrev tokens : List Token
tokens = open_list ∷ number 7 ∷ number 8 ∷ number 9 ∷ close_list ∷ []

abbrev groups : List (List Value)
groups = (long 7 ∷ []) ∷ (null ∷ []) ∷ (long 8 ∷ long 9 ∷ []) ∷ []

items_Reads : Reads items tokens groups success []
items_Reads =
    opened
      (taken refl (absent refl refl (more refl (more refl (no_more refl refl (closed finished))))))

-- Each store appends its value, with its place among the arguments.
abbrev puts : ℕ → Value → List (ℕ × Value) → List (ℕ × Value)
puts i v u = u ++ (i, v) ∷ []

svnproto_vunpack-Reads_example :
    (r' : State × View) × (svnproto_vunpack buffer_reader
        (List (ℕ × Value))
        5
        (spec_text items)
        (arguments buffer_reader (List (ℕ × Value)) items puts)
        (from_tokens tokens)
        []
      ≡ unpacked success r' (stores puts groups []))
    × AheadBuffer r' []
unfolding all_fit is_word
svnproto_vunpack-Reads_example =
    svnproto_vunpack-Reads buffer_reader AheadBuffer AtBuffer buffer_reader-IsReader
      (List (ℕ × Value)) items puts tokens groups success [] 5 (from_tokens tokens) [] items_Reads
      (from_tokens-Ahead tokens refl) (omega arith)
