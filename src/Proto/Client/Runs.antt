-- ===== src/Proto/Client/Runs.antt =====
-- Conversations at concrete inputs, with a server whose text stands in a buffer that
-- `read_one_value` reads.
use mrksvnup.Base.{
  ℕ, ◌≡◌, refl, false, List, [], ◌∷◌, Bytes, codes, equal, ℤ, pos, negsuc, some, arith,
}
use mrksvnup.Proto.Unpack.{success, other, Value, long, unpacked}
use mrksvnup.Proto.Unpack.Tokens.{Token, number, word, open_list, close_list}
use mrksvnup.Proto.Unpack.Formats.{
  Item, open_item, close_item, one, numbers, spec_text, finished, opened, closed, taken, not_taken,
}
use mrksvnup.Proto.Unpack.Stores.{arguments, stores}
use mrksvnup.Proto.Stream.{View, views}
use mrksvnup.Proto.Tokenizer.{State, is_word}
use mrksvnup.Proto.Reader.Texts.{
  all_fit, no_data, moved_down, buffer_reader, AheadBuffer, AtBuffer, buffer_reader-IsReader,
  from_tokens, from_tokens-Ahead, stream_reader-ne-nomatch,
}
use mrksvnup.Proto.Requests.Runs.{endless, endless-IsOutput}
use mrksvnup.Util.Kinds.{svnc_kind2int}
use mrksvnup.Proto.Client.{cleared, long_of, Held, Peer, Ctx}
use mrksvnup.Proto.Client.Response.{svnproto_command_response}
use mrksvnup.Proto.Client.Auth.{svnproto_check_auth}
use mrksvnup.Proto.Client.Commands.{svnproto_check_path, svnproto_get_latest_rev}
use mrksvnup.Proto.Client.Values.{
  on_mine, svnproto_command_response-success, svnproto_command_response-mismatch,
}
use mrksvnup.Proto.Client.Errors.{
  ServerError, error_rows, last_error_of, failure_code, svnproto_command_response-failure,
}
use mrksvnup.Proto.Client.Listing.{svnproto_get_dir}
use mrksvnup.Proto.Client.NoListing.{has_returned_0, svnproto_get_dir-ne-success}
use mrksvnup.Proto.Client.Endings.{Ended}
use mrksvnup.Proto.Client.Offers.{word_row, challenges, exchange, offered}
use mrksvnup.Proto.Client.Login.{svnproto_check_auth-Ended}
use mrksvnup.Proto.Client.Conversations.{
  reply, svnproto_get_latest_rev-Ended, svnproto_check_path-Ended,
}

-- The server, which takes all that it is sent.
abbrev pub server : Peer
server = record {
  output = endless;
  reader = buffer_reader;
  produce = λ out. some out;
  rewind = λ out. [];
  fuel = 100;
}

abbrev pub client : List Token → Ctx server
client ts = record { out = []; inp = from_tokens ts; auth_mech_ok = false; last_error = cleared }

-- "(n)", into a variable.
abbrev number_items : List Item
number_items = open_item ∷ one numbers ∷ close_item ∷ []

abbrev number_put : ℕ → Value → ℤ → ℤ
number_put i v rev = long_of v

abbrev parameters : List Token
parameters = open_list ∷ number 7 ∷ close_list ∷ close_list ∷ []

svnproto_command_response-success_example :
    (r' : State × View) × (svnproto_command_response buffer_reader 100 ℤ
        (spec_text number_items)
        (arguments buffer_reader (Held ℤ) number_items (on_mine number_put))
        (from_tokens (open_list ∷ word (codes "success") ∷ parameters))
        (pos 0)
      ≡ unpacked success r'
          (record { last_error = cleared; mine = stores number_put ((long 7 ∷ []) ∷ []) (pos 0) }))
    × AheadBuffer r' []
unfolding all_fit is_word
svnproto_command_response-success_example =
    svnproto_command_response-success buffer_reader AheadBuffer AtBuffer buffer_reader-IsReader
      number_items number_put parameters ((long 7 ∷ []) ∷ []) [] 100
      (from_tokens (open_list ∷ word (codes "success") ∷ parameters)) (pos 0)
      (from_tokens-Ahead (open_list ∷ word (codes "success") ∷ parameters) refl) (omega arith)
      (opened (taken refl (closed finished)))

-- A list without a number.
svnproto_command_response-mismatch_example :
    (r' : State × View) × (svnproto_command_response buffer_reader 100 ℤ
        (spec_text number_items)
        (arguments buffer_reader (Held ℤ) number_items (on_mine number_put))
        (from_tokens
          (open_list ∷ word (codes "success") ∷ open_list ∷ close_list ∷ close_list ∷ []))
        (pos 0)
      ≡ unpacked
          (other 3)
          r'
          (record { last_error = cleared; mine = stores number_put [] (pos 0) }))
    × AheadBuffer r' (close_list ∷ close_list ∷ [])
unfolding all_fit is_word
svnproto_command_response-mismatch_example =
    svnproto_command_response-mismatch buffer_reader AheadBuffer AtBuffer buffer_reader-IsReader
      number_items number_put (open_list ∷ close_list ∷ close_list ∷ []) [] 3
      (close_list ∷ close_list ∷ []) 100
      (from_tokens (open_list ∷ word (codes "success") ∷ open_list ∷ close_list ∷ close_list ∷ []))
      (pos 0)
      (from_tokens-Ahead
        (open_list ∷ word (codes "success") ∷ open_list ∷ close_list ∷ close_list ∷ []) refl)
      (omega arith) (opened (not_taken refl refl))

abbrev no_revision : ServerError
no_revision = record {
  code = 160006;
  message = codes "No such revision 9";
  file = codes "tree.c";
  line = 12;
}

abbrev failure : List Token
failure =
    open_list
    ∷ word (codes "failure")
    ∷ open_list
    ∷ error_rows (no_revision ∷ []) (close_list ∷ close_list ∷ [])

svnproto_command_response-failure_example :
    (r' : State × View) × (svnproto_command_response buffer_reader 100 ℤ
        (codes "(n)")
        []
        (from_tokens failure)
        (pos 0)
      ≡ unpacked
          (failure_code (no_revision ∷ []))
          r'
          (record { last_error = last_error_of (no_revision ∷ []) cleared; mine = pos 0 }))
    × AheadBuffer r' []
unfolding error_rows all_fit is_word
svnproto_command_response-failure_example =
    svnproto_command_response-failure buffer_reader AheadBuffer AtBuffer buffer_reader-IsReader ℤ
      (no_revision ∷ []) [] (codes "(n)") [] 100 (from_tokens failure) (pos 0)
      (from_tokens-Ahead failure refl) (omega arith)

abbrev pub mechanisms : List Bytes
mechanisms = codes "CRAM-MD5" ∷ codes "ANONYMOUS" ∷ []

abbrev pub login : List Token → List Token
login ts = exchange mechanisms (codes "svn") ts

svnproto_check_auth-Ended_example :
    Ended server
      (svnproto_check_auth server (client (login [])) (pos 0))
      (λ c' a'. (a' ≡ pos 0) × AheadBuffer c'.inp [] × (c'.auth_mech_ok ≡ offered mechanisms false))
unfolding word_row challenges equal all_fit is_word
svnproto_check_auth-Ended_example =
    svnproto_check_auth-Ended server (λ out. out) endless-IsOutput AheadBuffer AtBuffer
      buffer_reader-IsReader mechanisms (codes "svn") [] (client (login [])) (pos 0)
      (from_tokens-Ahead (login []) refl) (omega arith)

svnproto_get_latest_rev-Ended_example :
    Ended server
      (svnproto_get_latest_rev server (client (login (reply (number 42) []))) (negsuc 0))
      (λ c' rev'. (rev' ≡ pos 42) × AheadBuffer c'.inp [])
unfolding word_row challenges equal all_fit is_word
svnproto_get_latest_rev-Ended_example =
    svnproto_get_latest_rev-Ended server (λ out. out) endless-IsOutput AheadBuffer AtBuffer
      buffer_reader-IsReader mechanisms (codes "svn") 42 [] (client (login (reply (number 42) [])))
      (negsuc 0) (from_tokens-Ahead (login (reply (number 42) [])) refl) (omega arith)

svnproto_check_path-Ended_example :
    Ended server
      (svnproto_check_path server
        (codes "trunk")
        (pos 42)
        (client (login (reply (word (codes "dir")) [])))
        0)
      (λ c' kind'. (kind' ≡ svnc_kind2int (some (codes "dir"))) × AheadBuffer c'.inp [])
unfolding word_row challenges equal all_fit is_word
svnproto_check_path-Ended_example =
    svnproto_check_path-Ended server (λ out. out) endless-IsOutput AheadBuffer AtBuffer
      buffer_reader-IsReader (codes "trunk") 42 mechanisms (codes "svn") (codes "dir") []
      (client (login (reply (word (codes "dir")) []))) 0 (omega arith)
      (from_tokens-Ahead (login (reply (word (codes "dir")) [])) refl) (omega arith)

-- An empty directory at revision 5.
abbrev empty_listing : List Token
empty_listing =
    open_list
    ∷ number 5
    ∷ open_list
    ∷ close_list
    ∷ open_list
    ∷ close_list
    ∷ open_list
    ∷ close_list
    ∷ close_list
    ∷ close_list
    ∷ []

svnproto_get_dir-ne-success_example :
    has_returned_0 (
      svnproto_get_dir server
        (pos 0)
        (codes "trunk")
        (pos 5)
        (client (login (open_list ∷ word (codes "success") ∷ empty_listing)))
        [])
    ≡ false
unfolding word_row challenges equal all_fit is_word
svnproto_get_dir-ne-success_example =
    svnproto_get_dir-ne-success server (λ out. out) endless-IsOutput AheadBuffer AtBuffer
      buffer_reader-IsReader (pos 0) (codes "trunk") (pos 5) mechanisms (codes "svn") empty_listing
      (client (login (open_list ∷ word (codes "success") ∷ empty_listing))) []
      (stream_reader-ne-nomatch views no_data moved_down 1)
      (from_tokens-Ahead (login (open_list ∷ word (codes "success") ∷ empty_listing)) refl)
      (omega arith)
