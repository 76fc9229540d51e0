-- ===== src/Proto/Client/Offers.antt =====
-- The tokens of an authentication.
use mrksvnup.Base.{
  ℕ, zero, suc, ◌+◌, ◌<◌, ◌≤◌, ◌≡◌, refl, sym, ap, ◌∙◌, Bool, true, false, if◌then◌else◌, List, [],
  ◌∷◌, ◌++◌, Bytes, codes, equal, length, arith,
}
use mathlib.Core.List.{append_assoc, append-nil}
use mrksvnup.Proto.Unpack.{success, Value, text}
use mrksvnup.Proto.Unpack.Tokens.{Token, word, string, open_list, close_list}
use mrksvnup.Proto.Unpack.Formats.{
  Item, open_item, close_item, one, run, words, strings, Reads, more, no_more,
}
use mrksvnup.Proto.Unpack.Stores.{written}
use mrksvnup.Proto.Client.{text_of}
use mrksvnup.Proto.Client.Auth.{array_add, AuthRequest}

-- Words in a row.
unfoldable pub word_row : List Bytes → List Token → List Token
word_row [] ts = ts
word_row (w ∷ ws) ts = word w ∷ word_row ws ts

unfoldable pub texts : List Bytes → List Value
texts [] = []
texts (w ∷ ws) = text w ∷ texts ws

-- A run of words in front of the end of a list.
pub run-word_row :
    (is : List Item) (ws : List Bytes) (ts : List Token) (vs : List (List Value))
    (rest : List Token)
    → Reads is (close_list ∷ ts) vs success rest
    → Reads (run words ∷ is) (word_row ws (close_list ∷ ts)) (texts ws ∷ vs) success rest
unfolding word_row texts
run-word_row is [] ts vs rest reads = no_more refl refl reads
run-word_row is (w ∷ ws) ts vs rest reads = more refl (run-word_row is ws ts vs rest reads)

-- The server's offer of mechanisms.
abbrev pub offer : List Bytes → Bytes → List Token → List Token
offer mechs realm ts =
    open_list
    ∷ word (codes "success")
    ∷ open_list
    ∷ open_list
    ∷ word_row mechs (close_list ∷ string realm ∷ close_list ∷ close_list ∷ ts)

-- A challenge without a token.
abbrev pub challenge : List Token → List Token
challenge ts = open_list ∷ word (codes "success") ∷ open_list ∷ close_list ∷ close_list ∷ ts

abbrev pub is_anonymous : Bytes → Bool
is_anonymous mech = equal mech (codes "ANONYMOUS")

-- A challenge for each time that the mechanism ANONYMOUS has been offered.
unfoldable pub challenges : List Bytes → List Token → List Token
challenges [] ts = ts
challenges (mech ∷ mechs) ts =
    let more_ts = challenges mechs ts in if is_anonymous mech then challenge more_ts else more_ts

-- The flag behind the mechanisms, when it is `b` before.
unfoldable pub offered : List Bytes → Bool → Bool
offered [] b = b
offered (mech ∷ mechs) b = offered mechs (if is_anonymous mech then true else b)

-- The stores of `auth_mechs` and `realm`.
abbrev pub auth_puts : ℕ → Value → AuthRequest → AuthRequest
auth_puts zero v m = record m { auth_mechs = array_add v m.auth_mechs }
auth_puts (suc i) v m = record m { realm = text_of v }

pub written-auth_puts :
    (ws : List Bytes) (m : AuthRequest)
    → written (auth_puts 0) (texts ws) m ≡ record m { auth_mechs = m.auth_mechs ++ ws }
unfolding written texts
written-auth_puts [] m = ap (λ ws. record m { auth_mechs = ws }) (sym (append-nil m.auth_mechs))
written-auth_puts (w ∷ ws) m =
    written-auth_puts ws (record m { auth_mechs = m.auth_mechs ++ w ∷ [] })
    ∙ ap (λ ws. record m { auth_mechs = ws }) (append_assoc m.auth_mechs (w ∷ []) ws)

pub length-word_row :
    (ws : List Bytes) (ts : List Token) → length (word_row ws ts) ≡ length ws + length ts
unfolding word_row
length-word_row [] ts = omega arith
length-word_row (w ∷ ws) ts = let ih = length-word_row ws ts in omega arith

pub length-challenged :
    (b : Bool) (ts ts' : List Token)
    → length ts ≤ length ts'
    → length ts ≤ length (if b then challenge ts' else ts')
length-challenged true ts ts' le = omega arith
length-challenged false ts ts' le = le

pub length-challenges :
    (mechs : List Bytes) (ts : List Token) → length ts ≤ length (challenges mechs ts)
unfolding challenges
length-challenges [] ts = omega arith
length-challenges (mech ∷ mechs) ts =
    length-challenged (is_anonymous mech) ts (challenges mechs ts) (length-challenges mechs ts)

-- The exchange of an authentication: the offer, and the challenges.
abbrev pub exchange : List Bytes → Bytes → List Token → List Token
exchange mechs realm ts = offer mechs realm (challenges mechs ts)

pub length-exchange :
    (mechs : List Bytes) (realm : Bytes) (ts : List Token)
    → length ts < length (exchange mechs realm ts)
length-exchange mechs realm ts =
    let left = challenges mechs ts in
    omega (
      arith,
      length-challenges mechs ts,
      length-word_row mechs (close_list ∷ string realm ∷ close_list ∷ close_list ∷ left),
    )

abbrev pub offer_items : List Item
offer_items = open_item ∷ open_item ∷ run words ∷ close_item ∷ one strings ∷ close_item ∷ []
