-- ===== src/Proto/Client/Conversations.antt =====
-- Requests with their replies.
use mrksvnup.Base.{
  ℕ, ◌<◌, ◌≤◌, ◌^◌, ◌≡◌, inr, refl, ap, List, [], ◌∷◌, Bytes, codes, ℤ, pos, none, some, length,
  arith,
}
use mrksvnup.Proto.Pack.{IsOutput}
use mrksvnup.Proto.Unpack.{long, text}
use mrksvnup.Proto.Unpack.Tokens.{Token, number, word, open_list, close_list, IsReader}
use mrksvnup.Proto.Unpack.Formats.{
  open_item, close_item, one, numbers, words, spec_text, finished, opened, closed, taken,
}
use mrksvnup.Proto.Unpack.Stores.{written, stores}
use mrksvnup.Util.Kinds.{svnc_kind2int}
use mrksvnup.Proto.Requests.Grammar
use mrksvnup.Proto.Client.{long_of, text_of, Peer, Ctx, rewound}
use mrksvnup.Proto.Client.Commands.{svnproto_check_path, svnproto_get_latest_rev}
use mrksvnup.Proto.Client.Endings.{Ended, checked_call-Ended, sending-Ended, respond-Ended}
use mrksvnup.Proto.Client.Offers.{exchange, length-exchange}
use mrksvnup.Proto.Client.Login.{svnproto_check_auth-Ended}

-- A response of success with a list of one parameter.
abbrev pub reply : Token → List Token → List Token
reply t ts = open_list ∷ word (codes "success") ∷ open_list ∷ t ∷ close_list ∷ close_list ∷ ts

module _ (p : Peer) (text_in : p.output.Out → Bytes) (lawful : IsOutput p.output text_in)
    (Ahead : p.reader.R → List Token → Type 0) (At : p.reader.R → Token → List Token → Type 0)
    (laws : IsReader p.reader Ahead At) where
  -- Where the tokens that come next are the exchange of an authentication and then a response of
  -- success with a number: `svnproto_get_latest_rev` ends with an error of the output side, or it
  -- returns 0, the caller's variable is the number, and what follows the response comes next.
  pub svnproto_get_latest_rev-Ended :
      (mechs : List Bytes) (realm : Bytes) (n : ℕ) (ts : List Token) (c : Ctx p) (rev : ℤ)
      → Ahead c.inp (exchange mechs realm (reply (number n) ts))
      → length (exchange mechs realm (reply (number n) ts)) ≤ p.fuel
      → Ended p (svnproto_get_latest_rev p c rev) (λ c' rev'. (rev' ≡ pos n) × Ahead c'.inp ts)
  unfolding svnproto_get_latest_rev spec_text stores written
  svnproto_get_latest_rev-Ended mechs realm n ts c rev ahead enough =
      let room = length-exchange mechs realm (reply (number n) ts) in
      sending-Ended p text_in lawful 3 4 Grammar.get_latest_rev c _ _ (omega arith) λ out.
        checked_call-Ended p 5 (λ rev. rev) _ _ _ _
          (svnproto_check_auth-Ended p text_in lawful Ahead At laws mechs realm
            (reply (number n) ts) (record c { out = out }) rev ahead enough)
          (λ c' rev' got.
            checked_call-Ended p 6 (λ rev. rev) _ _ _ _
              (respond-Ended p Ahead At laws (open_item ∷ one numbers ∷ close_item ∷ [])
                (λ i v rev. long_of v) (open_list ∷ number n ∷ close_list ∷ close_list ∷ ts)
                ((long n ∷ []) ∷ []) ts c' rev' got.1 (omega arith)
                (opened (taken refl (closed finished))))
              (λ c'' rev'' got. inr (rewound p c'', rev'', refl, (got.0, got.2))))

  -- Where the tokens that come next are the exchange of an authentication and then a response of
  -- success with a word: `svnproto_check_path`, for a revision below 2^31, ends with an error of the
  -- output side, or it returns 0, the caller's variable is the kind that the word names, and what
  -- follows the response comes next.
  pub svnproto_check_path-Ended :
      (path : Bytes) (rev : ℕ) (mechs : List Bytes) (realm : Bytes) (w : Bytes) (ts : List Token)
      (c : Ctx p) (kind : ℕ)
      → rev < 2 ^ 31
      → Ahead c.inp (exchange mechs realm (reply (word w) ts))
      → length (exchange mechs realm (reply (word w) ts)) ≤ p.fuel
      → Ended p
          (svnproto_check_path p path (pos rev) c kind)
          (λ c' kind'. (kind' ≡ svnc_kind2int (some w)) × Ahead c'.inp ts)
  unfolding svnproto_check_path spec_text stores written
  svnproto_check_path-Ended path rev mechs realm w ts c kind low ahead enough =
      let room = length-exchange mechs realm (reply (word w) ts) in
      sending-Ended p text_in lawful 6 7 (Grammar.check_path path rev) c _ _ low λ out.
        checked_call-Ended p 8 (λ kind. kind) _ _ _ _
          (svnproto_check_auth-Ended p text_in lawful Ahead At laws mechs realm (reply (word w) ts)
            (record c { out = out }) kind ahead enough)
          (λ c' kind' got.
            checked_call-Ended p 9 (λ kind_str. kind') _ _ _ _
              (respond-Ended p Ahead At laws (open_item ∷ one words ∷ close_item ∷ [])
                (λ i v kind_str. text_of v) (open_list ∷ word w ∷ close_list ∷ close_list ∷ ts)
                ((text w ∷ []) ∷ []) ts c' none got.1 (omega arith)
                (opened (taken refl (closed finished))))
              (λ c'' kind_str got.
                inr (rewound p c'', svnc_kind2int kind_str, refl, (ap svnc_kind2int got.0, got.2))))
