-- ===== src/Proto/Client/Login.antt =====
-- The authentication of a request.
use mrksvnup.Base.{
  ◌≤◌, ◌≡◌, inr, refl, sym, ap, subst, ◌∙◌, Bool, true, false, if◌then◌else◌, List, [], ◌∷◌, Bytes,
  none, length, arith,
}
use mrksvnup.Proto.Pack.{IsOutput}
use mrksvnup.Proto.Unpack.{text, null}
use mrksvnup.Proto.Unpack.Tokens.{Token, string, open_list, close_list, IsReader}
use mrksvnup.Proto.Unpack.Formats.{
  open_item, close_item, one, maybe, strings, spec_text, finished, opened, closed, taken, absent,
}
use mrksvnup.Proto.Unpack.Stores.{written, stores}
use mrksvnup.Proto.Requests.Commands.{auth_response}
use mrksvnup.Proto.Requests.Grammar.{anonymous}
use mrksvnup.Proto.Client.{text_of, Peer, Ctx, checked_call, sending, rewound}
use mrksvnup.Proto.Client.Auth.{
  AuthRequest, svnproto_check_challenge, mechs_loop, svnproto_check_auth,
}
use mrksvnup.Proto.Client.Endings.{
  Ended, checked_call-Ended, back_to-Ended, sending-Ended, respond-Ended,
}
use mrksvnup.Proto.Client.Offers.{
  word_row, texts, run-word_row, challenge, is_anonymous, challenges, offered, auth_puts,
  written-auth_puts, length-word_row, exchange, offer_items,
}

module _ (p : Peer) (text_in : p.output.Out → Bytes) (lawful : IsOutput p.output text_in)
    (Ahead : p.reader.R → List Token → Type 0) (At : p.reader.R → Token → List Token → Type 0)
    (laws : IsReader p.reader Ahead At) where
  challenge-Ended :
      (ts : List Token) (c : Ctx p)
      → Ahead c.inp (challenge ts)
      → length (challenge ts) ≤ p.fuel
      → Ended p
          (svnproto_check_challenge p c)
          (λ c' token. Ahead c'.inp ts × (c'.auth_mech_ok ≡ c.auth_mech_ok))
  unfolding svnproto_check_challenge spec_text stores written
  challenge-Ended ts c ahead enough =
      checked_call-Ended p 1 (λ token. token) _ _ _ _
        (respond-Ended p Ahead At laws (open_item ∷ maybe strings ∷ close_item ∷ [])
          (λ i v token. text_of v) (open_list ∷ close_list ∷ close_list ∷ ts) ((null ∷ []) ∷ []) ts
          c none ahead (omega arith) (opened (absent refl refl (closed finished))))
        (λ c' token left. inr (c', token, refl, (left.2, left.1)))

  -- What the loop over the mechanisms leaves.
  abbrev LoggedIn : {A : Type 0} → List Bytes → Ctx p → List Token → Ctx p → A → Type 0
  LoggedIn mechs c ts c' a = Ahead c'.inp ts × (c'.auth_mech_ok ≡ offered mechs c.auth_mech_ok)

  mech-Ended :
      (b : Bool) (mechs : List Bytes) (ts : List Token) (c : Ctx p) (m : AuthRequest)
      → Ahead c.inp (if b then challenge (challenges mechs ts) else challenges mechs ts)
      → length (if b then challenge (challenges mechs ts) else challenges mechs ts) ≤ p.fuel
      → ((c : Ctx p) (m : AuthRequest)
          → Ahead c.inp (challenges mechs ts)
          → length (challenges mechs ts) ≤ p.fuel
          → Ended p (mechs_loop p mechs c m) (LoggedIn mechs c ts))
      → Ended p
          (if b
            then (sending p 2 3
                (auth_response p.output)
                (record c { auth_mech_ok = true })
                λ c.
                  checked_call p 4
                    (λ token. m)
                    (svnproto_check_challenge p (rewound p c))
                    λ c token. mechs_loop p mechs c m)
            else mechs_loop p mechs c m)
          (LoggedIn mechs (record c { auth_mech_ok = if b then true else c.auth_mech_ok }) ts)
  mech-Ended false mechs ts c m ahead enough next = next c m ahead enough
  mech-Ended true mechs ts c m ahead enough next =
      sending-Ended p text_in lawful 2 3 anonymous (record c { auth_mech_ok = true }) _ _
        (omega arith)
        (λ out.
          checked_call-Ended p 4 (λ token. m) _ _ _ _
            (challenge-Ended (challenges mechs ts)
              (record c { auth_mech_ok = true; out = p.rewind out }) ahead enough)
            (λ c' token left.
              subst
                (λ b.
                  Ended p (mechs_loop p mechs c' m)
                    (λ c'' a. Ahead c''.inp ts × (c''.auth_mech_ok ≡ offered mechs b)))
                left.1 (next c' m left.0 (omega arith))))

  mechs_loop-Ended :
      (mechs : List Bytes) (ts : List Token) (c : Ctx p) (m : AuthRequest)
      → Ahead c.inp (challenges mechs ts)
      → length (challenges mechs ts) ≤ p.fuel
      → Ended p (mechs_loop p mechs c m) (LoggedIn mechs c ts)
  unfolding mechs_loop challenges offered
  mechs_loop-Ended [] ts c m ahead enough = inr (c, m, refl, (ahead, refl))
  mechs_loop-Ended (mech ∷ mechs) ts c m ahead enough =
      mech-Ended (is_anonymous mech) mechs ts c m ahead enough (mechs_loop-Ended mechs ts)

  -- Where the tokens that come next offer mechanisms, and the server has an empty challenge for each
  -- ANONYMOUS among them: `svnproto_check_auth` ends with an error of the output side, or it returns 0
  -- and leaves the caller's variables alone, what follows the exchange comes next, and the flag for a
  -- mechanism is set where ANONYMOUS was offered and is as before where it was not.
  pub svnproto_check_auth-Ended :
      {A : Type 0} (mechs : List Bytes) (realm : Bytes) (ts : List Token) (c : Ctx p) (a : A)
      → Ahead c.inp (exchange mechs realm ts)
      → length (exchange mechs realm ts) ≤ p.fuel
      → Ended p
          (svnproto_check_auth p c a)
          (λ c' a'. (a' ≡ a) × Ahead c'.inp ts × (c'.auth_mech_ok ≡ offered mechs c.auth_mech_ok))
  unfolding svnproto_check_auth spec_text stores written
  svnproto_check_auth-Ended mechs realm ts c a ahead enough =
      let left = challenges mechs ts in
      let reads = opened (
        opened (
          run-word_row (close_item ∷ one strings ∷ close_item ∷ []) mechs
            (string realm ∷ close_list ∷ close_list ∷ left) ((text realm ∷ []) ∷ [])
            (close_list ∷ left) (closed (taken refl (closed finished))))) in
      let m0 : AuthRequest = record { auth_mechs = []; realm = none } in
      let whole =
        length-word_row mechs (close_list ∷ string realm ∷ close_list ∷ close_list ∷ left) in
      let vs = texts mechs ∷ (text realm ∷ []) ∷ [] in
      back_to-Ended p a _ _ _
        (checked_call-Ended p 1 (λ m. m) _ _ _ _
          (respond-Ended p Ahead At laws offer_items auth_puts
            (open_list
              ∷ open_list
              ∷ word_row mechs (close_list ∷ string realm ∷ close_list ∷ close_list ∷ left))
            vs left c m0 ahead (omega arith) reads)
          (λ c' m got.
            let same : m.auth_mechs ≡ mechs =
              ap (λ m. m.auth_mechs) got.0 ∙ ap (λ m. m.auth_mechs) (written-auth_puts mechs m0) in
            let looped : Ended p (mechs_loop p m.auth_mechs c' m) (LoggedIn mechs c' ts) =
              subst (λ ms. Ended p (mechs_loop p ms c' m) (LoggedIn mechs c' ts)) (sym same)
                (mechs_loop-Ended mechs ts c' m got.2 (omega arith)) in
            subst
              (λ b.
                Ended p (mechs_loop p m.auth_mechs c' m)
                  (λ c'' a. Ahead c''.inp ts × (c''.auth_mech_ok ≡ offered mechs b)))
              got.1 looped))
        (λ c' m q. (refl, q.0, q.1))
