-- ===== src/Proto/Client/Endings.antt =====
-- Functions of the client that end well, or with an error of the output side.
use mrksvnup.Base.{
  ℕ, ◌+◌, ◌<◌, ◌≤◌, ◌^◌, ◌≡◌, ◌⊎◌, inl, inr, refl, ap, List, ◌∷◌, Bytes, codes, Option, none, some,
  length,
}
use mrksvnup.Proto.Pack.{IsOutput}
use mrksvnup.Proto.Unpack.{success, other, Value}
use mrksvnup.Proto.Unpack.Tokens.{Token, word, open_list, close_list, IsReader}
use mrksvnup.Proto.Unpack.Formats.{Item, spec_text, Reads}
use mrksvnup.Proto.Unpack.Stores.{stores, arguments}
use mrksvnup.Proto.Requests.Grammar.{Request, revision, packer}
use mrksvnup.Proto.Requests.Packed.{pack_request-Appends}
use mrksvnup.Proto.Client.{cleared, Held, Peer, Ctx, Result, returned, lost, checked_call, sending}
use mrksvnup.Proto.Client.Response.{respond, responded}
use mrksvnup.Proto.Client.Auth.{back_to}
use mrksvnup.Proto.Client.Values.{on_mine, svnproto_command_response-success}

none_or_some : {A : Type 0} (o : Option A) → (o ≡ none) ⊎ ((a : A) × (o ≡ some a))
none_or_some none = inl refl
none_or_some (some a) = inr (a, refl)

module _ (p : Peer) where
  -- The output side has failed, or the function has returned 0, and `Q` holds of the client and of the
  -- caller's variables.
  abbrev pub Ended : {A : Type 0} → Result p A → (Ctx p → A → Type 0) → Type 0
  Ended {A = A} m Q =
      ((k : ℕ) × (m ≡ lost (other k)))
      ⊎ ((c : Ctx p) × (a : A) × (m ≡ returned success c a) × Q c a)

  pub checked_call-Ended :
      {A B : Type 0} (k : ℕ) (keep : A → B) (m : Result p A) (next : Ctx p → A → Result p B)
      (Q : Ctx p → A → Type 0) (Q' : Ctx p → B → Type 0)
      → Ended m Q
      → ((c : Ctx p) (a : A) → Q c a → Ended (next c a) Q')
      → Ended (checked_call p k keep m next) Q'
  unfolding checked_call
  checked_call-Ended k keep m next Q Q' (inl (j, e)) then_ = inl (k, rw (e))
  checked_call-Ended k keep m next Q Q' (inr (c, a, e, q)) then_ = elim (then_ c a q) [
    | inl (j, e') ↦ inl (j, rw (e) e')
    | inr (c', b, e', q') ↦ inr (c', b, rw (e) e', q')
  ]

  pub back_to-Ended :
      {A B : Type 0} (a : A) (m : Result p B) (Q : Ctx p → B → Type 0) (Q' : Ctx p → A → Type 0)
      → Ended m Q
      → ((c : Ctx p) (b : B) → Q c b → Q' c a)
      → Ended (back_to p a m) Q'
  back_to-Ended a m Q Q' (inl (j, e)) then_ = inl (j, ap (back_to p a) e)
  back_to-Ended a m Q Q' (inr (c, b, e, q)) then_ = inr (c, a, ap (back_to p a) e, then_ c b q)

  module _ (text : p.output.Out → Bytes) (laws : IsOutput p.output text) where
    pub sending-Ended :
        {A : Type 0} (k j : ℕ) (q : Request) (c : Ctx p) (next : Ctx p → Result p A)
        (Q : Ctx p → A → Type 0)
        → revision q < 2 ^ 31
        → ((out : p.output.Out) → Ended (next (record c { out = out })) Q)
        → Ended (sending p k j (packer p.output q) c next) Q
    unfolding sending
    sending-Ended k j q c next Q low then_ =
        elim (pack_request-Appends p.output text laws q c.out low) [
          | inl (i, e) ↦ inl (k, rw (e, sending) refl)
          | inr (out, e, grown) ↦ elim (none_or_some (p.produce out)) [
            | inl e' ↦ inl (j, rw (e, e', sending) refl)
            | inr (out', e') ↦ elim (then_ out') [
              | inl (i, e'') ↦ inl (i, rw (e, e', sending) e'')
              | inr (c', a, e'', q') ↦ inr (c', a, rw (e, e', sending) e'', q')
            ]
          ]
        ]

  module _ (Ahead : p.reader.R → List Token → Type 0)
      (At : p.reader.R → Token → List Token → Type 0) (laws : IsReader p.reader Ahead At) where
    -- What a response of success leaves.
    abbrev pub Responded : {A : Type 0} → Ctx p → A → List Token → Ctx p → A → Type 0
    Responded c a rest c' a' = (a' ≡ a) × (c'.auth_mech_ok ≡ c.auth_mech_ok) × Ahead c'.inp rest

    pub respond-Ended :
        {A : Type 0} (is : List Item) (puts : ℕ → Value → A → A) (ts : List Token)
        (vs : List (List Value)) (rest : List Token) (c : Ctx p) (a : A)
        → Ahead c.inp (open_list ∷ word (codes "success") ∷ ts)
        → length ts + 2 ≤ p.fuel
        → Reads is ts vs success (close_list ∷ rest)
        → Ended
            (respond p (spec_text is) (arguments p.reader (Held A) is (on_mine puts)) c a)
            (Responded c (stores puts vs a) rest)
    unfolding respond
    respond-Ended {A = A} is puts ts vs rest c a ahead enough reads =
        let (r', e, ahead') =
          svnproto_command_response-success p.reader Ahead At laws is puts ts vs rest p.fuel c.inp a
            ahead enough reads in
        inr (
          record c { inp = r'; last_error = cleared },
          stores puts vs a,
          ap (responded c) e,
          (refl, refl, ahead'),
        )
