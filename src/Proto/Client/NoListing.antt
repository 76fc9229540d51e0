-- ===== src/Proto/Client/NoListing.antt =====
-- `svnproto_get_dir` on a response of success.
use mrksvnup.Base.{
  ℕ, ◌+◌, ◌≤◌, ◌≡◌, ◌≢◌, inl, inr, refl, ap, ◌∙◌, Bool, true, false, if◌then◌else◌, List, ◌∷◌,
  Bytes, codes, equal, some, ℤ, Outcome, ok, fail, length, arith,
}
use mrksvnup.Proto.Pack.{IsOutput, checked, pack_list}
use mrksvnup.Proto.Unpack.{Code, success, nomatch, other, Reader, Argument, Unpacked, unpacked}
use mrksvnup.Proto.Unpack
use mrksvnup.Proto.Unpack.Tokens.{Token, word, open_list, IsReader}
use mrksvnup.Proto.Unpack.Format.{svnproto_vunpack}
use mrksvnup.Proto.Client.{
  cleared, Held, Peer, Ctx, Result, returned, lost, undefined, endless, checked_call, or_lost,
  sending,
}
use mrksvnup.Proto.Client.Response.{
  is_clear, is_status, response_end, unpacking, succeeded, status_read, svnproto_command_response,
  respond, responded,
}
use mrksvnup.Proto.Client.Values.{status-word}
use mrksvnup.Proto.Client.Endings.{Ended}
use mrksvnup.Proto.Client.Offers.{exchange, length-exchange}
use mrksvnup.Proto.Client.Login.{svnproto_check_auth-Ended}
use mrksvnup.Proto.Client.Listing.{Dirent, svnproto_get_dir}
use mrksvnup.Proto.Client.Unlisted.{is_success, listing-fails}

-- The function has returned 0.
unfoldable pub has_returned_0 : {p : Peer} {A : Type 0} → Result p A → Bool
has_returned_0 (returned success c a) = true
has_returned_0 _ = false

module _ (d : Reader) (fuel : ℕ) (A : Type 0) where
  ended-fails :
      (b : Bool) (j k : ℕ) (r : d.R) (h : Held A)
      → is_success {d = d} (unpacked (if b then other j else other k) r h) ≡ false
  ended-fails true j k r h = refl
  ended-fails false j k r h = refl

  unpacking-fails :
      (k : ℕ) (x : Unpacked d (Held A)) (then_ : d.R → Held A → Unpacked d (Held A))
      → is_success x ≡ false
      → is_success (unpacking d fuel A k x then_) ≡ false
  unfolding unpacking response_end
  unpacking-fails k (unpacked success r h) then_ e = cc
  unpacking-fails k (unpacked (nomatch j) r h) then_ e = ended-fails (is_clear h.last_error) k 5 r h
  unpacking-fails k (unpacked (other j) r h) then_ e = ended-fails (is_clear h.last_error) k 5 r h
  unpacking-fails k Unpack.fault then_ e = refl
  unpacking-fails k Unpack.stuck then_ e = refl

module _ (p : Peer) where
  responded-fails :
      {A : Type 0} (c : Ctx p) (x : Unpacked p.reader (Held A))
      → is_success x ≡ false
      → has_returned_0 (responded c x) ≡ false
  unfolding has_returned_0
  responded-fails c (unpacked success r h) e = cc
  responded-fails c (unpacked (nomatch j) r h) e = refl
  responded-fails c (unpacked (other j) r h) e = refl
  responded-fails c Unpack.fault e = refl
  responded-fails c Unpack.stuck e = refl

  called-fails :
      {A B : Type 0} (k : ℕ) (keep : A → B) (m : Result p A) (then_ : Ctx p → A → Result p B)
      → has_returned_0 m ≡ false
      → has_returned_0 (checked_call p k keep m then_) ≡ false
  unfolding checked_call has_returned_0
  called-fails k keep (returned success c a) then_ e = cc
  called-fails k keep (returned (nomatch j) c a) then_ e = refl
  called-fails k keep (returned (other j) c a) then_ e = refl
  called-fails k keep (lost code) then_ e = refl
  called-fails k keep undefined then_ e = refl
  called-fails k keep endless then_ e = refl

  behind-fails :
      {A B : Type 0} (k : ℕ) (keep : A → B) (m : Result p A) (then_ : Ctx p → A → Result p B)
      (Q : Ctx p → A → Type 0)
      → Ended p m Q
      → ((c : Ctx p) (a : A) → Q c a → has_returned_0 (then_ c a) ≡ false)
      → has_returned_0 (checked_call p k keep m then_) ≡ false
  unfolding checked_call has_returned_0
  behind-fails k keep m then_ Q (inl (j, e)) go_on = rw (e) refl
  behind-fails k keep m then_ Q (inr (c, a, e, q)) go_on = rw (e) (go_on c a q)

  or_lost-fails :
      {A B : Type 0} (k : ℕ) (o : Outcome B) (then_ : B → Result p A)
      → ((b : B) → has_returned_0 (then_ b) ≡ false)
      → has_returned_0 (or_lost p k o then_) ≡ false
  unfolding has_returned_0
  or_lost-fails k (ok b) then_ go_on = go_on b
  or_lost-fails k (fail i) then_ go_on = refl
  or_lost-fails k Outcome.fault then_ go_on = refl
  or_lost-fails k Outcome.stuck then_ go_on = refl

  sending-fails :
      {A : Type 0} (k j : ℕ) (pack : p.output.Out → Outcome p.output.Out) (c : Ctx p)
      (then_ : Ctx p → Result p A)
      → ((out : p.output.Out) → has_returned_0 (then_ (record c { out = out })) ≡ false)
      → has_returned_0 (sending p k j pack c then_) ≡ false
  unfolding sending
  sending-fails k j pack c then_ go_on =
      or_lost-fails k (pack_list p.output (some pack) c.out)
        (λ out. or_lost p j (checked 1 (p.produce out)) λ out. then_ (record c { out = out }))
        (λ out.
          or_lost-fails j (checked 1 (p.produce out)) (λ out. then_ (record c { out = out })) go_on)

  module _ (text_in : p.output.Out → Bytes) (lawful : IsOutput p.output text_in)
      (Ahead : p.reader.R → List Token → Type 0) (At : p.reader.R → Token → List Token → Type 0)
      (laws : IsReader p.reader Ahead At) where
    respond-fails :
        {A : Type 0} (spec : Bytes) (args : List (Argument p.reader (Held A))) (ts : List Token)
        (c : Ctx p) (a : A)
        → Ahead c.inp (open_list ∷ word (codes "success") ∷ ts)
        → length ts + 2 ≤ p.fuel
        → ((r : p.reader.R) (h : Held A)
            → is_success (svnproto_vunpack p.reader (Held A) p.fuel spec args r h) ≡ false)
        → has_returned_0 (respond p spec args c a) ≡ false
    unfolding respond svnproto_command_response status_read is_status equal succeeded
    respond-fails {A = A} spec args ts c a ahead enough fails =
        let (r', e, ahead') =
          status-word p.reader Ahead At laws (codes "success") ts p.fuel c.inp ahead enough in
        let h : Held A = record { last_error = cleared; mine = a } in
        responded-fails c _ (
          ap (λ x. is_success (status_read p.reader p.fuel A spec args h x)) e
          ∙ unpacking-fails p.reader p.fuel A 3 _ _ (fails r' h))

    -- Where the tokens that come next are the exchange of an authentication and then the beginning of a
    -- response of success, and the reader has no errors of the class SVNPROTO_VUNPACK:
    -- `svnproto_get_dir` does not return 0, whatever the parameters of the response are.
    pub svnproto_get_dir-ne-success :
        (junk : ℤ) (path : Bytes) (rev : ℤ) (mechs : List Bytes) (realm : Bytes) (ts : List Token)
        (c : Ctx p) (dirents : List Dirent)
        → ((r r' : p.reader.R) (k : ℕ) → p.reader.read r ≢ some (nomatch k, r'))
        → Ahead c.inp (exchange mechs realm (open_list ∷ word (codes "success") ∷ ts))
        → length (exchange mechs realm (open_list ∷ word (codes "success") ∷ ts)) ≤ p.fuel
        → has_returned_0 (svnproto_get_dir p junk path rev c dirents) ≡ false
    unfolding svnproto_get_dir
    svnproto_get_dir-ne-success junk path rev mechs realm ts c dirents no_nomatch ahead enough =
        let response = open_list ∷ word (codes "success") ∷ ts in
        let room = length-exchange mechs realm response in
        sending-fails 11 12 _ c _ λ out.
          behind-fails 13 (λ dirents. dirents) _ _ _
            (svnproto_check_auth-Ended p text_in lawful Ahead At laws mechs realm response
              (record c { out = out }) dirents ahead enough)
            (λ c' ds got. called-fails 14 _ _ _ (
              respond-fails _ _ ts c' _ got.1 (omega arith)
                (listing-fails p.reader no_nomatch p.fuel junk)))
