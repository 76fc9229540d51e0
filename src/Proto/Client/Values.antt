-- ===== src/Proto/Client/Values.antt =====
-- A response of success.
use mrksvnup.Base.{
  ℕ, ◌+◌, ◌≤◌, ◌≡◌, refl, ap, ◌∙◌, List, [], ◌∷◌, Bytes, codes, equal, Option, none, some, length,
  arith,
}
use mrksvnup.Proto.Unpack.{Code, success, nomatch, other, Value, text, Reader, store, unpacked}
use mrksvnup.Proto.Unpack.Format.{svnproto_vunpack}
use mrksvnup.Proto.Unpack.Tokens.{Token, word, open_list, close_list, IsReader}
use mrksvnup.Proto.Unpack.Formats.{
  Item, open_item, close_item, one, words, spec_text, Reads, finished, opened, closed, taken,
  not_opened, not_closed, not_taken, present, absent, more, no_more,
}
use mrksvnup.Proto.Unpack.Stores.{later, written, stores, arguments}
use mrksvnup.Proto.Unpack.Matches.{svnproto_vunpack-Reads}
use mrksvnup.Proto.Client.{cleared, text_of, Held}
use mrksvnup.Proto.Client.Response.{
  is_status, response_end, unpacking, succeeded, status_read, svnproto_command_response,
}

-- A format does not add tokens.
pub Reads-length :
    (is : List Item) (ts : List Token) (vs : List (List Value)) (c : Code) (rest : List Token)
    → Reads is ts vs c rest
    → length rest ≤ length ts
Reads-length is ts vs c rest finished = omega arith
Reads-length is ts vs c rest (opened reads) = let ih = Reads-length _ _ _ _ _ reads in omega arith
Reads-length is ts vs c rest (closed reads) = let ih = Reads-length _ _ _ _ _ reads in omega arith
Reads-length is ts vs c rest (not_opened e e') = omega arith
Reads-length is ts vs c rest (not_closed e e') = omega arith
Reads-length is ts vs c rest (taken e reads) = let ih = Reads-length _ _ _ _ _ reads in omega arith
Reads-length is ts vs c rest (not_taken e e') = omega arith
Reads-length is ts vs c rest (present e reads) =
    let ih = Reads-length _ _ _ _ _ reads in omega arith
Reads-length is ts vs c rest (absent e e' reads) =
    let ih = Reads-length _ _ _ _ _ reads in omega arith
Reads-length is ts vs c rest (more e reads) = let ih = Reads-length _ _ _ _ _ reads in omega arith
Reads-length is ts vs c rest (no_more e e' reads) =
    let ih = Reads-length _ _ _ _ _ reads in omega arith

-- The stores of a caller, on the memory of a response.
abbrev pub on_mine : {A : Type 0} → (ℕ → Value → A → A) → ℕ → Value → Held A → Held A
on_mine puts i v h = record h { mine = puts i v h.mine }

written-on_mine :
    {A : Type 0} (puts : ℕ → Value → A → A) (i : ℕ) (vs : List Value) (h : Held A)
    → written (on_mine puts i) vs h ≡ record h { mine = written (puts i) vs h.mine }
unfolding written
written-on_mine puts i [] h = refl
written-on_mine puts i (v ∷ vs) h = written-on_mine puts i vs (on_mine puts i v h)

pub stores-on_mine :
    {A : Type 0} (puts : ℕ → Value → A → A) (vs : List (List Value)) (h : Held A)
    → stores (on_mine puts) vs h ≡ record h { mine = stores puts vs h.mine }
unfolding stores
stores-on_mine puts [] h = refl
stores-on_mine puts (g ∷ gs) h =
    ap (stores (later (on_mine puts)) gs) (written-on_mine puts 0 g h)
    ∙ stores-on_mine (later puts) gs (record h { mine = written (puts 0) g h.mine })

module _ (d : Reader) (Ahead : d.R → List Token → Type 0) (At : d.R → Token → List Token → Type 0)
    (laws : IsReader d Ahead At) where
  -- The status of a response.
  pub status-word :
      (w : Bytes) (ts : List Token) (fuel : ℕ) (r : d.R)
      → Ahead r (open_list ∷ word w ∷ ts)
      → length ts + 2 ≤ fuel
      → (r' : d.R) × (svnproto_vunpack d
            (Option Bytes)
            fuel
            (codes "(w")
            (store (some λ v status. text_of v) ∷ [])
            r
            none
          ≡ unpacked success r' (some w))
        × Ahead r' ts
  unfolding spec_text stores written
  status-word w ts fuel r ahead enough =
      svnproto_vunpack-Reads d Ahead At laws (Option Bytes) (open_item ∷ one words ∷ [])
        (λ i v status. text_of v) (open_list ∷ word w ∷ ts) ((text w ∷ []) ∷ []) success ts fuel r
        none (opened (taken refl finished)) ahead (omega arith)

  -- The end of a list.
  pub closing :
      (U : Type 0) (ts : List Token) (fuel : ℕ) (r : d.R) (u : U)
      → Ahead r (close_list ∷ ts)
      → length ts + 1 ≤ fuel
      → (r' : d.R) × (svnproto_vunpack d U fuel (codes ")") [] r u ≡ unpacked success r' u)
        × Ahead r' ts
  unfolding spec_text stores
  closing U ts fuel r u ahead enough =
      svnproto_vunpack-Reads d Ahead At laws U (close_item ∷ []) (λ i v u. u) (close_list ∷ ts) []
        success ts fuel r u (closed finished) ahead (omega arith)

  -- Where the tokens that come next are a response of success, whose parameters the caller's format
  -- reads: `svnproto_command_response` returns 0, with no error stored and the values of the
  -- parameters stored through the caller's arguments, and what follows the response comes next.
  pub svnproto_command_response-success :
      {A : Type 0} (is : List Item) (puts : ℕ → Value → A → A) (ts : List Token)
      (vs : List (List Value)) (rest : List Token) (fuel : ℕ) (r : d.R) (a : A)
      → Ahead r (open_list ∷ word (codes "success") ∷ ts)
      → length ts + 2 ≤ fuel
      → Reads is ts vs success (close_list ∷ rest)
      → (r' : d.R) × (svnproto_command_response d fuel A
            (spec_text is)
            (arguments d (Held A) is (on_mine puts))
            r
            a
          ≡ unpacked success r' (record { last_error = cleared; mine = stores puts vs a }))
        × Ahead r' rest
  unfolding svnproto_command_response status_read is_status equal succeeded unpacking response_end
  svnproto_command_response-success {A = A} is puts ts vs rest fuel r a ahead enough reads =
      let (r1, e1, ahead1) = status-word (codes "success") ts fuel r ahead enough in
      let h : Held A = record { last_error = cleared; mine = a } in
      let (r2, e2, ahead2) =
        svnproto_vunpack-Reads d Ahead At laws (Held A) is (on_mine puts) ts vs success
          (close_list ∷ rest) fuel r1 h reads ahead1 (omega arith) in
      let shorter = Reads-length _ _ _ _ _ reads in
      let (r3, e3, ahead3) =
        closing (Held A) rest fuel r2 (stores (on_mine puts) vs h) ahead2 (omega arith) in
      (r3, rw (e1, e2, e3, stores-on_mine puts vs h), ahead3)

  -- Where the tokens that come next begin a response of success, and an item of the caller's format
  -- does not match the parameters: `svnproto_command_response` returns its error 3, with no error of
  -- the server stored and the values of the items before stored through the caller's arguments, and
  -- the token that did not match comes next.
  pub svnproto_command_response-mismatch :
      {A : Type 0} (is : List Item) (puts : ℕ → Value → A → A) (ts : List Token)
      (vs : List (List Value)) (k : ℕ) (rest : List Token) (fuel : ℕ) (r : d.R) (a : A)
      → Ahead r (open_list ∷ word (codes "success") ∷ ts)
      → length ts + 2 ≤ fuel
      → Reads is ts vs (nomatch k) rest
      → (r' : d.R) × (svnproto_command_response d fuel A
            (spec_text is)
            (arguments d (Held A) is (on_mine puts))
            r
            a
          ≡ unpacked (other 3) r' (record { last_error = cleared; mine = stores puts vs a }))
        × Ahead r' rest
  unfolding svnproto_command_response status_read is_status equal succeeded unpacking response_end
  svnproto_command_response-mismatch {A = A} is puts ts vs k rest fuel r a ahead enough reads =
      let (r1, e1, ahead1) = status-word (codes "success") ts fuel r ahead enough in
      let h : Held A = record { last_error = cleared; mine = a } in
      let (r2, e2, ahead2) =
        svnproto_vunpack-Reads d Ahead At laws (Held A) is (on_mine puts) ts vs (nomatch k) rest
          fuel r1 h reads ahead1 (omega arith) in
      (r2, rw (e1, e2, stores-on_mine puts vs h), ahead2)
