-- ===== src/Proto/Client/Response.antt =====
-- `svnproto_command_response` of src/svnproto.c.
use mrksvnup.Base.{
  ℕ, ◌==◌, Bool, false, if◌then◌else◌, List, [], ◌∷◌, Bytes, codes, equal, Option, none, some, pos,
  negsuc,
}
use mrksvnup.Proto.Unpack.{
  Code, success, nomatch, other, Value, Reader, Argument, store, callback, Unpacked, unpacked,
  fault, stuck,
}
use mrksvnup.Proto.Unpack.Format.{svnproto_vunpack}
use mrksvnup.Proto.Client.{
  LastError, cleared, long_of, text_of, Held, Peer, Ctx, Result, returned, undefined, endless,
}

-- `status != NULL && strcmp(status, word) == 0`
unfoldable pub is_status : Bytes → Option Bytes → Bool
unfolding equal
is_status word none = false
is_status word (some status) = equal status word

-- No error has been stored, `apr_error == -1`.
abbrev pub is_clear : LastError → Bool
is_clear e = elim e.apr_error [ pos n ↦ false | negsuc n ↦ n == 0 ]

module _ (d : Reader) (fuel : ℕ) (A : Type 0) where
  -- The arguments of `unpack1`.
  abbrev pub error_arguments : List (Argument d (Held A))
  error_arguments =
      store (some λ v h. record h { last_error = record h.last_error { apr_error = long_of v } })
      ∷ store (some λ v h. record h { last_error = record h.last_error { message = text_of v } })
      ∷ store (some λ v h. record h { last_error = record h.last_error { file = text_of v } })
      ∷ store (some λ v h. record h { last_error = record h.last_error { line = long_of v } })
      ∷ []

  -- What a callback returns; a fault in a callback is no result either.
  abbrev pub as_callback : {U : Type 0} → Unpacked d U → Option (Code × d.R × U)
  as_callback (unpacked code r u) = some (code, r, u)
  as_callback fault = none
  as_callback stuck = none

  unfoldable pub unpack1 : d.R → Held A → Option (Code × d.R × Held A)
  unpack1 r h = as_callback (svnproto_vunpack d (Held A) fuel (codes "(nssn)") error_arguments r h)

  -- `END`: an error that has been stored wins.
  unfoldable pub response_end : Code → d.R → Held A → Unpacked d (Held A)
  response_end res r h = unpacked (if is_clear h.last_error then res else other 5) r h

  -- A call of `svnproto_unpack` whose error is `k`.
  unfoldable pub unpacking :
      ℕ → Unpacked d (Held A) → (d.R → Held A → Unpacked d (Held A)) → Unpacked d (Held A)
  unpacking k (unpacked success r h) next = next r h
  unpacking k (unpacked (nomatch j) r h) next = response_end (other k) r h
  unpacking k (unpacked (other j) r h) next = response_end (other k) r h
  unpacking k fault next = fault
  unpacking k stuck next = stuck

  -- The values that the caller's format reads, and the end of the list.
  unfoldable pub succeeded : Bytes → List (Argument d (Held A)) → d.R → Held A → Unpacked d (Held A)
  succeeded spec args r h = unpacking 3 (svnproto_vunpack d (Held A) fuel spec args r h) λ r h.
      unpacking 4 (svnproto_vunpack d (Held A) fuel (codes ")") [] r h)
        λ r h. response_end success r h

  -- `TESTFAILURE`
  unfoldable pub test_failure : Option Bytes → d.R → Held A → Unpacked d (Held A)
  test_failure status r h =
      if is_status (codes "failure") status
      then (unpacking 7
          (svnproto_vunpack d (Held A) fuel (codes "(r*)") (callback (some unpack1) ∷ []) r h)
          λ r h.
            unpacking 8 (svnproto_vunpack d (Held A) fuel (codes ")") [] r h)
              λ r h. response_end success r h)
      else response_end (other 6) r h

  unfoldable pub status_read :
      Bytes → List (Argument d (Held A)) → Held A → Unpacked d (Option Bytes) → Unpacked d (Held A)
  status_read spec args h (unpacked success r status) =
      if is_status (codes "success") status
      then succeeded spec args r h
      else test_failure status r h
  status_read spec args h (unpacked (nomatch j) r status) = response_end (other 1) r h
  status_read spec args h (unpacked (other j) r status) = response_end (other 1) r h
  status_read spec args h fault = fault
  status_read spec args h stuck = stuck

  unfoldable pub svnproto_command_response :
      Bytes → List (Argument d (Held A)) → d.R → A → Unpacked d (Held A)
  svnproto_command_response spec args r a =
      status_read spec args (record { last_error = cleared; mine = a })
        (svnproto_vunpack d (Option Bytes) fuel (codes "(w")
          (store (some λ v status. text_of v) ∷ []) r none)

-- The response on the client's state.
abbrev pub responded : {p : Peer} {A : Type 0} → Ctx p → Unpacked p.reader (Held A) → Result p A
responded c (unpacked code r h) =
    returned code (record c { inp = r; last_error = h.last_error }) h.mine
responded c fault = undefined
responded c stuck = endless

-- A store into the caller's variables.
abbrev pub mine : {d : Reader} {A : Type 0} → (Value → A → A) → Argument d (Held A)
mine put = store (some λ v h. record h { mine = put v h.mine })

unfoldable pub respond :
    (p : Peer) {A : Type 0} → Bytes → List (Argument p.reader (Held A)) → Ctx p → A → Result p A
respond p spec args c a =
    responded c (svnproto_command_response p.reader p.fuel _ spec args c.inp a)
