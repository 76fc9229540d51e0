-- ===== src/Proto/Client/Auth.antt =====
-- `svnproto_check_auth` and `svnproto_check_challenge` of src/svnproto_auth.c.
use mrksvnup.Base.{true, if◌then◌else◌, List, [], ◌∷◌, ◌++◌, Bytes, codes, equal, Option, none}
use mrksvnup.Proto.Unpack.{success, Value, text}
use mrksvnup.Proto.Requests.Commands.{auth_response}
use mrksvnup.Proto.Client.{
  text_of, Peer, Ctx, Result, returned, lost, undefined, endless, checked_call, sending, rewound,
}
use mrksvnup.Proto.Client.Response.{mine, respond}

-- The array of strings that an item `w*` fills.
abbrev pub array_add : Value → List Bytes → List Bytes
array_add (text s) ss = ss ++ s ∷ []
array_add _ ss = ss

-- `auth_mechs` and `realm`.
pub record AuthRequest : Type 0 where
  pub auth_mechs : List Bytes
  pub realm : Option Bytes

module _ (p : Peer) where
  -- The variables of a callee go, and the caller's stay.
  abbrev pub back_to : {A B : Type 0} → A → Result p B → Result p A
  back_to a (returned code c b) = returned code c a
  back_to a (lost code) = lost code
  back_to a undefined = undefined
  back_to a endless = endless

  unfoldable pub svnproto_check_challenge : Ctx p → Result p (Option Bytes)
  svnproto_check_challenge c =
      checked_call p 1 (λ token. token)
        (respond p (codes "(s?)") (mine (λ v token. text_of v) ∷ []) c none)
        (λ c token. returned success c token)

  -- The loop over the mechanisms.
  unfoldable pub mechs_loop : List Bytes → Ctx p → AuthRequest → Result p AuthRequest
  mechs_loop [] c m = returned success c m
  mechs_loop (mech ∷ mechs) c m =
      let answered =
        sending p 2 3 (auth_response p.output) (record c { auth_mech_ok = true })
          λ c.
            checked_call p 4 (λ token. m) (svnproto_check_challenge (rewound p c))
              λ c token. mechs_loop mechs c m in
      let passed = mechs_loop mechs c m in
      if equal mech (codes "ANONYMOUS") then answered else passed

  unfoldable pub svnproto_check_auth : {A : Type 0} → Ctx p → A → Result p A
  svnproto_check_auth c a = back_to a (
      checked_call p 1 (λ m. m)
        (respond p (codes "((w*)s)")
          (mine (λ v m. record m { auth_mechs = array_add v m.auth_mechs })
            ∷ mine (λ v m. record m { realm = text_of v })
            ∷ [])
          c (record { auth_mechs = []; realm = none }))
        (λ c m. mechs_loop m.auth_mechs c m))
