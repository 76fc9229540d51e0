-- ===== src/Proto/Client/Commands.antt =====
-- The functions that send a request and take the reply, of src/svnproto_*.c, and `svnproto_setup` of
-- src/svnproto.c. `svnproto_get_file` is not here, as it connects again.
use mrksvnup.Base.{
  ℕ, ◌==◌, ◌&&◌, Bool, false, if◌then◌else◌, List, [], ◌∷◌, Bytes, codes, Option, none, some, ℤ,
  pos, negsuc,
}
use mrksvnup.Proto.Unpack.{success, other}
use mrksvnup.Util.Kinds.{svnc_kind2int}
use mrksvnup.Proto.Requests.{Depth}
use mrksvnup.Proto.Requests.Commands.{
  check_path_pack1, get_latest_rev_pack1, reparent_pack1, set_path_pack1, finish_report_pack1,
  abort_report_pack1, update_pack1, update_pack4, greeting_response,
}
use mrksvnup.Proto.Client.{
  long_of, text_of, Peer, Ctx, Result, returned, lost, undefined, endless, checked_call, sending,
  rewound,
}
use mrksvnup.Proto.Client.Response.{mine, respond}
use mrksvnup.Proto.Client.Auth.{array_add, back_to, svnproto_check_auth}

-- `minver`, `maxver`, `server_mechs` and `server_caps`.
pub record Greeting : Type 0 where
  pub minver : ℤ
  pub maxver : ℤ
  pub server_mechs : List Bytes
  pub server_caps : List Bytes

-- `uuid`, `repo_url` and `repo_caps`.
pub record ReposInfo : Type 0 where
  pub uuid : Option Bytes
  pub repo_url : Option Bytes
  pub repo_caps : List Bytes

-- The variables as they are initialised.
abbrev pub no_greeting : Greeting
no_greeting = record { minver = negsuc 0; maxver = negsuc 0; server_mechs = []; server_caps = [] }

abbrev pub no_info : ReposInfo
no_info = record { uuid = none; repo_url = none; repo_caps = [] }

abbrev pub is_two : ℤ → Bool
is_two (pos n) = n == 2
is_two (negsuc n) = false

module _ (p : Peer) where
  open p use {output}

  -- `kind` is the caller's variable.
  unfoldable pub svnproto_check_path : Bytes → ℤ → Ctx p → ℕ → Result p ℕ
  svnproto_check_path path rev c kind = sending p 6 7 (check_path_pack1 output path rev) c λ c.
      checked_call p 8 (λ kind. kind) (svnproto_check_auth p c kind)
        λ c kind.
          checked_call p 9 (λ kind_str. kind)
            (respond p (codes "(w)") (mine (λ v kind_str. text_of v) ∷ []) c none)
            (λ c kind_str. returned success (rewound p c) (svnc_kind2int kind_str))

  -- `rev` is the caller's variable.
  unfoldable pub svnproto_get_latest_rev : Ctx p → ℤ → Result p ℤ
  svnproto_get_latest_rev c rev = sending p 3 4 (get_latest_rev_pack1 output) c λ c.
      checked_call p 5 (λ rev. rev) (svnproto_check_auth p c rev)
        λ c rev.
          checked_call p 6 (λ rev. rev)
            (respond p (codes "(n)") (mine (λ v rev. long_of v) ∷ []) c rev)
            (λ c rev. returned success (rewound p c) rev)

  unfoldable pub svnproto_reparent : {A : Type 0} → Bytes → Ctx p → A → Result p A
  svnproto_reparent path c a = sending p 4 5 (reparent_pack1 output path) c λ c.
      checked_call p 6 (λ a. a) (svnproto_check_auth p c a)
        λ c a.
          checked_call p 7 (λ a. a) (respond p (codes "()") [] c a)
            λ c a. returned success (rewound p c) a

  unfoldable pub svnproto_set_path :
      {A : Type 0} → Bytes → ℤ → Option Bytes → Depth → ℕ → Ctx p → A → Result p A
  svnproto_set_path path rev lock_token depth flags c a =
      sending p 9 10 (set_path_pack1 output path rev lock_token depth flags) c
        λ c. returned success (rewound p c) a

  unfoldable pub svnproto_finish_report : {A : Type 0} → Ctx p → A → Result p A
  svnproto_finish_report c a =
      sending p 3 4 (finish_report_pack1 output) c λ c. returned success (rewound p c) a

  unfoldable pub svnproto_abort_report : {A : Type 0} → Ctx p → A → Result p A
  svnproto_abort_report c a =
      sending p 3 4 (abort_report_pack1 output) c λ c. returned success (rewound p c) a

  -- What follows the callback of an update: the acknowledgement of success.
  unfoldable pub update_acknowledged : {A : Type 0} → Ctx p → A → Result p A
  update_acknowledged c a = sending p 15 16 (update_pack4 output) c λ c.
      checked_call p 17 (λ a. a) (respond p (codes "()") [] c a)
        λ c a. returned success (rewound p c) a

  -- `cb`, with its `udata`, is a function of the client and the caller's variables; it may be NULL.
  unfoldable pub svnproto_update :
      {A : Type 0}
      → ℤ
      → Bytes
      → Depth
      → ℕ
      → Option (Ctx p → A → Result p A)
      → Ctx p
      → A
      → Result p A
  svnproto_update rev target depth flags cb c a =
      sending p 11 12 (update_pack1 output rev target depth flags) c λ c.
        checked_call p 13 (λ a. a) (svnproto_check_auth p c a)
          λ c a. elim cb [
            | none ↦ update_acknowledged c a
            | some f ↦ checked_call p 14 (λ a. a) (f c a) update_acknowledged
          ]

  -- What follows the greeting; `ra_client` is the name and version that the build gives.
  unfoldable pub repos_info : {A : Type 0} → Bytes → Bytes → Ctx p → A → Result p A
  repos_info url ra_client c a = sending p 3 4 (greeting_response output url ra_client) c λ c.
      checked_call p 5 (λ a. a) (svnproto_check_auth p c a)
        λ c a. back_to p a (
          checked_call p 6 (λ info. info)
            (respond p (codes "(ss(w*))")
              (mine (λ v info. record info { uuid = text_of v })
                ∷ mine (λ v info. record info { repo_url = text_of v })
                ∷ mine (λ v info. record info { repo_caps = array_add v info.repo_caps })
                ∷ [])
              c no_info)
            (λ c info. returned success c info))

  -- `END` of the set up: the output stream is rewound whatever has happened.
  abbrev pub setup_end : {A : Type 0} → Result p A → Result p A
  setup_end (returned code c a) = returned code (rewound p c) a
  setup_end (lost code) = lost code
  setup_end undefined = undefined
  setup_end endless = endless

  unfoldable pub svnproto_setup : {A : Type 0} → Bytes → Bytes → Ctx p → A → Result p A
  svnproto_setup url ra_client c a = setup_end (
      checked_call p 1 (λ g. a)
        (respond p (codes "(nn(w*)(w*))")
          (mine (λ v g. record g { minver = long_of v })
            ∷ mine (λ v g. record g { maxver = long_of v })
            ∷ mine (λ v g. record g { server_mechs = array_add v g.server_mechs })
            ∷ mine (λ v g. record g { server_caps = array_add v g.server_caps })
            ∷ [])
          c no_greeting)
        (λ c g.
          if is_two g.minver && is_two g.maxver
          then repos_info url ra_client c a
          else returned (other 2) c a))
