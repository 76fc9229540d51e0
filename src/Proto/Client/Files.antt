-- ===== src/Proto/Client/Files.antt =====
-- The reply to a get-file request: the callbacks of src/svnproto_get_file.c, and what
-- `svnproto_get_file` does once the request is sent and authenticated.
use mrksvnup.Base.{ℕ, if◌then◌else◌, List, [], ◌∷◌, ◌++◌, Bytes, codes, Option, none, some, ℤ}
use mrksvnup.Proto.Unpack.{
  Code, success, nomatch, Reader, Argument, store, callback, unpacked, fault, stuck,
}
use mrksvnup.Proto.Unpack.Format.{svnproto_vunpack}
use mrksvnup.Proto.Requests.{has_flag}
use mrksvnup.Proto.Client.{
  long_of, text_of, Held, Peer, Ctx, Result, returned, undefined, endless, checked_call, rewound,
}
use mrksvnup.Proto.Client.Response.{mine, respond}

-- `svnc_prop_t`
pub record Prop : Type 0 where
  pub name : Option Bytes
  pub value : Option Bytes

-- `svnc_fileent_t`; its contents are the chunks in order.
pub record Fileent : Type 0 where
  pub checksum : Option Bytes
  pub rev : ℤ
  pub props : List Prop
  pub contents : List Bytes

-- The new property, where a name has been read.
abbrev pub prop_added : Prop → List Prop → List Prop
prop_added p props = elim p.name [ none ↦ props | some name ↦ props ++ p ∷ [] ]

module _ (d : Reader) (fuel : ℕ) where
  unfoldable pub unpack_prop : d.R → Held Fileent → Option (Code × d.R × Held Fileent)
  unpack_prop r h =
      elim (svnproto_vunpack d Prop fuel (codes "(ss)")
        (store (some λ v p. record p { name = text_of v })
          ∷ store (some λ v p. record p { value = text_of v })
          ∷ [])
        r (record { name = none; value = none })) [
          | unpacked res r' p ↦
              some
                (res, r', record h { mine = record h.mine { props = prop_added p h.mine.props } })
          | fault ↦ none
          | stuck ↦ none
        ]

  unfoldable pub unpack_inherited : d.R → Held Fileent → Option (Code × d.R × Held Fileent)
  unpack_inherited r h = elim (svnproto_vunpack d (Held Fileent) fuel (codes "()") [] r h) [
    | unpacked res r' h' ↦ some (res, r', h')
    | fault ↦ none
    | stuck ↦ none
  ]

  abbrev pub get_file_arguments : List (Argument d (Held Fileent))
  get_file_arguments =
      mine (λ v e. record e { checksum = text_of v })
      ∷ mine (λ v e. record e { rev = long_of v })
      ∷ callback (some unpack_prop)
      ∷ callback (some unpack_inherited)
      ∷ []

  -- A chunk of the contents; an empty one ends them.
  unfoldable pub unpack_chunk : d.R → Fileent → Option (Code × d.R × Fileent)
  unpack_chunk r e = elim (d.chunk r) [
    | [] ↦ some (nomatch 101, r, e)
    | c ∷ cs ↦ some (success, r, record e { contents = e.contents ++ d.chunk r ∷ [] })
  ]

-- What follows the authentication: the description of the file, its contents where they are wanted,
-- and the response of success. The result of the contents is returned.
unfoldable pub file_received : (p : Peer) → ℕ → Ctx p → Fileent → Result p Fileent
file_received p flags c e =
    let finished : Code → Ctx p → Fileent → Result p Fileent = λ res c e.
      checked_call p 13 (λ e. e) (respond p (codes "()") [] c e)
        λ c e. returned res (rewound p c) e in
    checked_call p 12 (λ e. e)
      (respond p (codes "((s?)n(r*)r?)") (get_file_arguments p.reader p.fuel) c e)
      λ c e.
        if has_flag flags 2
        then (elim (svnproto_vunpack p.reader Fileent p.fuel (codes "S*")
            (callback (some (unpack_chunk p.reader p.fuel)) ∷ []) c.inp e) [
              | unpacked res r e' ↦ finished res (record c { inp = r }) e'
              | fault ↦ undefined
              | stuck ↦ endless
            ])
        else finished success c e
