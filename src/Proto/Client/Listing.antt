-- ===== src/Proto/Client/Listing.antt =====
-- `svnproto_get_dir` of src/svnproto_get_dir.c. `junk` is what a `long` holds that has not been
-- initialised.
use mrksvnup.Base.{ℕ, List, [], ◌∷◌, ◌++◌, Bytes, codes, Option, none, some, ℤ, pos, negsuc}
use mrksvnup.Proto.Unpack.{
  Code, success, nomatch, other, Reader, Argument, store, callback, unpacked, fault, stuck,
}
use mrksvnup.Proto.Unpack.Format.{svnproto_vunpack}
use mrksvnup.Util.Kinds.{svnc_kind2int}
use mrksvnup.Proto.Requests.Reads.{get_dir_pack1}
use mrksvnup.Proto.Client.{
  long_of, text_of, Held, Peer, Ctx, Result, returned, checked_call, sending, rewound,
}
use mrksvnup.Proto.Client.Response.{mine, respond}
use mrksvnup.Proto.Client.Auth.{svnproto_check_auth}

-- `svnc_dirent_t`
pub record Dirent : Type 0 where
  pub name : Option Bytes
  pub kind : ℤ
  pub size : ℤ
  pub rev : ℤ

-- `orev`, and the caller's array `dirents`.
pub record Listing : Type 0 where
  pub orev : ℤ
  pub dirents : List Dirent

-- `name`, `kind_str` and `size` of `unpack2`.
pub record Entry : Type 0 where
  pub name : Option Bytes
  pub kind_str : Option Bytes
  pub size : ℤ

-- `key` and `value` of `unpack1`.
pub record Property : Type 0 where
  pub key : Option Bytes
  pub value : Option Bytes

-- `PARSE_EOD`
abbrev pub parse_eod : Code
parse_eod = other 3

abbrev pub eod_of : Code → Code
eod_of success = success
eod_of (nomatch k) = parse_eod
eod_of (other k) = parse_eod

-- The new entry, where a name has been read.
abbrev pub entry_added : Entry → List Dirent → List Dirent
entry_added e dirents = elim e.name [
  | none ↦ dirents
  | some name ↦
      dirents
      ++ record {
        name = some name;
        kind = pos (svnc_kind2int e.kind_str);
        size = e.size;
        rev = negsuc 0;
      }
        ∷ []
]

module _ (d : Reader) (fuel : ℕ) (junk : ℤ) where
  -- A property: its name and its value are freed.
  unfoldable pub unpack_property : d.R → Held Listing → Option (Code × d.R × Held Listing)
  unpack_property r h =
      elim (svnproto_vunpack d Property fuel (codes "(ss)")
        (store (some λ v p. record p { key = text_of v })
          ∷ store (some λ v p. record p { value = text_of v })
          ∷ [])
        r (record { key = none; value = none })) [
          | unpacked res r' p ↦ some (eod_of res, r', h)
          | fault ↦ none
          | stuck ↦ none
        ]

  unfoldable pub unpack_entry : d.R → Held Listing → Option (Code × d.R × Held Listing)
  unpack_entry r h =
      elim (svnproto_vunpack d Entry fuel (codes "(swnwn(s?)(s?))")
        (store (some λ v e. record e { name = text_of v })
          ∷ store (some λ v e. record e { kind_str = text_of v })
          ∷ store (some λ v e. record e { size = long_of v })
          ∷ store none
          ∷ store none
          ∷ store none
          ∷ store none
          ∷ [])
        r (record { name = none; kind_str = none; size = junk })) [
          | unpacked res r' e ↦ some (
            res,
            r',
            record h { mine = record h.mine { dirents = entry_added e h.mine.dirents } },
          )
          | fault ↦ none
          | stuck ↦ none
        ]

  unfoldable pub unpack_iprops : d.R → Held Listing → Option (Code × d.R × Held Listing)
  unpack_iprops r h = elim (svnproto_vunpack d (Held Listing) fuel (codes "()") [] r h) [
    | unpacked res r' h' ↦ some (res, r', h')
    | fault ↦ none
    | stuck ↦ none
  ]

  abbrev pub get_dir_arguments : List (Argument d (Held Listing))
  get_dir_arguments =
      mine (λ v l. record l { orev = long_of v })
      ∷ callback (some unpack_property)
      ∷ callback (some unpack_entry)
      ∷ callback (some unpack_iprops)
      ∷ []

-- The loop that gives all entries the revision.
abbrev pub with_rev : ℤ → List Dirent → List Dirent
with_rev orev [] = []
with_rev orev (de ∷ dirents) = record de { rev = orev } ∷ with_rev orev dirents

unfoldable pub svnproto_get_dir :
    (p : Peer) (junk : ℤ) → Bytes → ℤ → Ctx p → List Dirent → Result p (List Dirent)
svnproto_get_dir p junk path rev c dirents =
    sending p 11 12 (get_dir_pack1 p.output path rev) c λ c.
      checked_call p 13 (λ dirents. dirents) (svnproto_check_auth p c dirents)
        λ c dirents.
          checked_call p 14 (λ l. l.dirents)
            (respond p (codes "(n(r*)(r*)r?)") (get_dir_arguments p.reader p.fuel junk) c
              (record { orev = junk; dirents = dirents }))
            (λ c l. returned success (rewound p c) (with_rev l.orev l.dirents))
