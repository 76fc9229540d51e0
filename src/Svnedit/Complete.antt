-- ===== src/Svnedit/Complete.antt =====
-- `svnedit_close_file` of src/svnedit.c: its steps from the check of the target view on, and the
-- function.
use mrksvnup.Base.{
  zero, suc, ltb, Bool, true, false, if◌then◌else◌, List, [], ◌∷◌, Bytes, Option, none, some, ℤ,
  pos, negsuc, Outcome, ok, fail, fault, stuck, length,
}
use mrksvnup.Svndiff.Doc.{Wnd, wnds}
use mrksvnup.Util.Hex.{bin2hex}
use mrksvnup.Svnedit.System.{create, System, Settings, Edit, Edited, or_abort}
use mrksvnup.Svnedit.Checksum.{memcmp_32, svnc_save_checksum}
use mrksvnup.Svnedit.Links.{link_target}
use mrksvnup.Svnedit.Files.{svndiff_doc_fini, write_loop}
use mrksvnup.Svnedit.Close.{
  is_closed, other_token, view_bytes, views_bytes, descriptor_closed, Part, complete, next_part,
  end_with, clean_copy, source_opened, views_built,
}

module _ (sys : System) (c : Settings) where
  open sys use {W, md5}

  abbrev pub and_then :
      Outcome (Part sys c) → (Edit W → Outcome (Part sys c)) → Outcome (Part sys c)
  and_then (ok (next_part x)) next = next x
  and_then (ok (complete x)) next = ok (complete x)
  and_then (ok (end_with k x)) next = ok (end_with k x)
  and_then (fail k) next = fail k
  and_then fault next = fault
  and_then stuck next = stuck

  -- `checksum_cb` on each view; a failure ends the walk, and is ignored.
  unfoldable pub digest_loop : List Bytes → md5.Context → md5.Context
  digest_loop [] m = m
  digest_loop (b ∷ bs) m = elim (md5.update b m) [ none ↦ m | some m' ↦ digest_loop bs m' ]

  -- What follows `MD5_Final`, with the checksum of the command.
  unfoldable pub matching : Edit W → Option Bool → Outcome (Part sys c)
  matching x none = fault
  matching x (some true) = ok (next_part x)
  matching x (some false) = clean_copy sys c 5 false (descriptor_closed sys c x)

  unfoldable pub views_compared : Bytes → Edit W → Option Bytes → Outcome (Part sys c)
  views_compared text x none = ok (end_with 5 x)
  views_compared text x (some md) = matching x (memcmp_32 (bin2hex md) text)

  -- The digest of the views, from the state that `MD5_Init` gives.
  unfoldable pub views_digested :
      Bytes → Edit W → Option (List Bytes) → Option md5.Context → Outcome (Part sys c)
  views_digested text x bs none = ok (end_with 4 x)
  views_digested text x none (some m) = fault
  views_digested text x (some bs) (some m) = views_compared text x (md5.final (digest_loop bs m))

  -- A document has been parsed, `version != -1`.
  abbrev pub if_parsed : {A : Type 0} → ℤ → A → A → A
  if_parsed (negsuc zero) then_ else_ = else_
  if_parsed _ then_ else_ = then_

  unfoldable pub target_verified : Option Bytes → Edit W → Outcome (Part sys c)
  target_verified none x = ok (next_part x)
  target_verified (some text) x =
      if_parsed x.doc.version (views_digested text x (views_bytes (wnds x.doc)) md5.init)
        (ok (next_part x))

  -- A new link, from the first window.
  unfoldable pub link_made : List Wnd → Edit W → Outcome (Part sys c)
  link_made [] x = ok (complete x)
  link_made (wnd ∷ ws) x = elim (view_bytes wnd) [
    | none ↦ fault
    | some b ↦ elim (link_target b) [
      | none ↦ ok (end_with 6 x)
      | some target ↦
          let (made, w) = sys.symlink target x.doc.lp x.world in
          let x' = record x { world = w } in if made then ok (complete x') else ok (end_with 7 x')
    ]
  ]

  -- A link in the place of one; `olddata` has 1024 bytes, of which one is for the zero byte.
  unfoldable pub link_replaced : List Wnd → Edit W → Outcome (Part sys c)
  link_replaced [] x = ok (complete x)
  link_replaced (wnd ∷ ws) x = elim (sys.readlink x.doc.lp x.world) [
    | none ↦ fault
    | some olddata ↦
        if ltb (length olddata) 1024
        then (elim (view_bytes wnd) [
          | none ↦ fault
          | some b ↦ elim (link_target b) [
            | none ↦ ok (end_with 8 x)
            | some target ↦
                let (gone, w) = sys.unlink x.doc.lp x.world in
                let (made, w') = sys.symlink target x.doc.lp w in
                let x' = record x { world = w' } in
                if made then ok (complete x') else ok (end_with 9 x')
          ]
        ])
        else fault
  ]

  -- The views are the contents, where a document has been parsed.
  unfoldable pub contents_written : Edit W → Edited W
  contents_written x =
      let moded : W → Edited W =
        λ w. or_abort (sys.fchmod x.doc.fd x.doc.mode w) λ w'. ok (0, w') in
      if_parsed x.doc.version
        (elim (views_bytes (wnds x.doc)) [
          | none ↦ fault
          | some bs ↦ or_abort (sys.rewind x.doc.fd x.world) λ w.
              write_loop sys c x.doc.fd bs 0 w
                λ total w. or_abort (sys.ftruncate x.doc.fd total w) moded
        ])
        (moded x.world)

  unfoldable pub file_written : Edit W → Edited W → Outcome (Part sys c)
  file_written x (ok (k, w)) = ok (complete (record x { world = w }))
  file_written x (fail k) = fail k
  file_written x fault = fault
  file_written x stuck = stuck

  -- A file that is made, where it can be; otherwise a link is there.
  unfoldable pub file_made : Edit W → ℤ × W → Outcome (Part sys c)
  file_made x (pos n, w) =
      let x' = record x { doc = record x.doc { fd = pos n }; world = w } in
      file_written x' (contents_written x')
  file_made x (negsuc n, w) =
      link_replaced (wnds x.doc) (record x { doc = record x.doc { fd = negsuc n }; world = w })

  -- The completion: a file that is not open is made, as a link or as a file.
  unfoldable pub completed_as : Edit W → ℤ → Outcome (Part sys c)
  completed_as x (negsuc zero) =
      if x.doc.flags.symlink_set
      then link_made (wnds x.doc) x
      else file_made x (sys.open_path x.doc.lp create x.doc.mode x.world)
  completed_as x fd = file_written x (contents_written x)

  unfoldable pub completed : Edit W → Outcome (Part sys c)
  completed x = completed_as x x.doc.fd

  -- The end, with what has become of the checksum.
  unfoldable pub save_ended : Edit W → Edited W → Edited (Edit W)
  save_ended x (ok (zero, w)) = ok (0, svndiff_doc_fini sys (record x { world = w }))
  save_ended x (ok (suc k, w)) = ok (10, svndiff_doc_fini sys (record x { world = w }))
  save_ended x (fail k) = fail k
  save_ended x fault = fault
  save_ended x stuck = stuck

  -- `EDIT_COMPLETE`, and `END`.
  unfoldable pub edit_ended : Option Bytes → Outcome (Part sys c) → Edited (Edit W)
  edit_ended text (ok (complete x)) = save_ended x (svnc_save_checksum sys x.doc.rp text x.world)
  edit_ended text (ok (next_part x)) = fault
  edit_ended text (ok (end_with k x)) = ok (k, svndiff_doc_fini sys x)
  edit_ended text (fail k) = fail k
  edit_ended text fault = fault
  edit_ended text stuck = stuck

  -- A descriptor that is open at the start fails the assertion.
  unfoldable pub svnedit_close_file : Option Bytes → Option Bytes → Edit W → Edited (Edit W)
  svnedit_close_file token text x =
      if other_token token x.doc.ft
      then ok (1, svndiff_doc_fini sys x)
      else if is_closed x.doc.fd
      then edit_ended text (
          and_then
            (and_then (and_then (source_opened sys c text x) (views_built sys c))
              (target_verified text))
            completed)
      else fault
