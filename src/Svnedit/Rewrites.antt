-- ===== src/Svnedit/Rewrites.antt =====
-- `svnedit_close_file` on a file whose new contents a document describes.
use mrksvnup.Base.{
  ℕ, ◌<◌, ◌≡◌, refl, ap, ◌∙◌, true, false, if◌then◌else◌, List, Bytes, Option, some, ℤ, pos, negsuc,
  Outcome, ok, fault, length,
}
use mathlib.Core.List.{append-nil}
use mrksvnup.Svndiff.Doc.{Wnd, wnds}
use mrksvnup.Svnedit.System.{existing, System, Settings, Edit}
use mrksvnup.Svnedit.Files.{joined_chunks, svndiff_doc_fini}
use mrksvnup.Svnedit.Close.{
  is_closed, other_token, views_bytes, Part, complete, source_opened, with_views, views_built,
}
use mrksvnup.Svnedit.Complete.{and_then, target_verified, completed, edit_ended, svnedit_close_file}
use mrksvnup.Svnedit.FileStore.{IsFileStore, IsMd5}
use mrksvnup.Svnedit.Described.{Described}
use mrksvnup.Svnedit.Stages.{
  Checksum, source_opened-next, views_built-next, target_verified-next, completed-complete,
  edit_ended-closes,
}

module _ (sys : System) (c : Settings) (File : sys.W → ℤ → Bytes → ℕ → Type 0)
    (laws : IsFileStore sys File) (md5_of : Bytes → Bytes)
    (Absorbed : sys.md5.Context → Bytes → Type 0) (md5_laws : IsMd5 sys.md5 md5_of Absorbed) where
  -- The parts of the function, each of which goes on.
  parts-complete :
      (text base old : Bytes) (rs : List Bytes) (v n at_pos : ℕ) (w : sys.W) (x : Edit sys.W)
      → x.doc.version ≡ pos v
      → x.doc.base_checksum ≡ some base
      → sys.open_path x.doc.lp existing 0 x.world ≡ (pos n, w)
      → File w (pos n) old at_pos
      → length old < sys.fuel
      → Checksum sys c File laws md5_of Absorbed md5_laws old base
      → Described old (wnds x.doc) rs
      → Checksum sys c File laws md5_of Absorbed md5_laws (joined_chunks rs) text
      → (w' : sys.W) × (ws : List Wnd) × (and_then sys c
            (and_then sys c
              (and_then sys c (source_opened sys c (some text) x) (views_built sys c))
              (target_verified sys c (some text)))
            (completed sys c)
          ≡ ok (
              complete
                (with_views sys c ws (record x { doc = record x.doc { fd = pos n }; world = w' }))))
        × File w' (pos n) (joined_chunks rs) (length (joined_chunks rs))
  parts-complete text base old rs v n at_pos w x parsed given opens file room base_ok described
        text_ok =
      let (w1, e1, file1) =
        source_opened-next sys c File laws md5_of Absorbed md5_laws text base old n at_pos w x given
          opens file room base_ok in
      let x1 : Edit sys.W = record x { doc = record x.doc { fd = pos n }; world = w1 } in
      let (ws, e2, views) =
        views_built-next sys c File laws md5_of Absorbed md5_laws old (length old) rs x1 file1
          described in
      let x2 = with_views sys c ws x1 in
      let views2 = ap views_bytes (append-nil ws) ∙ views in
      let e3 =
        target_verified-next sys c File laws md5_of Absorbed md5_laws text v rs x2 parsed views2
          text_ok in
      let (w4, e4, file4) =
        completed-complete sys c File laws md5_of Absorbed md5_laws v n (length old) rs old x2
          parsed refl views2 file1 in
      let seq : Outcome (Part sys c) → (Edit sys.W → Outcome (Part sys c)) → Outcome (Part sys c) =
        and_then sys c in
      (
        w4,
        ws,
        ap
              (λ m.
                seq (seq (seq m (views_built sys c)) (target_verified sys c (some text)))
                  (completed sys c))
              e1
            ∙ ap (λ m. seq (seq m (target_verified sys c (some text))) (completed sys c)) e2
            ∙ ap (λ m. seq m (completed sys c)) e3
            ∙ e4,
        file4,
      )

  pub svnedit_close_file-rewrites :
      (token : Option Bytes) (path text base old : Bytes) (rs : List Bytes) (v n at_pos : ℕ)
      (w : sys.W) (x : Edit sys.W)
      → other_token token x.doc.ft ≡ false
      → x.doc.fd ≡ negsuc 0
      → x.doc.rp ≡ some path
      → x.doc.version ≡ pos v
      → x.doc.base_checksum ≡ some base
      → sys.open_path x.doc.lp existing 0 x.world ≡ (pos n, w)
      → File w (pos n) old at_pos
      → length old < sys.fuel
      → Checksum sys c File laws md5_of Absorbed md5_laws old base
      → Described old (wnds x.doc) rs
      → Checksum sys c File laws md5_of Absorbed md5_laws (joined_chunks rs) text
      → ((w : sys.W) → (w' : sys.W) × (sys.put path text w ≡ (true, w')))
      → (w1 : sys.W) × (w2 : sys.W) × (ws : List Wnd) × File w1
          (pos n)
          (joined_chunks rs)
          (length (joined_chunks rs))
        × (sys.put path text w1 ≡ (true, w2))
        × (svnedit_close_file sys c token (some text) x
            ≡ ok (
              0,
              svndiff_doc_fini sys (
                  with_views sys c ws (record x { doc = record x.doc { fd = pos n }; world = w2 })),
            ))
  unfolding svnedit_close_file
  svnedit_close_file-rewrites token path text base old rs v n at_pos w x own_token none_open named
        parsed given opens file room base_ok described text_ok accepts =
      let (w1, ws, e, file1) =
        parts-complete text base old rs v n at_pos w x parsed given opens file room base_ok
          described text_ok in
      let (w2, saves) = accepts w1 in
      let x1 = with_views sys c ws (record x { doc = record x.doc { fd = pos n }; world = w1 }) in
      (
        w1,
        w2,
        ws,
        file1,
        saves,
        rw (svnedit_close_file, own_token, e)
            (ap
                (λ fd.
                  if is_closed fd then edit_ended sys c (some text) (ok (complete x1)) else fault)
                none_open
              ∙ edit_ended-closes sys c File laws md5_of Absorbed md5_laws path text w2 x1 named
                  saves),
      )
