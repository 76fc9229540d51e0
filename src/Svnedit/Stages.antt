-- ===== src/Svnedit/Stages.antt =====
-- The parts of `svnedit_close_file` on a file whose new contents a document describes.
use mrksvnup.Base.{
  ℕ, ◌<◌, ◌≡◌, ap, ◌∙◌, subst, sym, true, if◌then◌else◌, List, [], ◌∷◌, ◌++◌, Bytes, equal, some, ℤ,
  pos, Outcome, ok, length, arith,
}
use mathlib.Core.List.{append_assoc, append-nil}
use mrksvnup.Util.Hex.{bin2hex}
use mrksvnup.Svndiff.Doc.{Wnd, wnds}
use mrksvnup.Svnedit.System.{existing, System, Settings, Edit, or_result}
use mrksvnup.Svnedit.Checksum.{svnc_save_checksum}
use mrksvnup.Svnedit.Files.{joined_chunks, svndiff_doc_fini}
use mrksvnup.Svnedit.Close.{
  views_bytes, Part, complete, next_part, verified_as, base_differs, source_found, views_told,
  source_verified, source_opened, with_views, views_built,
}
use mrksvnup.Svnedit.Complete.{
  if_parsed, completed_as, digest_loop, matching, views_compared, views_digested, target_verified,
  file_written, completed, save_ended, edit_ended,
}
use mrksvnup.Svnedit.FileStore.{IsFileStore, IsMd5}
use mrksvnup.Svnedit.Contents.{contents_written-joined}
use mrksvnup.Svnedit.Verified.{length-bin2hex, memcmp_32-equal, svnedit_verify_checksum-equal}
use mrksvnup.Svnedit.Described.{Described, views_loop-Described}

module _ (sys : System) (c : Settings) (File : sys.W → ℤ → Bytes → ℕ → Type 0)
    (laws : IsFileStore sys File) (md5_of : Bytes → Bytes)
    (Absorbed : sys.md5.Context → Bytes → Type 0) (md5_laws : IsMd5 sys.md5 md5_of Absorbed) where
  -- The checksum of some bytes.
  abbrev pub Checksum : Bytes → Bytes → Type 0
  Checksum b cs = (length cs ≡ 32) × (equal (bin2hex (md5_of b)) cs ≡ true)

  digest_loop-joined :
      (bs : List Bytes) (before : Bytes) (m : sys.md5.Context)
      → Absorbed m before
      → Absorbed (digest_loop sys c bs m) (before ++ joined_chunks bs)
  unfolding digest_loop
  digest_loop-joined [] before m absorbed = subst (Absorbed m) (sym (append-nil before)) absorbed
  digest_loop-joined (b ∷ bs) before m absorbed =
      let (m', updated, absorbed') = md5_laws.update_lem m before b absorbed in
      rw (updated, digest_loop)
        (subst (Absorbed (digest_loop sys c bs m')) (append_assoc before b (joined_chunks bs))
          (digest_loop-joined bs (before ++ b) m' absorbed'))

  -- The base matches.
  pub source_opened-next :
      (text base old : Bytes) (n at_pos : ℕ) (w : sys.W) (x : Edit sys.W)
      → x.doc.base_checksum ≡ some base
      → sys.open_path x.doc.lp existing 0 x.world ≡ (pos n, w)
      → File w (pos n) old at_pos
      → length old < sys.fuel
      → Checksum old base
      → (w' : sys.W) × (source_opened sys c (some text) x
          ≡ ok (next_part (record x { doc = record x.doc { fd = pos n }; world = w' })))
        × File w' (pos n) old (length old)
  unfolding source_opened source_found source_verified verified_as
  source_opened-next text base old n at_pos w x given opens file room (long, same) =
      let (w', e, file') =
        svnedit_verify_checksum-equal sys File laws md5_of Absorbed md5_laws (pos n) old base at_pos
          w long room file in
      let opened : Edit sys.W = record x { doc = record x.doc { fd = pos n }; world = w } in
      let go_on : Edit sys.W → Outcome (Part sys c) = λ x. ok (next_part x) in
      (
        w',
        ap (source_found sys c (some text) x) opens
            ∙ ap (source_verified sys c (some text) opened) given
            ∙ ap (verified_as sys c opened go_on (base_differs sys c (some text))) e
            ∙ ap
                (λ b.
                  verified_as sys c opened go_on (base_differs sys c (some text))
                    (ok (if b then 0 else 6, w')))
                same,
        file',
      )

  -- The views are built.
  pub views_built-next :
      (old : Bytes) (at_pos : ℕ) (rs : List Bytes) (x : Edit sys.W)
      → File x.world x.doc.fd old at_pos
      → Described old (wnds x.doc) rs
      → (ws : List Wnd) × (views_built sys c x ≡ ok (next_part (with_views sys c ws x)))
        × (views_bytes ws ≡ some rs)
  unfolding views_built views_told
  views_built-next old at_pos rs x file described =
      let (ws, e, same) =
        views_loop-Described sys c File laws x.world x.doc.fd old at_pos (wnds x.doc) rs file
          described in
      (ws, ap (views_told sys c x) e, same)

  -- The target matches.
  pub target_verified-next :
      (text : Bytes) (v : ℕ) (rs : List Bytes) (x : Edit sys.W)
      → x.doc.version ≡ pos v
      → views_bytes (wnds x.doc) ≡ some rs
      → Checksum (joined_chunks rs) text
      → target_verified sys c (some text) x ≡ ok (next_part x)
  unfolding target_verified views_digested views_compared matching
  target_verified-next text v rs x parsed views (long, same) =
      let (m, init, absorbed) = md5_laws.init_lem in
      let hex : length (bin2hex (md5_of (joined_chunks rs))) ≡ 32 = omega (
        arith,
        length-bin2hex (md5_of (joined_chunks rs)),
        md5_laws.digest-length (joined_chunks rs),
      ) in
      let compared =
        memcmp_32-equal (bin2hex (md5_of (joined_chunks rs))) text hex long ∙ ap some same in
      let go_on : Outcome (Part sys c) = ok (next_part x) in
      ap
        (λ n.
          if_parsed sys c n (views_digested sys c text x (views_bytes (wnds x.doc)) sys.md5.init)
            go_on)
        parsed
      ∙ ap (views_digested sys c text x (views_bytes (wnds x.doc))) init
      ∙ ap (λ bs. views_digested sys c text x bs (some m)) views
      ∙ ap (views_compared sys c text x)
          (md5_laws.final_lem _ (joined_chunks rs) (digest_loop-joined rs [] m absorbed))
      ∙ ap (matching sys c x) compared

  -- The contents are written.
  pub completed-complete :
      (v n at_pos : ℕ) (rs : List Bytes) (old : Bytes) (x : Edit sys.W)
      → x.doc.version ≡ pos v
      → x.doc.fd ≡ pos n
      → views_bytes (wnds x.doc) ≡ some rs
      → File x.world x.doc.fd old at_pos
      → (w' : sys.W) × (completed sys c x ≡ ok (complete (record x { world = w' })))
        × File w' x.doc.fd (joined_chunks rs) (length (joined_chunks rs))
  unfolding completed completed_as file_written
  completed-complete v n at_pos rs old x parsed opened views file =
      let (w', e, file') =
        contents_written-joined sys c File laws x v rs old at_pos parsed views file in
      (w', ap (completed_as sys c x) opened ∙ ap (file_written sys c x) e, file')

  -- The checksum is put into the cache, and the file closed.
  pub edit_ended-closes :
      (path text : Bytes) (w : sys.W) (x : Edit sys.W)
      → x.doc.rp ≡ some path
      → sys.put path text x.world ≡ (true, w)
      → edit_ended sys c (some text) (ok (complete x))
        ≡ ok (0, svndiff_doc_fini sys (record x { world = w }))
  unfolding edit_ended save_ended svnc_save_checksum
  edit_ended-closes path text w x named saves =
      ap (λ rp. save_ended sys c x (svnc_save_checksum sys rp (some text) x.world)) named
      ∙ ap (λ put. save_ended sys c x (or_result 1 put λ w'. ok (0, w'))) saves
