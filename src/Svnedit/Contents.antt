-- ===== src/Svnedit/Contents.antt =====
-- The contents that `svnedit_close_file` writes.
use mrksvnup.Base.{
  ℕ, ◌≡◌, refl, ap, ◌∙◌, subst, sym, List, [], ◌∷◌, ◌++◌, Bytes, some, ℤ, pos, Outcome, ok, length,
  drop, length-append,
}
use mathlib.Core.List.{append_assoc, append-nil}
use mrksvnup.Svndiff.Doc.{wnds}
use mrksvnup.Svnedit.System.{System, Settings, Edit, or_abort}
use mrksvnup.Svnedit.Files.{write_loop, joined_chunks}
use mrksvnup.Svnedit.Close.{views_bytes}
use mrksvnup.Svnedit.Complete.{contents_written}
use mrksvnup.Svnedit.FileStore.{IsFileStore}

module _ (sys : System) (c : Settings) (File : sys.W → ℤ → Bytes → ℕ → Type 0)
    (laws : IsFileStore sys File) where
  -- The chunks stand behind what has been written, in front of what was there.
  write_loop-joined :
      (fd : ℤ) (ss : List Bytes) (before after end : Bytes) (w : sys.W)
      (next : ℕ → sys.W → Outcome (ℕ × sys.W))
      → before ++ joined_chunks ss ≡ end
      → File w fd (before ++ after) (length before)
      → (w' : sys.W) × (left : Bytes) × (write_loop sys c fd ss (length before) w next
          ≡ next (length end) w')
        × File w' fd (end ++ left) (length end)
  unfolding write_loop
  write_loop-joined fd [] before after end w next whole file =
      let same : before ≡ end = sym (append-nil before) ∙ whole in
      (
        w,
        after,
        ap (λ b. next (length b) w) same,
        subst (λ b. File w fd (b ++ after) (length b)) same file,
      )
  write_loop-joined fd (s ∷ ss) before after end w next whole file =
      let (w1, wrote, file1) = laws.write_lem w fd before s after file in
      let more = length-append before s in
      let (w2, left, e, file2) =
        write_loop-joined fd ss (before ++ s) (drop (length s) after) end w1 next
          (append_assoc before s (joined_chunks ss) ∙ whole)
          (subst (File w1 fd ((before ++ s) ++ drop (length s) after)) (sym more) file1) in
      (w2, left, rw (wrote) (ap (λ n. write_loop sys c fd ss n w1 next) (sym more) ∙ e), file2)

  -- Where a document has been parsed, and the views of all windows are filled: the file that is open
  -- has, behind `contents_written`, the bytes of the views in a row and nothing else, whatever was in
  -- it, and the position is behind them.
  pub contents_written-joined :
      (x : Edit sys.W) (v : ℕ) (bs : List Bytes) (old : Bytes) (old_pos : ℕ)
      → x.doc.version ≡ pos v
      → views_bytes (wnds x.doc) ≡ some bs
      → File x.world x.doc.fd old old_pos
      → (w' : sys.W) × (contents_written sys c x ≡ ok (0, w'))
        × File w' x.doc.fd (joined_chunks bs) (length (joined_chunks bs))
  unfolding contents_written
  contents_written-joined x v bs old old_pos parsed views file =
      let fd = x.doc.fd in
      let (w1, e1, file1) = laws.rewind_lem x.world fd old old_pos file in
      let all = joined_chunks bs in
      let moded : sys.W → Outcome (ℕ × sys.W) =
        λ w. or_abort (sys.fchmod fd x.doc.mode w) λ w'. ok (0, w') in
      let (w2, left, e2, file2) =
        write_loop-joined fd bs [] old all w1 (λ total w. or_abort (sys.ftruncate fd total w) moded)
          refl file1 in
      let (w3, e3, file3) = laws.ftruncate_lem w2 fd all left (length all) file2 in
      let (w4, e4, file4) = laws.fchmod_lem w3 fd x.doc.mode all (length all) file3 in
      (w4, rw (parsed, views, e1, e2, e3, e4), file4)
