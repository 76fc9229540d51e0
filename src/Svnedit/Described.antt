-- ===== src/Svnedit/Described.antt =====
-- The windows of a document that describe the pieces of a file, and their views.
use mrksvnup.Base.{
  ℕ, zero, suc, ◌+◌, ◌≤◌, ◌≡◌, refl, ap, ◌∙◌, true, List, [], ◌∷◌, ◌++◌, Bytes, some, ℤ, pos, ok,
  length, take, drop, length-append, length-drop, ◌+ℤ◌, arith,
}
use mrksvnup.Svndiff.Doc.{Wnd}
use mrksvnup.Svndiff.Tview.Builds.{Builds, ReadsView, svndiff_build_tview-Builds}
use mrksvnup.Svnedit.System.{System, Settings}
use mrksvnup.Svnedit.Close.{view_bytes, views_bytes, views_loop}
use mrksvnup.Svnedit.FileStore.{IsFileStore}

-- `Describes old w r`: on the file `old`, the window `w` describes the piece `r`. Its source view is
-- the part `sview` of the file, and `new` its new data.
pub record Describes (old : Bytes) (w : Wnd) (r : Bytes) : Type 0 where
  pub before : Bytes
  pub sview : Bytes
  pub after : Bytes
  pub new : Bytes
  pub source_lem : old ≡ before ++ (sview ++ after)
  pub offset_lem : w.sview_offset ≡ pos (length before)
  pub size_lem : w.tview_len ≡ pos (length r)
  pub data_lem : w.bytes ≡ some new
  pub builds : Builds sview w.insns new [] r

-- The windows, each with its piece.
pub data Described (old : Bytes) : List Wnd → List Bytes → Type 0 where
  no_wnds : Described old [] []
  wnd_then :
      {w : Wnd} {ws : List Wnd} {r : Bytes} {rs : List Bytes}
      → Describes old w r
      → Described old ws rs
      → Described old (w ∷ ws) (r ∷ rs)

module _ {ℓ} {A : Type ℓ} where
  take-append_left : (n : ℕ) (xs ys : List A) → n ≤ length xs → take n (xs ++ ys) ≡ take n xs
  take-append_left zero xs ys le = refl
  take-append_left (suc n) [] ys le = absurd (omega arith)
  take-append_left (suc n) (x ∷ xs) ys le = ap (λ l. x ∷ l) (take-append_left n xs ys (omega arith))

  drop-append_left : (n : ℕ) (xs ys : List A) → n ≤ length xs → drop n (xs ++ ys) ≡ drop n xs ++ ys
  drop-append_left zero xs ys le = refl
  drop-append_left (suc n) [] ys le = absurd (omega arith)
  drop-append_left (suc n) (x ∷ xs) ys le = drop-append_left n xs ys (omega arith)

  drop-add_length : (m n : ℕ) (xs ys : List A) → m ≡ length xs + n → drop m (xs ++ ys) ≡ drop n ys
  drop-add_length m n [] ys e = ap (λ k. drop k ys) (omega arith)
  drop-add_length zero n (x ∷ xs) ys e = absurd (omega arith)
  drop-add_length (suc m) n (x ∷ xs) ys e = drop-add_length m n xs ys (omega arith)

pos-add : (m n : ℕ) → pos m +ℤ pos n ≡ pos (m + n)
pos-add m n = ground arith

module _ (sys : System) (c : Settings) (File : sys.W → ℤ → Bytes → ℕ → Type 0)
    (laws : IsFileStore sys File) where
  view_read :
      (w : sys.W) (fd : ℤ) (old : Bytes) (at_pos : ℕ) (wnd : Wnd) (r : Bytes)
      (h : Describes old wnd r)
      → File w fd old at_pos
      → ReadsView (sys.pread w fd) wnd h.sview
  view_read w fd old at_pos wnd r h file off len inside =
      let start = off + length h.before in
      let cut : drop start old ≡ drop off (h.sview ++ h.after) =
        ap (drop start) h.source_lem
        ∙ drop-add_length start off h.before (h.sview ++ h.after) (omega arith) in
      let piece : take len (drop start old) ≡ take len (drop off h.sview) =
        ap (take len) (cut ∙ drop-append_left off h.sview h.after (omega arith))
        ∙ take-append_left len (drop off h.sview) h.after
            (omega (arith, length-drop off h.sview)) in
      let whole : length old ≡ length h.before + (length h.sview + length h.after) =
        ap length h.source_lem
        ∙ omega
            (arith, length-append h.before (h.sview ++ h.after), length-append h.sview h.after) in
      ap (λ o. sys.pread w fd o len)
        (ap (λ o. pos off +ℤ o) h.offset_lem ∙ pos-add off (length h.before))
      ∙ laws.pread_lem w fd old at_pos start len file (omega arith)
      ∙ ap some piece

  filled-view_bytes :
      (wnd : Wnd) (r : Bytes)
      → wnd.tview_len ≡ pos (length r)
      → view_bytes (record wnd { tview = some r }) ≡ some r
  unfolding view_bytes
  filled-view_bytes wnd r size = rw (size) (ground arith)

  -- The views of windows that describe pieces of the open file are built, and are the pieces.
  pub views_loop-Described :
      (w : sys.W) (fd : ℤ) (old : Bytes) (at_pos : ℕ) (ws : List Wnd) (rs : List Bytes)
      → File w fd old at_pos
      → Described old ws rs
      → (ws' : List Wnd) × (views_loop sys c w fd ws ≡ ok (true, ws')) × (views_bytes ws' ≡ some rs)
  unfolding views_loop views_bytes
  views_loop-Described w fd old at_pos ws rs file no_wnds = ([], refl, refl)
  views_loop-Described w fd old at_pos ws rs file
        (wnd_then {w = wnd} {ws = ws1} {r = r} {rs = rs1} h hs) =
      let (ws', e, same) = views_loop-Described w fd old at_pos ws1 rs1 file hs in
      let built =
        svndiff_build_tview-Builds (sys.pread w fd) wnd h.sview h.new r
          (view_read w fd old at_pos wnd r h file) h.size_lem h.data_lem h.builds in
      (
        record wnd { tview = some r } ∷ ws',
        rw (built, e, views_loop),
        rw (filled-view_bytes wnd r h.size_lem, same, views_bytes),
      )
