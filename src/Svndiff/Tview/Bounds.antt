-- ===== src/Svndiff/Tview/Bounds.antt =====
-- How far `svndiff_build_tview` fills its buffer.
use mrksvnup.Base.{
  ℕ, zero, suc, ◌+◌, ◌-◌, ◌≤◌, ◌≡◌, List, [], ◌∷◌, ◌++◌, Bytes, false, inl, inr, ok, fault,
  if-eq-ok, deref-eq-ok, length, arith, All, ℤ, pos, negsuc, ◌>>=◌, some, length-append, >>=-eq-ok,
  to_size, ltb_ℤ, ◌+ℤ◌, ◌-ℤ◌, get_elem?, take, drop, length-take, length-drop, Option-cases,
}
use mrksvnup.Svndiff.Insn.{Insn, txdelta_target}
use mrksvnup.Svndiff.Doc.{Wnd}
use mrksvnup.Svndiff.Tview.{
  Pread, Progress, write_bytes, copy_loop, source_step, new_step, target_copy, target_step,
  insn_step, insns_loop, build_view, svndiff_build_tview, room,
}
use mrksvnup.Svndiff.Tview.Builds.{new_insn}

-- `pread` returns no more than was asked for.
abbrev pub Honest : Pread → Type 0
Honest pread = (off : ℤ) (n : ℕ) (b : Bytes) → pread off n ≡ some b → length b ≤ n

-- A length of at least 0.
abbrev pub IsNonneg : Insn → Type 0
IsNonneg i = (n : ℕ) × (i.len ≡ pos n)

-- The view is not longer than the window says, and `navail` is what is missing.
record Fits (tlen : ℕ) (p : Progress) : Type 0 where
  below : length p.built ≤ tlen
  navail_left : p.navail ≡ pos (tlen - length p.built)

length-copy_loop :
    (buf n from : ℕ) (built r : Bytes)
    → copy_loop buf n from built ≡ ok r
    → length r ≡ length built + n
unfolding copy_loop
length-copy_loop buf zero from built r e = ground arith
length-copy_loop buf (suc n) from built r e = elim (Option-cases (get_elem? built from)) [
  | inl gone ↦ ground (arith, gone)
  | inr (c, got) ↦ ground (
    arith,
    got,
    length-append built (c ∷ []),
    length-copy_loop buf n (suc from) (built ++ c ∷ []) r,
  )
]

length-target_copy :
    (buf n : ℕ) (z : ℤ) (built r : Bytes)
    → target_copy buf z (pos n) built ≡ ok r
    → length r ≡ length built + n
unfolding target_copy
length-target_copy buf n (pos o) built r e = length-copy_loop buf n o built r e
length-target_copy buf n (negsuc o) built r e = cc

module _ (pread : Pread) (buf : ℕ) (w : Wnd) (bytes : Bytes) (tlen : ℕ) where
  write-Fits :
      (b : Bytes) (n : ℕ) (p q : Progress)
      → Fits tlen p
      → ltb_ℤ p.navail (pos n) ≡ false
      → length b ≡ n
      → write_bytes buf b (pos n) p ≡ ok q
      → Fits tlen q
  unfolding write_bytes
  write-Fits b n p q f guard whole e =
      ground (arith, f.navail_left, f.below, length-append p.built b)

  source-Fits :
      Honest pread
      → (i : Insn) (n : ℕ) (p q : Progress) → i.len ≡ pos n
      → Fits tlen p
      → ltb_ℤ p.navail (pos n) ≡ false
      → source_step pread buf w i p ≡ ok q
      → Fits tlen q
  unfolding source_step
  source-Fits honest i n p q len f guard e =
      elim (Option-cases (pread (i.offset +ℤ w.sview_offset) (to_size i.len))) [
        | inl gone ↦ ground (arith, gone)
        | inr (b, got) ↦ ground (
          arith,
          len,
          got,
          honest (i.offset +ℤ w.sview_offset) (to_size i.len) b,
          write-Fits b n p q f guard,
        )
      ]

  new-Fits :
      (i : Insn) (n : ℕ) (p q : Progress)
      → i.len ≡ pos n
      → Fits tlen p
      → ltb_ℤ p.navail (pos n) ≡ false
      → new_step buf bytes i p ≡ ok q
      → Fits tlen q
  unfolding new_step write_bytes
  new-Fits i n p q len f guard e =
      let b = take (to_size i.len) (drop p.used bytes) in
      ground (
        arith,
        len,
        f.below,
        f.navail_left,
        length-append p.built b,
        length-take (to_size i.len) (drop p.used bytes),
        length-drop p.used bytes,
      )

  copy_result :
      (n : ℕ) (o len : ℤ) (p q : Progress)
      → len ≡ pos n
      → (do
        built ← target_copy buf o len p.built
        ok (record p { built = built; navail = p.navail -ℤ len }))
        ≡ ok q
      → (length q.built ≡ length p.built + n) × (q.navail ≡ p.navail -ℤ pos n)
  copy_result n o (pos m) p q len e =
      let (built, copied, put_eq) = >>=-eq-ok (target_copy buf o (pos m) p.built) _ e in
      ground (arith, len, length-target_copy buf m o p.built built copied, put_eq)
  copy_result n o (negsuc m) p q len e = cc

  target_result :
      (i : Insn) (n : ℕ) (p q : Progress)
      → i.len ≡ pos n
      → target_step buf w i p ≡ ok q
      → (length q.built ≡ length p.built + n) × (q.navail ≡ p.navail -ℤ pos n)
  unfolding target_step
  target_result i n p q len e =
      copy_result n i.offset i.len p q len
        (if-eq-ok (ltb_ℤ (i.offset +ℤ i.len) w.tview_len) 5 _ e).1

  target-Fits :
      (i : Insn) (n : ℕ) (p q : Progress)
      → i.len ≡ pos n
      → Fits tlen p
      → ltb_ℤ p.navail (pos n) ≡ false
      → target_step buf w i p ≡ ok q
      → Fits tlen q
  unfolding target_step
  target-Fits i n p q len f guard e =
      ground (arith, len, f.below, f.navail_left, target_result i n p q len e)

  insn_step-Fits :
      Honest pread
      → (i : Insn) (p q : Progress) → IsNonneg i
      → Fits tlen p
      → insn_step pread buf w bytes i p ≡ ok q
      → Fits tlen q
  unfolding insn_step
  insn_step-Fits honest i p q (n, len) f e = ground (
    arith,
    len,
    source-Fits honest i n p q len f,
    new-Fits i n p q len f,
    target-Fits i n p q len f,
  )

  insns_loop-Fits :
      Honest pread
      → (is : List Insn) (p q : Progress) → All IsNonneg is
      → Fits tlen p
      → insns_loop pread buf w bytes is p ≡ ok q
      → Fits tlen q
  unfolding insns_loop
  insns_loop-Fits honest [] p q ns f e = ground (arith, f.below, f.navail_left)
  insns_loop-Fits honest (i ∷ is) p q (n, ns) f e =
      let (mid, step, rest) = >>=-eq-ok (insn_step pread buf w bytes i p) _ e in
      insns_loop-Fits honest is mid q ns (insn_step-Fits honest i p mid n f step) rest

-- With instructions of no negative length, a target view that is built is never longer than the
-- window says; the rest of the window is left as it was.
pub svndiff_build_tview-le :
    (pread : Pread) (w w' : Wnd) (tlen : ℕ)
    → Honest pread
    → w.tview_len ≡ pos tlen
    → All IsNonneg w.insns
    → svndiff_build_tview pread w ≡ ok w'
    → (r : Bytes) × (w' ≡ record w { tview = some r }) × (length r ≤ tlen)
unfolding svndiff_build_tview build_view
svndiff_build_tview-le pread w w' tlen honest size ns e =
    let (bytes, has, built) = deref-eq-ok w.bytes (build_view pread w) e in
    let (buf, fits, run) = >>=-eq-ok (room w.tview_len) _ built in
    let start : Progress = record { built = []; navail = w.tview_len; used = 0 } in
    let (p, ran, put_eq) = >>=-eq-ok (insns_loop pread buf w bytes w.insns start) _ run in
    let f : Fits tlen start = ground (arith, size) in
    (
      p.built,
      ground (arith, put_eq),
      (insns_loop-Fits pread buf w bytes tlen honest w.insns start p ns f ran).below,
    )

-- A target instruction of length at most -2 at offset 0, and one for two bytes of new data more than
-- the view has, in a window of these two, end in a write behind the buffer, which is a fault.
pub svndiff_build_tview_overflow :
    (pread : Pread) (w : Wnd) (tlen k : ℕ) (new : Bytes)
    → w.tview_len ≡ pos tlen
    → w.bytes ≡ some new
    → length new ≡ tlen + 2
    → 1 ≤ k
    → w.insns
      ≡ record { code = txdelta_target; offset = pos 0; len = negsuc k } ∷ new_insn (tlen + 2) ∷ []
    → svndiff_build_tview pread w ≡ fault
unfolding svndiff_build_tview build_view insns_loop insn_step target_step target_copy new_step
    write_bytes
svndiff_build_tview_overflow pread w tlen k new size has long hk insns =
    ground (arith, size, has, long, insns, length-take (tlen + 2) new)
