-- ===== src/Svndiff/Tview/Builds.antt =====
-- What an svndiff window describes, and `svndiff_build_tview` on such a window.
use mrksvnup.Base.{
  ℕ, suc, ◌+◌, ◌-◌, ◌≤◌, ◌<◌, ◌≡◌, refl, sym, ap, ◌∙◌, List, [], ◌∷◌, ◌++◌, Bytes, ok, length,
  arith, pos, negsuc, some, length-append, ◌+ℤ◌, get_elem?, take, drop, get_elem?-append_left,
  get_elem?-append_right, take-length-append, drop-length-append, length-take, length-drop,
}
use mathlib.Core.List.{append_assoc, append-nil}
use mrksvnup.Svndiff.Insn.{Insn, txdelta_source, txdelta_target, txdelta_new}
use mrksvnup.Svndiff.Doc.{Wnd}
use mrksvnup.Svndiff.Tview.{
  Pread, Progress, write_bytes, copy_loop, source_step, new_step, target_copy, target_step,
  insn_step, insns_loop, build_view, svndiff_build_tview,
}

abbrev pub source_insn : ℕ → ℕ → Insn
source_insn off len = record { code = txdelta_source; offset = pos off; len = pos len }

abbrev pub target_insn : ℕ → ℕ → Insn
target_insn off len = record { code = txdelta_target; offset = pos off; len = pos len }

abbrev pub new_insn : ℕ → Insn
new_insn len = record { code = txdelta_new; offset = negsuc 0; len = pos len }

-- `p` behind `built` repeats the bytes from `from` on: each byte is the one that lies as far
-- behind `from` as it lies behind `built`. The two may overlap.
abbrev pub Repeats : Bytes → ℕ → Bytes → Type 0
Repeats built from p =
    (j : ℕ)
    → j < length p
    → get_elem? (built ++ p) (length built + j) ≡ get_elem? (built ++ p) (from + j)

-- `Builds sview is new built r`: the instructions `is`, with the new data `new` still to be
-- used and the bytes `built` in place, describe the target `r`.
pub data Builds (sview : Bytes) : List Insn → Bytes → Bytes → Bytes → Type 0 where
  done : {new built : Bytes} → Builds sview [] new built built
  source :
      {is : List Insn} {new built r : Bytes} (off len : ℕ)
      → off + len ≤ length sview
      → Builds sview is new (built ++ take len (drop off sview)) r
      → Builds sview (source_insn off len ∷ is) new built r
  target :
      {is : List Insn} {new built r : Bytes} (off : ℕ) (p : Bytes)
      → off < length built
      → Repeats built off p
      → Builds sview is new (built ++ p) r
      → Builds sview (target_insn off (length p) ∷ is) new built r
  insert :
      {is : List Insn} {new built r : Bytes} (b : Bytes)
      → Builds sview is new (built ++ b) r
      → Builds sview (new_insn (length b) ∷ is) (b ++ new) built r

Repeats-head :
    (built p : Bytes) (c from : ℕ)
    → from < length built
    → Repeats built from (c ∷ p)
    → get_elem? built from ≡ some c
Repeats-head built p c from h rep =
    let e : length built + 0 ≡ length built + 0 = refl in
    let z : from + 0 ≡ from = omega arith in
    sym (get_elem?-append_left built (c ∷ p) from h)
    ∙ ap (get_elem? (built ++ c ∷ p)) (sym z)
    ∙ sym (rep 0 (omega arith))
    ∙ get_elem?-append_right built (c ∷ p) (length built + 0) 0 e

Repeats-tail :
    (built p : Bytes) (c from : ℕ)
    → Repeats built from (c ∷ p)
    → Repeats (built ++ c ∷ []) (suc from) p
Repeats-tail built p c from rep j h =
    let one = length-append built (c ∷ []) in
    let e : length (built ++ c ∷ []) + j ≡ length built + suc j = omega (arith, one) in
    let f : suc from + j ≡ from + suc j = omega arith in
    rw (append_assoc built (c ∷ []) p, e, f) (rep (suc j) (omega arith))

-- The byte-wise copy makes the repetition.
copy_loop-Repeats :
    (buf : ℕ) (built p : Bytes) (from : ℕ)
    → from < length built
    → length built + length p ≤ buf
    → Repeats built from p
    → copy_loop buf (length p) from built ≡ ok (built ++ p)
unfolding copy_loop
copy_loop-Repeats buf built [] from h fits rep = rw append-nil
copy_loop-Repeats buf built (c ∷ p) from h fits rep =
    let one = length-append built (c ∷ []) in
    ground (
      arith,
      one,
      Repeats-head built p c from h rep,
      append_assoc built (c ∷ []) p,
      copy_loop-Repeats buf (built ++ c ∷ []) p (suc from) (omega (arith, one)) (omega (arith, one))
          (Repeats-tail built p c from rep),
    )

Builds-grows :
    {sview : Bytes} {is : List Insn} {new built r : Bytes}
    → Builds sview is new built r
    → length built ≤ length r
Builds-grows done = omega arith
Builds-grows {sview} {built = built} (source off len h b) =
    omega (arith, Builds-grows b, length-append built (take len (drop off sview)))
Builds-grows {built = built} (target off p h rep b) =
    omega (arith, Builds-grows b, length-append built p)
Builds-grows {built = built} (insert p b) = omega (arith, Builds-grows b, length-append built p)

-- `pread` at the source view: `sview` lies at its offset in the file, and a read inside it is whole.
abbrev pub ReadsView : Pread → Wnd → Bytes → Type 0
ReadsView pread w sview =
    (off len : ℕ)
    → off + len ≤ length sview
    → pread (pos off +ℤ w.sview_offset) len ≡ some (take len (drop off sview))

module _ (pread : Pread) (w : Wnd) (sview bytes : Bytes) (tlen : ℕ)
    (reads : ReadsView pread w sview) (size : w.tview_len ≡ pos tlen) where
  -- The locals once `built` is in place.
  abbrev progress : Bytes → ℕ → Progress
  progress built used = record { built = built; navail = pos (tlen - length built); used = used }

  write_lem :
      (b built : Bytes) (used : ℕ)
      → length built + length b ≤ tlen
      → write_bytes (suc tlen) b (pos (length b)) (progress built used)
        ≡ ok (progress (built ++ b) used)
  unfolding write_bytes
  write_lem b built used fits = ground (arith, length-append built b)

  source_lem :
      (off len used : ℕ) (built : Bytes)
      → off + len ≤ length sview
      → length built + len ≤ tlen
      → insn_step pread (suc tlen) w bytes (source_insn off len) (progress built used)
        ≡ ok (progress (built ++ take len (drop off sview)) used)
  unfolding insn_step source_step
  source_lem off len used built h fits =
      let b = take len (drop off sview) in
      let whole : length b ≡ len =
        omega (arith, length-take len (drop off sview), length-drop off sview) in
      ground (arith, reads off len h, whole, write_lem b built used)

  target_lem :
      (off used : ℕ) (built p : Bytes)
      → off < length built
      → length built + length p ≤ tlen
      → Repeats built off p
      → insn_step pread (suc tlen) w bytes (target_insn off (length p)) (progress built used)
        ≡ ok (progress (built ++ p) used)
  unfolding insn_step target_step target_copy
  target_lem off used built p h fits rep =
      ground (arith, size, length-append built p, copy_loop-Repeats (suc tlen) built p off)

  insert_lem :
      (used : ℕ) (built p : Bytes)
      → used + length p ≤ length bytes
      → length built + length p ≤ tlen
      → insn_step pread (suc tlen) w bytes (new_insn (length p)) (progress built used)
        ≡ ok (progress (built ++ take (length p) (drop used bytes)) (used + length p))
  unfolding insn_step new_step
  insert_lem used built p h fits =
      let b = take (length p) (drop used bytes) in
      let whole : length b ≡ length p =
        omega (arith, length-take (length p) (drop used bytes), length-drop used bytes) in
      ground (arith, whole, write_lem b built used)

  loop_step :
      (i : Insn) (is : List Insn) (p q : Progress)
      → insn_step pread (suc tlen) w bytes i p ≡ ok q
      → insns_loop pread (suc tlen) w bytes (i ∷ is) p ≡ insns_loop pread (suc tlen) w bytes is q
  unfolding insns_loop
  loop_step i is p q e = rw e

  -- Every instruction of the description is carried out.
  loop-Builds :
      {is : List Insn} {new built r : Bytes} (front : Bytes)
      → Builds sview is new built r
      → bytes ≡ front ++ new
      → length r ≤ tlen
      → (used : ℕ) × (insns_loop pread (suc tlen) w bytes is (progress built (length front))
          ≡ ok (progress r used))
  unfolding insns_loop
  loop-Builds front done e fits = (length front, refl)
  loop-Builds {built = built} front (source {is} off len h b) e fits =
      let next = built ++ take len (drop off sview) in
      let whole : length (take len (drop off sview)) ≡ len =
        omega (arith, length-take len (drop off sview), length-drop off sview) in
      let room_left : length built + len ≤ tlen =
        omega (arith, Builds-grows b, length-append built (take len (drop off sview))) in
      let (used, run) = loop-Builds front b e fits in
      (
        used,
        loop_step (source_insn off len) is _ (progress next (length front))
              (source_lem off len (length front) built h room_left)
            ∙ run,
      )
  loop-Builds {built = built} front (target {is} off p h rep b) e fits =
      let room_left : length built + length p ≤ tlen =
        omega (arith, Builds-grows b, length-append built p) in
      let (used, run) = loop-Builds front b e fits in
      (
        used,
        loop_step (target_insn off (length p)) is _ (progress (built ++ p) (length front))
              (target_lem off (length front) built p h room_left rep)
            ∙ run,
      )
  loop-Builds {built = built} front (insert {is} {new} p b) e fits =
      let room_left : length built + length p ≤ tlen =
        omega (arith, Builds-grows b, length-append built p) in
      let enough : length front + length p ≤ length bytes =
        rw e (omega (arith, length-append front (p ++ new), length-append p new)) in
      let cut : take (length p) (drop (length front) bytes) ≡ p =
        rw (e, drop-length-append front (p ++ new)) (take-length-append p new) in
      let (used, run) = loop-Builds (front ++ p) b (e ∙ sym (append_assoc front p new)) fits in
      (
        used,
        loop_step (new_insn (length p)) is _ (progress (built ++ p) (length front + length p))
              (rw cut at (insert_lem (length front) built p enough room_left))
            ∙ rw (length-append front p) at run,
      )

-- Where `sview` lies at the window's offset in the source file, and the window's instructions and
-- new data describe a target of the window's length, `svndiff_build_tview` builds that target.
pub svndiff_build_tview-Builds :
    (pread : Pread) (w : Wnd) (sview new r : Bytes)
    → ReadsView pread w sview
    → w.tview_len ≡ pos (length r)
    → w.bytes ≡ some new
    → Builds sview w.insns new [] r
    → svndiff_build_tview pread w ≡ ok (record w { tview = some r })
unfolding svndiff_build_tview build_view
svndiff_build_tview-Builds pread w sview new r reads size has b =
    let (used, run) = loop-Builds pread w sview new (length r) reads size [] b refl (omega arith) in
    ground (arith, has, size, run)
