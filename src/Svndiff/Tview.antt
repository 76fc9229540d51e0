-- ===== src/Svndiff/Tview.antt =====
-- `svndiff_build_tview` of src/svndiff.c: the target view of a window, built by its instructions.
pub mod Builds
pub mod Bounds
use mrksvnup.Base.{
  ℕ, zero, suc, ◌+◌, ◌-◌, List, [], ◌∷◌, ◌++◌, Bytes, if◌then◌else◌, ltb, ◌==◌, Option, none, some,
  Outcome, ok, fail, fault, deref, ◌>>=◌, length, get_elem?, take, drop, ℤ, pos, negsuc, to_size,
  ltb_ℤ, ◌+ℤ◌, ◌-ℤ◌,
}
use mrksvnup.Svndiff.Insn.{Insn, txdelta_source, txdelta_target, txdelta_new}
use mrksvnup.Svndiff.Doc.{Wnd}

-- `pread` on the document's descriptor: offset and count; `none` is -1.
abbrev pub Pread : Type 0
Pread = ℤ → ℕ → Option Bytes

-- The locals of the loop. `built` is the buffer from `wnd->tview` up to `ptbuf`; what lies behind
-- that was never written. `used` is `pbytes - wnd->bytes->data`.
pub record Progress : Type 0 where
  pub built : Bytes
  pub navail : ℤ
  pub used : ℕ

-- The size of the buffer: `malloc(wnd->tview_len + 1)`. No allocation serves a length below -1.
abbrev pub room : ℤ → Outcome ℕ
room (pos n) = ok (suc n)
room (negsuc zero) = ok 0
room (negsuc (suc n)) = fault

-- Bytes written at `ptbuf`, which moves behind them.
pub write_bytes : ℕ → Bytes → ℤ → Progress → Outcome Progress
write_bytes buf b len p =
    if ltb buf (length p.built + length b)
    then fault
    else ok (record p { built = p.built ++ b; navail = p.navail -ℤ len })

-- The copy inside the target view, a byte at a time: it may overtake its own start. A read of a
-- byte that was never written is a fault.
pub copy_loop : ℕ → ℕ → ℕ → Bytes → Outcome Bytes
copy_loop buf zero from built = ok built
copy_loop buf (suc n) from built = elim (get_elem? built from) [
  | none ↦ fault
  | some c ↦
      let rest = copy_loop buf n (suc from) (built ++ c ∷ []) in
      if ltb (length built) buf then rest else fault
]

-- A read of a negative count is left to the system; here it is a fault where it succeeds.
pub source_step : Pread → ℕ → Wnd → Insn → Progress → Outcome Progress
source_step pread buf w i p = elim (pread (i.offset +ℤ w.sview_offset) (to_size i.len)) [
  | none ↦ fail 2
  | some b ↦
      if ltb_ℤ (pos (length b)) i.len
      then fail 3
      else if ltb_ℤ i.len (pos 0)
      then fault
      else write_bytes buf b i.len p
]

-- `memcpy` of a negative length is a fault.
pub new_step : ℕ → Bytes → Insn → Progress → Outcome Progress
new_step buf bytes i p =
    if ltb_ℤ (pos (length bytes) -ℤ pos p.used) i.len
    then fail 4
    else if ltb_ℤ i.len (pos 0)
    then fault
    else (do
      q ← write_bytes buf (take (to_size i.len) (drop p.used bytes)) i.len p
      ok (record q { used = p.used + to_size i.len }))

-- With a negative length the loop copies nothing, and `navail` grows.
pub target_copy : ℕ → ℤ → ℤ → Bytes → Outcome Bytes
target_copy buf (negsuc o) len built = fault
target_copy buf (pos o) (negsuc n) built = ok built
target_copy buf (pos o) (pos n) built = copy_loop buf n o built

pub target_step : ℕ → Wnd → Insn → Progress → Outcome Progress
target_step buf w i p =
    if ltb_ℤ (i.offset +ℤ i.len) w.tview_len
    then (do
      built ← target_copy buf i.offset i.len p.built
      ok (record p { built = built; navail = p.navail -ℤ i.len }))
    else fail 5

-- One instruction. `fail k` is `SVNDIFF_BUILD_TVIEW + k`.
pub insn_step : Pread → ℕ → Wnd → Bytes → Insn → Progress → Outcome Progress
insn_step pread buf w bytes i p =
    if ltb_ℤ p.navail i.len
    then fail 1
    else if i.code == txdelta_source
    then source_step pread buf w i p
    else if i.code == txdelta_new
    then new_step buf bytes i p
    else if i.code == txdelta_target
    then target_step buf w i p
    else fail 6

pub insns_loop : Pread → ℕ → Wnd → Bytes → List Insn → Progress → Outcome Progress
insns_loop pread buf w bytes [] p = ok p
insns_loop pread buf w bytes (i ∷ is) p = do
  q ← insn_step pread buf w bytes i p
  insns_loop pread buf w bytes is q

-- The loop over the instructions, from an empty view.
pub build_view : Pread → Wnd → Bytes → Outcome Wnd
build_view pread w bytes = do
  buf ← room w.tview_len
  let start : Progress = record { built = []; navail = w.tview_len; used = 0 }
  p ← insns_loop pread buf w bytes w.insns start
  ok (record w { tview = some p.built })

-- The window with its target view. A window without its section of new data is a fault: the
-- source reads `wnd->bytes->data` before the loop.
pub svndiff_build_tview : Pread → Wnd → Outcome Wnd
svndiff_build_tview pread w = deref w.bytes λ bytes. build_view pread w bytes
