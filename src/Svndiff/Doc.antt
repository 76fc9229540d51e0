-- ===== src/Svndiff/Doc.antt =====
-- The types of src/mrksvnup/svndiff.h, and their initial values from src/svndiff.c.
use mrksvnup.Base.{ℕ, List, [], ◌∷◌, ◌++◌, Bytes, Bool, false, Option, none, some, ℤ, pos, negsuc}
use mrksvnup.Svndiff.Insn.{Insn}

-- The values of `parse_state`, with the source's names less their prefix `SD_STATE_`.
pub data ParseState : Type 0 where
  version nwnd svo svl tvl insl newl insns bytes : ParseState

-- `svndiff_wnd_t`, less `inslen_check`, which nothing reads or writes.
pub record Wnd : Type 0 where
  pub sview_offset : ℤ
  pub sview_len : ℤ
  pub tview_len : ℤ
  pub inslen : ℤ
  pub newlen : ℤ
  pub orig_inslen : ℤ
  pub insns : List Insn
  pub bytes : Option Bytes
  pub tview : Option Bytes

-- The bits of `flags`.
pub record Flags : Type 0 where
  pub mod_set : Bool
  pub symlink_set : Bool
  pub maybe_dirty : Bool

-- `svndiff_doc_t`, less `sb`, which `lstat` fills. The array of windows is `finished` and, behind
-- it, the window that `current_wnd` points to.
pub record Doc : Type 0 where
  pub version : ℤ
  pub parse_state : ParseState
  pub current_wnd : Option Wnd
  pub base_checksum : Option Bytes
  pub rp : Option Bytes
  pub rev : ℤ
  pub mode : ℕ
  pub ft : Option Bytes
  pub lp : Option Bytes
  pub fd : ℤ
  pub flags : Flags
  pub finished : List Wnd
  pub txdelta : Bytes

-- `doc->wnd`, the array.
abbrev pub wnds : Doc → List Wnd
wnds d = d.finished ++ (elim d.current_wnd [ none ↦ [] | some w ↦ w ∷ [] ])

abbrev pub init_wnd : Wnd
init_wnd = record {
  sview_offset = pos 0;
  sview_len = pos 0;
  tview_len = pos 0;
  inslen = pos 0;
  newlen = pos 0;
  orig_inslen = pos 0;
  insns = [];
  bytes = none;
  tview = none;
}

abbrev pub no_flags : Flags
no_flags = record { mod_set = false; symlink_set = false; maybe_dirty = false }

-- `mode` is 0644.
abbrev pub svndiff_doc_init : Doc
svndiff_doc_init = record {
  version = negsuc 0;
  parse_state = ParseState.version;
  current_wnd = none;
  base_checksum = none;
  rp = none;
  rev = negsuc 0;
  mode = 0o644;
  ft = none;
  lp = none;
  fd = negsuc 0;
  flags = no_flags;
  finished = [];
  txdelta = [];
}
