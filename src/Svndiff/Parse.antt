-- ===== src/Svndiff/Parse.antt =====
-- `svndiff_parse_doc` of src/svndiff.c: the state machine over the chunks of a document.
pub mod Total
pub mod Window
pub mod RoundTrip
pub mod Document
use mrksvnup.Base.{
  ℕ, zero, suc, ◌+◌, ◌-◌, ◌*◌, List, [], ◌∷◌, ◌++◌, Bytes, if◌then◌else◌, ltb, ◌==◌, ◌&&◌, Bool,
  Option, none, some, Outcome, ok, fail, fault, stuck, deref, ◌>>=◌, on_fail, length, ℤ, to_char,
  to_size,
}
use mrksvnup.Svndiff.Number.{Cursor, decode_number, read_number}
use mrksvnup.Svndiff.Insn.{Insn, section_insns}
use mrksvnup.Svndiff.Section.{Uncompress, decode_bytes}
use mrksvnup.Svndiff.Doc.{ParseState, Wnd, Doc, wnds, init_wnd}

-- The four bytes "SVN" and the version.
pub decode_version : Cursor → Outcome (Cursor × ℤ)
decode_version (s, left) = if ltb left 4 then fail 1 else read_magic s left
  where
    read_magic : Bytes → ℕ → Outcome (Cursor × ℤ)
    read_magic (a ∷ b ∷ c ∷ n ∷ s) left =
        if a == b'S' && b == b'V' && c == b'N' then ok ((s, left - 4), to_char n) else fail 2
    read_magic _ left = fault

-- A number field of the current window, and the state behind it.
pub number_step : ℕ → (ℤ → Wnd → Wnd) → ParseState → Doc → Cursor → Outcome (Cursor × Doc)
number_step k put next doc from = deref doc.current_wnd λ w. do
  (to, v) ← read_number k from
  ok (to, record doc { current_wnd = some (put v w); parse_state = next })

-- The instructions section, into the current window `w`.
pub insns_step : Uncompress → Wnd → Doc → Cursor → Outcome (Cursor × Doc)
insns_step uncompress w doc from = do
  (to, b) ← on_fail 7 (decode_bytes uncompress (to_size w.inslen) from)
  is ← section_insns b
  ok (
    to,
    record doc {
      current_wnd = some (record w { insns = w.insns ++ is });
      parse_state = ParseState.bytes;
    },
  )

-- The section of new data, into the current window `w`.
pub bytes_step : Uncompress → Wnd → Doc → Cursor → Outcome (Cursor × Doc)
bytes_step uncompress w doc from = do
  (to, b) ← on_fail 8 (decode_bytes uncompress (to_size w.newlen) from)
  ok (
    to,
    record doc { current_wnd = some (record w { bytes = some b }); parse_state = ParseState.nwnd },
  )

-- One round of the loop. `fail k` is `SVNDIFF_PARSE_DOC + k`; what the failed round has written
-- into the document is left out, since its callers give the document up on an error.
pub step_in : Uncompress → ParseState → Doc → Cursor → Outcome (Cursor × Doc)
step_in uncompress ParseState.version doc from = do
  (to, v) ← on_fail 1 (decode_version from)
  ok (to, record doc { version = v; parse_state = ParseState.nwnd })
step_in uncompress ParseState.nwnd doc from = ok (
  from,
  record doc { finished = wnds doc; current_wnd = some init_wnd; parse_state = ParseState.svo },
)
step_in uncompress ParseState.svo doc from =
    number_step 2 (λ v w. record w { sview_offset = v }) ParseState.svl doc from
step_in uncompress ParseState.svl doc from =
    number_step 3 (λ v w. record w { sview_len = v }) ParseState.tvl doc from
step_in uncompress ParseState.tvl doc from =
    number_step 4 (λ v w. record w { tview_len = v }) ParseState.insl doc from
step_in uncompress ParseState.insl doc from =
    number_step 5 (λ v w. record w { inslen = v }) ParseState.newl doc from
step_in uncompress ParseState.newl doc from =
    number_step 6 (λ v w. record w { newlen = v }) ParseState.insns doc from
step_in uncompress ParseState.insns doc from =
    deref doc.current_wnd λ w. insns_step uncompress w doc from
step_in uncompress ParseState.bytes doc from =
    deref doc.current_wnd λ w. bytes_step uncompress w doc from

-- `while (res == 0 && start < end)`, on fuel.
pub parse_loop : Uncompress → ℕ → Doc → Cursor → Outcome Doc
parse_loop uncompress zero doc from = stuck
parse_loop uncompress (suc fuel) doc (s, zero) = ok doc
parse_loop uncompress (suc fuel) doc (s, suc left) =
    elim (step_in uncompress doc.parse_state doc (s, suc left)) [
      | ok (to, doc') ↦ parse_loop uncompress fuel doc' to
      | fail k ↦ fail k
      | fault ↦ fault
      | stuck ↦ stuck
    ]

-- Two rounds for each byte before `end` are enough: only the round that opens a window takes
-- none, and the round behind it takes one.
unfoldable pub svndiff_parse_doc : Uncompress → Cursor → Doc → Outcome Doc
svndiff_parse_doc uncompress from doc = parse_loop uncompress (2 * from.1 + 2) doc from
