-- ===== src/Svndiff/Parse/Window.antt =====
-- The window format of svndiff documents, and the rounds of `svndiff_parse_doc` over one window.
use mrksvnup.Base.{
  ℕ, zero, suc, ◌+◌, ◌^◌, ◌<◌, ◌≡◌, refl, ap, ◌∙◌, List, [], ◌++◌, Bytes, ok, length, arith, All, ℤ,
  pos, some, none, length-append,
}
use mrksvnup.Svndiff.Number.{Cursor, encode_number, read_number}
use mrksvnup.Svndiff.Number.RoundTrip.{read_number-encode_number, length-encode_number}
use mrksvnup.Svndiff.Insn.{Insn}
use mrksvnup.Svndiff.Insn.RoundTrip.{IsWritable}
use mrksvnup.Svndiff.Insn.Bounds.{encode_insns, section_insns-encode_insns}
use mrksvnup.Svndiff.Section.{Uncompress, decode_bytes}
use mrksvnup.Svndiff.Section.RoundTrip.{Packs, encode_section, decode_bytes-encode_section}
use mrksvnup.Svndiff.Doc.{ParseState, Wnd, Doc, init_wnd}
use mrksvnup.Svndiff.Parse.{number_step, insns_step, bytes_step, step_in, parse_loop}

-- What a window says, with the form in which its two sections are packed.
pub record Content : Type 0 where
  pub sview_offset : ℕ
  pub sview_len : ℕ
  pub tview_len : ℕ
  pub insns : List Insn
  pub packed_insns : Bytes
  pub new : Bytes
  pub packed_new : Bytes

abbrev pub insns_section : Content → Bytes
insns_section c = encode_section (encode_insns c.insns) c.packed_insns

abbrev pub new_section : Content → Bytes
new_section c = encode_section c.new c.packed_new

pub record IsPacked (uncompress : Uncompress) (c : Content) : Type 0 where
  pub offset_fits : c.sview_offset < 2 ^ 63
  pub sview_fits : c.sview_len < 2 ^ 63
  pub tview_fits : c.tview_len < 2 ^ 63
  pub writable : All IsWritable c.insns
  pub insns_packed : Packs uncompress (encode_insns c.insns) c.packed_insns
  pub insns_fit : length (encode_insns c.insns) < 2 ^ 63
  pub insns_section_fits : length (insns_section c) < 2 ^ 63
  pub new_packed : Packs uncompress c.new c.packed_new
  pub new_fits : length c.new < 2 ^ 63
  pub new_section_fits : length (new_section c) < 2 ^ 63

-- The window that the parser builds of a content.
abbrev pub content_wnd : Content → Wnd
content_wnd c = record {
  sview_offset = pos c.sview_offset;
  sview_len = pos c.sview_len;
  tview_len = pos c.tview_len;
  inslen = pos (length (insns_section c));
  newlen = pos (length (new_section c));
  orig_inslen = pos 0;
  insns = c.insns;
  bytes = some c.new;
  tview = none;
}

-- The window once its numbers are read, and once its instructions are.
abbrev header_wnd : Content → Wnd
header_wnd c = record (content_wnd c) { insns = []; bytes = none }

abbrev insns_wnd : Content → Wnd
insns_wnd c = record (content_wnd c) { bytes = none }

-- Bytes in front of a cursor, before `end`.
abbrev pub before : Bytes → Cursor → Cursor
before a (s, left) = (a ++ s, length a + left)

-- Five numbers and two sections, in front of what follows.
unfoldable pub before_wnd : Content → Cursor → Cursor
before_wnd c to = before (encode_number c.sview_offset) (
    before (encode_number c.sview_len) (
      before (encode_number c.tview_len) (
        before (encode_number (length (insns_section c))) (
          before (encode_number (length (new_section c)))
            (before (insns_section c) (before (new_section c) to))))))

read_number-before :
    (k v : ℕ) (to : Cursor)
    → v < 2 ^ 63
    → read_number k (before (encode_number v) to) ≡ ok (to, pos v)
read_number-before k v (s, l) h =
    read_number-encode_number k v s (length (encode_number v) + l) h (omega arith)
    ∙ ap (λ (t : ℕ). ok ((s, t), pos v)) (omega arith)

decode_bytes-before :
    (uncompress : Uncompress) (b packed : Bytes) (to : Cursor)
    → Packs uncompress b packed
    → length b < 2 ^ 63
    → length (encode_section b packed) < 2 ^ 63
    → decode_bytes uncompress
        (length (encode_section b packed))
        (before (encode_section b packed) to)
      ≡ ok (to, b)
decode_bytes-before uncompress b packed (s, l) p hb hs =
    decode_bytes-encode_section uncompress b packed s (length (encode_section b packed) + l) p hb hs
      (omega arith)
    ∙ ap (λ (t : ℕ). ok ((s, t), b)) (omega arith)

section_pos : (b packed : Bytes) (to : Cursor) → 0 < (before (encode_section b packed) to).1
section_pos b packed to =
    omega (arith, length-encode_number (length b), length-append (encode_number (length b)) packed)

-- One round of the loop.
pub parse_loop_step :
    (uncompress : Uncompress) (fuel : ℕ) (doc doc' : Doc) (from to : Cursor)
    → 0 < from.1
    → step_in uncompress doc.parse_state doc from ≡ ok (to, doc')
    → parse_loop uncompress (suc fuel) doc from ≡ parse_loop uncompress fuel doc' to
unfolding parse_loop
parse_loop_step uncompress fuel doc doc' (s, zero) to h e = elim h [ ]
parse_loop_step uncompress fuel doc doc' (s, suc left) to h e = rw (parse_loop, e) refl

-- The document inside a window `w`.
abbrev inside : Doc → List Wnd → Wnd → ParseState → Doc
inside doc past w state = record doc { finished = past; current_wnd = some w; parse_state = state }

module _ (uncompress : Uncompress) (doc : Doc) (past : List Wnd) where
  number_round :
      (fuel k v : ℕ) (put : ℤ → Wnd → Wnd) (state next : ParseState) (w : Wnd) (to : Cursor)
      → v < 2 ^ 63
      → step_in uncompress state (inside doc past w state) (before (encode_number v) to)
        ≡ number_step k put next (inside doc past w state) (before (encode_number v) to)
      → parse_loop uncompress (suc fuel) (inside doc past w state) (before (encode_number v) to)
        ≡ parse_loop uncompress fuel (inside doc past (put (pos v) w) next) to
  unfolding number_step
  number_round fuel k v put state next w to h e =
      parse_loop_step uncompress fuel (inside doc past w state) _ (before (encode_number v) to) to
        (omega (arith, length-encode_number v)) (e ∙ rw (read_number-before k v to h))

  module _ (c : Content) (v : IsPacked uncompress c) where
    insns_round :
        (fuel : ℕ) (to : Cursor)
        → parse_loop uncompress
            (suc fuel)
            (inside doc past (header_wnd c) ParseState.insns)
            (before (insns_section c) to)
          ≡ parse_loop uncompress fuel (inside doc past (insns_wnd c) ParseState.bytes) to
    unfolding step_in insns_step
    insns_round fuel to =
        parse_loop_step uncompress fuel (inside doc past (header_wnd c) ParseState.insns) _ _ to
          (section_pos (encode_insns c.insns) c.packed_insns to)
          (rw
            (decode_bytes-before uncompress (encode_insns c.insns) c.packed_insns to v.insns_packed
              v.insns_fit v.insns_section_fits)
            (rw (section_insns-encode_insns c.insns v.writable)))

    bytes_round :
        (fuel : ℕ) (to : Cursor)
        → parse_loop uncompress
            (suc fuel)
            (inside doc past (insns_wnd c) ParseState.bytes)
            (before (new_section c) to)
          ≡ parse_loop uncompress fuel (inside doc past (content_wnd c) ParseState.nwnd) to
    unfolding step_in bytes_step
    bytes_round fuel to =
        parse_loop_step uncompress fuel (inside doc past (insns_wnd c) ParseState.bytes) _ _ to
          (section_pos c.new c.packed_new to)
          (rw (
            decode_bytes-before uncompress c.new c.packed_new to v.new_packed v.new_fits
              v.new_section_fits))

    -- From the opened window to the next state of its kind: seven rounds.
    pub wnd_rounds :
        (fuel : ℕ) (to : Cursor)
        → parse_loop uncompress
            (7 + fuel)
            (inside doc past init_wnd ParseState.svo)
            (before_wnd c to)
          ≡ parse_loop uncompress fuel (inside doc past (content_wnd c) ParseState.nwnd) to
    unfolding step_in before_wnd
    wnd_rounds fuel to =
        let put_svo = λ (z : ℤ) (w : Wnd). let r : Wnd = record w { sview_offset = z } in r in
        let put_svl = λ (z : ℤ) (w : Wnd). let r : Wnd = record w { sview_len = z } in r in
        let put_tvl = λ (z : ℤ) (w : Wnd). let r : Wnd = record w { tview_len = z } in r in
        let put_insl = λ (z : ℤ) (w : Wnd). let r : Wnd = record w { inslen = z } in r in
        let put_newl = λ (z : ℤ) (w : Wnd). let r : Wnd = record w { newlen = z } in r in
        let f7 : 7 + fuel ≡ suc (suc (suc (suc (suc (suc (suc fuel)))))) = omega arith in
        rw f7 (
          number_round _ 2 c.sview_offset put_svo _ ParseState.svl _ _ v.offset_fits refl
          ∙ number_round _ 3 c.sview_len put_svl _ ParseState.tvl _ _ v.sview_fits refl
          ∙ number_round _ 4 c.tview_len put_tvl _ ParseState.insl _ _ v.tview_fits refl
          ∙ number_round _ 5 _ put_insl _ ParseState.newl _ _ v.insns_section_fits refl
          ∙ number_round _ 6 _ put_newl _ ParseState.insns _ _ v.new_section_fits refl
          ∙ insns_round _ _
          ∙ bytes_round fuel to)
