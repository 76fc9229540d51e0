-- ===== src/Svndiff/Runs.antt =====
-- Concrete runs of the svndiff code, and the theorems at concrete inputs.
use mrksvnup.Base.{
  ℕ, zero, suc, ◌+◌, ◌-◌, ◌≤◌, ◌≡◌, ◌≢◌, refl, inl, List, [], ◌∷◌, ◌++◌, Bytes, ok, fail, fault,
  length, arith, All, ◌>>=◌, pos, negsuc, some, none, ◌+ℤ◌, take, drop, min,
}
use mrksvnup.Svndiff.Number.{decode_number, encode_number, high_bytes}
use mrksvnup.Svndiff.Number.RoundTrip.{decode_number-encode_number}
use mrksvnup.Svndiff.Number.Bounds.{decode_number_refuses}
use mrksvnup.Svndiff.Insn.{Insn, section_insns}
use mrksvnup.Svndiff.Insn.RoundTrip.{encode_insn, encode_head, encode_offset, IsWritable}
use mrksvnup.Svndiff.Insn.Bounds.{encode_insns, section_insns-encode_insns}
use mrksvnup.Svndiff.Section.{Uncompress}
use mrksvnup.Svndiff.Doc.{ParseState, Wnd, Doc, svndiff_doc_init}
use mrksvnup.Svndiff.Parse.{svndiff_parse_doc}
use mrksvnup.Svndiff.Parse.Window.{Content, IsPacked, content_wnd, before}
use mrksvnup.Svndiff.Parse.RoundTrip.{encode_wnds, Extends}
use mrksvnup.Svndiff.Parse.Document.{
  encode_doc, svndiff_parse_doc-encode_doc, svndiff_parse_doc_chunks,
}
use mrksvnup.Svndiff.Tview.{Pread, svndiff_build_tview}
use mrksvnup.Svndiff.Tview.Builds.{
  source_insn, target_insn, new_insn, Repeats, Builds, done, source, target, insert,
  svndiff_build_tview-Builds,
}
use mrksvnup.Svndiff.Tview.Bounds.{Honest, svndiff_build_tview-le}

encode_300 : encode_number 300 ≡ 0x82 ∷ 0x2c ∷ []
unfolding encode_number high_bytes
encode_300 = refl

decode_300 : decode_number (0x82 ∷ 0x2c ∷ 9 ∷ [], 3) ≡ ok ((9 ∷ [], 1), 300)
unfolding decode_number
decode_300 = refl

decode_number-encode_number_example :
    decode_number (encode_number 300 ++ 9 ∷ [], 3)
    ≡ ok ((9 ∷ [], 3 - length (encode_number 300)), 300)
unfolding encode_number high_bytes
decode_number-encode_number_example =
    decode_number-encode_number 300 (9 ∷ []) 3 (omega arith) (omega arith)

decode_number_refuses_example :
    (decode_number (0x82 ∷ 0x83 ∷ 9 ∷ [], 2) ≢ fault)
    × (All (λ c. 128 ≤ c) (take (min 2 10) (0x82 ∷ 0x83 ∷ 9 ∷ []))
        → decode_number (0x82 ∷ 0x83 ∷ 9 ∷ [], 2) ≡ fail 0)
decode_number_refuses_example = decode_number_refuses (0x82 ∷ 0x83 ∷ 9 ∷ []) 2 (omega arith)

-- Copy 4 bytes from 2 of the source, 2 of new data, then 5 bytes from 4 of the target: the last
-- copy overtakes its own start.
abbrev insns : List Insn
insns = source_insn 2 4 ∷ new_insn 2 ∷ target_insn 4 5 ∷ []

abbrev long_insn : Insn
long_insn = source_insn 2 70

long_insn-IsWritable : IsWritable long_insn
long_insn-IsWritable = record {
  code_fits = omega arith;
  len_fits = omega arith;
  offset_fits = ground arith;
}

insns-IsWritable : All IsWritable insns
insns-IsWritable = (
  record { code_fits = omega arith; len_fits = omega arith; offset_fits = ground arith },
  (
    record { code_fits = omega arith; len_fits = omega arith; offset_fits = ground arith },
    (record { code_fits = omega arith; len_fits = omega arith; offset_fits = ground arith }, tt),
  ),
)

section_insns-encode_insns_example : section_insns (encode_insns insns) ≡ ok insns
section_insns-encode_insns_example = section_insns-encode_insns insns insns-IsWritable

-- A stand-in for zlib: any two bytes are the compressed form of `5 5 5 5`.
abbrev uncompress : Uncompress
uncompress (_ ∷ _ ∷ []) n = some (5 ∷ 5 ∷ 5 ∷ 5 ∷ [])
uncompress _ n = none

-- The window of `insns`, its instructions stored and its new data stored.
abbrev content : Content
content = record {
  sview_offset = 1;
  sview_len = 6;
  tview_len = 11;
  insns = insns;
  packed_insns = encode_insns insns;
  new = 50 ∷ 51 ∷ [];
  packed_new = 50 ∷ 51 ∷ [];
}

content-IsPacked : IsPacked uncompress content
unfolding encode_insn encode_head encode_offset encode_number
content-IsPacked = record {
  offset_fits = omega arith;
  sview_fits = omega arith;
  tview_fits = omega arith;
  writable = insns-IsWritable;
  insns_packed = inl refl;
  insns_fit = omega arith;
  insns_section_fits = omega arith;
  new_packed = inl refl;
  new_fits = omega arith;
  new_section_fits = omega arith;
}

-- The document of a file that is open.
abbrev file_doc : Doc
file_doc = record svndiff_doc_init { rp = some (b'a' ∷ []); base_checksum = some (b'0' ∷ []) }

svndiff_parse_doc-encode_doc_example :
    (doc : Doc) × (svndiff_parse_doc uncompress
        (before (encode_doc 1 (content ∷ [])) (32 ∷ [], 0))
        file_doc
      ≡ ok doc)
    × Extends
        (record file_doc { version = pos 1; parse_state = ParseState.nwnd })
        (content ∷ [])
        doc
svndiff_parse_doc-encode_doc_example =
    svndiff_parse_doc-encode_doc uncompress file_doc 1 (content ∷ []) (32 ∷ []) refl
      (content-IsPacked, tt)

abbrev started : Doc
started = record svndiff_doc_init { version = pos 1; parse_state = ParseState.nwnd }

svndiff_parse_doc_chunks_example :
    (doc' : Doc) × ((do
      mid ← svndiff_parse_doc uncompress (before (encode_wnds (content ∷ [])) (32 ∷ [], 0)) started
      svndiff_parse_doc uncompress (before (encode_wnds (content ∷ [])) (32 ∷ [], 0)) mid)
      ≡ ok doc')
    × Extends started (content ∷ content ∷ []) doc'
svndiff_parse_doc_chunks_example =
    svndiff_parse_doc_chunks uncompress started (content ∷ []) (content ∷ []) (32 ∷ []) refl
      (content-IsPacked, tt) (content-IsPacked, tt)

-- A source file of seven bytes, whose view starts at its second.
abbrev sview : Bytes
sview = 11 ∷ 12 ∷ 13 ∷ 14 ∷ 15 ∷ 16 ∷ []

abbrev pread : Pread
pread (pos zero) n = some (take n (10 ∷ sview))
pread (pos (suc off)) n = some (take n (drop off sview))
pread (negsuc off) n = none

abbrev built : Bytes
built = 13 ∷ 14 ∷ 15 ∷ 16 ∷ 50 ∷ 51 ∷ 50 ∷ 51 ∷ 50 ∷ 51 ∷ 50 ∷ []

abbrev wnd : Wnd
wnd = content_wnd content

pread_view :
    (off len : ℕ)
    → off + len ≤ length sview
    → pread (pos off +ℤ wnd.sview_offset) len ≡ some (take len (drop off sview))
pread_view off len h = let e : pos off +ℤ pos 1 ≡ pos (suc off) = ground arith in rw e

abbrev overtaking : Bytes
overtaking = 50 ∷ 51 ∷ 50 ∷ 51 ∷ 50 ∷ []

abbrev first_six : Bytes
first_six = 13 ∷ 14 ∷ 15 ∷ 16 ∷ 50 ∷ 51 ∷ []

overtaking-Repeats : Repeats first_six 4 overtaking
overtaking-Repeats zero h = refl
overtaking-Repeats (suc zero) h = refl
overtaking-Repeats (suc (suc zero)) h = refl
overtaking-Repeats (suc (suc (suc zero))) h = refl
overtaking-Repeats (suc (suc (suc (suc zero)))) h = refl
overtaking-Repeats (suc (suc (suc (suc (suc j))))) h = absurd (omega arith)

insns-Builds : Builds sview insns (50 ∷ 51 ∷ []) [] built
insns-Builds =
    source 2 4 (omega arith)
      (insert (50 ∷ 51 ∷ []) (target 4 overtaking (omega arith) overtaking-Repeats done))

svndiff_build_tview-Builds_example :
    svndiff_build_tview pread wnd ≡ ok (record wnd { tview = some built })
svndiff_build_tview-Builds_example =
    svndiff_build_tview-Builds pread wnd sview (50 ∷ 51 ∷ []) built pread_view refl refl
      insns-Builds

-- A file that holds nothing, and a window of two new bytes.
abbrev no_file : Pread
no_file off n = some []

no_file_view : (off len : ℕ) → off + len ≤ 0 → no_file (pos off) len ≡ some (take len (drop off []))
no_file_view zero zero h = refl
no_file_view _ _ h = absurd (omega arith)

no_file-Honest : Honest no_file
no_file-Honest off n b e = ground arith

abbrev small : Wnd
small = record wnd { sview_offset = pos 0; tview_len = pos 2; insns = new_insn 2 ∷ [] }

abbrev small_built : Wnd
small_built = record small { tview = some (50 ∷ 51 ∷ []) }

small_run : svndiff_build_tview no_file small ≡ ok small_built
small_run =
    svndiff_build_tview-Builds no_file small [] (50 ∷ 51 ∷ []) (50 ∷ 51 ∷ []) no_file_view refl refl
      (insert (50 ∷ 51 ∷ []) done)

svndiff_build_tview-le_example :
    (r : Bytes) × (small_built ≡ record small { tview = some r }) × (length r ≤ 2)
svndiff_build_tview-le_example =
    svndiff_build_tview-le no_file small small_built 2 no_file-Honest refl ((2, refl), tt) small_run
