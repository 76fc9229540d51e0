-- ===== src/Svndiff/Parse/Document.antt =====
-- `svndiff_parse_doc` on a whole svndiff document.
use mrksvnup.Base.{
  ℕ, suc, ◌+◌, ◌*◌, ◌≡◌, refl, sym, ap, ◌∙◌, List, [], ◌∷◌, ◌++◌, map, Bytes, ok, arith, All, ◌>>=◌,
  to_char,
}
use mathlib.Core.Path.{subst}
use mathlib.Core.List.{append_assoc, map-append}
use mrksvnup.Svndiff.Number.{Cursor}
use mrksvnup.Svndiff.Section.{Uncompress}
use mrksvnup.Svndiff.Doc.{ParseState, Wnd, Doc, wnds}
use mrksvnup.Svndiff.Parse.{decode_version, step_in, parse_loop, svndiff_parse_doc}
use mrksvnup.Svndiff.Parse.Window.{Content, IsPacked, content_wnd, before, parse_loop_step}
use mrksvnup.Svndiff.Parse.RoundTrip.{
  before-append, encode_wnds, Extends, svndiff_parse_doc-encode_wnds, parse_doc-of-loop,
}

abbrev pub magic : ℕ → Bytes
magic n = b'S' ∷ b'V' ∷ b'N' ∷ n ∷ []

-- A document: the version and the windows.
abbrev pub encode_doc : ℕ → List Content → Bytes
encode_doc n cs = magic n ++ encode_wnds cs

-- The document behind the version.
abbrev pub with_version : ℕ → Doc → Doc
with_version n doc = record doc { version = to_char n; parse_state = ParseState.nwnd }

version_round :
    (uncompress : Uncompress) (doc : Doc) (n fuel : ℕ) (to : Cursor)
    → doc.parse_state ≡ ParseState.version
    → parse_loop uncompress (suc fuel) doc (before (magic n) to)
      ≡ parse_loop uncompress fuel (with_version n doc) to
unfolding step_in decode_version
version_round uncompress doc n fuel to p =
    parse_loop_step uncompress fuel doc _ (before (magic n) to) to (omega arith)
      (ap (λ state. step_in uncompress state doc (before (magic n) to)) p ∙ ground arith)

-- Where a document waits for the version, and a chunk holds the magic, the version and windows whose
-- numbers and sections fit 63 bits and whose sections are stored or compressed: `svndiff_parse_doc`
-- reads the chunk up to `end`, the document has that version, its windows are those that it had and,
-- behind them, those of the chunk in order, it waits for a window, and nothing else of it changes, so
-- that the path and the checksum of an open file are kept; the bytes behind `end` do not matter.
pub svndiff_parse_doc-encode_doc :
    (uncompress : Uncompress) (doc : Doc) (n : ℕ) (cs : List Content) (beyond : Bytes)
    → doc.parse_state ≡ ParseState.version
    → All (IsPacked uncompress) cs
    → (doc' : Doc) × (svndiff_parse_doc uncompress (before (encode_doc n cs) (beyond, 0)) doc
        ≡ ok doc')
      × Extends (with_version n doc) cs doc'
unfolding svndiff_parse_doc
svndiff_parse_doc-encode_doc uncompress doc n cs beyond p vs =
    let from = before (encode_wnds cs) (beyond, 0) in
    let (doc', run, x) =
      svndiff_parse_doc-encode_wnds uncompress (with_version n doc) cs beyond refl vs in
    let whole = version_round uncompress doc n (2 * from.1 + 2) from p ∙ run in
    (
      doc',
      subst (λ (c : Cursor). svndiff_parse_doc uncompress c doc ≡ ok doc')
          (sym (before-append (magic n) (encode_wnds cs) (beyond, 0)))
          (parse_doc-of-loop uncompress (suc (2 * from.1 + 2)) doc doc' _ whole),
      x,
    )

-- Two chunks of whole windows give the document what their joined bytes give it.
pub svndiff_parse_doc_chunks :
    (uncompress : Uncompress) (doc : Doc) (cs ds : List Content) (beyond : Bytes)
    → doc.parse_state ≡ ParseState.nwnd
    → All (IsPacked uncompress) cs
    → All (IsPacked uncompress) ds
    → (doc' : Doc) × ((do
      mid ← svndiff_parse_doc uncompress (before (encode_wnds cs) (beyond, 0)) doc
      svndiff_parse_doc uncompress (before (encode_wnds ds) (beyond, 0)) mid)
        ≡ ok doc')
      × Extends doc (cs ++ ds) doc'
svndiff_parse_doc_chunks uncompress doc cs ds beyond p vs ws =
    let (mid, run, x) = svndiff_parse_doc-encode_wnds uncompress doc cs beyond p vs in
    let (doc', run', y) = svndiff_parse_doc-encode_wnds uncompress mid ds beyond x.at_wnd ws in
    (
      doc',
      rw run run',
      record {
        all_wnds =
            y.all_wnds
            ∙ ap (λ (ws : List Wnd). ws ++ map content_wnd ds) x.all_wnds
            ∙ append_assoc (wnds doc) (map content_wnd cs) (map content_wnd ds)
            ∙ ap (◌++◌ (wnds doc)) (sym (map-append content_wnd cs ds));
        at_wnd = y.at_wnd;
        rest_kept = y.rest_kept ∙ x.rest_kept;
      },
    )
