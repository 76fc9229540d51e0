-- ===== src/Svndiff/Parse/RoundTrip.antt =====
-- `svndiff_parse_doc` on whole documents, and on a document that comes in several chunks.
use mrksvnup.Base.{
  ℕ, zero, suc, ◌+◌, ◌*◌, ◌<◌, ◌≡◌, ◌≢◌, refl, sym, ap, ◌∙◌, List, [], ◌∷◌, ◌++◌, map, Bytes,
  Outcome, ok, fail, fault, stuck, length, arith, All, ℤ, Option, some, length-append,
}
use mathlib.Core.List.{append_assoc, append-nil}
use mathlib.Core.Path.{ap₂, subst}
use mrksvnup.Svndiff.Number.{Cursor, encode_number}
use mrksvnup.Svndiff.Number.RoundTrip.{length-encode_number}
use mrksvnup.Svndiff.Section.{Uncompress}
use mrksvnup.Svndiff.Doc.{ParseState, Wnd, Doc, Flags, wnds}
use mrksvnup.Svndiff.Parse.{step_in, parse_loop, svndiff_parse_doc}
use mrksvnup.Svndiff.Parse.Total.{svndiff_parse_doc-ne-stuck}
use mrksvnup.Svndiff.Parse.Window.{
  Content, IsPacked, insns_section, new_section, content_wnd, before, before_wnd, parse_loop_step,
  wnd_rounds,
}

-- More fuel does not change an answer.
parse_loop-agree :
    (uncompress : Uncompress) (n m : ℕ) (doc : Doc) (from : Cursor)
    → parse_loop uncompress n doc from ≢ stuck
    → parse_loop uncompress m doc from ≢ stuck
    → parse_loop uncompress n doc from ≡ parse_loop uncompress m doc from
unfolding parse_loop
parse_loop-agree uncompress zero m doc from h k = absurd (h refl)
parse_loop-agree uncompress (suc n) zero doc from h k = absurd (k refl)
parse_loop-agree uncompress (suc n) (suc m) doc (s, zero) h k = refl
parse_loop-agree uncompress (suc n) (suc m) doc (s, suc left) h k =
    by_result (step_in uncompress doc.parse_state doc (s, suc left)) refl
      (parse_loop-agree uncompress n m) h k
  where
    by_result :
        (r : Outcome (Cursor × Doc))
        → step_in uncompress doc.parse_state doc (s, suc left) ≡ r
        → ((doc' : Doc) (to : Cursor)
            → parse_loop uncompress n doc' to ≢ stuck
            → parse_loop uncompress m doc' to ≢ stuck
            → parse_loop uncompress n doc' to ≡ parse_loop uncompress m doc' to)
        → parse_loop uncompress (suc n) doc (s, suc left) ≢ stuck
        → parse_loop uncompress (suc m) doc (s, suc left) ≢ stuck
        → parse_loop uncompress (suc n) doc (s, suc left)
          ≡ parse_loop uncompress (suc m) doc (s, suc left)
    by_result (ok (to, doc')) e same p q =
        rw (parse_loop, e) (same doc' to (rw (parse_loop, e) at p) (rw (parse_loop, e) at q))
    by_result (fail j) e same p q = rw (parse_loop, e) refl
    by_result fault e same p q = rw (parse_loop, e) refl
    by_result stuck e same p q = rw (parse_loop, e) refl

pub parse_doc-of-loop :
    (uncompress : Uncompress) (n : ℕ) (doc doc' : Doc) (from : Cursor)
    → parse_loop uncompress n doc from ≡ ok doc'
    → svndiff_parse_doc uncompress from doc ≡ ok doc'
unfolding svndiff_parse_doc
parse_doc-of-loop uncompress n doc doc' from e =
    parse_loop-agree uncompress (2 * from.1 + 2) n doc from
      (unfold svndiff_parse_doc in svndiff_parse_doc-ne-stuck uncompress from doc) (rw e (λ x. cc))
    ∙ e

-- A window: five numbers and two sections.
pub encode_wnd : Content → Bytes
encode_wnd c =
    encode_number c.sview_offset
    ++ (encode_number c.sview_len
        ++ (encode_number c.tview_len
            ++ (encode_number (length (insns_section c))
                ++ (encode_number (length (new_section c)) ++ (insns_section c ++ new_section c)))))

unfoldable pub encode_wnds : List Content → Bytes
unfolding encode_wnd
encode_wnds [] = []
encode_wnds (c ∷ cs) = encode_wnd c ++ encode_wnds cs

pub before-append : (a b : Bytes) (to : Cursor) → before (a ++ b) to ≡ before a (before b to)
before-append a b (s, l) =
    ap₂ (λ (t : Bytes) (n : ℕ). let c : Cursor = (t, n) in c) (append_assoc a b s)
      (omega (arith, length-append a b))

before_wnd_lem : (c : Content) (to : Cursor) → before_wnd c to ≡ before (encode_wnd c) to
unfolding before_wnd encode_wnd
before_wnd_lem c to =
    let n1 = encode_number c.sview_offset in
    let n2 = encode_number c.sview_len in
    let n3 = encode_number c.tview_len in
    let n4 = encode_number (length (insns_section c)) in
    let n5 = encode_number (length (new_section c)) in
    let s1 = insns_section c in
    let s2 = new_section c in
    sym (
      before-append n1 (n2 ++ (n3 ++ (n4 ++ (n5 ++ (s1 ++ s2))))) to
      ∙ ap (before n1) (
          before-append n2 (n3 ++ (n4 ++ (n5 ++ (s1 ++ s2)))) to
          ∙ ap (before n2) (
              before-append n3 (n4 ++ (n5 ++ (s1 ++ s2))) to
              ∙ ap (before n3) (
                  before-append n4 (n5 ++ (s1 ++ s2)) to
                  ∙ ap (before n4)
                      (before-append n5 (s1 ++ s2) to ∙ ap (before n5) (before-append s1 s2 to))))))

before_wnd_pos : (c : Content) (to : Cursor) → 0 < (before_wnd c to).1
unfolding before_wnd
before_wnd_pos c to = omega (arith, length-encode_number c.sview_offset)

-- The document between two windows.
abbrev between : Doc → List Wnd → Option Wnd → Doc
between doc past open_wnd = record doc {
  finished = past;
  current_wnd = open_wnd;
  parse_state = ParseState.nwnd;
}

-- The rounds over the windows, and the last, which finds `start` at `end`.
rounds : List Content → ℕ
rounds [] = 1
rounds (c ∷ cs) = 8 + rounds cs

module _ (uncompress : Uncompress) (doc : Doc) where
  wnd_lem :
      (c : Content) (past : List Wnd) (open_wnd : Option Wnd) (to : Cursor) (fuel : ℕ)
      → IsPacked uncompress c
      → parse_loop uncompress (8 + fuel) (between doc past open_wnd) (before (encode_wnd c) to)
        ≡ parse_loop uncompress fuel
            (between doc (wnds (between doc past open_wnd)) (some (content_wnd c)))
            to
  unfolding step_in
  wnd_lem c past open_wnd to fuel v =
      let past' = wnds (between doc past open_wnd) in
      let f8 : 8 + fuel ≡ suc (7 + fuel) = omega arith in
      rw (f8, ← before_wnd_lem c to)
        (parse_loop_step uncompress (7 + fuel) (between doc past open_wnd) _ _ (before_wnd c to)
            (before_wnd_pos c to) refl
          ∙ wnd_rounds uncompress doc past' c v fuel to)

  wnds_lem :
      (cs : List Content) (past : List Wnd) (open_wnd : Option Wnd) (beyond : Bytes)
      → All (IsPacked uncompress) cs
      → (past' : List Wnd) × (open_wnd' : Option Wnd) × (parse_loop uncompress
            (rounds cs)
            (between doc past open_wnd)
            (before (encode_wnds cs) (beyond, 0))
          ≡ ok (between doc past' open_wnd'))
        × (wnds (between doc past' open_wnd')
            ≡ wnds (between doc past open_wnd) ++ map content_wnd cs)
  unfolding rounds encode_wnds
  wnds_lem [] past open_wnd beyond vs =
      (past, open_wnd, unfold parse_loop in refl, sym (append-nil _))
  wnds_lem (c ∷ cs) past open_wnd beyond (v, vs) =
      let past1 = wnds (between doc past open_wnd) in
      let (past', open_wnd', run, all) = wnds_lem cs past1 (some (content_wnd c)) beyond vs in
      (
        past',
        open_wnd',
        rw (before-append (encode_wnd c) (encode_wnds cs) (beyond, 0))
            (wnd_lem c past open_wnd _ (rounds cs) v ∙ run),
        all ∙ append_assoc past1 (content_wnd c ∷ []) (map content_wnd cs),
      )

-- The fields that the parser of windows leaves alone.
abbrev pub others :
    Doc → ℤ × Option Bytes × Option Bytes × ℤ × ℕ × Option Bytes × Option Bytes × ℤ × Flags × Bytes
others d = (d.version, d.base_checksum, d.rp, d.rev, d.mode, d.ft, d.lp, d.fd, d.flags, d.txdelta)

-- `doc'` is `doc` with these windows behind its own; no other field differs.
pub record Extends (doc : Doc) (cs : List Content) (doc' : Doc) : Type 0 where
  pub all_wnds : wnds doc' ≡ wnds doc ++ map content_wnd cs
  pub at_wnd : doc'.parse_state ≡ ParseState.nwnd
  pub rest_kept : others doc' ≡ others doc

-- Between two windows, a chunk that holds whole windows appends exactly these to the document,
-- whatever bytes stand behind `end`.
pub svndiff_parse_doc-encode_wnds :
    (uncompress : Uncompress) (doc : Doc) (cs : List Content) (beyond : Bytes)
    → doc.parse_state ≡ ParseState.nwnd
    → All (IsPacked uncompress) cs
    → (doc' : Doc) × (svndiff_parse_doc uncompress (before (encode_wnds cs) (beyond, 0)) doc
        ≡ ok doc')
      × Extends doc cs doc'
svndiff_parse_doc-encode_wnds uncompress doc cs beyond p vs =
    let from = before (encode_wnds cs) (beyond, 0) in
    let (past, open_wnd, run, all) =
      wnds_lem uncompress doc cs doc.finished doc.current_wnd beyond vs in
    let same : between doc doc.finished doc.current_wnd ≡ doc =
      λ i. record doc { parse_state = sym p i } in
    let run' =
      subst (λ (d : Doc). parse_loop uncompress (rounds cs) d from ≡ ok (between doc past open_wnd))
        same run in
    (
      between doc past open_wnd,
      parse_doc-of-loop uncompress (rounds cs) doc _ from run',
      record { all_wnds = all; at_wnd = refl; rest_kept = refl },
    )
