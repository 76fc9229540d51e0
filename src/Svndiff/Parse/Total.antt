-- ===== src/Svndiff/Parse/Total.antt =====
-- The measure of the loop of `svndiff_parse_doc`.
use mrksvnup.Base.{
  ℕ, zero, suc, ◌+◌, ◌*◌, ◌≤◌, ◌<◌, ◌≡◌, ◌≢◌, refl, ◌∷◌, Bytes, Outcome, ok, fail, fault, stuck,
  deref-eq-ok, deref-ne-stuck, arith, ℤ, ◌>>=◌, on_fail, to_size, >>=-eq-ok, on_fail-eq-ok,
  >>=-ne-stuck, on_fail-ne-stuck,
}
use mrksvnup.Svndiff.Number.{Cursor, read_number}
use mrksvnup.Svndiff.Number.Bounds.{read_number-Advances, read_number-ne-stuck}
use mrksvnup.Svndiff.Insn.{section_insns}
use mrksvnup.Svndiff.Insn.Bounds.{section_insns-ne-stuck}
use mrksvnup.Svndiff.Section.{Uncompress, decode_bytes}
use mrksvnup.Svndiff.Section.RoundTrip.{decode_bytes_moves, decode_bytes-ne-stuck}
use mrksvnup.Svndiff.Doc.{ParseState, Wnd, Doc}
use mrksvnup.Svndiff.Parse.{
  decode_version, number_step, insns_step, bytes_step, step_in, parse_loop, svndiff_parse_doc,
}

-- The rounds that may still come: two for a byte, and one where no window is open yet.
abbrev opens : ParseState → ℕ
opens ParseState.nwnd = 1
opens _ = 0

decode_version_moves : (from to : Cursor) (v : ℤ) → decode_version from ≡ ok (to, v) → to.1 < from.1
unfolding decode_version
decode_version_moves (a ∷ b ∷ c ∷ n ∷ s, left) to v e = ground arith
decode_version_moves (s, left) to v e = ground arith

number_step_moves :
    (k : ℕ) (put : ℤ → Wnd → Wnd) (next : ParseState) (doc : Doc) (from to : Cursor) (doc' : Doc)
    → number_step k put next doc from ≡ ok (to, doc')
    → (to.1 < from.1) × (doc'.parse_state ≡ next)
unfolding number_step
number_step_moves k put next doc from to doc' e =
    let (w, _, got) = deref-eq-ok doc.current_wnd _ e in
    let ((mid, v), read, put_eq) = >>=-eq-ok (read_number k from) _ got in
    ground (arith, read_number-Advances k from mid v read, put_eq)

insns_step_moves :
    (uncompress : Uncompress) (w : Wnd) (doc : Doc) (from to : Cursor) (doc' : Doc)
    → insns_step uncompress w doc from ≡ ok (to, doc')
    → (to.1 < from.1) × (doc'.parse_state ≡ ParseState.bytes)
unfolding insns_step
insns_step_moves uncompress w doc from to doc' e =
    let decoded = decode_bytes uncompress (to_size w.inslen) from in
    let ((mid, b), read, rest) = >>=-eq-ok (on_fail 7 decoded) _ e in
    let (is, took, put_eq) = >>=-eq-ok (section_insns b) _ rest in
    ground (
      arith,
      decode_bytes_moves uncompress (to_size w.inslen) from mid b (on_fail-eq-ok 7 decoded read),
      put_eq,
    )

bytes_step_moves :
    (uncompress : Uncompress) (w : Wnd) (doc : Doc) (from to : Cursor) (doc' : Doc)
    → bytes_step uncompress w doc from ≡ ok (to, doc')
    → (to.1 < from.1) × (doc'.parse_state ≡ ParseState.nwnd)
unfolding bytes_step
bytes_step_moves uncompress w doc from to doc' e =
    let decoded = decode_bytes uncompress (to_size w.newlen) from in
    let ((mid, b), read, put_eq) = >>=-eq-ok (on_fail 8 decoded) _ e in
    ground (
      arith,
      decode_bytes_moves uncompress (to_size w.newlen) from mid b (on_fail-eq-ok 8 decoded read),
      put_eq,
    )

-- Every round but the opening of a window moves nearer to `end`; that one leaves the state.
step_in_moves :
    (uncompress : Uncompress) (state : ParseState) (doc : Doc) (from to : Cursor) (doc' : Doc)
    → step_in uncompress state doc from ≡ ok (to, doc')
    → 2 * to.1 + opens doc'.parse_state < 2 * from.1 + opens state
unfolding step_in
step_in_moves uncompress ParseState.version doc from to doc' e =
    let ((mid, v), read, put_eq) = >>=-eq-ok (on_fail 1 (decode_version from)) _ e in
    ground (arith, decode_version_moves from mid v (on_fail-eq-ok 1 _ read), put_eq)
step_in_moves uncompress ParseState.nwnd doc from to doc' e = ground arith
step_in_moves uncompress ParseState.insns doc from to doc' e =
    let (w, _, got) = deref-eq-ok doc.current_wnd _ e in
    ground (arith, insns_step_moves uncompress w doc from to doc' got)
step_in_moves uncompress ParseState.bytes doc from to doc' e =
    let (w, _, got) = deref-eq-ok doc.current_wnd _ e in
    ground (arith, bytes_step_moves uncompress w doc from to doc' got)
step_in_moves uncompress _ doc from to doc' e =
    ground (arith, number_step_moves _ _ _ doc from to doc' e)

number_step-ne-stuck :
    (k : ℕ) (put : ℤ → Wnd → Wnd) (next : ParseState) (doc : Doc) (from : Cursor)
    → number_step k put next doc from ≢ stuck
unfolding number_step
number_step-ne-stuck k put next doc from =
    deref-ne-stuck doc.current_wnd _
      λ w. >>=-ne-stuck (read_number k from) _ (read_number-ne-stuck k from) λ _ _ e. cc

decode_version-ne-stuck : (from : Cursor) → decode_version from ≢ stuck
unfolding decode_version
decode_version-ne-stuck (a ∷ b ∷ c ∷ n ∷ s, left) = ground arith
decode_version-ne-stuck (s, left) = ground arith

section_step-ne-stuck {ℓ} :
    {A : Type ℓ} (uncompress : Uncompress) (k : ℕ) (encoded : ℕ) (from : Cursor)
    (f : Cursor × Bytes → Outcome A)
    → ((p : Cursor × Bytes) → f p ≢ stuck)
    → (on_fail k (decode_bytes uncompress encoded from) >>= f) ≢ stuck
section_step-ne-stuck uncompress k encoded from f h =
    >>=-ne-stuck (on_fail k (decode_bytes uncompress encoded from)) f
      (on_fail-ne-stuck k _ (decode_bytes-ne-stuck uncompress encoded from)) λ p _. h p

step_in-ne-stuck :
    (uncompress : Uncompress) (state : ParseState) (doc : Doc) (from : Cursor)
    → step_in uncompress state doc from ≢ stuck
unfolding step_in insns_step bytes_step
step_in-ne-stuck uncompress ParseState.version doc from =
    >>=-ne-stuck (on_fail 1 (decode_version from)) _
      (on_fail-ne-stuck 1 _ (decode_version-ne-stuck from)) λ _ _ e. cc
step_in-ne-stuck uncompress ParseState.nwnd doc from = λ e. cc
step_in-ne-stuck uncompress ParseState.insns doc from = deref-ne-stuck doc.current_wnd _ λ w.
    section_step-ne-stuck uncompress 7 (to_size w.inslen) from _
      λ (to, b). >>=-ne-stuck (section_insns b) _ (section_insns-ne-stuck b) λ _ _ e. cc
step_in-ne-stuck uncompress ParseState.bytes doc from =
    deref-ne-stuck doc.current_wnd _
      λ w. section_step-ne-stuck uncompress 8 (to_size w.newlen) from _ λ _ e. cc
step_in-ne-stuck uncompress _ doc from = number_step-ne-stuck _ _ _ doc from

parse_loop-ne-stuck :
    (uncompress : Uncompress) (fuel : ℕ) (doc : Doc) (from : Cursor)
    → 2 * from.1 + opens doc.parse_state < fuel
    → parse_loop uncompress fuel doc from ≢ stuck
unfolding parse_loop
parse_loop-ne-stuck uncompress zero doc from h = elim h [ ]
parse_loop-ne-stuck uncompress (suc fuel) doc (s, zero) h = λ e. cc
parse_loop-ne-stuck uncompress (suc fuel) doc (s, suc left) h =
    by_result (step_in uncompress doc.parse_state doc (s, suc left)) refl
      (parse_loop-ne-stuck uncompress fuel)
  where
    by_result :
        (r : Outcome (Cursor × Doc))
        → step_in uncompress doc.parse_state doc (s, suc left) ≡ r
        → ((doc' : Doc) (to : Cursor)
            → 2 * to.1 + opens doc'.parse_state < fuel
            → parse_loop uncompress fuel doc' to ≢ stuck)
        → parse_loop uncompress (suc fuel) doc (s, suc left) ≢ stuck
    by_result (ok (to, doc')) e rest =
        let near = step_in_moves uncompress doc.parse_state doc (s, suc left) to doc' e in
        rw (parse_loop, e) (rest doc' to (omega arith))
    by_result (fail k) e rest = rw (parse_loop, e) (λ x. cc)
    by_result fault e rest = rw (parse_loop, e) (λ x. cc)
    by_result stuck e rest = absurd (step_in-ne-stuck uncompress doc.parse_state doc _ e)

opens-le : (state : ParseState) → opens state ≤ 1
opens-le ParseState.version = omega arith
opens-le ParseState.nwnd = omega arith
opens-le _ = omega arith

-- The loop of `svndiff_parse_doc` is never stopped by the bound of two rounds a byte. A section whose
-- length is behind the object, or wraps, is a fault before: there the model does not follow the source.
pub svndiff_parse_doc-ne-stuck :
    (uncompress : Uncompress) (from : Cursor) (doc : Doc)
    → svndiff_parse_doc uncompress from doc ≢ stuck
unfolding svndiff_parse_doc
svndiff_parse_doc-ne-stuck uncompress from doc =
    parse_loop-ne-stuck uncompress (2 * from.1 + 2) doc from
      (omega (arith, opens-le doc.parse_state))
