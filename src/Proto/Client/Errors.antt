-- ===== src/Proto/Client/Errors.antt =====
-- A response of failure, with its list of errors.
use mrksvnup.Base.{
  ℕ, zero, suc, ◌+◌, ◌*◌, ◌≤◌, ◌<◌, ◌≡◌, refl, false, List, [], ◌∷◌, Bytes, codes, equal, some,
  length, arith, pos,
}
use mrksvnup.Proto.Unpack.{
  Code, success, nomatch, other, Value, long, text, Reader, Argument, callback, unpacked, next,
  modifier, suppressed, is_list_start, is_list_end,
}
use mrksvnup.Proto.Unpack.Calls.{called, calls_loop, calls_item}
use mrksvnup.Proto.Unpack.Format.{item, items_loop, proceed, ended, svnproto_vunpack}
use mrksvnup.Proto.Unpack.Tokens.{Token, number, word, string, open_list, close_list, IsReader}
use mrksvnup.Proto.Unpack.Formats.{
  Item, open_item, close_item, one, numbers, strings, spec_text, finished, opened, closed, taken,
  not_opened,
}
use mrksvnup.Proto.Unpack.Stores.{written, stores}
use mrksvnup.Proto.Unpack.Steps.{paren_taken}
use mrksvnup.Proto.Unpack.Matches.{svnproto_vunpack-Reads}
use mrksvnup.Proto.Client.{LastError, cleared, long_of, text_of, Held}
use mrksvnup.Proto.Client.Response.{
  is_clear, unpack1, is_status, response_end, unpacking, test_failure, status_read,
  svnproto_command_response,
}
use mrksvnup.Proto.Client.Values.{status-word, closing}

-- An error of the server: its code, message, file and line.
pub record ServerError : Type 0 where
  pub code : ℕ
  pub message : Bytes
  pub file : Bytes
  pub line : ℕ

-- It as tokens, and a row of errors.
abbrev pub error_row : ServerError → List Token → List Token
error_row e ts =
    open_list ∷ number e.code ∷ string e.message ∷ string e.file ∷ number e.line ∷ close_list ∷ ts

unfoldable pub error_rows : List ServerError → List Token → List Token
error_rows [] ts = ts
error_rows (e ∷ es) ts = error_row e (error_rows es ts)

-- The error as the client keeps it, and the last one of a row.
abbrev pub kept_error : ServerError → LastError
kept_error e = record {
  apr_error = pos e.code;
  message = some e.message;
  file = some e.file;
  line = pos e.line;
}

abbrev pub last_error_of : List ServerError → LastError → LastError
last_error_of [] kept = kept
last_error_of (e ∷ es) kept = last_error_of es (kept_error e)

kept-is_clear :
    (e : ServerError) (es : List ServerError) → is_clear (last_error_of (e ∷ es) cleared) ≡ false
kept-is_clear e [] = refl
kept-is_clear e (e' ∷ es) = kept-is_clear e' es

-- What the response returns: the errors of the server, if there are any.
abbrev pub failure_code : List ServerError → Code
failure_code [] = success
failure_code (e ∷ es) = other 5

length-error_rows :
    (es : List ServerError) (ts : List Token)
    → length (error_rows es ts) ≡ length es * 6 + length ts
unfolding error_rows
length-error_rows [] ts = omega arith
length-error_rows (e ∷ es) ts = let ih = length-error_rows es ts in omega arith

-- The format of an error and its stores.
abbrev error_items : List Item
error_items = open_item ∷ one numbers ∷ one strings ∷ one strings ∷ one numbers ∷ close_item ∷ []

abbrev error_puts : {A : Type 0} → ℕ → Value → Held A → Held A
error_puts zero v h = record h { last_error = record h.last_error { apr_error = long_of v } }
error_puts (suc zero) v h = record h { last_error = record h.last_error { message = text_of v } }
error_puts (suc (suc zero)) v h = record h { last_error = record h.last_error { file = text_of v } }
error_puts (suc (suc (suc i))) v h = record h {
  last_error = record h.last_error { line = long_of v };
}

abbrev error_values : ServerError → List (List Value)
error_values e =
    (long e.code ∷ []) ∷ (text e.message ∷ []) ∷ (text e.file ∷ []) ∷ (long e.line ∷ []) ∷ []

module _ (d : Reader) (Ahead : d.R → List Token → Type 0) (At : d.R → Token → List Token → Type 0)
    (laws : IsReader d Ahead At) (A : Type 0) where
  unpack1-error :
      (e : ServerError) (ts : List Token) (fuel : ℕ) (r : d.R) (h : Held A)
      → Ahead r (error_row e ts)
      → length ts + 6 ≤ fuel
      → (r' : d.R) × (unpack1 d fuel A r h
          ≡ some (success, r', record h { last_error = kept_error e }))
        × Ahead r' ts
  unfolding unpack1 spec_text stores written
  unpack1-error e ts fuel r h ahead enough =
      let (r', read, ahead') =
        svnproto_vunpack-Reads d Ahead At laws (Held A) error_items error_puts (error_row e ts)
          (error_values e) success ts fuel r h
          (opened (taken refl (taken refl (taken refl (taken refl (closed finished)))))) ahead
          (omega arith) in
      (r', rw (read), ahead')

  unpack1-end :
      (ts : List Token) (fuel : ℕ) (r : d.R) (h : Held A)
      → Ahead r (close_list ∷ ts)
      → length ts + 1 ≤ fuel
      → (r' : d.R) × (unpack1 d fuel A r h ≡ some (nomatch 1, r', h)) × Ahead r' (close_list ∷ ts)
  unfolding unpack1 spec_text stores
  unpack1-end ts fuel r h ahead enough =
      let (r', read, ahead') =
        svnproto_vunpack-Reads d Ahead At laws (Held A) error_items error_puts (close_list ∷ ts) []
          (nomatch 1) (close_list ∷ ts) fuel r h (not_opened refl refl) ahead (omega arith) in
      (r', rw (read), ahead')

  -- The loop over the errors.
  errors_loop :
      (es : List ServerError) (ts : List Token) (left fuel : ℕ) (r : d.R) (h : Held A)
      → Ahead r (error_rows es (close_list ∷ ts))
      → length (error_rows es (close_list ∷ ts)) ≤ fuel
      → length es < left
      → (r' : d.R) × (calls_loop d (Held A) (unpack1 d fuel A) [] left r h
          ≡ next (nomatch 1) [] r' (record h { last_error = last_error_of es h.last_error }))
        × Ahead r' (close_list ∷ ts)
  unfolding calls_loop called error_rows
  errors_loop es ts zero fuel r h ahead enough short = absurd (omega arith)
  errors_loop [] ts (suc left) fuel r h ahead enough short =
      let (r', e, ahead') = unpack1-end ts fuel r h ahead (omega arith) in
      (d.recycle r', rw (e), laws.recycle_lem r' (close_list ∷ ts) ahead')
  errors_loop (e ∷ es) ts (suc left) fuel r h ahead enough short =
      let (r', read, ahead') =
        unpack1-error e (error_rows es (close_list ∷ ts)) fuel r h ahead (omega arith) in
      let (last, ends, ahead'') =
        errors_loop es ts left fuel r' (record h { last_error = kept_error e }) ahead' (omega arith)
          (omega arith) in
      (last, rw (read) ends, ahead'')

  -- The list of errors, read with the format "(r*)".
  errors_list :
      (es : List ServerError) (ts : List Token) (fuel : ℕ) (r : d.R) (h : Held A)
      → Ahead r (open_list ∷ error_rows es (close_list ∷ ts))
      → length (error_rows es (close_list ∷ ts)) ≤ fuel
      → (r' : d.R) × (svnproto_vunpack d
            (Held A)
            fuel
            (codes "(r*)")
            (callback (some (unpack1 d fuel A)) ∷ [])
            r
            h
          ≡ unpacked success r' (record h { last_error = last_error_of es h.last_error }))
        × Ahead r' ts
  unfolding svnproto_vunpack modifier items_loop item proceed ended suppressed calls_item
  errors_list es ts fuel r h ahead enough =
      let rows = error_rows es (close_list ∷ ts) in
      let U = Held A in
      let args : List (Argument d (Held A)) = callback (some (unpack1 d fuel A)) ∷ [] in
      let (r1, read1, at1) = laws.read_lem r open_list rows ahead in
      let few : length es < fuel = omega (arith, length-error_rows es (close_list ∷ ts)) in
      let (r2, loop, ahead2) =
        errors_loop es ts fuel fuel r1 h (laws.go_on r1 open_list rows at1) enough few in
      let (r3, read3, at3) = laws.read_lem r2 close_list ts ahead2 in
      let h' : Held A = record h { last_error = last_error_of es h.last_error } in
      (
        r3,
        rw (
          paren_taken d Ahead At laws U is_list_start 1 args r r1 open_list rows h refl read1 at1,
          loop,
          paren_taken d Ahead At laws U is_list_end 2 [] r2 r3 close_list ts h' refl read3 at3,
        ),
        laws.go_on r3 close_list ts at3,
      )

  after_errors :
      (es : List ServerError) (fuel : ℕ) (r : d.R) (a : A)
      → response_end d fuel A success r (record { last_error = last_error_of es cleared; mine = a })
        ≡ unpacked (failure_code es) r (record { last_error = last_error_of es cleared; mine = a })
  unfolding response_end
  after_errors [] fuel r a = refl
  after_errors (e ∷ es) fuel r a = rw (kept-is_clear e es)

  -- Where the tokens that come next are a response of failure with a list of errors:
  -- `svnproto_command_response` returns its error 5 and keeps the last error of the list, except where
  -- the list is empty, when it returns 0 and keeps no error; it stores nothing through the caller's
  -- arguments, and what follows the response comes next.
  pub svnproto_command_response-failure :
      (es : List ServerError) (rest : List Token) (spec : Bytes) (args : List (Argument d (Held A)))
      (fuel : ℕ) (r : d.R) (a : A)
      → Ahead r (
          open_list
          ∷ word (codes "failure")
          ∷ open_list
          ∷ error_rows es (close_list ∷ close_list ∷ rest))
      → length (error_rows es (close_list ∷ close_list ∷ rest)) + 3 ≤ fuel
      → (r' : d.R) × (svnproto_command_response d fuel A spec args r a
          ≡ unpacked
              (failure_code es)
              r'
              (record { last_error = last_error_of es cleared; mine = a }))
        × Ahead r' rest
  unfolding svnproto_command_response status_read is_status equal test_failure unpacking
  svnproto_command_response-failure es rest spec args fuel r a ahead enough =
      let rows = error_rows es (close_list ∷ close_list ∷ rest) in
      let few = length-error_rows es (close_list ∷ close_list ∷ rest) in
      let (r1, e1, ahead1) =
        status-word d Ahead At laws (codes "failure") (open_list ∷ rows) fuel r ahead
          (omega arith) in
      let h : Held A = record { last_error = cleared; mine = a } in
      let (r2, e2, ahead2) = errors_list es (close_list ∷ rest) fuel r1 h ahead1 (omega arith) in
      let h' : Held A = record { last_error = last_error_of es cleared; mine = a } in
      let (r3, e3, ahead3) =
        closing d Ahead At laws (Held A) rest fuel r2 h' ahead2 (omega arith) in
      (r3, rw (e1, e2, e3) (after_errors es fuel r3 a), ahead3)
