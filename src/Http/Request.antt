-- ===== src/Http/Request.antt =====
-- The functions of src/http.c that write a request, over the output side of the byte stream.
use mrksvnup.Base.{
  ℕ, ◌+◌, ◌-◌, ◌%◌, ◌<◌, inl, inr, refl, sym, Bool, true, false, ◌==◌, if◌then◌else◌, List, [], ◌∷◌,
  ◌++◌, Bytes, codes, length, length-append, Outcome, ok, fail, ◌>>=◌, arith,
}
use mathlib.Core.List.{append-nil}
use mrksvnup.Proto.Pack.{Output, IsOutput, checked}
use mrksvnup.Proto.Pack.Text.{Appends, checked-Appends, >>=-Appends}

abbrev pub crlf : Bytes
crlf = 13 ∷ 10 ∷ []

-- What stands behind the URI.
abbrev pub version : Bytes
version = codes " HTTP/1.1" ++ crlf

-- The size that is reserved: up to the next boundary of 4096 bytes.
abbrev pub reserved_size : ℕ → ℕ
reserved_size sz = sz + (4096 - sz % 4096)

module _ (o : Output) where
  unfoldable pub http_start_request : Bytes → Bytes → o.Out → Outcome o.Out
  http_start_request method uri out = checked 1 (
      o.nprintf (reserved_size (length method + length uri + 12))
        (method ++ b' ' ∷ (uri ++ version)) out)

  unfoldable pub http_add_header_field : Bytes → Bytes → o.Out → Outcome o.Out
  http_add_header_field name value out = checked 1 (
      o.nprintf (reserved_size (length name + length value + 4))
        (name ++ b':' ∷ b' ' ∷ (value ++ crlf)) out)

  -- `appended` is what `bytestream_cat` returns where it has appended; 0 is taken for an error.
  unfoldable pub http_end_of_header : (Bytes → o.Out → ℕ) → o.Out → Outcome o.Out
  http_end_of_header appended out =
      checked 1 (o.cat crlf out) >>= λ out'. if appended crlf out == 0 then fail 1 else ok out'

  unfoldable pub http_add_body : Bytes → o.Out → Outcome o.Out
  http_add_body body out = checked 1 (o.cat body out)

  -- Header fields in a row, as a caller adds them.
  unfoldable pub with_fields : List (Bytes × Bytes) → o.Out → Outcome o.Out
  with_fields [] out = ok out
  with_fields ((name, value) ∷ fields) out =
      http_add_header_field name value out >>= with_fields fields

  -- A whole request, as a caller writes it.
  unfoldable pub request :
      (Bytes → o.Out → ℕ) → Bytes → Bytes → List (Bytes × Bytes) → Bytes → o.Out → Outcome o.Out
  request appended method uri fields body out = http_start_request method uri out >>= λ out.
      with_fields fields out >>= λ out.
      http_end_of_header appended out >>= λ out. http_add_body body out

-- The text of header fields, and of a request.
unfoldable pub fields_text : List (Bytes × Bytes) → Bytes
fields_text [] = []
fields_text ((name, value) ∷ fields) = (name ++ b':' ∷ b' ' ∷ (value ++ crlf)) ++ fields_text fields

abbrev pub request_text : Bytes → Bytes → List (Bytes × Bytes) → Bytes → Bytes
request_text method uri fields body =
    (method ++ b' ' ∷ (uri ++ version)) ++ (fields_text fields ++ (crlf ++ body))

module _ (o : Output) (text : o.Out → Bytes) (laws : IsOutput o text) where
  start-Appends :
      (method uri : Bytes) (out : o.Out)
      → Appends o text laws
          (http_start_request o method uri out)
          out
          (method ++ b' ' ∷ (uri ++ version))
  unfolding http_start_request
  start-Appends method uri out =
      let line = method ++ b' ' ∷ (uri ++ version) in
      let fits : length line < reserved_size (length method + length uri + 12) =
        omega (arith, length-append method (b' ' ∷ (uri ++ version)), length-append uri version) in
      checked-Appends o text laws 1 _ out line (laws.nprintf_lem _ line out fits)

  field-Appends :
      (name value : Bytes) (out : o.Out)
      → Appends o text laws
          (http_add_header_field o name value out)
          out
          (name ++ b':' ∷ b' ' ∷ (value ++ crlf))
  unfolding http_add_header_field
  field-Appends name value out =
      let line = name ++ b':' ∷ b' ' ∷ (value ++ crlf) in
      let fits : length line < reserved_size (length name + length value + 4) =
        omega
          (arith, length-append name (b':' ∷ b' ' ∷ (value ++ crlf)), length-append value crlf) in
      checked-Appends o text laws 1 _ out line (laws.nprintf_lem _ line out fits)

  fields-Appends :
      (fields : List (Bytes × Bytes)) (out : o.Out)
      → Appends o text laws (with_fields o fields out) out (fields_text fields)
  unfolding with_fields fields_text
  fields-Appends [] out = inr (out, refl, sym (append-nil (text out)))
  fields-Appends ((name, value) ∷ fields) out =
      >>=-Appends o text laws (http_add_header_field o name value out) (with_fields o fields) out
        (name ++ b':' ∷ b' ' ∷ (value ++ crlf)) (fields_text fields) (field-Appends name value out)
        (fields-Appends fields)

  if-Appends : (b : Bool) (out : o.Out) → Appends o text laws (if b then fail 1 else ok out) out []
  if-Appends true out = inl (1, refl)
  if-Appends false out = inr (out, refl, sym (append-nil (text out)))

  end-Appends :
      (appended : Bytes → o.Out → ℕ) (out : o.Out)
      → Appends o text laws (http_end_of_header o appended out) out (crlf ++ [])
  unfolding http_end_of_header
  end-Appends appended out =
      >>=-Appends o text laws (checked 1 (o.cat crlf out)) _ out crlf []
        (checked-Appends o text laws 1 _ out crlf (laws.cat_lem crlf out))
        λ out'. if-Appends (appended crlf out == 0) out'

  -- On an output stream that follows its laws: writing a request with `http_start_request`, a call of
  -- `http_add_header_field` for each field, `http_end_of_header` and `http_add_body` fails, or it
  -- appends the request line, the fields in order, the empty line and the body. Each formatted text
  -- fits the size that is reserved for it.
  pub request-Appends :
      (appended : Bytes → o.Out → ℕ) (method uri : Bytes) (fields : List (Bytes × Bytes))
      (body : Bytes) (out : o.Out)
      → Appends o text laws
          (request o appended method uri fields body out)
          out
          (request_text method uri fields body)
  unfolding request http_add_body
  request-Appends appended method uri fields body out =
      >>=-Appends o text laws (http_start_request o method uri out) _ out _ _
        (start-Appends method uri out)
        λ out.
          >>=-Appends o text laws (with_fields o fields out) _ out _ _ (fields-Appends fields out)
            λ out.
              >>=-Appends o text laws (http_end_of_header o appended out) _ out crlf body
                (end-Appends appended out)
                λ out. checked-Appends o text laws 1 _ out body (laws.cat_lem body out)
