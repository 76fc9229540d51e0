-- ===== src/Http/Runs.antt =====
-- Concrete runs of the URL encoding of the search for the end of a line, and of
-- the writing of requests.
use mrksvnup.Base.{ℕ, ◌≡◌, List, [], ◌∷◌, Bytes, codes, length, ok, arith}
use mrksvnup.Base.Buffers.{Holds}
use mrksvnup.Proto.Pack.Text.{Appends}
use mrksvnup.Proto.Requests.Runs.{endless, endless-IsOutput}
use mrksvnup.Http.Request.{request, request_text, request-Appends}
use mrksvnup.Http.Crlf.{findcrlf, findcrlf-Found, Found}
use mrksvnup.Http.Url.{http_urlencode_reserved, http_urldecode}
use mrksvnup.Http.Url.RoundTrip.{http_urldecode-http_urlencode_reserved}

-- "a /9"
abbrev path : Bytes
path = b'a' ∷ b' ' ∷ b'/' ∷ b'9' ∷ []

-- The string behind `malloc`.
abbrev blank : ℕ → ℕ
blank i = 255

http_urldecode-http_urlencode_reserved_example :
    (mem mem' : ℕ → ℕ) × (http_urlencode_reserved blank path ≡ ok mem)
    × (http_urldecode 13 mem 0 ≡ ok (mem', 4))
    × Holds mem' 0 path
http_urldecode-http_urlencode_reserved_example =
    http_urldecode-http_urlencode_reserved path 13 blank
      ((omega arith), ((omega arith), ((omega arith), ((omega arith), tt)))) (omega arith)
      (omega arith)

-- "a", CR, "b", CR, LF.
abbrev two_returns : Bytes
two_returns = b'a' ∷ 13 ∷ b'b' ∷ 13 ∷ 10 ∷ []

findcrlf-Found_example : Found two_returns (findcrlf two_returns)
findcrlf-Found_example = findcrlf-Found two_returns

abbrev fields : List (Bytes × Bytes)
fields = (codes "Host", codes "svn.org") ∷ (codes "Depth", codes "0") ∷ []

request-Appends_example :
    Appends endless
      (λ out. out)
      endless-IsOutput
      (request endless (λ s out. length s) (codes "PROPFIND") (codes "/a") fields (codes "<x/>") [])
      []
      (request_text (codes "PROPFIND") (codes "/a") fields (codes "<x/>"))
request-Appends_example =
    request-Appends endless (λ out. out) endless-IsOutput (λ s out. length s) (codes "PROPFIND")
      (codes "/a") fields (codes "<x/>") []
