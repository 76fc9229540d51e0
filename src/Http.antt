-- ===== src/Http.antt =====
-- The HTTP client of src/http.c: the encoding of URL paths, the search for the end of a
-- line, and the writing of requests.
pub mod Url
pub mod Crlf
pub mod Request
pub mod Runs
