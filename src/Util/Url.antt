-- ===== src/Util/Url.antt =====
-- `svn_url_parse` of src/svnc_util.c. `strtoimax`, with the error number that it leaves, is a
-- parameter.
use mathlib.Core.List.{append-nil}
use mrksvnup.Base.{
  ℕ, ◌==◌, ◌&&◌, ◌||◌, Bool, true, false, if◌then◌else◌, [], ◌∷◌, ◌++◌, Bytes, codes, Option, none,
  some, ℤ, pos, negsuc, to_int, ◌≡◌, refl, All, arith,
}

pub data Scheme : Type 0 where
  svn http https : Scheme

abbrev pub prefix_of : Scheme → Bytes
prefix_of svn = codes "svn://"
prefix_of http = codes "http://"
prefix_of https = codes "https://"

abbrev pub default_port : Scheme → ℕ
default_port svn = 3690
default_port http = 80
default_port https = 443

-- What `strtoimax` gives: the value, whether the pointer behind the number is where it began, and
-- whether `errno` is then ERANGE or EINVAL.
pub record Number : Type 0 where
  pub value : ℤ
  pub nothing_read : Bool
  pub bad_errno : Bool

-- The caller's variables.
pub record Url : Type 0 where
  pub scheme : Option Scheme
  pub host : Option Bytes
  pub port : ℤ
  pub path : Option Bytes

-- `strnstr(url, word, sz) == url`, and what stands behind the word.
unfoldable pub behind_word : Bytes → Bytes → Option Bytes
behind_word [] url = some url
behind_word (w ∷ ws) [] = none
behind_word (w ∷ ws) (c ∷ cs) = let rest = behind_word ws cs in if c == w then rest else none

-- The bytes in front of the first `c`, and the string behind it: `strchr`, and `strstr` for a word of
-- one character.
unfoldable pub cut_at : ℕ → Bytes → Option (Bytes × Bytes)
cut_at c [] = none
cut_at c (x ∷ xs) =
    let rest = cut_at c xs in
    if x == c
    then some ([], xs)
    else elim rest [ none ↦ none | some (before, after) ↦ some (x ∷ before, after) ]

abbrev pub is_zero : ℤ → Bool
is_zero (pos n) = n == 0
is_zero (negsuc n) = false

module _ (strtoimax : Bytes → Number) where
  -- The path, with its slash.
  unfoldable pub url_path : Bytes → Url → ℕ × Url
  url_path after u = (0, record u { path = some (b'/' ∷ after) })

  -- The port behind a colon.
  unfoldable pub url_port : Bytes → Bytes → Url → ℕ × Url
  url_port p2 after u =
      let n = strtoimax p2 in
      let u' : Url = record u { port = to_int n.value } in
      if is_zero (to_int n.value) && (n.nothing_read || n.bad_errno)
      then (4, u')
      else url_path after u'

  -- The host, up to the first slash, and within it up to the first colon.
  unfoldable pub url_host : Scheme → Bytes → Url → ℕ × Url
  url_host s p0 u = elim (cut_at b'/' p0) [
    | none ↦ (2, record u { scheme = some s })
    | some (host, after) ↦ elim (cut_at b':' host) [
      | some (name, p2) ↦ url_port p2 after (record u { scheme = some s; host = some name })
      | none ↦
          url_path after
            (record u { scheme = some s; host = some host; port = pos (default_port s) })
    ]
  ]

  -- The result, 0 or the number of the error, and the caller's variables.
  unfoldable pub svn_url_parse : Bytes → Url → ℕ × Url
  svn_url_parse url u = elim (behind_word (codes "svn://") url) [
    | some p0 ↦ url_host svn p0 u
    | none ↦ elim (behind_word (codes "http://") url) [
      | some p0 ↦ url_host http p0 u
      | none ↦ elim (behind_word (codes "https://") url) [
        | some p0 ↦ url_host https p0 u
        | none ↦ (1, u)
      ]
    ]
  ]

-- A URL as text, with a port or without.
abbrev pub port_text : Option Bytes → Bytes
port_text none = []
port_text (some p) = b':' ∷ p

abbrev pub url_text : Scheme → Bytes → Option Bytes → Bytes → Bytes
url_text s host port path = prefix_of s ++ (host ++ port_text port) ++ b'/' ∷ path

unfoldable pub Lacks : ℕ → Bytes → Type 0
Lacks c = All (λ x. (x == c) ≡ false)

pub cut_at-found :
    (c : ℕ) (before after : Bytes)
    → Lacks c before
    → cut_at c (before ++ c ∷ after) ≡ some (before, after)
unfolding cut_at Lacks
cut_at-found c [] after lacks = let same : (c == c) ≡ true = ground arith in rw (same)
cut_at-found c (x ∷ xs) after (other, lacks) = rw (other, cut_at-found c xs after lacks)

cut_at-Lacks : (c : ℕ) (xs : Bytes) → Lacks c xs → cut_at c xs ≡ none
unfolding cut_at Lacks
cut_at-Lacks c [] lacks = refl
cut_at-Lacks c (x ∷ xs) (other, lacks) = rw (other, cut_at-Lacks c xs lacks)

Lacks-append : (c : ℕ) (xs ys : Bytes) → Lacks c xs → Lacks c ys → Lacks c (xs ++ ys)
unfolding Lacks
Lacks-append c [] ys lacks lacks' = lacks'
Lacks-append c (x ∷ xs) ys (other, lacks) lacks' = (other, Lacks-append c xs ys lacks lacks')

module _ (strtoimax : Bytes → Number) where
  -- A port's text has no slash, and it is a number other than 0.
  abbrev pub IsPort : Option Bytes → Type 0
  IsPort none = Unit
  IsPort (some p) = Lacks b'/' p × (is_zero (to_int (strtoimax p).value) ≡ false)

  abbrev pub port_of : Scheme → Option Bytes → ℤ
  port_of s none = pos (default_port s)
  port_of s (some p) = to_int (strtoimax p).value

  IsPort-Lacks : (port : Option Bytes) → IsPort port → Lacks b'/' (port_text port)
  unfolding Lacks
  IsPort-Lacks none is_port = tt
  IsPort-Lacks (some p) (lacks, e) = (refl, lacks)

  url_host-text :
      (s : Scheme) (host path : Bytes) (port : Option Bytes) (u : Url)
      → Lacks b'/' host
      → Lacks b':' host
      → IsPort port
      → url_host strtoimax s ((host ++ port_text port) ++ b'/' ∷ path) u ≡ (
        0,
        record {
          scheme = some s;
          host = some host;
          port = port_of s port;
          path = some (b'/' ∷ path);
        },
      )
  unfolding url_host url_port url_path
  url_host-text s host path none u no_slash no_colon is_port =
      let slash = cut_at-found b'/' host path no_slash in
      rw (append-nil host, slash, url_host, cut_at-Lacks b':' host no_colon)
  url_host-text s host path (some p) u no_slash no_colon (lacks, e) =
      let slash =
        cut_at-found b'/' (host ++ b':' ∷ p) path
          (Lacks-append b'/' host (b':' ∷ p) no_slash (IsPort-Lacks (some p) (lacks, e))) in
      rw (slash, url_host, cut_at-found b':' host p no_colon, e)

  -- For a scheme, a host without slash and colon, a port or none, and a path: on the text of their URL
  -- `svn_url_parse` returns 0 and gives the scheme, the host, the path with its slash, and the port as
  -- `strtoimax` reads it, or the scheme's own port where the URL has none. The port's text has no
  -- slash and stands for a number that is not 0 as an `int`.
  pub svn_url_parse-url_text :
      (s : Scheme) (host path : Bytes) (port : Option Bytes) (u : Url)
      → Lacks b'/' host
      → Lacks b':' host
      → IsPort port
      → svn_url_parse strtoimax (url_text s host port path) u ≡ (
        0,
        record {
          scheme = some s;
          host = some host;
          port = port_of s port;
          path = some (b'/' ∷ path);
        },
      )
  unfolding svn_url_parse behind_word
  svn_url_parse-url_text svn host path port u no_slash no_colon is_port =
      url_host-text svn host path port u no_slash no_colon is_port
  svn_url_parse-url_text http host path port u no_slash no_colon is_port =
      url_host-text http host path port u no_slash no_colon is_port
  svn_url_parse-url_text https host path port u no_slash no_colon is_port =
      url_host-text https host path port u no_slash no_colon is_port
