-- ===== src/Util/Runs.antt =====
-- The utilities at concrete inputs.
use mrksvnup.Base.{
  ◌≡◌, refl, false, [], ◌∷◌, Bytes, codes, none, some, pos, to_int, to_int_pos, ap, arith,
}
use mrksvnup.Util.Url.{
  svn, is_zero, Number, Url, Lacks, url_text, svn_url_parse, svn_url_parse-url_text,
}

abbrev two_bytes : Bytes
two_bytes = 0 ∷ 171 ∷ []

-- A reader of numbers that knows one.
abbrev always_3691 : Bytes → Number
always_3691 bs = record { value = pos 3691; nothing_read = false; bad_errno = false }

abbrev unset : Url
unset = record { scheme = none; host = none; port = pos 0; path = none }

svn_url_parse-url_text_example :
    svn_url_parse always_3691
      (url_text svn (codes "svn.org") (some (codes "3691")) (codes "a"))
      unset
    ≡ (
      0,
      record {
        scheme = some svn;
        host = some (codes "svn.org");
        port = to_int (pos 3691);
        path = some (codes "/a");
      },
    )
unfolding Lacks
svn_url_parse-url_text_example =
    svn_url_parse-url_text always_3691 svn (codes "svn.org") (codes "a") (some (codes "3691")) unset
      (refl, (refl, (refl, (refl, (refl, (refl, (refl, tt)))))))
      (refl, (refl, (refl, (refl, (refl, (refl, (refl, tt)))))))
      ((refl, (refl, (refl, (refl, tt)))), ap is_zero (to_int_pos 3691 (omega arith)))
