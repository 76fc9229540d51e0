-- ===== src/Svnedit/Links.antt =====
-- The text of a symbolic link, as `create_symlink` and `svnedit_close_file` of src/svnedit.c take it
-- from an array of characters.
use mrksvnup.Base.{
  ◌==◌, Bool, true, false, ◌&&◌, if◌then◌else◌, [], ◌∷◌, Bytes, codes, Option, none, some, drop,
}

-- A string ends at its first zero byte.
unfoldable pub c_string : Bytes → Bytes
c_string [] = []
c_string (c ∷ s) = let rest = c_string s in if c == 0 then [] else c ∷ rest

abbrev pub begins : Bytes → Bytes → Bool
begins [] s = true
begins (c ∷ word) [] = false
begins (c ∷ word) (c' ∷ s) = c == c' && begins word s

-- `strstr(s, word) != NULL`
unfoldable pub has_word : Bytes → Bytes → Bool
has_word word [] = begins word []
has_word word (c ∷ s) = let rest = has_word word s in if begins word (c ∷ s) then true else rest

-- `data`, where the text has a link in it.
unfoldable pub link_target : Bytes → Option Bytes
link_target data_bytes =
    if has_word (codes "link ") (c_string data_bytes)
    then some (c_string (drop 5 data_bytes))
    else none
