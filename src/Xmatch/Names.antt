-- ===== src/Xmatch/Names.antt =====
-- The names of a pattern.
use mrksvnup.Base.{
  ℕ, zero, suc, ◌<◌, ◌≡◌, refl, List, [], ◌∷◌, ◌++◌, Bytes, length, length-append, some, ok, All,
  arith,
}
use mrksvnup.Util.Url.{cut_at, Lacks, cut_at-found}
use mrksvnup.Xmatch.{joined, names_loop, xmatch_init}

-- Names that are not empty and have no bar.
abbrev pub IsName : Bytes → Type 0
IsName name = (0 < length name) × Lacks b'|' name

-- A bar behind each name.
unfoldable pub barred : List Bytes → Bytes
barred [] = []
barred (name ∷ names) = name ++ b'|' ∷ barred names

joined-IsName : (name : Bytes) (names : List Bytes) → IsName name → joined name names ≡ name ∷ names
unfolding joined
joined-IsName [] names (some_bytes, lacks) = absurd (omega arith)
joined-IsName (c ∷ cs) names is_name = refl

names_loop-barred :
    (names : List Bytes) (fuel : ℕ)
    → All IsName names
    → length (barred names) < fuel
    → names_loop fuel (barred names) ≡ ok names
unfolding names_loop barred cut_at
names_loop-barred names zero are_names enough = absurd (omega arith)
names_loop-barred [] (suc fuel) are_names enough = refl
names_loop-barred (name ∷ names) (suc fuel) (is_name, are_names) enough =
    let shorter : length (barred names) < fuel =
      omega (arith, length-append name (b'|' ∷ barred names)) in
    rw (
      names_loop,
      cut_at-found b'|' name (barred names) is_name.1,
      names_loop-barred names fuel are_names shorter,
      joined-IsName name names is_name,
    )

-- For names that are not empty and have no bar: `xmatch_init` on the pattern that has a bar in front of
-- each name and behind the last compiles it into the names, in order, with no element open.
pub xmatch_init-barred :
    (names : List Bytes)
    → All IsName names
    → xmatch_init (some (b'|' ∷ barred names))
      ≡ ok (record {
        pattern = some (b'|' ∷ barred names);
        compiled_pattern = names;
        input_stack = [];
      })
unfolding xmatch_init
xmatch_init-barred names are_names =
    rw (names_loop-barred names (suc (length (barred names))) are_names (omega arith))
