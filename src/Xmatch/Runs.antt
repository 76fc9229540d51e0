-- ===== src/Xmatch/Runs.antt =====
-- Patterns at concrete inputs.
use mrksvnup.Base.{◌≡◌, refl, List, [], ◌∷◌, Bytes, codes, some, ok, arith}
use mrksvnup.Util.Url.{Lacks}
use mrksvnup.Xmatch.{xmatch_init}
use mrksvnup.Xmatch.Names.{barred, xmatch_init-barred}

-- "|D|href|"
abbrev names : List Bytes
names = codes "D" ∷ codes "href" ∷ []

xmatch_init-barred_example :
    xmatch_init (some (b'|' ∷ barred names))
    ≡ ok (record {
      pattern = some (b'|' ∷ barred names);
      compiled_pattern = names;
      input_stack = [];
    })
unfolding Lacks
xmatch_init-barred_example =
    xmatch_init-barred names
      (((omega arith), (refl, tt)), (((omega arith), (refl, (refl, (refl, (refl, tt))))), tt))
