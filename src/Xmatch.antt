-- ===== src/Xmatch.antt =====
-- The path patterns of src/xmatch.c, which the XML handlers use: a pattern "|a|b|" is compiled into
-- names, the names of the open elements are a stack, and the two are compared. `array_decr`
-- and `array_cmp` of mrkcommon are parameters.
pub mod Names
pub mod Runs
use mrksvnup.Base.{
  ℕ, zero, suc, ◌+◌, ◌-◌, ◌==◌, ltb, Bool, true, false, if◌then◌else◌, List, [], ◌∷◌, ◌++◌, Bytes,
  length, get_elem?, Option, none, some, Outcome, ok, fail, fault, stuck, ◌>>=◌, ℤ, pos, negsuc,
}
use mrksvnup.Util.Url.{cut_at}

pub record Xmatch : Type 0 where
  pub pattern : Option Bytes
  pub compiled_pattern : List Bytes
  pub input_stack : List Bytes

-- A name that is not empty joins the pattern.
unfoldable pub joined : Bytes → List Bytes → List Bytes
joined [] names = names
joined (c ∷ cs) names = (c ∷ cs) ∷ names

-- The loop from `s1` on. A name ends at a bar; what stands behind the last bar is left out.
unfoldable pub names_loop : ℕ → Bytes → Outcome (List Bytes)
names_loop zero s1 = stuck
names_loop (suc fuel) s1 = elim (cut_at b'|' s1) [
  | none ↦ ok []
  | some (name, after) ↦ names_loop fuel after >>= λ names. ok (joined name names)
]

-- The first round passes over one character, which is behind the string where it is empty.
unfoldable pub xmatch_init : Option Bytes → Outcome Xmatch
xmatch_init none = ok (record { pattern = none; compiled_pattern = []; input_stack = [] })
xmatch_init (some []) = fault
xmatch_init (some (c ∷ s1)) = do
  names ← names_loop (suc (length s1)) s1
  ok (record { pattern = some (c ∷ s1); compiled_pattern = names; input_stack = [] })

unfoldable pub xmatch_fini : Xmatch → Xmatch
xmatch_fini x = record { pattern = none; compiled_pattern = []; input_stack = [] }

unfoldable pub xmatch_push : Bytes → Xmatch → Xmatch
xmatch_push entry x = record x { input_stack = x.input_stack ++ entry ∷ [] }

-- `array_decr` of mrkcommon is a parameter.
unfoldable pub xmatch_pop : (List Bytes → List Bytes) → Xmatch → Xmatch
xmatch_pop array_decr x =
    if ltb 0 (length x.input_stack) then record x { input_stack = array_decr x.input_stack } else x

-- The element `idx` below the top, or NULL: an index below 0 is out of the array's bounds.
unfoldable pub xmatch_top : ℕ → Xmatch → Option Bytes
xmatch_top idx x =
    let n = length x.input_stack in
    if ltb idx n then get_elem? x.input_stack (n - 1 - idx) else none

-- `safe_strcmp`, over a comparison of strings.
unfoldable pub safe_strcmp : (Bytes → Bytes → ℤ) → Option Bytes → Option Bytes → ℤ
safe_strcmp strcmp none none = pos 0
safe_strcmp strcmp (some s1) none = pos 1
safe_strcmp strcmp none (some s2) = negsuc 0
safe_strcmp strcmp (some s1) (some s2) = strcmp s1 s2

unfoldable pub xmatch_matches :
    ((Option Bytes → Option Bytes → ℤ) → List Bytes → List Bytes → ℤ)
    → (Bytes → Bytes → ℤ)
    → Xmatch
    → ℤ
xmatch_matches array_cmp strcmp x = array_cmp (safe_strcmp strcmp) x.compiled_pattern x.input_stack
