-- ===== src/Util/Kinds.antt =====
-- `svnc_kind2int` and `svnc_kind2str` of src/svnc_util.c: the kinds of nodes by name and by number.
use mrksvnup.Base.{
  ℕ, zero, suc, ◌≤◌, ◌≡◌, refl, sym, ◌∙◌, true, if◌then◌else◌, List, [], ◌∷◌, Bytes, codes, equal,
  Option, none, some, ℤ, pos, negsuc, get_elem?, length, ap, ◌+◌, arith, ltb,
}

abbrev pub kinds : List Bytes
kinds = codes "none" ∷ codes "file" ∷ codes "dir" ∷ codes "unknown" ∷ []

-- The loop over the table from its entry `i` on.
unfoldable pub kinds_loop : Bytes → List Bytes → ℕ → ℕ
unfolding equal
kinds_loop kind [] i = 3
kinds_loop kind (name ∷ names) i =
    let rest = kinds_loop kind names (suc i) in if equal kind name then i else rest

unfoldable pub svnc_kind2int : Option Bytes → ℕ
unfolding equal kinds_loop
svnc_kind2int none = 3
svnc_kind2int (some kind) = if equal kind (codes "collection") then 2 else kinds_loop kind kinds 0

-- An entry of the table.
abbrev pub kind_at : ℕ → Bytes
kind_at i = elim (get_elem? kinds i) [ some name ↦ name | none ↦ [] ]

unfoldable pub svnc_kind2str : ℤ → Bytes
svnc_kind2str (pos kind) = kind_at (if ltb 3 kind then 3 else kind)
svnc_kind2str (negsuc kind) = kind_at 3

kinds_loop-le :
    (kind : Bytes) (names : List Bytes) (i : ℕ) → i + length names ≤ 4 → kinds_loop kind names i ≤ 3
unfolding kinds_loop
kinds_loop-le kind [] i low = omega arith
kinds_loop-le kind (name ∷ names) i low =
    let ih : kinds_loop kind names (suc i) ≤ 3 = kinds_loop-le kind names (suc i) (omega arith) in
    ground arith

svnc_kind2int-le : (kind : Option Bytes) → svnc_kind2int kind ≤ 3
unfolding svnc_kind2int
svnc_kind2int-le none = omega arith
svnc_kind2int-le (some kind) =
    let ih : kinds_loop kind kinds 0 ≤ 3 = kinds_loop-le kind kinds 0 (omega arith) in ground arith

-- The number of a kind, with 3 for all above.
abbrev pub cut : ℕ → ℕ
cut kind = if ltb 3 kind then 3 else kind

cut_lem : (kind : ℕ) → svnc_kind2int (some (kind_at (cut kind))) ≡ cut kind
unfolding svnc_kind2int kinds_loop equal
cut_lem zero = refl
cut_lem (suc zero) = refl
cut_lem (suc (suc zero)) = refl
cut_lem (suc (suc (suc zero))) = refl
cut_lem (suc (suc (suc (suc kind)))) =
    let above : ltb 3 (suc (suc (suc (suc kind)))) ≡ true = ground arith in
    ap (λ b. svnc_kind2int (some (kind_at (if b then 3 else suc (suc (suc (suc kind))))))) above
    ∙ ap (λ b. if b then 3 else suc (suc (suc (suc kind)))) (sym above)

-- `svnc_kind2int` gives a number from 0 to 3 for each string and for NULL. On the name that
-- `svnc_kind2str` gives for a number it returns that number, where it is one of 0 to 3, and 3
-- otherwise, for negative numbers too.
pub svnc_kind2int-svnc_kind2str :
    (name : Option Bytes) (kind : ℕ)
    → (svnc_kind2int name ≤ 3)
      × (svnc_kind2int (some (svnc_kind2str (pos kind))) ≡ cut kind)
      × (svnc_kind2int (some (svnc_kind2str (negsuc kind))) ≡ 3)
unfolding svnc_kind2int svnc_kind2str kinds_loop equal
svnc_kind2int-svnc_kind2str name kind = (svnc_kind2int-le name, cut_lem kind, refl)
