-- ===== src/Base/Buffers.antt =====
-- Runs of bytes in a buffer, which is a function from places to bytes.
use Prim.Native.Nat.{ℕ, suc, ◌+◌, ◌≤◌, ◌<◌}
use mathlib.Core.Path.{◌≡◌, subst}
use mathlib.Core.List.{[], ◌∷◌, ◌++◌}
use native.Mathlib.Omega.{arith}
use mrksvnup.Base.Tests.{◌==◌, if◌then◌else◌}
use mrksvnup.Base.Lists.{Bytes, length}

-- From place `p` on, the buffer has the bytes of a list.
unfoldable pub Holds : (ℕ → ℕ) → ℕ → Bytes → Type 0
Holds bytes p [] = Unit
Holds bytes p (c ∷ cs) = (bytes p ≡ c) × Holds bytes (suc p) cs

pub Holds-append_left :
    (bytes : ℕ → ℕ) (p : ℕ) (xs ys : Bytes) → Holds bytes p (xs ++ ys) → Holds bytes p xs
unfolding Holds
Holds-append_left bytes p [] ys h = tt
Holds-append_left bytes p (x ∷ xs) ys (here, there) =
    (here, Holds-append_left bytes (suc p) xs ys there)

pub Holds-append_right :
    (bytes : ℕ → ℕ) (p q : ℕ) (xs ys : Bytes)
    → q ≡ p + length xs
    → Holds bytes p (xs ++ ys)
    → Holds bytes q ys
unfolding Holds
Holds-append_right bytes p q [] ys at h =
    let same : p ≡ q = omega arith in subst (λ r. Holds bytes r ys) same h
Holds-append_right bytes p q (x ∷ xs) ys at (here, there) =
    Holds-append_right bytes (suc p) q xs ys (omega arith) there

-- A byte written behind a run leaves it.
pub Holds-written :
    (bytes : ℕ → ℕ) (c q p : ℕ) (xs : Bytes)
    → p + length xs ≤ q
    → Holds bytes p xs
    → Holds (λ i. if i == q then c else bytes i) p xs
unfolding Holds
Holds-written bytes c q p [] far h = tt
Holds-written bytes c q p (x ∷ xs) far (here, there) =
    (ground arith, Holds-written bytes c q (suc p) xs (omega arith) there)

-- So does a byte written in front of it.
pub Holds-written_before :
    (bytes : ℕ → ℕ) (c q p : ℕ) (xs : Bytes)
    → q < p
    → Holds bytes p xs
    → Holds (λ i. if i == q then c else bytes i) p xs
unfolding Holds
Holds-written_before bytes c q p [] far h = tt
Holds-written_before bytes c q p (x ∷ xs) far (here, there) =
    (ground arith, Holds-written_before bytes c q (suc p) xs (omega arith) there)
