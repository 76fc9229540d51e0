-- ===== src/Base/Outcomes.antt =====
-- How a C function of the program ends. `ok` is its value, `fail k` the error return whose diag
-- code is the function's class plus `k`, and `fault` a step whose behaviour C leaves undefined:
-- a read or a copy outside an object. `stuck` is nothing in C: a loop of the model ran out of fuel.
use Prim.Native.Nat.{ℕ}
use mathlib.Core.Path.{◌≡◌, refl}
use mathlib.Core.Logic.{◌≢◌}
use mathlib.Core.Bool.{Bool, true, false}
use mathlib.Core.Option.{Option, none, some}
use mrksvnup.Base.Tests.{if◌then◌else◌}

pub data Outcome {ℓ} (A : Type ℓ) : Type ℓ where
  ok : A → Outcome A
  fail : ℕ → Outcome A
  fault : Outcome A
  stuck : Outcome A

module _ {ℓ κ} {A : Type ℓ} {B : Type κ} where
  infixl 5 ◌>>=◌
  abbrev pub ◌>>=◌ : Outcome A → (A → Outcome B) → Outcome B
  stuck >>= next = stuck
  fault >>= next = fault
  fail k >>= next = fail k
  ok a >>= next = next a

-- The caller's own error number for a callee's error return.
abbrev pub on_fail {ℓ} : {A : Type ℓ} → ℕ → Outcome A → Outcome A
on_fail k (ok a) = ok a
on_fail k (fail _) = fail k
on_fail k fault = fault
on_fail k stuck = stuck

-- Access through a pointer, a fault at NULL.
abbrev pub deref {ℓ κ} : {A : Type ℓ} {B : Type κ} → Option A → (A → Outcome B) → Outcome B
deref none f = fault
deref (some a) f = f a

module _ {ℓ κ} {A : Type ℓ} {B : Type κ} where
  -- A sequence that ends well did so in its first part.
  pub >>=-eq-ok :
      (first : Outcome A) (next : A → Outcome B) {end : B}
      → first >>= next ≡ ok end
      → (mid : A) × (first ≡ ok mid) × (next mid ≡ ok end)
  >>=-eq-ok stuck next e = cc
  >>=-eq-ok fault next e = cc
  >>=-eq-ok (fail k) next e = cc
  >>=-eq-ok (ok mid) next e = (mid, refl, e)

pub on_fail-eq-ok {ℓ} : {A : Type ℓ} (k : ℕ) (m : Outcome A) {a : A} → on_fail k m ≡ ok a → m ≡ ok a
on_fail-eq-ok k (ok a) h = h
on_fail-eq-ok k (fail _) h = cc
on_fail-eq-ok k fault h = cc
on_fail-eq-ok k stuck h = cc

pub >>=-ne-stuck {ℓ κ} :
    {A : Type ℓ} {B : Type κ} (m : Outcome A) (f : A → Outcome B)
    → m ≢ stuck
    → ((a : A) → m ≡ ok a → f a ≢ stuck)
    → (m >>= f) ≢ stuck
>>=-ne-stuck (ok a) f h k e = k a refl e
>>=-ne-stuck (fail n) f h k e = cc
>>=-ne-stuck fault f h k e = cc
>>=-ne-stuck stuck f h k e = h refl

pub on_fail-ne-stuck {ℓ} : {A : Type ℓ} (k : ℕ) (m : Outcome A) → m ≢ stuck → on_fail k m ≢ stuck
on_fail-ne-stuck k (ok a) h e = cc
on_fail-ne-stuck k (fail _) h e = cc
on_fail-ne-stuck k fault h e = cc
on_fail-ne-stuck k stuck h e = h refl

-- A test that has let a value through.
pub if-eq-ok {ℓ} :
    {A : Type ℓ} (b : Bool) (k : ℕ) (m : Outcome A) {a : A}
    → (if b then m else fail k) ≡ ok a
    → (b ≡ true) × (m ≡ ok a)
if-eq-ok true k m e = (refl, e)
if-eq-ok false k m e = cc

pub deref-eq-ok {ℓ κ} :
    {A : Type ℓ} {B : Type κ} (o : Option A) (f : A → Outcome B) {b : B}
    → deref o f ≡ ok b
    → (a : A) × (o ≡ some a) × (f a ≡ ok b)
deref-eq-ok none f e = cc
deref-eq-ok (some a) f e = (a, refl, e)

pub deref-ne-stuck {ℓ κ} :
    {A : Type ℓ} {B : Type κ} (o : Option A) (f : A → Outcome B)
    → ((a : A) → f a ≢ stuck)
    → deref o f ≢ stuck
deref-ne-stuck none f h = λ e. cc
deref-ne-stuck (some a) f h = h a
