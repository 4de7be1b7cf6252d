-- ===== src/Base/Result.antt =====
-- What a run of C code comes to: a value, an access that C leaves undefined, a call of `abort`,
-- or fuel that ran out (the code is still running).
use mathlib.Core.Path.{◌≡◌, refl}
use mathlib.Core.Bool.{Bool, true, false}
use mvvmm.Base.Tests.{if◌then◌else◌}

pub data Outcome {ℓ} (A : Type ℓ) : Type ℓ where
  done : A → Outcome A
  crash : Outcome A
  aborted : Outcome A
  out_of_fuel : Outcome A

infixl 5 ◌>>=◌
abbrev pub ◌>>=◌ {ℓ κ} : {A : Type ℓ} {B : Type κ} → Outcome A → (A → Outcome B) → Outcome B
done a >>= f = f a
crash >>= f = crash
aborted >>= f = aborted
out_of_fuel >>= f = out_of_fuel

-- The `int` that a C function returns to report an error: 0, or something below 0.
pub data Code : Type 0 where
  success failure : Code

pub done_inj {ℓ} : {A : Type ℓ} {a b : A} → done a ≡ done b → a ≡ b
done_inj h = cc

-- Inversion of a bind that gave a value.
pub >>=-eq-done {ℓ κ} :
    {A : Type ℓ} {B : Type κ} (m : Outcome A) (f : A → Outcome B) {b : B}
    → (m >>= f) ≡ done b
    → (a : A) × (m ≡ done a) × (f a ≡ done b)
>>=-eq-done (done a) f h = (a, refl, h)
>>=-eq-done crash f h = cc
>>=-eq-done aborted f h = cc
>>=-eq-done out_of_fuel f h = cc

-- What holds of the value, if there is one.
abbrev pub Ensures {ℓ κ} : {A : Type ℓ} → (A → Type κ) → Outcome A → Type κ
Ensures P (done a) = P a
Ensures P crash = Unit
Ensures P aborted = Unit
Ensures P out_of_fuel = Unit

module _ {κ μ} {B : Type κ} (P : B → Type μ) where
  pub Ensures-bind {ℓ} :
      {A : Type ℓ} (m : Outcome A) (f : A → Outcome B)
      → ((a : A) → m ≡ done a → Ensures P (f a))
      → Ensures P (m >>= f)
  Ensures-bind (done a) f h = h a refl
  Ensures-bind crash f h = tt
  Ensures-bind aborted f h = tt
  Ensures-bind out_of_fuel f h = tt

  pub Ensures-if :
      (b : Bool) (m n : Outcome B) → Ensures P m → Ensures P n → Ensures P (if b then m else n)
  Ensures-if true m n h k = h
  Ensures-if false m n h k = k
