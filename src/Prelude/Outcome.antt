-- ===== src/Prelude/Outcome.antt =====
-- What a Go call that returns `(value, error)` ends in: a value, an error, or a panic.
use Prim.Native.Nat.{ℕ}
use mathlib.Core.List.{List}
use mathlib.Core.Path.{◌≡◌, refl}

pub data Outcome {ℓ} (A : Type ℓ) : Type ℓ where
  ok : A → Outcome A
  err : List ℕ → Outcome A
  panic : Outcome A

infixl 5 ◌>>=◌ ◌>>◌
abbrev pub ◌>>=◌ {ℓ κ} : {A : Type ℓ} {B : Type κ} → Outcome A → (A → Outcome B) → Outcome B
ok a >>= f = f a
err e >>= f = err e
panic >>= f = panic

abbrev pub ◌>>◌ {ℓ} : {B : Type ℓ} → Outcome (Unit {0}) → Outcome B → Outcome B
m >> k = m >>= λ _. k

-- Inversion of a bind that succeeds: the first call gave a value, from which the second goes on.
pub >>=-eq-ok {ℓ κ} :
    {A : Type ℓ} {B : Type κ} (call : Outcome A) (next : A → Outcome B) {last : B}
    → (call >>= next) ≡ ok last
    → (value : A) × (call ≡ ok value) × (next value ≡ ok last)
>>=-eq-ok panic next e = cc
>>=-eq-ok (err message) next e = cc
>>=-eq-ok (ok value) next e = (value, refl, e)
