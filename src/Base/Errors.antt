-- ===== src/Base/Errors.antt =====
-- Python code that may raise: a value or the exception.

use mathlib.Core.Bool.{Bool, true, false}

pub data Error : Type 0 where
  value_error type_error key_error integrity_error persistence_integrity_error : Error

pub data Result {ℓ} (A : Type ℓ) : Type ℓ where
  ok : A → Result A
  err : Error → Result A

infixl 5 ◌>>=◌ ◌>>◌
abbrev pub ◌>>=◌ {ℓ κ} : {A : Type ℓ} {B : Type κ} → Result A → (A → Result B) → Result B
ok a >>= f = f a
err e >>= f = err e

abbrev pub ◌>>◌ {ℓ κ} : {A : Type ℓ} {B : Type κ} → Result A → Result B → Result B
ok a >> r = r
err e >> r = err e

-- if not condition: raise error
abbrev pub require : Bool → Error → Result (Unit {0})
require true error = ok tt
require false error = err error
