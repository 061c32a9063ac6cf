-- ===== src/Common/Outcomes.antt =====
-- What a C++ call can come to: a result, an exception, or undefined behaviour.
use mathlib.Core.Option.{Option, none, some}

-- The exceptions of the standard library that the program can meet.
pub data Exception : Type 0 where
  invalid_argument out_of_range runtime_error : Exception

-- `out_of_bounds` is undefined behaviour: a read or a write outside an object. `out_of_fuel` is an
-- artefact of a bounded loop.
pub data Outcome {ℓ} (A : Type ℓ) : Type ℓ where
  ok : A → Outcome A
  thrown : Exception → Outcome A
  out_of_bounds : Outcome A
  out_of_fuel : Outcome A

infixl 5 ◌>>=◌ ◌>>◌
abbrev pub ◌>>=◌ {ℓ κ} : {A : Type ℓ} {B : Type κ} → Outcome A → (A → Outcome B) → Outcome B
ok a >>= f = f a
thrown e >>= f = thrown e
out_of_bounds >>= f = out_of_bounds
out_of_fuel >>= f = out_of_fuel

abbrev pub ◌>>◌ {ℓ} : {B : Type ℓ} → Outcome (Unit {0}) → Outcome B → Outcome B
m >> k = m >>= λ _. k

-- A read through a pointer: `none` is an address outside the object.
abbrev pub deref {ℓ} : {A : Type ℓ} → Option A → Outcome A
deref none = out_of_bounds
deref (some a) = ok a

-- A call that ends with a result or an exception.
abbrev pub Ends {ℓ} : {A : Type ℓ} → Outcome A → Type 0
Ends (ok a) = Unit
Ends (thrown e) = Unit
Ends out_of_bounds = ⊥
Ends out_of_fuel = ⊥
