-- ===== src/Base/Outcome.antt =====
-- The outcome of a C function: a value, a failed `assert`, or undefined behaviour.
use mathlib.Core.Bool.{Bool, true, false}

pub data Result {ℓ} (A : Type ℓ) : Type ℓ where
  ok : A → Result A
  -- a failed `assert`: the process stops
  abort : Result A
  -- an access outside the object, or another use that C leaves undefined
  fault : Result A

infixl 5 ◌>>=◌ ◌>>◌
abbrev pub ◌>>=◌ {ℓ κ} : {A : Type ℓ} {B : Type κ} → Result A → (A → Result B) → Result B
abort >>= next = abort
fault >>= next = fault
ok value >>= next = next value

abbrev pub ◌>>◌ {ℓ} : {B : Type ℓ} → Result (Unit {0}) → Result B → Result B
abort >> after = abort
fault >> after = fault
ok _ >> after = after

abbrev pub assert : Bool → Result (Unit {0})
assert true = ok tt
assert false = abort

-- The check that an access is defined.
abbrev pub defined : Bool → Result (Unit {0})
defined true = ok tt
defined false = fault
