-- ===== src/Common/Fault.antt =====
-- Steps that may be undefined behaviour of C: `none` is an access through NULL or past an array.
use mathlib.Core.Bool.{Bool, true, false}
use mathlib.Core.Option.{Option, none, some}

infixl 5 ◌>>=◌ ◌>>◌
abbrev pub ◌>>=◌ {ℓ κ} : {A : Type ℓ} {B : Type κ} → Option A → (A → Option B) → Option B
none >>= f = none
some a >>= f = f a

abbrev pub ◌>>◌ {ℓ} : {B : Type ℓ} → Option (Unit {0}) → Option B → Option B
m >> k = m >>= λ _. k

-- `none` unless the condition holds.
abbrev pub defined_if : Bool → Option (Unit {0})
defined_if true = some tt
defined_if false = none
