-- ===== src/Prelude/Early.antt =====
-- Early `return`: a chain of steps that may stop. `none` is the return without an effect.
use mathlib.Core.Bool.{Bool, true, false}
use mathlib.Core.Option.{Option, none, some}

infixl 5 ◌>>=◌ ◌>>◌
abbrev pub ◌>>=◌ {ℓ κ} : {A : Type ℓ} {B : Type κ} → Option A → (A → Option B) → Option B
none >>= f = none
some a >>= f = f a

abbrev pub ◌>>◌ {ℓ} : {B : Type ℓ} → Option (Unit {0}) → Option B → Option B
m >> k = m >>= λ _. k

-- `if b: return`
abbrev pub return_if : Bool → Option (Unit {0})
return_if true = none
return_if false = some tt
