-- ===== src/Prelude/Result.antt =====
-- core/exceptions.py: the exceptions that a service raises, and a computation over a state that
-- may raise. A raised exception ends the request, and `get_db` (db/session.py) then rolls the
-- session back, so that a failed computation has no final state.
use mathlib.Core.Path.{◌≡◌, refl, ap}
use mathlib.Core.Logic.{◌⊎◌, inl, inr}
use mathlib.Core.Bool.{Bool, true, false}
use mathlib.Core.Option.{Option, none, some}
use native.Mathlib.Omega.{arith}

-- the subclasses of `AppException` by name; the message is left out
pub data Failure : Type 0 where
  not_found forbidden unauthorized conflict rate_limited validation : Failure

pub data Result {ℓ} (Value : Type ℓ) : Type ℓ where
  err : Failure → Result Value
  ok : Value → Result Value

abbrev pub is_ok {ℓ} : {Value : Type ℓ} → Result Value → Bool
is_ok (err e) = false
is_ok (ok v) = true

-- The rest of a block runs on a returned value, and an exception passes by.
abbrev pub ◌>>=◌ {ℓ κ} :
    {Value : Type ℓ} {Next : Type κ} → Result Value → (Value → Result Next) → Result Next
◌>>=◌ (err e) rest = err e
◌>>=◌ (ok v) rest = rest v

infixr 4 ◌>>◌
abbrev pub ◌>>◌ {κ} : {Next : Type κ} → Result (Unit {0}) → Result Next → Result Next
◌>>◌ first rest = ◌>>=◌ first (λ _. rest)

-- `if not b: raise e`
abbrev pub require : Bool → Failure → Result (Unit {0})
require true e = ok tt
require false e = err e

-- `if x is None: raise e`
abbrev pub or_raise {ℓ} : {A : Type ℓ} → Option A → Failure → Result A
or_raise none e = err e
or_raise (some a) e = ok a

pub Result-cases {ℓ} :
    {A : Type ℓ} (r : Result A) → ((e : Failure) × (r ≡ err e)) ⊎ ((a : A) × (r ≡ ok a))
Result-cases (ok a) = inr (a, refl)
Result-cases (err e) = inl (e, refl)

-- The value of a computation that returns, or a default.
abbrev pub value_or {ℓ} : {A : Type ℓ} → A → Result A → A
value_or d (err e) = d
value_or d (ok a) = a

pub ok_injective {ℓ} : {A : Type ℓ} {a b : A} → ok a ≡ ok b → a ≡ b
ok_injective {A} {a} h = ap (value_or a) h

-- What a block that returned has passed.
pub require_inv {ℓ} :
    {A : Type ℓ} (b : Bool) (e : Failure) (rest : Result A) {a : A}
    → ◌>>=◌ (require b e) (λ u. rest) ≡ ok a
    → (b ≡ true) × (rest ≡ ok a)
require_inv true e rest h = (refl, h)
require_inv false e rest h = absurd (ground (arith, h))

pub bind_inv {ℓ κ} :
    {A : Type ℓ} {B : Type κ} (m : Result A) (f : A → Result B) {b : B}
    → ◌>>=◌ m f ≡ ok b
    → (a : A) × (m ≡ ok a) × (f a ≡ ok b)
bind_inv (ok a) f h = (a, refl, h)
bind_inv (err e) f h = absurd (ground (arith, h))

pub or_raise_inv {ℓ} :
    {A : Type ℓ} (o : Option A) (e : Failure) {a : A} → or_raise o e ≡ ok a → o ≡ some a
or_raise_inv none e h = absurd (ground (arith, h))
or_raise_inv (some x) e h = ap some (ok_injective h)
