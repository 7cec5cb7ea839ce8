-- ===== src/Partners/Rate.antt =====
-- `apply_rate` of partners/service.py
use reliastra_backend.Prelude.{ℕ, ◌+◌, ◌*◌, ◌/◌, ◌≤◌, ◌<◌, ◌≡◌, refl, arith}

-- Integer half-up rounding.
unfoldable pub apply_rate : ℕ → ℕ → ℕ
apply_rate amount_minor rate_pct = (amount_minor * rate_pct + 50) / 100

-- The result is the exact share rounded half up: it lies within half a minor unit of
-- `amount * rate / 100`, the upper end included.
pub apply_rate_rounds :
    (a r : ℕ) → (a * r < apply_rate a r * 100 + 50) × (apply_rate a r * 100 ≤ a * r + 50)
unfolding apply_rate
apply_rate_rounds a r = omega arith

-- With a rate of at most 100% a commission never exceeds the payment that it is a share of.
pub apply_rate-le : (a r : ℕ) → r ≤ 100 → apply_rate a r ≤ a
unfolding apply_rate
apply_rate-le a r h = grind arith

-- the example of the docstring
apply_rate_doc : apply_rate 4900 30 ≡ 1470
unfolding apply_rate
apply_rate_doc = refl
