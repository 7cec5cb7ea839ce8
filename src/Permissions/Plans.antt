-- ===== src/Permissions/Plans.antt =====
-- The plan tables: what a higher plan grants, and what an unknown plan name gets.
use reliastra_backend.Prelude.{
  ℕ, ◌≤◌, ◌<◌, ◌≡◌, refl, false, arith, Option-cases, inl, inr, none, [], ◌∷◌,
}
use reliastra_backend.Prelude.Text.{Text, lower}
use reliastra_backend.Permissions.{
  Plan, free, starter, standard, professional, agency, plan_value, get_min_check_interval,
  get_dependency_limit, get_plan_price_usd, get_retention_days, is_valid_plan, is_paid_plan,
  table_get, plan_table, plan_prices_usd,
}

-- The order of the pricing page.
abbrev pub rank : Plan → ℕ
rank free = 0
rank starter = 1
rank standard = 2
rank professional = 3
rank agency = 4

-- What the page lists for a plan: price, dependencies, interval and retention.
record Offer : Type 0 where
  price : ℕ
  limit : ℕ
  interval : ℕ
  retention : ℕ

abbrev offer : Plan → Offer
offer free = record { price = 0; limit = 3; interval = 60; retention = 1 }
offer starter = record { price = 19; limit = 10; interval = 60; retention = 7 }
offer standard = record { price = 49; limit = 30; interval = 15; retention = 30 }
offer professional = record { price = 99; limit = 100; interval = 5; retention = 90 }
offer agency = record { price = 199; limit = 500; interval = 5; retention = 90 }

price-offer : (p : Plan) → get_plan_price_usd (plan_value p) ≡ (offer p).price
unfolding get_plan_price_usd lower
price-offer free = refl
price-offer _ = refl

limit-offer : (p : Plan) → get_dependency_limit (plan_value p) ≡ (offer p).limit
unfolding get_dependency_limit lower
limit-offer free = refl
limit-offer _ = refl

interval-offer : (p : Plan) → get_min_check_interval (plan_value p) ≡ (offer p).interval
unfolding get_min_check_interval lower
interval-offer free = refl
interval-offer _ = refl

retention-offer : (p : Plan) → get_retention_days (plan_value p) ≡ (offer p).retention
unfolding get_retention_days lower
retention-offer free = refl
retention-offer _ = refl

offers_monotone :
    (p q : Plan)
    → rank p < rank q
    → ((offer p).price < (offer q).price)
      × ((offer p).limit < (offer q).limit)
      × ((offer q).interval ≤ (offer p).interval)
      × ((offer p).retention ≤ (offer q).retention)
offers_monotone p q h = ground arith

-- A plan of a higher rank costs more, allows more dependencies, checks at least as often and keeps
-- data at least as long.
pub plans_monotone :
    (p q : Plan)
    → rank p < rank q
    → (get_plan_price_usd (plan_value p) < get_plan_price_usd (plan_value q))
      × (get_dependency_limit (plan_value p) < get_dependency_limit (plan_value q))
      × (get_min_check_interval (plan_value q) ≤ get_min_check_interval (plan_value p))
      × (get_retention_days (plan_value p) ≤ get_retention_days (plan_value q))
plans_monotone p q h =
    simp (price-offer, limit-offer, interval-offer, retention-offer) (offers_monotone p q h)

-- A key that one table lacks is missing from every table with the same keys.
missing :
    (k₁ k₂ k₃ k₄ k₅ k : Text) (a b c d e a' b' c' d' e' : ℕ)
    → table_get ((k₁, a) ∷ (k₂, b) ∷ (k₃, c) ∷ (k₄, d) ∷ (k₅, e) ∷ []) k ≡ none
    → table_get ((k₁, a') ∷ (k₂, b') ∷ (k₃, c') ∷ (k₄, d') ∷ (k₅, e') ∷ []) k ≡ none
missing k₁ k₂ k₃ k₄ k₅ k a b c d e a' b' c' d' e' h = ground arith

no_price : (p : Text) → is_valid_plan p ≡ false → table_get plan_prices_usd (lower p) ≡ none
unfolding is_valid_plan
no_price p h = elim (Option-cases (table_get plan_prices_usd (lower p))) [
  | inl e ↦ e
  | inr (n, e) ↦ absurd (ground arith)
]

unlisted :
    (p : Text) (a b c d e : ℕ)
    → is_valid_plan p ≡ false
    → table_get (plan_table a b c d e) (lower p) ≡ none
unlisted p a b c d e h =
    missing (plan_value free) (plan_value starter) (plan_value standard) (plan_value professional)
      (plan_value agency) (lower p) 0 19 49 99 199 a b c d e (no_price p h)

-- A plan name that is not valid gets what the free plan gets, and is not paid.
pub unknown_plan_is_free :
    (p : Text)
    → is_valid_plan p ≡ false
    → (get_plan_price_usd p ≡ get_plan_price_usd (plan_value free))
      × (get_dependency_limit p ≡ get_dependency_limit (plan_value free))
      × (get_min_check_interval p ≡ get_min_check_interval (plan_value free))
      × (get_retention_days p ≡ get_retention_days (plan_value free))
      × (is_paid_plan p ≡ false)
unfolding is_paid_plan get_plan_price_usd get_dependency_limit get_min_check_interval
    get_retention_days lower
unknown_plan_is_free p h = (
  rw (unlisted p 0 19 49 99 199 h) refl,
  rw (unlisted p 3 10 30 100 500 h) refl,
  rw (unlisted p 60 60 15 5 5 h) refl,
  rw (unlisted p 1 7 30 90 90 h) refl,
  rw (unlisted p 0 19 49 99 199 h) refl,
)
