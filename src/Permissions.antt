-- ===== src/Permissions.antt =====
-- app/core/permissions.py: the role hierarchy and the tables of the pricing plans. A role and a
-- plan arrive as text; the tables are the dictionaries of the source.
pub mod Roles
pub mod Plans
mod Examples
use reliastra_backend.Prelude.{
  ℕ, Bool, true, false, not, List, [], ◌∷◌, Option, none, some, is_some, leb, ltb, or_else,
  if◌then◌else◌,
}
use reliastra_backend.Prelude.Text.{Text, text_eq, lower, codes}
use reliastra_backend.Prelude.Result.{Result, ok, err, forbidden, require}

-- `table.get(key)`
abbrev pub table_get : List (Text × ℕ) → Text → Option ℕ
table_get [] k = none
table_get ((j, v) ∷ t) k = if text_eq j k then some v else table_get t k

abbrev pub role_hierarchy : List (Text × ℕ)
role_hierarchy =
    (codes "owner", 40) ∷ (codes "admin", 30) ∷ (codes "member", 20) ∷ (codes "viewer", 10) ∷ []

pub get_role_level : Text → ℕ
get_role_level role = or_else (table_get role_hierarchy (lower role)) 0

pub has_permission : Text → Text → Bool
has_permission user_role required_role =
    leb (get_role_level required_role) (get_role_level user_role)

pub require_permission : Text → Text → Result (Unit {0})
require_permission user_role required_role =
    require (has_permission user_role required_role) forbidden

-- `class Plan`, in the order of the pricing page
pub data Plan : Type 0 where
  free starter standard professional agency : Plan

-- `plan.value`
abbrev pub plan_value : Plan → Text
plan_value free = codes "free"
plan_value starter = codes "starter"
plan_value standard = codes "standard"
plan_value professional = codes "professional"
plan_value agency = codes "agency"

-- A dictionary with one entry for each plan.
abbrev pub plan_table : ℕ → ℕ → ℕ → ℕ → ℕ → List (Text × ℕ)
plan_table a b c d e =
    (plan_value free, a)
    ∷ (plan_value starter, b)
    ∷ (plan_value standard, c)
    ∷ (plan_value professional, d)
    ∷ (plan_value agency, e)
    ∷ []

abbrev pub plan_prices_usd : List (Text × ℕ)
plan_prices_usd = plan_table 0 19 49 99 199

abbrev pub plan_dependency_limits : List (Text × ℕ)
plan_dependency_limits = plan_table 3 10 30 100 500

abbrev pub plan_check_intervals : List (Text × ℕ)
plan_check_intervals = plan_table 60 60 15 5 5

abbrev pub plan_retention_days : List (Text × ℕ)
plan_retention_days = plan_table 1 7 30 90 90

unfoldable pub get_min_check_interval : Text → ℕ
get_min_check_interval plan = or_else (table_get plan_check_intervals (lower plan)) 60

unfoldable pub get_dependency_limit : Text → ℕ
get_dependency_limit plan = or_else (table_get plan_dependency_limits (lower plan)) 3

pub get_plan_price_usd : Text → ℕ
get_plan_price_usd plan = or_else (table_get plan_prices_usd (lower plan)) 0

pub get_retention_days : Text → ℕ
get_retention_days plan = or_else (table_get plan_retention_days (lower plan)) 1

-- `plan.lower() in {p.value for p in Plan}`
unfoldable pub is_valid_plan : Text → Bool
is_valid_plan plan = is_some (table_get plan_prices_usd (lower plan))

pub is_paid_plan : Text → Bool
unfolding get_plan_price_usd
is_paid_plan plan = ltb 0 (get_plan_price_usd plan)
