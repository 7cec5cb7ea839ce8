-- ===== src/Billing/Model.antt =====
-- app/modules/billing/models.py and repository.py, and the documents of Paystack as they are read.
use reliastra_backend.Prelude.{
  ℕ, Bool, Option, none, some, String, List, [], ◌∷◌, ◌++◌, ◌==◌, find_first, update_where, or_else,
  or_some, if◌then◌else◌, str_eq,
}
use reliastra_backend.Prelude.Text.{is_space, Text, text_or, lower, codes}
use reliastra_backend.Permissions.{is_valid_plan}
use reliastra_backend.Partners.Model as Partners

pub record Organization : Type 0 where
  pub id : ℕ
  pub plan : Text

pub record Subscription : Type 0 where
  pub organization_id : ℕ
  pub provider_customer_id : Option String
  pub provider_subscription_id : Option String
  pub plan : Text
  pub status : String
  pub current_period_start : Option ℕ
  pub current_period_end : Option ℕ

-- The tables that billing writes, the referral program's included.
pub record Db : Type 0 where
  pub organizations : List Organization
  pub subscriptions : List Subscription
  pub partners : Partners.Db

-- `metadata.org_id`: absent, no UUID, or an organization's id
pub data OrgId : Type 0 where
  absent : OrgId
  malformed : OrgId
  org : ℕ → OrgId

-- The part of a transaction or of a subscription document that is read. A text that is missing is
-- empty; `metadata_plan` is `metadata.plan`, `plan_name` what `plan` holds; dates are parsed.
pub record Document : Type 0 where
  pub org_id : OrgId
  pub metadata_plan : Text
  pub plan_name : Text
  pub customer_code : Option String
  pub subscription_code : Option String
  pub status : Option String
  pub paid_at : Option ℕ
  pub created_at : Option ℕ
  pub next_payment_date : Option ℕ
  pub amount : ℕ
  pub currency : Text

abbrev drop_spaces : Text → Text
drop_spaces [] = []
drop_spaces (c ∷ t) = let rest = drop_spaces t in if is_space c then rest else c ∷ t

abbrev backwards : Text → Text → Text
backwards [] acc = acc
backwards (c ∷ t) acc = backwards t (c ∷ acc)

-- `t.strip()`
abbrev pub strip : Text → Text
strip t = backwards (drop_spaces (backwards (drop_spaces t) [])) []

-- `_normalized_plan`
unfoldable pub normalized_plan : Document → Text
normalized_plan d =
    let candidate =
      lower (strip (text_or d.metadata_plan (text_or d.plan_name (codes "starter")))) in
    if is_valid_plan candidate then candidate else codes "starter"

-- The columns of a subscription; a missing value is skipped by `update_subscription`.
pub record Values : Type 0 where
  pub plan : Option Text
  pub status : Option String
  pub provider_customer_id : Option String
  pub provider_subscription_id : Option String
  pub current_period_start : Option ℕ
  pub current_period_end : Option ℕ

abbrev pub is_of : ℕ → Subscription → Bool
is_of oid s = s.organization_id == oid

abbrev pub get_org : ℕ → Db → Option Organization
get_org oid db = find_first (λ (o : Organization). o.id == oid) db.organizations

abbrev pub get_subscription : ℕ → Db → Option Subscription
get_subscription oid db = find_first (is_of oid) db.subscriptions

abbrev pub patch_subscription : Values → Subscription → Subscription
patch_subscription v s = record s {
  plan = or_else v.plan s.plan;
  status = or_else v.status s.status;
  provider_customer_id = or_some v.provider_customer_id s.provider_customer_id;
  provider_subscription_id = or_some v.provider_subscription_id s.provider_subscription_id;
  current_period_start = or_some v.current_period_start s.current_period_start;
  current_period_end = or_some v.current_period_end s.current_period_end;
}

-- An organization has one subscription at most (a unique column).
unfoldable pub update_subscription : ℕ → Values → Db → Db
update_subscription oid v db = record db {
  subscriptions = update_where (is_of oid) (patch_subscription v) db.subscriptions;
}

unfoldable pub create_subscription : ℕ → Values → Db → Db
create_subscription oid v db = record db {
  subscriptions =
      db.subscriptions
      ++ record {
        organization_id = oid;
        provider_customer_id = v.provider_customer_id;
        provider_subscription_id = v.provider_subscription_id;
        plan = or_else v.plan (codes "free");
        status = or_else v.status "inactive";
        current_period_start = v.current_period_start;
        current_period_end = v.current_period_end;
      }
        ∷ [];
}

abbrev pub has_customer : String → Subscription → Bool
has_customer customer s = str_eq (or_else s.provider_customer_id "") customer

-- The organization of the subscription under a customer code, which is not empty.
abbrev pub get_org_by_provider_customer : String → Db → Option Organization
get_org_by_provider_customer customer db =
    elim (find_first (has_customer customer) db.subscriptions) [
      | none ↦ none
      | some s ↦ get_org s.organization_id db
    ]

-- `OrganizationRepository.update(session, org, plan=plan)`
unfoldable pub update_plan : ℕ → Text → Db → Db
update_plan oid plan db = record db {
  organizations =
      update_where (λ (o : Organization). o.id == oid) (λ o. record o { plan = plan })
        db.organizations;
}
