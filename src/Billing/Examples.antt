-- ===== src/Billing/Examples.antt =====
-- The theorems on billing at a small site, and tests.
use reliastra_backend.Prelude.{
  ◌+◌, ◌≡◌, refl, true, false, Option, none, some, String, [], ◌∷◌, str_eq, if◌then◌else◌,
}
use reliastra_backend.Prelude.Text.{codes, lower}
use reliastra_backend.Prelude.Result.{ok, err, validation}
use reliastra_backend.Permissions.{is_valid_plan}
use reliastra_backend.Partners.Model.{Settings}
use reliastra_backend.Billing.Model.{
  update_plan, create_subscription, Db, Document, org, normalized_plan,
}
use reliastra_backend.Billing.Service.{
  provision, upsert, record_partner_commission, Verification, http_error, success, Payload,
  charge_success, process, process_event, verified,
}
use reliastra_backend.Billing.Webhook.{
  claim_webhook_event, safe_redis_set_nx, Outside, Delivery, State, authenticate, handle_webhook,
}
use reliastra_backend.Billing.Delivery.{failed_event_is_not_retried}
use reliastra_backend.Billing.Ledger.{is_claimed, handle_webhook-Effect, confirmed_charge_is_paid}
use reliastra_backend.Billing.Effects.{Effect, payment_of}
use reliastra_backend.Partners.Commissions.{record_payment}
use reliastra_backend.Prelude.{◌⊎◌}
use reliastra_backend.Billing.Provision.{provision_twice}

abbrev settings : Settings
settings = record {
  commission_rate = 30;
  hold_days = 30;
  minimum_payout_minor = 5000;
  default_currency = codes "USD";
}

-- A site without partners.
abbrev site : Db
site = record {
  organizations = record { id = 1; plan = codes "free" } ∷ [];
  subscriptions = [];
  partners = record {
    profiles = [];
    referrals = [];
    commissions = [];
    payouts = [];
    members = [];
    codes = [];
    audit = [];
  };
}

abbrev transaction : Document
transaction = record {
  org_id = org 1;
  metadata_plan = codes " Standard ";
  plan_name = [];
  customer_code = some "CUS_1";
  subscription_code = none;
  status = some "success";
  paid_at = some 1000;
  created_at = none;
  next_payment_date = some 4000;
  amount = 4900;
  currency = codes "usd";
}

-- One claim at most is held; Redis is down in `dead`.
abbrev live : (String → Verification) → Outside (Option String)
live answer = record {
  set_nx_ex = λ s k ex.
      if str_eq k (elim s [ none ↦ "" | some h ↦ h ]) then some (false, s) else some (true, some k);
  hmac_sha512 = λ k b. k + b;
  secret_key = some 7;
  answer = answer;
}

abbrev dead : Outside (Option String)
dead = record (live (λ r. success transaction)) { set_nx_ex = λ s k ex. none }

abbrev charge : Payload
charge = record {
  event = charge_success;
  event_id = some "charge.success:55";
  reference = some "t1";
  reversed_reference = none;
  document = transaction;
}

abbrev signed : Delivery
signed = record { signature = some 12; raw_body = some 5; payload = charge }

abbrev start : State (Option String)
start = record { db = site; redis = none }

dead_authentic : authenticate dead signed ≡ ok tt
unfolding authenticate
dead_authentic = refl

-- Paystack cannot be reached.
abbrev cut_off : Outside (Option String)
cut_off = live (λ r. http_error)

cut_off_authentic : authenticate cut_off signed ≡ ok tt
unfolding authenticate
cut_off_authentic = refl

cut_off_raises : process settings 1 1000 cut_off.answer charge site ≡ err validation
unfolding process process_event verified
cut_off_raises = refl

failed_event_is_not_retried_example :
    (handle_webhook cut_off settings 1 1000 signed start
      ≡ (err validation, record { db = site; redis = some "charge.success:55" }))
    × (handle_webhook cut_off settings 2 2000 signed
          (record { db = site; redis = some "charge.success:55" })
        ≡ (ok tt, record { db = site; redis = some "charge.success:55" }))
failed_event_is_not_retried_example =
    failed_event_is_not_retried cut_off settings 1 1000 2 2000 signed start "charge.success:55"
      (some "charge.success:55") cut_off_authentic refl refl refl cut_off_raises

handle_webhook-Effect_example :
    ((handle_webhook (live (λ r. success transaction)) settings 1 1000 signed start).1.db.partners
      ≡ site.partners)
    ⊎ ((authenticate (live (λ r. success transaction)) signed ≡ ok tt)
        × (is_claimed (live (λ r. success transaction)) settings 1 1000 charge.event_id none ≡ true)
        × Effect settings 1 1000
            (λ r. success transaction)
            charge
            site
            (handle_webhook
              (live (λ r. success transaction))
              settings
              1
              1000
              signed
              start).1.db.partners)
handle_webhook-Effect_example =
    handle_webhook-Effect (live (λ r. success transaction)) settings 1 1000 signed start

live_authentic : authenticate (live (λ r. success transaction)) signed ≡ ok tt
unfolding authenticate
live_authentic = refl

confirmed_charge_is_paid_example :
    (handle_webhook (live (λ r. success transaction)) settings 1 1000 signed start).1.db.partners
    ≡ record_payment settings 1 1000 (payment_of 1 transaction "t1") site.partners
unfolding claim_webhook_event safe_redis_set_nx
confirmed_charge_is_paid_example =
    confirmed_charge_is_paid (live (λ r. success transaction)) settings 1 1000 signed start "t1"
      transaction 1 (record { id = 1; plan = codes "free" }) live_authentic refl refl refl refl refl
      refl refl

-- The plan of a transaction is trimmed and its case does not matter; an unknown plan is "starter".
standard_plan : normalized_plan transaction ≡ codes "standard"
unfolding normalized_plan lower is_valid_plan
standard_plan = refl

unknown_plan :
    normalized_plan (record transaction { metadata_plan = codes "gold" }) ≡ codes "starter"
unfolding normalized_plan lower is_valid_plan
unknown_plan = refl

provision_twice_example :
    provision settings 2 2000 1 transaction "t1" (provision settings 1 1000 1 transaction "t1" site)
    ≡ provision settings 1 1000 1 transaction "t1" site
provision_twice_example = provision_twice settings 1 1000 2 2000 1 transaction "t1" site

-- The plan after a payment is the one that was paid for.
payment_sets_plan :
    (provision settings 1 1000 1 transaction "t1" site).organizations
    ≡ record { id = 1; plan = codes "standard" } ∷ []
unfolding provision update_plan upsert create_subscription record_partner_commission normalized_plan
    lower is_valid_plan
payment_sets_plan = refl
