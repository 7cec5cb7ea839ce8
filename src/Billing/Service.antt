-- ===== src/Billing/Service.antt =====
-- app/modules/billing/service.py: verification of a transaction and the handling of webhook events.
use reliastra_backend.Prelude.{
  ℕ, Bool, true, false, Option, none, some, String, take, leb, is_some, or_some, if◌then◌else◌,
}
use reliastra_backend.Prelude.Text.{text_or, upper, codes}
use reliastra_backend.Prelude.Result.{Result, ok, err, not_found, validation, or_raise, ◌>>=◌}
use reliastra_backend.Partners.Model.{Settings}
use reliastra_backend.Partners.Commissions.{record_payment, reverse_by_reference, handle_churn}
use reliastra_backend.Billing.Model.{
  Db, OrgId, absent, malformed, org, Document, Values, normalized_plan, get_org, get_subscription,
  update_subscription, create_subscription, get_org_by_provider_customer, update_plan,
}

-- `if subscription: update_subscription(...) else: create_subscription(...)`
unfoldable pub upsert : ℕ → Values → Db → Db
upsert oid v db =
    if is_some (get_subscription oid db)
    then update_subscription oid v db
    else create_subscription oid v db

-- `_record_partner_commission`; `new_id` is the UUID of the commission, `now` the time of the call.
unfoldable pub record_partner_commission : Settings → ℕ → ℕ → ℕ → Document → String → Db → Db
record_partner_commission s new_id now oid d reference db =
    if leb d.amount 0 then db else record db {
      partners =
          record_payment s new_id now
            (record {
              organization_id = oid;
              collected_minor = d.amount;
              currency = take 3 (upper (text_or d.currency (codes "USD")));
              payment_reference = reference;
              paid_at = d.paid_at;
            })
            db.partners;
    }

abbrev pub paid_values : Document → String → Values
paid_values d reference = record {
  plan = some (normalized_plan d);
  status = some "active";
  provider_customer_id = d.customer_code;
  provider_subscription_id = or_some d.subscription_code (some reference);
  current_period_start = d.paid_at;
  current_period_end = d.next_payment_date;
}

-- What a verified transaction of an organization does.
unfoldable pub provision : Settings → ℕ → ℕ → ℕ → Document → String → Db → Db
provision s new_id now oid d reference db =
    record_partner_commission s new_id now oid d reference
      (update_plan oid (normalized_plan d) (upsert oid (paid_values d reference) db))

-- Paystack's answer to `verify_transaction`: an HTTP error, a transaction that was no success, or
-- the document of one that was.
pub data Verification : Type 0 where
  http_error : Verification
  no_success : Verification
  success : Document → Verification

-- The rest of `verify_transaction` for the organization of a successful transaction; the Boolean is
-- the answer's `verified`.
unfoldable pub verified_for : Settings → ℕ → ℕ → String → Document → OrgId → Db → Result (Bool × Db)
verified_for s new_id now reference d absent db = ok (false, db)
verified_for s new_id now reference d malformed db = err validation
verified_for s new_id now reference d (org oid) db = do
  o ← or_raise (get_org oid db) not_found
  ok (true, provision s new_id now o.id d reference db)

-- `verify_transaction` on an answer
unfoldable pub verified : Settings → ℕ → ℕ → String → Verification → Db → Result (Bool × Db)
verified s new_id now reference http_error db = err validation
verified s new_id now reference no_success db = ok (false, db)
verified s new_id now reference (success d) db = verified_for s new_id now reference d d.org_id db

abbrev pub event_values : Document → Values
event_values d = record {
  plan = some (normalized_plan d);
  status = or_some d.status (some "active");
  provider_customer_id = d.customer_code;
  provider_subscription_id = d.subscription_code;
  current_period_start = d.created_at;
  current_period_end = d.next_payment_date;
}

-- `_upsert_webhook_subscription`, with the organization that the document names
abbrev pub upsert_for : Document → OrgId → Db → Db
upsert_for d absent db = db
upsert_for d malformed db = db
upsert_for d (org oid) db = elim (get_org oid db) [
  | none ↦ db
  | some o ↦ update_plan o.id (normalized_plan d) (upsert o.id (event_values d) db)
]

unfoldable pub upsert_webhook_subscription : Document → Db → Db
upsert_webhook_subscription d db = upsert_for d d.org_id db

-- The organization of an event's customer.
abbrev pub customer_org : Document → Db → Option ℕ
customer_org d db = elim d.customer_code [
  | none ↦ none
  | some customer ↦ elim (get_org_by_provider_customer customer db) [
    | none ↦ none
    | some o ↦ some o.id
  ]
]

-- `_disable_webhook_subscription`
unfoldable pub disable_webhook_subscription : Document → Db → Db
disable_webhook_subscription d db = elim (customer_org d db) [
  | none ↦ db
  | some oid ↦ update_plan oid (codes "free") (
      update_subscription oid
        (record {
          plan = none;
          status = some "inactive";
          provider_customer_id = none;
          provider_subscription_id = none;
          current_period_start = none;
          current_period_end = none;
        })
        db)
]

-- `_handle_partner_churn`
unfoldable pub handle_partner_churn : Document → Db → Db
handle_partner_churn d db = elim (customer_org d db) [
  | none ↦ db
  | some oid ↦ record db { partners = handle_churn oid db.partners }
]

-- `_reverse_partner_commissions`
unfoldable pub reverse_partner_commissions : Option String → String → Db → Db
reverse_partner_commissions reference reason db = elim reference [
  | none ↦ db
  | some r ↦ record db { partners = (reverse_by_reference r reason db.partners).1 }
]

-- The event types that are handled, and any other.
pub data EventType : Type 0 where
  charge_success subscription_create subscription_disable subscription_not_renew : EventType
  refund_processed charge_refunded dispute_create dispute_remind : EventType
  other : String → EventType

-- A payload: the identifier of `_webhook_event_id`, if there is one, `data.reference`, the reference
-- of a reversal, which is the first of three fields, and the rest of `data`.
pub record Payload : Type 0 where
  pub event : EventType
  pub event_id : Option String
  pub reference : Option String
  pub reversed_reference : Option String
  pub document : Document

-- The handlers by event type, after the claim; `answer` is Paystack's answer to a verification.
unfoldable pub process_event :
    Settings → ℕ → ℕ → (String → Verification) → Payload → EventType → Db → Result Db
process_event s new_id now answer p charge_success db = elim p.reference [
  | none ↦ ok db
  | some r ↦ do done ← verified s new_id now r (answer r) db; ok done.1
]
process_event s new_id now answer p subscription_create db =
    ok (upsert_webhook_subscription p.document db)
process_event s new_id now answer p subscription_disable db =
    ok (handle_partner_churn p.document (disable_webhook_subscription p.document db))
process_event s new_id now answer p subscription_not_renew db =
    ok (handle_partner_churn p.document (disable_webhook_subscription p.document db))
process_event s new_id now answer p refund_processed db =
    ok (reverse_partner_commissions p.reversed_reference "refund" db)
process_event s new_id now answer p charge_refunded db =
    ok (reverse_partner_commissions p.reversed_reference "refund" db)
process_event s new_id now answer p dispute_create db =
    ok (reverse_partner_commissions p.reversed_reference "chargeback" db)
process_event s new_id now answer p dispute_remind db =
    ok (reverse_partner_commissions p.reversed_reference "chargeback" db)
process_event s new_id now answer p (other t) db = ok db

unfoldable pub process : Settings → ℕ → ℕ → (String → Verification) → Payload → Db → Result Db
process s new_id now answer p db = process_event s new_id now answer p p.event db
