-- ===== src/Webhooks/Examples.antt =====
-- The theorems on deliveries at a concrete delivery, and tests.
use reliastra_backend.Prelude.{◌≡◌, refl, true, false, none, some, [], ◌∷◌}
use reliastra_backend.Prelude.Text.{codes}
use reliastra_backend.Webhooks.Model.{retrying, Webhook, WebhookDelivery, Db, new_delivery}
use reliastra_backend.Webhooks.Delivery.{
  Client, max_retries, attempt, deliver_webhook, retry_pending_deliveries,
}
use reliastra_backend.Webhooks.Settled.{row}
use reliastra_backend.Webhooks.Exhausted.{runs, fourth_failure_is_final}

abbrev webhook : Webhook
webhook = record {
  id = 1;
  org_id = 5;
  url = 80;
  events = codes "incident.opened" ∷ [];
  is_active = true;
  is_deleted = false;
  last_delivery_at = none;
  failure_count = 0;
}

abbrev site : Db
site = record { webhooks = webhook ∷ []; deliveries = [] }

-- A receiver that is down, and one that answers.
abbrev down : Client
down now d = some 503

abbrev up : Client
up now d = some 204

abbrev first_failed : WebhookDelivery
first_failed = record (new_delivery 9 1 (codes "incident.opened") 7) {
  status = retrying;
  response_status_code = some 503;
  attempt_count = 2;
  next_retry_at = some 160;
}

first_attempt :
    (deliver_webhook down 100 9 5 (codes "incident.opened") 7 site).deliveries ≡ first_failed ∷ []
unfolding deliver_webhook
first_attempt = refl

abbrev third_failed : WebhookDelivery
third_failed = record first_failed { attempt_count = 4; next_retry_at = some 1400 }

three_attempts :
    (retry_pending_deliveries down 500 (
      retry_pending_deliveries down 200
        (deliver_webhook down 100 9 5 (codes "incident.opened") 7 site))).deliveries
    ≡ third_failed ∷ []
unfolding deliver_webhook retry_pending_deliveries
three_attempts = refl

abbrev waiting : Db
waiting = record { webhooks = webhook ∷ []; deliveries = third_failed ∷ [] }

fourth_failure_is_final_example :
    (e : WebhookDelivery) × (row 9
        (runs down (20000 ∷ 90000 ∷ []) (attempt down 1500 third_failed waiting))
      ≡ some e)
    × (e.status ≡ retrying)
    × (e.attempt_count ≡ max_retries)
fourth_failure_is_final_example =
    fourth_failure_is_final down 1500 (20000 ∷ 90000 ∷ []) waiting third_failed (refl, tt) refl refl
      refl
