-- ===== src/Webhooks/Delivery.antt =====
-- The delivery engine of app/modules/webhooks/service.py. The HTTP client is a parameter.
use reliastra_backend.Prelude.{
  ℕ, zero, suc, ◌+◌, Bool, true, false, ◌&&◌, Option, none, some, List, [], ◌∷◌, leb, ltb, take,
  select, if◌then◌else◌,
}
use reliastra_backend.Prelude.Text.{Text}
use reliastra_backend.Webhooks.Model.{
  DeliveryStatus, retrying, Webhook, WebhookDelivery, Db, get_by_id, list_active_for_org_and_event,
  increment_failure_count, reset_failure_count, update_last_delivery, create, new_delivery,
  succeeded, failed, given_up, mark, or_one,
}

-- The answer to the POST of a delivery at a time: its status code, or `none` for an `httpx.HTTPError`
abbrev pub Client : Type 0
Client = ℕ → WebhookDelivery → Option ℕ

abbrev pub max_retries : ℕ
max_retries = 5

-- `_RETRY_DELAYS`, in seconds, at an index that is cut off at its end
abbrev pub retry_delay : ℕ → ℕ
retry_delay zero = 60
retry_delay (suc zero) = 300
retry_delay (suc (suc zero)) = 900
retry_delay (suc (suc (suc zero))) = 3600
retry_delay (suc (suc (suc (suc n)))) = 10800

abbrev pub is_success : ℕ → Bool
is_success code = leb 200 code && ltb code 300

-- `current_attempt - 1` of an attempt, which is 1 at least
abbrev pub pred : ℕ → ℕ
pred zero = zero
pred (suc n) = n

-- `_handle_delivery_failure`
abbrev pub handle_delivery_failure : ℕ → WebhookDelivery → Option ℕ → Db → Db
handle_delivery_failure now d code db =
    let counted = increment_failure_count d.webhook_id db in
    if leb max_retries (or_one d.attempt_count)
    then mark d.id given_up counted
    else mark d.id (failed code (now + retry_delay (pred (or_one d.attempt_count)))) counted

abbrev pub handle_success : ℕ → WebhookDelivery → ℕ → Db → Db
handle_success now d code db =
    update_last_delivery d.webhook_id now
      (reset_failure_count d.webhook_id (mark d.id (succeeded now code) db))

abbrev pub handle_answer : ℕ → WebhookDelivery → Option ℕ → Db → Db
handle_answer now d none db = handle_delivery_failure now d none db
handle_answer now d (some code) db =
    if is_success code
    then handle_success now d code db
    else handle_delivery_failure now d (some code) db

-- The query of `retry_pending_deliveries`.
abbrev pub is_retrying : DeliveryStatus → Bool
is_retrying retrying = true
is_retrying _ = false

abbrev pub is_past : ℕ → Option ℕ → Bool
is_past now none = false
is_past now (some t) = leb t now

abbrev pub is_due : ℕ → WebhookDelivery → Bool
is_due now d =
    is_retrying d.status && is_past now d.next_retry_at && ltb d.attempt_count max_retries

module _ (post : Client) where
  -- The POST and what follows it, in `_deliver_single` and in the retries.
  abbrev pub attempt : ℕ → WebhookDelivery → Db → Db
  attempt now d db = handle_answer now d (post now d) db

  -- `_deliver_single`
  abbrev pub deliver_single : ℕ → ℕ → Webhook → Text → ℕ → Db → Db
  deliver_single now new_id w event payload db =
      attempt now (new_delivery new_id w.id event payload)
        (create (new_delivery new_id w.id event payload) db)

  -- The loop of `deliver_webhook`, with the id of the first new row.
  abbrev pub deliver_all : ℕ → ℕ → Text → ℕ → List Webhook → Db → Db
  deliver_all now new_id event payload [] db = db
  deliver_all now new_id event payload (w ∷ ws) db =
      deliver_all now (new_id + 1) event payload ws (deliver_single now new_id w event payload db)

  unfoldable pub deliver_webhook : ℕ → ℕ → ℕ → Text → ℕ → Db → Db
  deliver_webhook now new_id oid event payload db =
      deliver_all now new_id event payload (list_active_for_org_and_event oid event db) db

  -- One round of the loop: a webhook that was deleted or switched off gives the delivery up.
  abbrev pub retry_to : ℕ → WebhookDelivery → Option Webhook → Db → Db
  retry_to now d none db = mark d.id given_up db
  retry_to now d (some w) db = if w.is_active then attempt now d db else mark d.id given_up db

  abbrev pub retry_all : ℕ → List WebhookDelivery → Db → Db
  retry_all now [] db = db
  retry_all now (d ∷ ds) db = retry_all now ds (retry_to now d (get_by_id d.webhook_id db) db)

  unfoldable pub retry_pending_deliveries : ℕ → Db → Db
  retry_pending_deliveries now db = retry_all now (take 100 (select (is_due now) db.deliveries)) db
