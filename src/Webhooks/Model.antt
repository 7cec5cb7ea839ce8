-- ===== src/Webhooks/Model.antt =====
-- app/modules/webhooks/models.py and repository.py: the columns that deliveries read and write. The
-- signing secret, the headers and the bodies of responses are left out.
use reliastra_backend.Prelude.{
  ℕ, zero, suc, ◌+◌, Bool, not, ◌&&◌, Option, none, some, List, [], ◌∷◌, ◌++◌, ◌==◌, any,
  find_first, select, update_where,
}
use reliastra_backend.Prelude.Text.{Text, text_eq}

pub data DeliveryStatus : Type 0 where
  pending success retrying failed_permanently : DeliveryStatus

pub record Webhook : Type 0 where
  pub id : ℕ
  pub org_id : ℕ
  pub url : ℕ
  pub events : List Text
  pub is_active : Bool
  pub is_deleted : Bool
  pub last_delivery_at : Option ℕ
  pub failure_count : ℕ

pub record WebhookDelivery : Type 0 where
  pub id : ℕ
  pub webhook_id : ℕ
  pub event_type : Text
  pub payload : ℕ
  pub status : DeliveryStatus
  pub response_status_code : Option ℕ
  pub attempt_count : ℕ
  pub next_retry_at : Option ℕ
  pub delivered_at : Option ℕ

pub record Db : Type 0 where
  pub webhooks : List Webhook
  pub deliveries : List WebhookDelivery

-- WebhookRepository
abbrev pub get_by_id : ℕ → Db → Option Webhook
get_by_id wid db = find_first (λ (w : Webhook). (w.id == wid) && not w.is_deleted) db.webhooks

abbrev pub list_active_for_org_and_event : ℕ → Text → Db → List Webhook
list_active_for_org_and_event oid event db =
    select (λ (w : Webhook). any (λ e. text_eq e event) w.events)
      (select (λ (w : Webhook). (w.org_id == oid) && w.is_active && not w.is_deleted) db.webhooks)

abbrev pub change_webhook : ℕ → (Webhook → Webhook) → Db → Db
change_webhook wid f db = record db {
  webhooks = update_where (λ (w : Webhook). w.id == wid) f db.webhooks;
}

abbrev pub increment_failure_count : ℕ → Db → Db
increment_failure_count wid db =
    change_webhook wid (λ w. record w { failure_count = w.failure_count + 1 }) db

abbrev pub reset_failure_count : ℕ → Db → Db
reset_failure_count wid db = change_webhook wid (λ w. record w { failure_count = 0 }) db

abbrev pub update_last_delivery : ℕ → ℕ → Db → Db
update_last_delivery wid now db =
    change_webhook wid (λ w. record w { last_delivery_at = some now }) db

-- WebhookDeliveryRepository
abbrev pub create : WebhookDelivery → Db → Db
create d db = record db { deliveries = db.deliveries ++ d ∷ [] }

abbrev pub new_delivery : ℕ → ℕ → Text → ℕ → WebhookDelivery
new_delivery new_id wid event payload = record {
  id = new_id;
  webhook_id = wid;
  event_type = event;
  payload = payload;
  status = pending;
  response_status_code = none;
  attempt_count = 1;
  next_retry_at = none;
  delivered_at = none;
}

abbrev pub succeeded : ℕ → ℕ → WebhookDelivery → WebhookDelivery
succeeded now code d = record d {
  status = success;
  response_status_code = some code;
  delivered_at = some now;
}

-- `delivery.attempt_count or 1`
abbrev pub or_one : ℕ → ℕ
or_one zero = 1
or_one (suc n) = suc n

-- `mark_failed`, which is called with a time of the next retry
abbrev pub failed : Option ℕ → ℕ → WebhookDelivery → WebhookDelivery
failed code retry_at d = record d {
  status = retrying;
  response_status_code = code;
  attempt_count = or_one d.attempt_count + 1;
  next_retry_at = some retry_at;
}

abbrev pub given_up : WebhookDelivery → WebhookDelivery
given_up d = record d { status = failed_permanently }

abbrev pub mark : ℕ → (WebhookDelivery → WebhookDelivery) → Db → Db
mark did f db = record db {
  deliveries = update_where (λ (d : WebhookDelivery). d.id == did) f db.deliveries;
}
