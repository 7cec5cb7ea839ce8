-- ===== src/Webhooks/Settled.antt =====
-- What a run of the retries leaves alone.
use reliastra_backend.Prelude.{
  ℕ, ◌+◌, ◌≡◌, refl, sym, ap, ◌∙◌, Bool, true, false, Option, none, some, List, [], ◌∷◌, ◌==◌, leb,
  select, find_first, find_first_sound, ◌⊎◌, All, update_where, arith, Bool-cases, inl, inr,
  if◌then◌else◌,
}
use mathlib.Core.Path.{subst}
use reliastra_backend.Prelude.Tables.{IsKeyed, IsKeyed-update_where}
use reliastra_backend.Prelude.Rows.{only_row}
use reliastra_backend.Prelude.Order.{take-All}
use reliastra_backend.Webhooks.Model.{
  Webhook, WebhookDelivery, Db, get_by_id, mark, or_one, succeeded, failed, given_up,
  increment_failure_count,
}
use reliastra_backend.Webhooks.Delivery.{
  Client, max_retries, retry_delay, pred, is_success, handle_delivery_failure, handle_success,
  handle_answer, attempt, is_due, retry_to, retry_all, retry_pending_deliveries,
}

abbrev pub key : WebhookDelivery → ℕ
key d = d.id

-- The row of a delivery.
abbrev pub row : ℕ → Db → Option WebhookDelivery
row k db = find_first (λ (x : WebhookDelivery). x.id == k) db.deliveries

-- A change of deliveries that keeps their ids, of one delivery or of none.
pub record Touches (did : ℕ) (db after : Db) : Type 0 where
  pub same : (k : ℕ) → (did == k) ≡ false → row k after ≡ row k db
  pub keyed : IsKeyed key db.deliveries → IsKeyed key after.deliveries

find-other :
    (did k : ℕ) (f : WebhookDelivery → WebhookDelivery) (xs : List WebhookDelivery)
    → ((x : WebhookDelivery) → (f x).id ≡ x.id)
    → (did == k) ≡ false
    → find_first
        (λ (x : WebhookDelivery). x.id == k)
        (update_where (λ (x : WebhookDelivery). x.id == did) f xs)
      ≡ find_first (λ (x : WebhookDelivery). x.id == k) xs
find-other did k f [] keeps n = refl
find-other did k f (x ∷ xs) keeps n = ground (arith, keeps x, n, find-other did k f xs keeps n)

mark-Touches :
    (did : ℕ) (f : WebhookDelivery → WebhookDelivery) (db : Db)
    → ((x : WebhookDelivery) → (f x).id ≡ x.id)
    → Touches did db (mark did f db)
mark-Touches did f db keeps = record {
  same = λ k n. find-other did k f db.deliveries keeps n;
  keyed =
      λ u. IsKeyed-update_where key (λ (x : WebhookDelivery). x.id == did) f db.deliveries keeps u;
}

failure-Touches :
    (now : ℕ) (d : WebhookDelivery) (code : Option ℕ) (db : Db)
    → Touches d.id db (handle_delivery_failure now d code db)
failure-Touches now d code db = elim (Bool-cases (leb max_retries (or_one d.attempt_count))) [
  | inl e ↦ subst (Touches d.id db) (sym (given e)) (record {
    same = (mark-Touches d.id given_up (increment_failure_count d.webhook_id db) (λ x. refl)).same;
    keyed =
        (mark-Touches d.id given_up (increment_failure_count d.webhook_id db) (λ x. refl)).keyed;
  })
  | inr e ↦ subst (Touches d.id db) (sym (again e)) (record {
    same =
        (mark-Touches d.id (failed code (now + retry_delay (pred (or_one d.attempt_count))))
          (increment_failure_count d.webhook_id db) (λ x. refl)).same;
    keyed =
        (mark-Touches d.id (failed code (now + retry_delay (pred (or_one d.attempt_count))))
          (increment_failure_count d.webhook_id db) (λ x. refl)).keyed;
  })
]
  where
    given :
        leb max_retries (or_one d.attempt_count) ≡ true
        → handle_delivery_failure now d code db
          ≡ mark d.id given_up (increment_failure_count d.webhook_id db)
    given e =
        ap
          (λ b.
            if b
            then mark d.id given_up (increment_failure_count d.webhook_id db)
            else mark d.id (failed code (now + retry_delay (pred (or_one d.attempt_count))))
                (increment_failure_count d.webhook_id db))
          e

    again :
        leb max_retries (or_one d.attempt_count) ≡ false
        → handle_delivery_failure now d code db
          ≡ mark d.id
              (failed code (now + retry_delay (pred (or_one d.attempt_count))))
              (increment_failure_count d.webhook_id db)
    again e =
        ap
          (λ b.
            if b
            then mark d.id given_up (increment_failure_count d.webhook_id db)
            else mark d.id (failed code (now + retry_delay (pred (or_one d.attempt_count))))
                (increment_failure_count d.webhook_id db))
          e

success-Touches :
    (now : ℕ) (d : WebhookDelivery) (code : ℕ) (db : Db)
    → Touches d.id db (handle_success now d code db)
success-Touches now d code db = record {
  same = (mark-Touches d.id (succeeded now code) db (λ x. refl)).same;
  keyed = (mark-Touches d.id (succeeded now code) db (λ x. refl)).keyed;
}

pub answer-Touches :
    (now : ℕ) (d : WebhookDelivery) (o : Option ℕ) (db : Db)
    → Touches d.id db (handle_answer now d o db)
answer-Touches now d none db = failure-Touches now d none db
answer-Touches now d (some code) db = by_code (is_success code)
  where
    by_code :
        (b : Bool)
        → Touches d.id db (
            if b
            then handle_success now d code db
            else handle_delivery_failure now d (some code) db)
    by_code true = success-Touches now d code db
    by_code false = failure-Touches now d (some code) db

module _ (post : Client) where
  retry-Touches :
      (now : ℕ) (d : WebhookDelivery) (o : Option Webhook) (db : Db)
      → Touches d.id db (retry_to post now d o db)
  retry-Touches now d none db = mark-Touches d.id given_up db (λ x. refl)
  retry-Touches now d (some w) db = by_active w.is_active
    where
      by_active :
          (b : Bool) → Touches d.id db (if b then attempt post now d db else mark d.id given_up db)
      by_active true = answer-Touches now d (post now d) db
      by_active false = mark-Touches d.id given_up db (λ x. refl)

  pub retry_all-IsKeyed :
      (now : ℕ) (ds : List WebhookDelivery) (db : Db)
      → IsKeyed key db.deliveries
      → IsKeyed key (retry_all post now ds db).deliveries
  retry_all-IsKeyed now [] db u = u
  retry_all-IsKeyed now (d ∷ ds) db u =
      retry_all-IsKeyed now ds _ ((retry-Touches now d (get_by_id d.webhook_id db) db).keyed u)

  retry_all-row :
      (now k : ℕ) (ds : List WebhookDelivery) (db : Db)
      → All (λ d. (d.id == k) ≡ false) ds
      → row k (retry_all post now ds db) ≡ row k db
  retry_all-row now k [] db h = refl
  retry_all-row now k (d ∷ ds) db h =
      retry_all-row now k ds _ h.1 ∙ (retry-Touches now d (get_by_id d.webhook_id db) db).same k h.0

  -- The due deliveries are other ones than a delivery that is not due.
  due-others :
      (now k : ℕ) (d : WebhookDelivery) (xs : List WebhookDelivery)
      → is_due now d ≡ false
      → All (λ x. (key x == k) ≡ true → x ≡ d) xs
      → All (λ x. (x.id == k) ≡ false) (select (is_due now) xs)
  due-others now k d [] n h = tt
  due-others now k d (x ∷ xs) n h = elim (Bool-cases (is_due now x)) [
    | inr e ↦ rw e (due-others now k d xs n h.1)
    | inl e ↦ rw e (other (Bool-cases (x.id == k)) e, due-others now k d xs n h.1)
  ]
    where
      other :
          ((x.id == k) ≡ true) ⊎ ((x.id == k) ≡ false) → is_due now x ≡ true → (x.id == k) ≡ false
      other (inr e) due = e
      other (inl e) due =
          let c : is_due now d ≡ true = ap (is_due now) (sym (h.0 e)) ∙ due in
          absurd (ground (arith, c, n))

  -- A run leaves a delivery that is not due as it is.
  pub retry_pending_deliveries-row :
      (now k : ℕ) (db : Db) (d : WebhookDelivery)
      → IsKeyed key db.deliveries
      → row k db ≡ some d
      → is_due now d ≡ false
      → row k (retry_pending_deliveries post now db) ≡ some d
  unfolding retry_pending_deliveries
  retry_pending_deliveries-row now k db d u found n =
      retry_all-row now k _ db (
        take-All _ 100 _ (
          due-others now k d db.deliveries n (
            only_row key k _ db.deliveries u found
              (find_first_sound (λ (x : WebhookDelivery). x.id == k) db.deliveries found))))
      ∙ found
