-- ===== src/Webhooks/Exhausted.antt =====
-- The last attempts of a delivery.
use reliastra_backend.Prelude.{
  ℕ, ◌+◌, ◌≡◌, refl, ap, ◌∙◌, inl, inr, Bool, true, false, not, Option, none, some, List, [], ◌∷◌,
  ◌==◌, leb, take, select, arith, Bool-cases, if◌then◌else◌,
}
use mathlib.Core.Option
use reliastra_backend.Prelude.Tables.{IsKeyed, find_first-update_where}
use reliastra_backend.Webhooks.Model.{
  retrying, or_one, WebhookDelivery, Db, mark, succeeded, failed, given_up, increment_failure_count,
}
use reliastra_backend.Webhooks.Delivery.{
  Client, max_retries, retry_delay, pred, is_success, handle_delivery_failure, handle_success,
  handle_answer, attempt, is_due, retry_pending_deliveries,
}
use reliastra_backend.Webhooks.Settled.{
  key, row, answer-Touches, retry_all-IsKeyed, retry_pending_deliveries-row,
}

module _ (post : Client) where
  -- Runs of the retries, at some times.
  abbrev pub runs : List ℕ → Db → Db
  runs [] db = db
  runs (now ∷ times) db = runs times (retry_pending_deliveries post now db)

  run-IsKeyed :
      (now : ℕ) (db : Db)
      → IsKeyed key db.deliveries
      → IsKeyed key (retry_pending_deliveries post now db).deliveries
  unfolding retry_pending_deliveries
  run-IsKeyed now db u =
      retry_all-IsKeyed post now (take 100 (select (is_due now) db.deliveries)) db u

  -- A delivery that is never due stays as it is.
  runs-row :
      (times : List ℕ) (k : ℕ) (db : Db) (d : WebhookDelivery)
      → IsKeyed key db.deliveries
      → row k db ≡ some d
      → ((now : ℕ) → is_due now d ≡ false)
      → row k (runs times db) ≡ some d
  runs-row [] k db d u found n = found
  runs-row (now ∷ times) k db d u found n =
      runs-row times k (retry_pending_deliveries post now db) d (run-IsKeyed now db u)
        (retry_pending_deliveries-row post now k db d u found (n now)) n

  marked_row :
      (f : WebhookDelivery → WebhookDelivery) (db : Db) (d : WebhookDelivery)
      → ((x : WebhookDelivery) → (f x).id ≡ x.id)
      → row d.id db ≡ some d
      → row d.id (mark d.id f db) ≡ some (f d)
  marked_row f db d keeps found =
      find_first-update_where (λ (x : WebhookDelivery). x.id == d.id)
        (λ (x : WebhookDelivery). x.id == d.id) f db.deliveries (λ x. ap (λ n. n == d.id) (keeps x))
      ∙ ap (Option.map (λ (x : WebhookDelivery). if x.id == d.id then f x else x)) found
      ∙ ap some (hit (d.id == d.id) (ground arith))
    where
      hit : (b : Bool) → b ≡ true → (if b then f d else d) ≡ f d
      hit true e = refl
      hit false e = absurd (ground (arith, e))

  -- The answer is no success.
  abbrev pub fails : Option ℕ → Bool
  fails none = true
  fails (some code) = not (is_success code)

  failing_answer :
      (now : ℕ) (d : WebhookDelivery) (o : Option ℕ) (db : Db)
      → fails o ≡ true
      → handle_answer now d o db ≡ handle_delivery_failure now d o db
  failing_answer now d none db h = refl
  failing_answer now d (some code) db h = elim (Bool-cases (is_success code)) [
    | inl e ↦ absurd (ground (arith, e, h))
    | inr e ↦
        ap
          (λ b.
            if b
            then handle_success now d code db
            else handle_delivery_failure now d (some code) db)
          e
  ]

  -- When the fourth attempt of a delivery fails, it is over, but the delivery is not marked as failed:
  -- it stays `retrying` with the fifth attempt counted, and no run of the retries, at whatever time,
  -- makes that attempt or closes the delivery. The ids of deliveries are distinct.
  pub fourth_failure_is_final :
      (now : ℕ) (times : List ℕ) (db : Db) (d : WebhookDelivery)
      → IsKeyed key db.deliveries
      → row d.id db ≡ some d
      → d.attempt_count ≡ 4
      → fails (post now d) ≡ true
      → (e : WebhookDelivery) × (row d.id (runs times (attempt post now d db)) ≡ some e)
        × (e.status ≡ retrying)
        × (e.attempt_count ≡ max_retries)
  fourth_failure_is_final now times db d u found four bad =
      let after = attempt post now d db in
      let late = failed (post now d) (now + retry_delay (pred (or_one d.attempt_count))) d in
      let four_or : or_one d.attempt_count ≡ 4 = ap or_one four in
      let few : leb max_retries (or_one d.attempt_count) ≡ false = ground (arith, four_or) in
      let again : after
          ≡ mark d.id (failed (post now d) (now + retry_delay (pred (or_one d.attempt_count))))
              (increment_failure_count d.webhook_id db) =
        failing_answer now d (post now d) db bad
        ∙ ap
            (λ b.
              if b
              then mark d.id given_up (increment_failure_count d.webhook_id db)
              else mark d.id
                  (failed (post now d) (now + retry_delay (pred (or_one d.attempt_count))))
                  (increment_failure_count d.webhook_id db))
            few in
      let r : row d.id after ≡ some late =
        ap (row d.id) again
        ∙ marked_row (failed (post now d) (now + retry_delay (pred (or_one d.attempt_count))))
            (increment_failure_count d.webhook_id db) d (λ x. refl) found in
      (
        late,
        runs-row times d.id after late ((answer-Touches now d (post now d) db).keyed u) r
            (λ t. ground (arith, four_or)),
        refl,
        ground (arith, four_or),
      )

  -- A delivery that succeeded is final: no run of the retries posts it again or changes its row. The
  -- ids of deliveries are distinct.
  pub success_is_final :
      (now code : ℕ) (times : List ℕ) (db : Db) (d : WebhookDelivery)
      → IsKeyed key db.deliveries
      → row d.id db ≡ some d
      → post now d ≡ some code
      → is_success code ≡ true
      → row d.id (runs times (attempt post now d db)) ≡ some (succeeded now code d)
  success_is_final now code times db d u found answer good =
      let after = attempt post now d db in
      let won : after ≡ handle_success now d code db =
        ap (λ o. handle_answer now d o db) answer
        ∙ ap
            (λ b.
              if b
              then handle_success now d code db
              else handle_delivery_failure now d (some code) db)
            good in
      let r : row d.id after ≡ some (succeeded now code d) =
        ap (row d.id) won ∙ marked_row (succeeded now code) db d (λ x. refl) found in
      runs-row times d.id after (succeeded now code d)
        ((answer-Touches now d (post now d) db).keyed u) r (λ t. refl)
