-- ===== src/Billing/Delivery.antt =====
-- Deliveries that are lost: without Redis, and after a failure.
use reliastra_backend.Prelude.{ℕ, ◌≡◌, refl, ap, ◌∙◌, true, false, none, some, String}
use reliastra_backend.Prelude.Result.{Failure, ok, err}
use reliastra_backend.Partners.Model.{Settings}
use reliastra_backend.Billing.Service.{Payload, process}
use reliastra_backend.Billing.Webhook.{
  Outside, Delivery, State, authenticate, safe_redis_set_nx, claim_webhook_event, commit,
  after_claim, deliver, handle_webhook,
}

module _ {Server : Type 0} (env : Outside Server) (s : Settings) where
  authentic :
      (new_id now : ℕ) (d : Delivery) (st : State Server) (event_id : String)
      → authenticate env d ≡ ok tt
      → d.payload.event_id ≡ some event_id
      → handle_webhook env s new_id now d st ≡ deliver env s new_id now d.payload (some event_id) st
  unfolding handle_webhook
  authentic new_id now d st event_id a e =
      rw (a, handle_webhook) (ap (λ o. deliver env s new_id now d.payload o st) e)

  unclaimed :
      (new_id now : ℕ) (p : Payload) (st : State Server) (event_id : String) (after : Server)
      → claim_webhook_event env event_id st.redis ≡ (false, after)
      → deliver env s new_id now p (some event_id) st
        ≡ (ok tt, record { db = st.db; redis = after })
  unfolding deliver
  unclaimed new_id now p st event_id after h = ap (after_claim env s new_id now p st.db) h

  raising :
      (new_id now : ℕ) (p : Payload) (st : State Server) (event_id : String) (after : Server)
      {e : Failure}
      → claim_webhook_event env event_id st.redis ≡ (true, after)
      → process s new_id now env.answer p st.db ≡ err e
      → deliver env s new_id now p (some event_id) st
        ≡ (err e, record { db = st.db; redis = after })
  unfolding deliver commit
  raising new_id now p st event_id after h k =
      ap (after_claim env s new_id now p st.db) h ∙ rw (k, commit) refl

  -- When Redis raises, every authentic delivery of an event that has an identifier is answered as
  -- received and changes nothing: a payment is not provisioned.
  pub event_dropped_without_redis :
      (new_id now : ℕ) (d : Delivery) (st : State Server) (event_id : String)
      → authenticate env d ≡ ok tt
      → d.payload.event_id ≡ some event_id
      → env.set_nx_ex st.redis event_id 86400 ≡ none
      → handle_webhook env s new_id now d st ≡ (ok tt, st)
  unfolding claim_webhook_event safe_redis_set_nx
  event_dropped_without_redis new_id now d st event_id a e r =
      authentic new_id now d st event_id a e
      ∙ unclaimed new_id now d.payload st event_id st.redis
          (rw (r, claim_webhook_event, safe_redis_set_nx) refl)

  -- If processing the first authentic delivery of an event raises, as when Paystack cannot be
  -- reached, and Redis holds the claim for the second, then the first is answered with the
  -- exception, and the second is answered as received and changes nothing in the database.
  pub failed_event_is_not_retried :
      (new_id now later_id later : ℕ) (d : Delivery) (st : State Server) (event_id : String)
      (held : Server) {e : Failure}
      → authenticate env d ≡ ok tt
      → d.payload.event_id ≡ some event_id
      → env.set_nx_ex st.redis event_id 86400 ≡ some (true, held)
      → env.set_nx_ex held event_id 86400 ≡ some (false, held)
      → process s new_id now env.answer d.payload st.db ≡ err e
      → (handle_webhook env s new_id now d st ≡ (err e, record { db = st.db; redis = held }))
        × (handle_webhook env s later_id later d (record { db = st.db; redis = held })
            ≡ (ok tt, record { db = st.db; redis = held }))
  unfolding claim_webhook_event safe_redis_set_nx
  failed_event_is_not_retried new_id now later_id later d st event_id held a e c k p = (
    authentic new_id now d st event_id a e
        ∙ raising new_id now d.payload st event_id held
            (rw (c, claim_webhook_event, safe_redis_set_nx) refl) p,
    authentic later_id later d (record { db = st.db; redis = held }) event_id a e
        ∙ unclaimed later_id later d.payload (record { db = st.db; redis = held }) event_id held
            (rw (k, claim_webhook_event, safe_redis_set_nx) refl),
  )
