-- ===== src/Billing/Webhook.antt =====
-- `handle_webhook` of app/modules/billing/service.py: the signature, the claim of the event in Redis
-- and the rollback of the session. Redis is not rolled back.
use reliastra_backend.Prelude.{ℕ, Bool, true, false, Option, none, some, String, ◌==◌}
use reliastra_backend.Prelude.Result.{Result, ok, err, unauthorized, require, or_raise, ◌>>=◌}
use reliastra_backend.Partners.Model.{Settings}
use reliastra_backend.Billing.Model.{Db}
use reliastra_backend.Billing.Service.{Verification, Payload, process}

-- SET NX EX on a server, where `none` is an exception or a timeout; HMAC-SHA512 of a body under a
-- secret; PAYSTACK_SECRET_KEY; Paystack's answer to the verification of a reference.
pub record Outside (Server : Type 0) : Type 0 where
  pub set_nx_ex : Server → String → ℕ → Option (Bool × Server)
  pub hmac_sha512 : ℕ → ℕ → ℕ
  pub secret_key : Option ℕ
  pub answer : String → Verification

-- A request to the webhook: the header, the raw body and the payload that it parses to.
pub record Delivery : Type 0 where
  pub signature : Option ℕ
  pub raw_body : Option ℕ
  pub payload : Payload

pub record State (Server : Type 0) : Type 0 where
  pub db : Db
  pub redis : Server

module _ {Server : Type 0} (env : Outside Server) where
  -- The checks of the signature.
  unfoldable pub authenticate : Delivery → Result (Unit {0})
  authenticate d = do
    signature ← or_raise d.signature unauthorized
    body ← or_raise d.raw_body unauthorized
    secret ← or_raise env.secret_key unauthorized
    require (env.hmac_sha512 secret body == signature) unauthorized

  -- `safe_redis_set_nx` of app/infrastructure/redis_client.py
  unfoldable pub safe_redis_set_nx : String → ℕ → Server → Bool × Server
  safe_redis_set_nx key ex s = elim (env.set_nx_ex s key ex) [ none ↦ (false, s) | some r ↦ r ]

  -- `_claim_webhook_event`, whose own handler of exceptions has nothing to catch
  unfoldable pub claim_webhook_event : String → Server → Bool × Server
  claim_webhook_event event_id s = safe_redis_set_nx event_id 86400 s

  -- The event is processed, and the session is committed or rolled back.
  unfoldable pub commit :
      Settings → ℕ → ℕ → Payload → Db → Server → Result (Unit {0}) × State Server
  commit s new_id now p db redis = elim (process s new_id now env.answer p db) [
    | err e ↦ (err e, record { db = db; redis = redis })
    | ok after ↦ (ok tt, record { db = after; redis = redis })
  ]

  -- An event that was claimed before is answered and skipped.
  abbrev pub after_claim :
      Settings → ℕ → ℕ → Payload → Db → Bool × Server → Result (Unit {0}) × State Server
  after_claim s new_id now p db (true, redis) = commit s new_id now p db redis
  after_claim s new_id now p db (false, redis) = (ok tt, record { db = db; redis = redis })

  unfoldable pub deliver :
      Settings → ℕ → ℕ → Payload → Option String → State Server → Result (Unit {0}) × State Server
  deliver s new_id now p none st = commit s new_id now p st.db st.redis
  deliver s new_id now p (some event_id) st =
      after_claim s new_id now p st.db (claim_webhook_event event_id st.redis)

  -- `handle_webhook`
  unfoldable pub handle_webhook :
      Settings → ℕ → ℕ → Delivery → State Server → Result (Unit {0}) × State Server
  handle_webhook s new_id now d st = elim (authenticate d) [
    | err e ↦ (err e, st)
    | ok u ↦ deliver s new_id now d.payload d.payload.event_id st
  ]
