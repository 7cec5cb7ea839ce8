-- ===== src/RateLimit/Limiter.antt =====
-- SlidingWindowRateLimiter over a Redis client. Times are milliseconds; an identifier with its prefix
-- is a number.
use reliastra_backend.Prelude.{
  ℕ, ◌+◌, ◌-◌, ◌*◌, ◌≤◌, ◌≡◌, ◌≢◌, Option, none, some, leb, ltb, if◌then◌else◌,
}
use reliastra_backend.Prelude.Result.{Result, ok, err, rate_limited}

-- The pipeline of `check` on the set of a key: ZREMRANGEBYSCORE from 0 to the start of the window,
-- ZCARD, ZADD of a new member with the time as its score, and EXPIRE. It returns the cardinality;
-- `none` is an exception or a timeout.
pub record SortedSets (Server : Type 0) : Type 0 where
  pub execute : Server → ℕ → ℕ → ℕ → Option (ℕ × Server)

-- What Redis documents of it, by the number of members of a key's set with a score above a bound. A
-- key expires two windows after its last use, when all its scores are below the next window.
pub record Answers (Server : Type 0) (redis : SortedSets Server) : Type 0 where
  pub above : Server → ℕ → ℕ → ℕ
  pub executes :
      (s : Server) (k start now : ℕ)
      → (s' : Server) × (redis.execute s k start now ≡ some (above s k start, s'))
  pub above-execute :
      (s s' : Server) (k start now c x : ℕ)
      → redis.execute s k start now ≡ some (c, s')
      → start ≤ x
      → above s' k x ≡ above s k x + (if ltb x now then 1 else 0)
  pub above-execute_other :
      (s s' : Server) (k l start now c x : ℕ)
      → k ≢ l
      → redis.execute s k start now ≡ some (c, s')
      → above s' l x ≡ above s l x

-- `limit` and `window_seconds`
pub record Limiter : Type 0 where
  pub limit : ℕ
  pub window_seconds : ℕ

abbrev pub window : Limiter → ℕ
window l = l.window_seconds * 1000

-- The answer from the cardinality before the request.
abbrev pub judge : Limiter → ℕ → Result (Unit {0})
judge l count = if leb l.limit count then err rate_limited else ok tt

module _ {Server : Type 0} (redis : SortedSets Server) where
  -- `check`: the answer and the server after it. When Redis raises the request is allowed.
  unfoldable pub check : Limiter → ℕ → ℕ → Server → Result (Unit {0}) × Server
  check l k now s = elim (redis.execute s k (now - window l) now) [
    | none ↦ (ok tt, s)
    | some r ↦ (judge l r.0, r.1)
  ]
