-- ===== src/Breaker/Model.antt =====
-- CircuitBreaker of app/core/circuit_breaker.py: loading, saving, recording and dispatch.
use reliastra_backend.Prelude.{
  ℕ, ◌+◌, ◌-◌, Bool, true, false, not, ◌&&◌, none, some, ltb, leb, or_else, if◌then◌else◌,
}
use reliastra_backend.Breaker.Client.{
  Circuit, Stored, document, lease, garbage, state_key, probe_key, Redis,
}

abbrev pub failure_threshold : ℕ
failure_threshold = 3

abbrev pub success_threshold : ℕ
success_threshold = 2

abbrev pub half_open_interval : ℕ
half_open_interval = 60000

abbrev pub probe_lease_seconds : ℕ
probe_lease_seconds = 60

abbrev pub empty_state : Circuit
empty_state = record { is_open = false; failures = 0; successes = 0; opened_at = none }

-- `json.loads(raw)`, or the empty state for what cannot be parsed
abbrev pub parse : Stored → Circuit
parse (document c) = c
parse lease = empty_state
parse garbage = empty_state

-- The document after a success and after a failure at a time.
unfoldable pub succeed : Circuit → Circuit
succeed c =
    if leb success_threshold (c.successes + 1)
    then record { is_open = false; failures = 0; successes = 0; opened_at = none }
    else record c { failures = 0; successes = c.successes + 1 }

unfoldable pub fail : ℕ → Circuit → Circuit
fail now c =
    if leb failure_threshold (c.failures + 1)
    then record { is_open = true; failures = c.failures + 1; successes = 0; opened_at = some now }
    else record c { successes = 0; failures = c.failures + 1 }

unfoldable pub recorded : Bool → ℕ → Circuit → Circuit
recorded true now c = succeed c
recorded false now c = fail now c

-- `_load`
module _ {Server : Type 0} (redis : Redis Server) where
  abbrev pub load : Server → ℕ → Circuit
  load s d = elim (redis.get s (state_key d)) [
    | none ↦ empty_state
    | some raw ↦ elim raw [ none ↦ empty_state | some v ↦ parse v ]
  ]

  -- `_save`: a write that raises leaves the server as it is
  unfoldable pub save : Server → ℕ → Circuit → Server
  save s d c = or_else (redis.set s (state_key d) (document c)) s

  -- The lease of a probe is given back when the circuit closes.
  unfoldable pub release_lease : Bool → ℕ → Circuit → Server → Server
  release_lease success d c s =
      if success && leb success_threshold (c.successes + 1)
      then or_else (redis.delete s (probe_key d)) s
      else s

  -- `_record`
  unfoldable pub record_outcome : Bool → ℕ → ℕ → Server → Server
  record_outcome success now d s =
      let c = load s d in save (release_lease success d c s) d (recorded success now c)

  -- `should_dispatch`: the answer and the server after it
  unfoldable pub should_dispatch : ℕ → ℕ → Server → Bool × Server
  should_dispatch now d s =
      let c = load s d in
      if not c.is_open
      then (true, s)
      else if ltb (now - or_else c.opened_at 0) half_open_interval
      then (false, s)
      else or_else (redis.set_nx_ex s now (probe_key d) probe_lease_seconds) (true, s)
