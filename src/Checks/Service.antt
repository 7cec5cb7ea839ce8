-- ===== src/Checks/Service.antt =====
-- app/modules/checks/service.py: `execute_check`, with the queries of repository.py. The lock on the
-- dependency's row makes one check of a dependency run after another from its result on.
use reliastra_backend.Prelude.{
  ℕ, ◌+◌, ◌*◌, Bool, true, false, not, ◌&&◌, Option, none, some, String, List, [], ◌∷◌, ◌++◌, leb,
  ◌==◌, any, find_first, select, take, update_where, if◌then◌else◌,
}
use reliastra_backend.Prelude.Result.{Result, ok, ◌>>=◌}
use reliastra_backend.Breaker.Client.{Redis}
use reliastra_backend.Breaker.Model.{record_outcome}
use reliastra_backend.Incidents.Model as Incidents
use reliastra_backend.Incidents.Model.{Incident, get_open_for_dependency}
use reliastra_backend.Incidents.Service.{check_and_create_incident, resolve_incident}
use reliastra_backend.Checks.Probe.{
  Web, Outcome, answered, too_many_redirects, redirect_blocked, raised, follow, max_redirects,
}
use reliastra_backend.Checks.Quorum.{has_quorum}

-- The columns that a check reads; no expected codes stand for an empty or missing list.
pub record Dependency : Type 0 where
  pub id : ℕ
  pub org_id : ℕ
  pub endpoint_url : ℕ
  pub expected_status_codes : List ℕ
  pub is_active : Bool
  pub is_deleted : Bool

pub record CheckResult : Type 0 where
  pub id : ℕ
  pub dependency_id : ℕ
  pub region : ℕ
  pub executed_at : ℕ
  pub is_up : Bool
  pub status_code : Option ℕ
  pub error_message : Option String
  pub quorum_confirmed : Bool

-- A row of `observation_outbox`: what its payload says of the check.
pub record OutboxEvent : Type 0 where
  pub check_result_id : ℕ
  pub is_up : Bool
  pub quorum_confirmed : Bool

pub record State (Server : Type 0) : Type 0 where
  pub dependencies : List Dependency
  pub results : List CheckResult
  pub incidents : Incidents.Db
  pub outbox : List OutboxEvent
  pub redis : Server

abbrev pub quorum_window_seconds : ℕ
quorum_window_seconds = 60

abbrev pub recent_recovery_results : ℕ
recent_recovery_results = 4

abbrev pub reverse_onto {ℓ} : {A : Type ℓ} → List A → List A → List A
reverse_onto [] acc = acc
reverse_onto (x ∷ xs) acc = reverse_onto xs (x ∷ acc)

-- Which outcome is up, and the status code that is kept.
abbrev pub expected : List ℕ → ℕ → Bool
expected [] code = code == 200
expected (c ∷ cs) code = any (λ e. e == code) (c ∷ cs)

abbrev pub is_up_outcome : List ℕ → Outcome → Bool
is_up_outcome codes (answered code) = expected codes code
is_up_outcome codes (too_many_redirects code) = false
is_up_outcome codes (redirect_blocked code) = false
is_up_outcome codes raised = false

abbrev pub status_of : Outcome → Option ℕ
status_of (answered code) = some code
status_of (too_many_redirects code) = some code
status_of (redirect_blocked code) = some code
status_of raised = none

-- `message or d`: an empty message is none
abbrev pub message_or : Option String → String → String
message_or none d = d
message_or (some String.[]) d = d
message_or (some (String.◌∷◌ c s)) d = String.◌∷◌ c s

abbrev pub failing : CheckResult → Bool
failing r = not r.is_up

abbrev pub succeeding : CheckResult → Bool
succeeding r = r.is_up

module _ {Server : Type 0} (web : Web) (client : Redis Server) where
  -- The dependency that is not deleted.
  abbrev pub get_dependency : ℕ → State Server → Option Dependency
  get_dependency n s =
      find_first (λ (d : Dependency). (d.id == n) && not d.is_deleted) s.dependencies

  -- The join with the dependency, whose id is a primary key: a row that is not deleted.
  abbrev pub is_live : ℕ → List Dependency → Bool
  is_live n ds = any (λ (d : Dependency). (d.id == n) && not d.is_deleted) ds

  -- `list_recent_for_dependency`, the newest first; none for a dependency that was deleted
  unfoldable pub list_recent_for_dependency : ℕ → ℕ → State Server → List CheckResult
  list_recent_for_dependency now dep s =
      if is_live dep s.dependencies
      then reverse_onto
          (select (λ r. (r.dependency_id == dep) && leb now (r.executed_at + quorum_window_seconds))
            s.results)
          []
      else []

  -- `_enqueue_observation_outbox`
  abbrev pub enqueue : CheckResult → State Server → State Server
  enqueue r s = record s {
    outbox =
        s.outbox
        ++ record { check_result_id = r.id; is_up = r.is_up; quorum_confirmed = r.quorum_confirmed }
          ∷ [];
  }

  abbrev pub feed_breaker : ℕ → CheckResult → State Server → State Server
  feed_breaker now r s = record s {
    redis = record_outcome client r.is_up (now * 1000) r.dependency_id s.redis;
  }

  abbrev pub add_result : CheckResult → State Server → State Server
  add_result r s = record s { results = s.results ++ r ∷ [] }

  -- `_record_blocked_result` and the end of a blocked check
  unfoldable pub record_blocked : ℕ → CheckResult → State Server → State Server
  record_blocked now r s = feed_breaker now r (enqueue r (add_result r s))

  abbrev pub confirm : CheckResult → CheckResult
  confirm r = record r { quorum_confirmed = true }

  -- A failure: two regions confirm it, and then an incident is opened.
  unfoldable pub evaluate_failure :
      ℕ → ℕ → Dependency → CheckResult → State Server → Result (CheckResult × State Server)
  evaluate_failure now new_id d r s =
      if has_quorum (λ (x : CheckResult). x.region) failing r.region
        (list_recent_for_dependency now d.id s)
      then (do
        made ←
            check_and_create_incident now new_id d.org_id d.id
              (message_or r.error_message "Quorum confirmed failure") [] s.incidents
        ok (
          confirm r,
          record s {
            results = update_where (λ (x : CheckResult). x.id == r.id) confirm s.results;
            incidents = made.1;
          },
        ))
      else ok (r, s)

  -- A success: two regions among the latest results resolve the open incident.
  unfoldable pub evaluate_success :
      ℕ → Bool → Dependency → CheckResult → State Server → Result (CheckResult × State Server)
  evaluate_success now computed d r s = elim (get_open_for_dependency d.id s.incidents) [
    | none ↦ ok (r, s)
    | some i ↦
        if has_quorum (λ (x : CheckResult). x.region) succeeding r.region
          (take recent_recovery_results (list_recent_for_dependency now d.id s))
        then (do
          after ← resolve_incident now computed i.id (some i.org_id) s.incidents
          ok (r, record s { incidents = after }))
        else ok (r, s)
  ]

  unfoldable pub evaluate :
      ℕ → ℕ → Bool → Dependency → CheckResult → State Server → Result (CheckResult × State Server)
  evaluate now new_id computed d r s =
      if r.is_up then evaluate_success now computed d r s else evaluate_failure now new_id d r s

  -- The rest of a check that was sent: the quorum, the outbox and the breaker.
  unfoldable pub conclude :
      ℕ
      → ℕ
      → Bool
      → Dependency
      → CheckResult
      → State Server
      → Result (Option CheckResult × State Server)
  conclude now new_id computed d r s = do
    judged ← evaluate now new_id computed d r (add_result r s)
    ok (some judged.0, feed_breaker now judged.0 (enqueue judged.0 judged.1))

  abbrev pub new_result : ℕ → ℕ → Dependency → ℕ → Bool → Option ℕ → Option String → CheckResult
  new_result now id d region up status message = record {
    id = id;
    dependency_id = d.id;
    region = region;
    executed_at = now;
    is_up = up;
    status_code = status;
    error_message = message;
    quorum_confirmed = false;
  }

  -- `execute_check` on a dependency that is active.
  unfoldable pub run_check :
      ℕ → ℕ → ℕ → Bool → Dependency → ℕ → State Server → Result (Option CheckResult × State Server)
  run_check now result_id new_id computed d region s =
      elim (web.resolve_pinned_target 0 d.endpoint_url) [
        | none ↦
            let r =
              new_result now result_id d region false none
                (some (web.blocked_text d.endpoint_url)) in
            ok (some r, record_blocked now r s)
        | some target ↦
            let o = (follow web max_redirects 0 target d.endpoint_url).outcome in
            let up = is_up_outcome d.expected_status_codes o in
            conclude now new_id computed d
              (new_result now result_id d region up (status_of o)
                (if up then none else some (web.error_text o)))
              s
      ]

  -- `execute_check`
  unfoldable pub execute_check :
      ℕ → ℕ → ℕ → Bool → ℕ → ℕ → State Server → Result (Option CheckResult × State Server)
  execute_check now result_id new_id computed dep region s = elim (get_dependency dep s) [
    | none ↦ ok (none, s)
    | some d ↦
        if d.is_active then run_check now result_id new_id computed d region s else ok (none, s)
  ]
