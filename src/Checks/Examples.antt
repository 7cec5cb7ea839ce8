-- ===== src/Checks/Examples.antt =====
-- The theorems on checks at a small site, and tests.
use reliastra_backend.Prelude.{
  ℕ, ◌+◌, ◌≡◌, refl, Bool, true, false, none, some, [], ◌∷◌, ◌++◌, length, arith, leb,
  if◌then◌else◌,
}
use reliastra_backend.Prelude.Result.{ok}
use reliastra_backend.Breaker.Client.{Redis}
use reliastra_backend.Incidents.Model.{Db, new_incident}
use reliastra_backend.Incidents.Unique.{OneOpen, open_count}
use reliastra_backend.Checks.Probe.{Web, follow, redirect_blocked}
use reliastra_backend.Checks.Service.{
  Dependency, CheckResult, State, evaluate_failure, evaluate_success, execute_check,
  list_recent_for_dependency, record_blocked, run_check,
}
use reliastra_backend.Breaker.Model.{record_outcome, save, release_lease}
use reliastra_backend.Checks.Execution.{failure_quorum, other_failing}
use reliastra_backend.Checks.Recovery.{recovery_quorum, other_succeeding}
use reliastra_backend.Checks.Records.{execute_check_records, event_of}

-- Address 100 redirects to 101 and so on; the policy blocks addresses from 104 on.
abbrev web : Web
web = record {
  resolve_pinned_target = λ n u. if leb 104 u then none else some (u + 1000);
  request = λ n t u. some (record { status_code = 302; location = some 1 });
  urljoin = λ u l. u + l;
  error_text = λ o. "Redirect blocked by security policy";
  blocked_text = λ u. "URL blocked by security policy";
}

-- A Redis that is down.
abbrev no_redis : Redis (Unit {0})
no_redis = record {
  get = λ s k. none;
  set = λ s k v. none;
  set_nx_ex = λ s t k e. none;
  delete = λ s k. none;
}

redirects_are_followed : follow web 5 0 1100 100 ≡ record {
  requests = (1100, 100) ∷ (1101, 101) ∷ (1102, 102) ∷ (1103, 103) ∷ [];
  outcome = redirect_blocked 302;
}
unfolding follow
redirects_are_followed = refl

abbrev endpoint : Dependency
endpoint = record {
  id = 5;
  org_id = 1;
  endpoint_url = 100;
  expected_status_codes = 200 ∷ [];
  is_active = true;
  is_deleted = false;
}

abbrev result : ℕ → ℕ → ℕ → Bool → CheckResult
result n region at up = record {
  id = n;
  dependency_id = 5;
  region = region;
  executed_at = at;
  is_up = up;
  status_code = none;
  error_message = some "timeout";
  quorum_confirmed = false;
}

abbrev calm : Db
calm = record {
  incidents = [];
  correlations = [];
  attributions = [];
  alerts = [];
  evidence_tasks = [];
}

-- Regions 1 and 2 have failed within the last minute.
abbrev failing_site : State (Unit {0})
failing_site = record {
  dependencies = endpoint ∷ [];
  results = result 1 1 1000 false ∷ result 2 2 1040 false ∷ [];
  incidents = calm;
  outbox = [];
  redis = tt;
}

failure_quorum_example :
    (judged : CheckResult) × (after : State (Unit {0})) × (evaluate_failure web no_redis 1040 70
        endpoint
        (result 2 2 1040 false)
        failing_site
      ≡ ok (judged, after))
    × (judged.quorum_confirmed
        ≡ other_failing web no_redis 1040 (result 2 2 1040 false) failing_site)
    × OneOpen after.incidents.incidents
    × (other_failing web no_redis 1040 (result 2 2 1040 false) failing_site ≡ true
        → open_count 5 after.incidents.incidents ≡ 1)
    × (other_failing web no_redis 1040 (result 2 2 1040 false) failing_site ≡ false
        → after ≡ failing_site)
failure_quorum_example =
    failure_quorum web no_redis 1040 70 endpoint (result 2 2 1040 false) failing_site refl refl
      (λ d. omega arith)

-- The failure of region 1 counts for 60 seconds.
region_one_counts : other_failing web no_redis 1040 (result 2 2 1040 false) failing_site ≡ true
unfolding list_recent_for_dependency
region_one_counts = refl

region_one_is_old : other_failing web no_redis 1061 (result 3 2 1061 false) failing_site ≡ false
unfolding list_recent_for_dependency
region_one_is_old = refl

-- An incident is open, and region 1 has succeeded once.
abbrev recovering_site : State (Unit {0})
recovering_site = record failing_site {
  results = result 3 1 2000 true ∷ result 4 2 2010 true ∷ [];
  incidents = record calm { incidents = new_incident 1040 70 1 5 "timeout" ∷ [] };
}

one_incident : OneOpen (new_incident 1040 70 1 5 "timeout" ∷ [])
one_incident d = ground arith

recovery_quorum_example :
    (after : State (Unit {0})) × (evaluate_success web no_redis 2010 true endpoint
        (result 4 2 2010 true)
        recovering_site
      ≡ ok (result 4 2 2010 true, after))
    × (other_succeeding web no_redis 2010 endpoint (result 4 2 2010 true) recovering_site ≡ true
        → open_count 5 after.incidents.incidents ≡ 0)
    × (other_succeeding web no_redis 2010 endpoint (result 4 2 2010 true) recovering_site ≡ false
        → after ≡ recovering_site)
recovery_quorum_example =
    recovery_quorum web no_redis 2010 true endpoint (result 4 2 2010 true) recovering_site
      {i = new_incident 1040 70 1 5 "timeout"} refl (refl, tt) one_incident

-- One success of each of two regions is enough.
one_success_each :
    other_succeeding web no_redis 2010 endpoint (result 4 2 2010 true) recovering_site ≡ true
unfolding list_recent_for_dependency
one_success_each = refl

-- A check of an address that the policy blocks.
abbrev blocked_site : State (Unit {0})
blocked_site = record failing_site {
  dependencies = record endpoint { endpoint_url = 104 } ∷ [];
  results = [];
}

abbrev blocked_result : CheckResult
blocked_result = record (result 9 2 3000 false) {
  error_message = some "URL blocked by security policy";
}

abbrev blocked_after : State (Unit {0})
blocked_after = record blocked_site {
  results = blocked_result ∷ [];
  outbox = event_of web no_redis blocked_result ∷ [];
}

blocked_check :
    execute_check web no_redis 3000 9 71 true 5 2 blocked_site
    ≡ ok (some blocked_result, blocked_after)
unfolding execute_check run_check record_blocked record_outcome save release_lease
blocked_check = refl

execute_check_records_example :
    ((r : CheckResult)
      → some blocked_result ≡ some r
      → (length blocked_after.results ≡ 0 + 1)
        × (blocked_after.outbox ≡ [] ++ event_of web no_redis r ∷ []))
    × (some blocked_result ≡ none → blocked_after ≡ blocked_site)
execute_check_records_example =
    execute_check_records web no_redis 3000 9 71 true 5 2 blocked_site {o = some blocked_result}
      blocked_check
