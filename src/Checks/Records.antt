-- ===== src/Checks/Records.antt =====
-- What every check leaves behind: one result and one outbox event.
use reliastra_backend.Prelude.{
  ℕ, ◌+◌, ◌≡◌, refl, sym, ap, ◌∙◌, Bool, true, false, Option, none, some, [], ◌∷◌, ◌++◌, ◌==◌,
  length, length-append, length-update_where, update_where, take, arith, Bool-cases, Option-cases,
  inl, inr, if◌then◌else◌,
}
use mathlib.Core.Path.{subst}
use reliastra_backend.Prelude.Result.{ok, Result-cases}
use reliastra_backend.Breaker.Client.{Redis}
use reliastra_backend.Incidents.Model.{get_open_for_dependency}
use reliastra_backend.Incidents.Service.{check_and_create_incident, resolve_incident}
use reliastra_backend.Checks.Probe.{Web}
use reliastra_backend.Checks.Quorum.{has_quorum}
use reliastra_backend.Checks.Service.{
  Dependency, CheckResult, OutboxEvent, State, failing, succeeding, list_recent_for_dependency,
  message_or, add_result, confirm, evaluate_failure, evaluate_success, evaluate, conclude,
  run_check, execute_check, record_blocked, get_dependency, feed_breaker, enqueue, new_result,
}

module _ {Server : Type 0} where
  -- The results are as many, and the outbox is the same.
  record Keeps (s after : State Server) : Type 0 where
    results : length after.results ≡ length s.results
    outbox : after.outbox ≡ s.outbox

  module _ (web : Web) (client : Redis Server) where
    failure-Keeps :
        (now new_id : ℕ) (d : Dependency) (r : CheckResult) (s : State Server) {j : CheckResult}
        {after : State Server}
        → evaluate_failure web client now new_id d r s ≡ ok (j, after)
        → Keeps s after
    unfolding evaluate_failure
    failure-Keeps now new_id d r s {j} {after} h =
        elim (Bool-cases (
          has_quorum (λ (x : CheckResult). x.region) failing r.region
            (list_recent_for_dependency web client now d.id s))) [
              | inr q ↦
                  let w : s ≡ after = ground (arith, rw q at h) in
                  subst (Keeps s) w (record { results = refl; outbox = refl })
              | inl q ↦
                  elim (Result-cases (
                    check_and_create_incident now new_id d.org_id d.id
                      (message_or r.error_message "Quorum confirmed failure") [] s.incidents)) [
                        | inl (e, c) ↦ absurd (ground (arith, rw (q, c) at h))
                        | inr (made, c) ↦
                            let w : record s {
                              results =
                                  update_where (λ (x : CheckResult). x.id == r.id)
                                    (confirm web client) s.results;
                              incidents = made.1;
                            }
                                ≡ after =
                              ground (arith, rw (q, c) at h) in
                            subst (Keeps s) w (record {
                              results =
                                  length-update_where (λ (x : CheckResult). x.id == r.id)
                                    (confirm web client) s.results;
                              outbox = refl;
                            })
                      ]
            ]

    success-Keeps :
        (now : ℕ) (computed : Bool) (d : Dependency) (r : CheckResult) (s : State Server)
        {j : CheckResult} {after : State Server}
        → evaluate_success web client now computed d r s ≡ ok (j, after)
        → Keeps s after
    unfolding evaluate_success
    success-Keeps now computed d r s {j} {after} h =
        elim (Option-cases (get_open_for_dependency d.id s.incidents)) [
          | inl f ↦
              let w : s ≡ after = ground (arith, rw (f, evaluate_success) at h) in
              subst (Keeps s) w (record { results = refl; outbox = refl })
          | inr (i, f) ↦
              elim (Bool-cases (
                has_quorum (λ (x : CheckResult). x.region) succeeding r.region
                  (take 4 (list_recent_for_dependency web client now d.id s)))) [
                    | inr q ↦
                        let w : s ≡ after = ground (arith, rw (f, evaluate_success, q) at h) in
                        subst (Keeps s) w (record { results = refl; outbox = refl })
                    | inl q ↦
                        elim (Result-cases
                          (resolve_incident now computed i.id (some i.org_id) s.incidents)) [
                            | inl (e, c) ↦
                                absurd (ground (arith, rw (f, evaluate_success, q, c) at h))
                            | inr (db, c) ↦
                                let w : record s { incidents = db } ≡ after =
                                  ground (arith, rw (f, evaluate_success, q, c) at h) in
                                subst (Keeps s) w (record { results = refl; outbox = refl })
                          ]
                  ]
        ]

    evaluate-Keeps :
        (now new_id : ℕ) (computed : Bool) (d : Dependency) (r : CheckResult) (s : State Server)
        {j : CheckResult} {after : State Server}
        → evaluate web client now new_id computed d r s ≡ ok (j, after)
        → Keeps s after
    unfolding evaluate
    evaluate-Keeps now new_id computed d r s {j} {after} h = by_outcome r.is_up h
      where
        by_outcome :
            (up : Bool)
            → (if up
                then evaluate_success web client now computed d r s
                else evaluate_failure web client now new_id d r s)
              ≡ ok (j, after)
            → Keeps s after
        by_outcome true k = success-Keeps now computed d r s k
        by_outcome false k = failure-Keeps now new_id d r s k

    -- The outbox event of a result.
    abbrev pub event_of : CheckResult → OutboxEvent
    event_of r = record {
      check_result_id = r.id;
      is_up = r.is_up;
      quorum_confirmed = r.quorum_confirmed;
    }

    -- One result and one event more than before.
    record Records (s : State Server) (r : CheckResult) (after : State Server) : Type 0 where
      pub results : length after.results ≡ length s.results + 1
      pub outbox : after.outbox ≡ s.outbox ++ event_of r ∷ []

    conclude-Records :
        (now new_id : ℕ) (computed : Bool) (d : Dependency) (r : CheckResult) (s : State Server)
        {j : CheckResult} {after : State Server}
        → conclude web client now new_id computed d r s ≡ ok (some j, after)
        → Records s j after
    unfolding conclude
    conclude-Records now new_id computed d r s {j} {after} h =
        elim (Result-cases
          (evaluate web client now new_id computed d r (add_result web client r s))) [
            | inl (e, c) ↦ absurd (ground (arith, rw (c, conclude) at h))
            | inr ((k, mid), c) ↦
                let keeps = evaluate-Keeps now new_id computed d r (add_result web client r s) c in
                let i : k ≡ j = ground (arith, rw (c, conclude) at h) in
                let w : feed_breaker web client now k (enqueue web client k mid) ≡ after =
                  ground (arith, rw (c, conclude) at h) in
                subst (Records s j) w (
                  subst
                    (λ x. Records s x (feed_breaker web client now k (enqueue web client k mid))) i
                    (record {
                      results = keeps.results ∙ length-append s.results (r ∷ []);
                      outbox = ap (λ o. o ++ event_of k ∷ []) keeps.outbox;
                    }))
          ]

    run_check-Records :
        (now result_id new_id : ℕ) (computed : Bool) (d : Dependency) (region : ℕ)
        (s : State Server) {r : CheckResult} {after : State Server}
        → run_check web client now result_id new_id computed d region s ≡ ok (some r, after)
        → Records s r after
    unfolding run_check record_blocked
    run_check-Records now result_id new_id computed d region s {r} {after} h =
        elim (Option-cases (web.resolve_pinned_target 0 d.endpoint_url)) [
          | inl e ↦
              let blocked =
                new_result web client now result_id d region false none
                  (some (web.blocked_text d.endpoint_url)) in
              let i : blocked ≡ r = ground (arith, rw (e, run_check) at h) in
              let w : record_blocked web client now blocked s ≡ after =
                ground (arith, rw (e, run_check) at h) in
              subst (Records s r) w (
                subst (λ x. Records s x (record_blocked web client now blocked s)) i
                  (record { results = length-append s.results (blocked ∷ []); outbox = refl }))
          | inr (target, e) ↦ conclude-Records now new_id computed d _ s (rw (e, run_check) at h)
        ]

    conclude-some :
        (now new_id : ℕ) (computed : Bool) (d : Dependency) (r : CheckResult) (s : State Server)
        {o : Option CheckResult} {after : State Server}
        → conclude web client now new_id computed d r s ≡ ok (o, after)
        → (j : CheckResult) × (o ≡ some j)
    unfolding conclude
    conclude-some now new_id computed d r s h =
        elim (Result-cases
          (evaluate web client now new_id computed d r (add_result web client r s))) [
            | inl (e, c) ↦ absurd (ground (arith, rw (c, conclude) at h))
            | inr ((k, mid), c) ↦ (k, sym (ground (arith, rw (c, conclude) at h)))
          ]

    run_check-some :
        (now result_id new_id : ℕ) (computed : Bool) (d : Dependency) (region : ℕ)
        (s : State Server) {o : Option CheckResult} {after : State Server}
        → run_check web client now result_id new_id computed d region s ≡ ok (o, after)
        → (r : CheckResult) × (o ≡ some r)
    unfolding run_check
    run_check-some now result_id new_id computed d region s h =
        elim (Option-cases (web.resolve_pinned_target 0 d.endpoint_url)) [
          | inl e ↦ (
            new_result web client now result_id d region false none
                (some (web.blocked_text d.endpoint_url)),
            sym (ground (arith, rw (e, run_check) at h)),
          )
          | inr (target, e) ↦ conclude-some now new_id computed d _ s (rw (e, run_check) at h)
        ]

    -- When `execute_check` returns a result, be it blocked, up or down, it has added one result
    -- and one outbox event, with the id, the outcome and the final quorum of the result that it
    -- returns; when it returns none, nothing has changed.
    pub execute_check_records :
        (now result_id new_id : ℕ) (computed : Bool) (dep region : ℕ) (s : State Server)
        {o : Option CheckResult} {after : State Server}
        → execute_check web client now result_id new_id computed dep region s ≡ ok (o, after)
        → ((r : CheckResult)
            → o ≡ some r
            → (length after.results ≡ length s.results + 1)
              × (after.outbox ≡ s.outbox ++ event_of r ∷ []))
          × (o ≡ none → after ≡ s)
    unfolding execute_check
    execute_check_records now result_id new_id computed dep region s {o} {after} h =
        elim (Option-cases (get_dependency web client dep s)) [
          | inl f ↦
              let w : none ≡ o = ground (arith, rw (f, execute_check) at h) in
              let v : s ≡ after = ground (arith, rw (f, execute_check) at h) in
              (λ r e. absurd (ground (arith, e, w)), λ e. sym v)
          | inr (d, f) ↦ if_active d d.is_active (rw (f, execute_check) at h)
        ]
      where
        if_active :
            (d : Dependency) (active : Bool)
            → (if active
                then run_check web client now result_id new_id computed d region s
                else ok (none, s))
              ≡ ok (o, after)
            → ((r : CheckResult)
                → o ≡ some r
                → (length after.results ≡ length s.results + 1)
                  × (after.outbox ≡ s.outbox ++ event_of r ∷ []))
              × (o ≡ none → after ≡ s)
        if_active d true k =
            let (j, i) = run_check-some now result_id new_id computed d region s k in
            (
              λ r e.
                  (let m = run_check-Records now result_id new_id computed d region s (
                      subst
                        (λ x.
                          run_check web client now result_id new_id computed d region s
                          ≡ ok (x, after))
                        e k) in
                    (m.results, m.outbox)),
              λ e. absurd (ground (arith, e, i)),
            )
        if_active d false k =
            let w : none ≡ o = ground (arith, k) in
            let v : s ≡ after = ground (arith, k) in
            (λ r e. absurd (ground (arith, e, w)), λ e. sym v)
