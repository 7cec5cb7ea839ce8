-- ===== src/Checks/Execution.antt =====
-- What a check does: the quorum that opens and closes incidents, and what every check records.
use reliastra_backend.Prelude.{
  ℕ, ◌≡◌, refl, sym, ap, ◌∙◌, Bool, true, false, not, ◌+◌, ◌&&◌, ◌||◌, leb, select, List, [], ◌∷◌,
  ◌++◌, ◌==◌, any, update_where, arith, Bool-cases, inl, inr, if◌then◌else◌,
}
use reliastra_backend.Prelude.Result.{ok}
use reliastra_backend.Breaker.Client.{Redis}
use reliastra_backend.Incidents.Model as Incidents
use reliastra_backend.Incidents.Model.{Incident, get_open_for_dependency, is_open_for}
use reliastra_backend.Incidents.Service.{check_and_create_incident}
use reliastra_backend.Incidents.Unique.{OneOpen, open_count, check_and_create_incident-Created}
use reliastra_backend.Checks.Probe.{Web}
use reliastra_backend.Checks.Quorum.{has_quorum, has_quorum_iff}
use reliastra_backend.Checks.Service.{
  Dependency, CheckResult, State, failing, list_recent_for_dependency, reverse_onto, is_live,
  message_or, confirm, evaluate_failure,
}

any-reverse_onto :
    (q : CheckResult → Bool) (xs acc : List CheckResult)
    → any q (reverse_onto xs acc) ≡ (any q xs || any q acc)
any-reverse_onto q [] acc = refl
any-reverse_onto q (x ∷ xs) acc = ground (arith, any-reverse_onto q xs (x ∷ acc))

any-selected :
    (q p : CheckResult → Bool) (xs : List CheckResult)
    → any q (select p xs) ≡ any (λ x. p x && q x) xs
any-selected q p [] = refl
any-selected q p (x ∷ xs) = elim (Bool-cases (p x)) [
  | inl e ↦ rw e (ap (λ b. if q x then true else b) (any-selected q p xs))
  | inr e ↦ rw e (any-selected q p xs)
]

module _ {Server : Type 0} (web : Web) (client : Redis Server) where
  -- A result of a dependency in the last 60 seconds.
  abbrev pub is_recent : ℕ → ℕ → CheckResult → Bool
  is_recent now dep x = (x.dependency_id == dep) && leb now (x.executed_at + 60)

  -- The dependency of the check is not deleted, and another region has failed within the window.
  abbrev pub other_failing : ℕ → CheckResult → State Server → Bool
  other_failing now r s =
      is_live web client r.dependency_id s.dependencies
      && any (λ x. is_recent now r.dependency_id x && (failing x && not (x.region == r.region)))
          s.results

  -- The query finds what the tables hold.
  other_failing_found :
      (now : ℕ) (d : Dependency) (r : CheckResult) (s : State Server)
      → r.dependency_id ≡ d.id
      → other_failing now r s
        ≡ any
            (λ x. failing x && not (x.region == r.region))
            (list_recent_for_dependency web client now d.id s)
  unfolding list_recent_for_dependency
  other_failing_found now d r s same =
      ap
        (λ n.
          is_live web client n s.dependencies
          && any (λ x. is_recent now n x && (failing x && not (x.region == r.region))) s.results)
        same
      ∙ sym (elim (Bool-cases (is_live web client d.id s.dependencies)) [
        | inr e ↦ rw e refl
        | inl e ↦ rw e (
            any-reverse_onto (λ x. failing x && not (x.region == r.region))
              (select (is_recent now d.id) s.results) []
            ∙ ap (λ b. b || false)
                (any-selected (λ x. failing x && not (x.region == r.region)) (is_recent now d.id)
                  s.results)
            ∙ or_false _)
      ])
    where
      or_false : (b : Bool) → (b || false) ≡ (true && b)
      or_false true = refl
      or_false false = refl

  confirmed_failure :
      (now new_id : ℕ) (d : Dependency) (r : CheckResult) (s : State Server)
      {made : Incident × Incidents.Db}
      → has_quorum
          (λ (x : CheckResult). x.region)
          failing
          r.region
          (list_recent_for_dependency web client now d.id s)
        ≡ true
      → check_and_create_incident now new_id d.org_id d.id
          (message_or r.error_message "Quorum confirmed failure")
          []
          s.incidents
        ≡ ok made
      → evaluate_failure web client now new_id d r s
        ≡ ok (
          confirm web client r,
          record s {
            results =
                update_where (λ (x : CheckResult). x.id == r.id) (confirm web client) s.results;
            incidents = made.1;
          },
        )
  unfolding evaluate_failure
  confirmed_failure now new_id d r s q c = rw (q, c) refl

  -- If no dependency has two open incidents, the judgement of a failed check of a dependency,
  -- whose result is not confirmed yet, succeeds: it confirms the result exactly if a result of
  -- another region in the last 60 seconds failed too and the dependency is not deleted, and then the
  -- dependency has exactly one open incident; otherwise nothing changes. No dependency has two open
  -- incidents afterwards.
  pub failure_quorum :
      (now new_id : ℕ) (d : Dependency) (r : CheckResult) (s : State Server)
      → r.dependency_id ≡ d.id
      → r.quorum_confirmed ≡ false
      → OneOpen s.incidents.incidents
      → (judged : CheckResult) × (after : State Server) × (evaluate_failure web client now new_id d
            r s
          ≡ ok (judged, after))
        × (judged.quorum_confirmed ≡ other_failing now r s)
        × OneOpen after.incidents.incidents
        × (other_failing now r s ≡ true → open_count d.id after.incidents.incidents ≡ 1)
        × (other_failing now r s ≡ false → after ≡ s)
  unfolding evaluate_failure
  failure_quorum now new_id d r s same fresh one =
      let rows = list_recent_for_dependency web client now d.id s in
      let q = has_quorum_iff (λ (x : CheckResult). x.region) failing r.region rows in
      elim (Bool-cases (any (λ x. failing x && not (x.region == r.region)) rows)) [
        | inl o ↦
            let (i, db, made, current, only, unique) =
              check_and_create_incident-Created now new_id d.org_id d.id
                (message_or r.error_message "Quorum confirmed failure") [] s.incidents
                (λ k. rw (append_nil s.incidents.incidents) (one k)) in
            let there : other_failing now r s ≡ true = other_failing_found now d r s same ∙ o in
            (
              confirm web client r,
              record s {
                results =
                    update_where (λ (x : CheckResult). x.id == r.id) (confirm web client) s.results;
                incidents = db;
              },
              confirmed_failure now new_id d r s (q ∙ o) made,
              sym there,
              unique,
              λ t. only,
              λ t. absurd (ground (arith, t, there)),
            )
        | inr o ↦
            let there : other_failing now r s ≡ false = other_failing_found now d r s same ∙ o in
            (
              r,
              s,
              rw (q ∙ o) refl,
              fresh ∙ sym there,
              one,
              λ t. absurd (ground (arith, t, there)),
              λ t. refl,
            )
      ]
    where
      append_nil : (rows : List Incident) → rows ++ [] ≡ rows
      append_nil [] = refl
      append_nil (x ∷ xs) = ap (λ r. x ∷ r) (append_nil xs)
