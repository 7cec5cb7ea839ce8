-- ===== src/Checks/Recovery.antt =====
-- The recovery quorum: when a successful check closes the open incident of its dependency.
use reliastra_backend.Prelude.{
  ℕ, ◌≡◌, refl, ap, ◌∙◌, Bool, true, false, not, ◌&&◌, some, List, [], ◌∷◌, ◌==◌, any, find_first,
  take, or_else, arith, Bool-cases, inl, inr, find_first_sound,
}
use mathlib.Core.Path.{subst}
use reliastra_backend.Prelude.Tables.{IsKeyed}
use reliastra_backend.Prelude.Result.{ok}
use reliastra_backend.Breaker.Client.{Redis}
use reliastra_backend.Incidents.Model as Incidents
use reliastra_backend.Incidents.Model.{
  Incident, get_open_for_dependency, is_open_for, is_open, has_id,
}
use reliastra_backend.Incidents.Service.{resolve_incident}
use reliastra_backend.Incidents.Unique.{OneOpen, open_count}
use reliastra_backend.Incidents.Resolution.{resolve_incident_closes}
use reliastra_backend.Checks.Probe.{Web}
use reliastra_backend.Checks.Quorum.{has_quorum, has_quorum_iff}
use reliastra_backend.Checks.Service.{
  Dependency, CheckResult, State, succeeding, list_recent_for_dependency, evaluate_success,
}

found_any :
    (p q : Incident → Bool) (rows : List Incident) {i : Incident}
    → find_first p rows ≡ some i
    → any q rows ≡ false
    → q i ≡ false
found_any p q [] h k = absurd (ground (arith, h))
found_any p q (x ∷ xs) {i} h k = elim (Bool-cases (p x)) [
  | inl e ↦ let w : x ≡ i = ap (λ o. or_else o x) (rw e at h) in ground (arith, w, k)
  | inr e ↦ found_any p q xs (rw e at h) (ground (arith, k))
]

-- In a table whose ids are different, a row that any search finds is found by its id.
found_by_id :
    (p : Incident → Bool) (rows : List Incident) {i : Incident}
    → IsKeyed (λ x. x.id) rows
    → find_first p rows ≡ some i
    → find_first (has_id i.id) rows ≡ some i
found_by_id p [] k h = absurd (ground (arith, h))
found_by_id p (x ∷ xs) {i} k h = elim (Bool-cases (p x)) [
  | inl e ↦
      let w : x ≡ i = ap (λ o. or_else o x) (rw e at h) in
      subst (λ j. find_first (has_id j.id) (x ∷ xs) ≡ some j) w (ground arith)
  | inr e ↦
      let f = found_by_id p xs k.1 (rw e at h) in
      let n = found_any p (λ y. y.id == x.id) xs (rw e at h) k.0 in ground (arith, f, n)
]

module _ {Server : Type 0} (web : Web) (client : Redis Server) where
  -- Another region has succeeded among the latest four results of the window, and the dependency is not
  -- deleted.
  abbrev pub other_succeeding : ℕ → Dependency → CheckResult → State Server → Bool
  other_succeeding now d r s =
      any (λ x. succeeding x && not (x.region == r.region))
        (take 4 (list_recent_for_dependency web client now d.id s))

  resolving :
      (now : ℕ) (computed : Bool) (d : Dependency) (r : CheckResult) (s : State Server)
      {i : Incident} {after : Incidents.Db}
      → get_open_for_dependency d.id s.incidents ≡ some i
      → has_quorum
          (λ (x : CheckResult). x.region)
          succeeding
          r.region
          (take 4 (list_recent_for_dependency web client now d.id s))
        ≡ true
      → resolve_incident now computed i.id (some i.org_id) s.incidents ≡ ok after
      → evaluate_success web client now computed d r s ≡ ok (r, record s { incidents = after })
  unfolding evaluate_success
  resolving now computed d r s f q c = rw (f, evaluate_success, q, c) refl

  waiting :
      (now : ℕ) (computed : Bool) (d : Dependency) (r : CheckResult) (s : State Server)
      {i : Incident}
      → get_open_for_dependency d.id s.incidents ≡ some i
      → has_quorum
          (λ (x : CheckResult). x.region)
          succeeding
          r.region
          (take 4 (list_recent_for_dependency web client now d.id s))
        ≡ false
      → evaluate_success web client now computed d r s ≡ ok (r, s)
  unfolding evaluate_success
  waiting now computed d r s f q = rw (f, evaluate_success, q) refl

  -- While an incident of the dependency is open, incident ids differ and no dependency has two open
  -- incidents, the judgement of a successful check succeeds: one success of another region among the
  -- latest four results of the last 60 seconds leaves no open incident of the dependency, if it is not
  -- deleted; without one, or if it is deleted, nothing changes.
  pub recovery_quorum :
      (now : ℕ) (computed : Bool) (d : Dependency) (r : CheckResult) (s : State Server)
      {i : Incident}
      → get_open_for_dependency d.id s.incidents ≡ some i
      → IsKeyed (λ (x : Incident). x.id) s.incidents.incidents
      → OneOpen s.incidents.incidents
      → (after : State Server) × (evaluate_success web client now computed d r s ≡ ok (r, after))
        × (other_succeeding now d r s ≡ true → open_count d.id after.incidents.incidents ≡ 0)
        × (other_succeeding now d r s ≡ false → after ≡ s)
  recovery_quorum now computed d r s {i} f keyed one =
      let q =
        has_quorum_iff (λ (x : CheckResult). x.region) succeeding r.region
          (take 4 (list_recent_for_dependency web client now d.id s)) in
      let sound = find_first_sound (is_open_for d.id) s.incidents.incidents f in
      elim (Bool-cases (other_succeeding now d r s)) [
        | inl o ↦
            let (db, done, zero_open, evidence, unique) =
              resolve_incident_closes now computed i.id s.incidents {i = i}
                (found_by_id (is_open_for d.id) s.incidents.incidents keyed f)
                (ground (arith, sound)) one in
            let dep : i.dependency_id ≡ d.id = ground (arith, sound) in
            (
              record s { incidents = db },
              resolving now computed d r s f (q ∙ o) done,
              λ t. subst (λ n. open_count n db.incidents ≡ 0) dep zero_open,
              λ t. absurd (ground (arith, t, o)),
            )
        | inr o ↦
            (s, waiting now computed d r s f (q ∙ o), λ t. absurd (ground (arith, t, o)), λ t. refl)
      ]
