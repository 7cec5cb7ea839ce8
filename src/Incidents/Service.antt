-- ===== src/Incidents/Service.antt =====
-- app/modules/incidents/service.py: creation under the race of two checks, resolution, updates by
-- a user and correlation. Alerts, attribution and evidence reports are computed elsewhere; what is
-- kept is that they were asked for.
use reliastra_backend.Prelude.{
  ℕ, Bool, false, not, ◌&&◌, ◌||◌, Option, none, some, String, List, [], ◌∷◌, ◌++◌, ◌==◌, any,
  is_some, or_else, if◌then◌else◌,
}
use reliastra_backend.Prelude.Result.{
  Result, ok, err, not_found, conflict, require, or_raise, ◌>>=◌, ◌>>◌,
}
use reliastra_backend.Incidents.Model.{
  Incident, IncidentStatus, resolved, IncidentSeverity, RootCause, CorrelationMethod, temporal, Db,
  Patch, is_resolved, get_by_id, get_open_for_dependency, new_incident, create, update,
  list_open_in_window, create_correlation,
}

abbrev pub temporal_window_seconds : ℕ
temporal_window_seconds = 300

abbrev pub default_correlation_confidence : ℕ
default_correlation_confidence = 85

-- The loop of `TemporalCorrelationStrategy.correlate`: both directions of each pair.
unfoldable pub correlate_all : Incident → List Incident → Db → Db
correlate_all i [] db = db
correlate_all i (o ∷ os) db =
    if o.dependency_id == i.dependency_id
    then correlate_all i os db
    else correlate_all i os (
        create_correlation o.id i.dependency_id default_correlation_confidence
          temporal_window_seconds temporal
          (create_correlation i.id o.dependency_id default_correlation_confidence
            temporal_window_seconds temporal db))

-- `TemporalCorrelationStrategy.correlate`
unfoldable pub correlate : Incident → Db → Db
correlate i db =
    correlate_all i (list_open_in_window i.org_id i.started_at temporal_window_seconds i.id db) db

-- The winner's incident after a lost race, or the integrity error again.
abbrev pub reuse : ℕ → Db → Result (Incident × Db)
reuse dep db = elim (get_open_for_dependency dep db) [ some i ↦ ok (i, db) | none ↦ err conflict ]

-- `check_and_create_incident`. Other transactions commit `others` between the first query and the
-- insertion.
unfoldable pub check_and_create_incident :
    ℕ → ℕ → ℕ → ℕ → String → List Incident → Db → Result (Incident × Db)
check_and_create_incident now new_id org dep message others db =
    elim (get_open_for_dependency dep db) [
      | some existing ↦ ok (existing, db)
      | none ↦
          let seen : Db = record db { incidents = db.incidents ++ others } in
          let i = new_incident now new_id org dep message in
          elim (create i seen) [
            | err e ↦ reuse dep seen
            | ok created ↦
                let after = correlate i created in
                ok (i, record after { alerts = after.alerts ++ i.id ∷ [] })
          ]
    ]

-- The attribution of a resolved incident: once, and only if the engine, which may raise, succeeds.
unfoldable pub attribute : Bool → ℕ → Db → Db
attribute computed n db =
    if any (λ m. m == n) db.attributions
    then db
    else if computed
    then record db { attributions = db.attributions ++ n ∷ [] }
    else db

-- `not incident or (org_id and incident.org_id != org_id)`
abbrev pub visible : ℕ → Option ℕ → Db → Result Incident
visible n org db = do
  i ← or_raise (get_by_id n db) not_found
  require (or_else org i.org_id == i.org_id) not_found
  ok i

abbrev pub resolution : ℕ → Patch
resolution now = record {
  status = some resolved;
  severity = none;
  root_cause = none;
  description = none;
  resolved_at = some now;
}

-- What `resolve_incident` does to an incident that is not resolved yet.
unfoldable pub close : ℕ → Bool → Incident → Db → Result Db
close now computed i db = do
  updated ← update i (resolution now) db
  let attributed = attribute computed i.id updated
  ok (record attributed { evidence_tasks = attributed.evidence_tasks ++ i.id ∷ [] })

-- `resolve_incident`
unfoldable pub resolve_incident : ℕ → Bool → ℕ → Option ℕ → Db → Result Db
resolve_incident now computed n org db = do
  i ← visible n org db
  if is_resolved i.status && is_some i.resolved_at then ok db else close now computed i db

pub record IncidentUpdateRequest : Type 0 where
  pub status : Option IncidentStatus
  pub severity : Option IncidentSeverity
  pub root_cause : Option RootCause
  pub description : Option String

abbrev pub is_resolving : Option IncidentStatus → Bool
is_resolving none = false
is_resolving (some s) = is_resolved s

abbrev pub update_kwargs : IncidentUpdateRequest → Patch
update_kwargs r = record {
  status = if is_resolving r.status then none else r.status;
  severity = r.severity;
  root_cause = r.root_cause;
  description = r.description;
  resolved_at = none;
}

abbrev pub is_empty_patch : Patch → Bool
is_empty_patch p =
    not (is_some p.status || is_some p.severity || is_some p.root_cause || is_some p.description)

-- `update(...) if update_kwargs else incident`
unfoldable pub update_if_any : Incident → Patch → Db → Result Db
update_if_any i p db = if is_empty_patch p then ok db else update i p db

-- `update_incident`
unfoldable pub update_incident : ℕ → Bool → ℕ → ℕ → IncidentUpdateRequest → Db → Result Db
update_incident now computed org n r db = do
  i ← visible n (some org) db
  updated ← update_if_any i (update_kwargs r) db
  if is_resolving r.status
      then resolve_incident now computed i.id (some org) updated
      else ok updated

-- `manually_correlate`
unfoldable pub manually_correlate : ℕ → ℕ → ℕ → ℕ → ℕ → CorrelationMethod → Db → Result Db
manually_correlate org n dep confidence window method db = do
  i ← visible n (some org) db
  ok (create_correlation i.id dep confidence window method db)
