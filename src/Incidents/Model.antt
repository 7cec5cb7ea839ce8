-- ===== src/Incidents/Model.antt =====
-- app/modules/incidents/models.py, constants.py and repository.py: the tables of incidents and
-- correlations, and the queries and writes on them. Rows are in the order of creation.
use reliastra_backend.Prelude.{
  ℕ, ◌+◌, Bool, true, false, not, ◌&&◌, Option, none, some, String, List, [], ◌∷◌, ◌++◌, leb, ◌==◌,
  any, find_first, select, update_where, if◌then◌else◌, or_else, or_some,
}
use reliastra_backend.Prelude.Result.{Result, ok, err, conflict}

pub data IncidentSeverity : Type 0 where
  critical major minor : IncidentSeverity

pub data IncidentStatus : Type 0 where
  opened resolved false_positive : IncidentStatus

pub data RootCause : Type 0 where
  vendor_failure network_issue config_error unknown : RootCause

pub data CorrelationMethod : Type 0 where
  temporal manual ml : CorrelationMethod

pub record Incident : Type 0 where
  pub id : ℕ
  pub org_id : ℕ
  pub dependency_id : ℕ
  pub started_at : ℕ
  pub resolved_at : Option ℕ
  pub severity : IncidentSeverity
  pub status : IncidentStatus
  pub root_cause : RootCause
  pub description : Option String

-- The confidence is in hundredths.
pub record IncidentCorrelation : Type 0 where
  pub incident_id : ℕ
  pub correlated_dependency_id : ℕ
  pub correlation_confidence : ℕ
  pub time_window_seconds : ℕ
  pub correlation_method : CorrelationMethod

-- The two tables; the incidents with an attribution result; the incidents for which an alert was
-- dispatched and those for which an evidence report was asked for, in order.
pub record Db : Type 0 where
  pub incidents : List Incident
  pub correlations : List IncidentCorrelation
  pub attributions : List ℕ
  pub alerts : List ℕ
  pub evidence_tasks : List ℕ

abbrev pub is_open : IncidentStatus → Bool
is_open opened = true
is_open resolved = false
is_open false_positive = false

abbrev pub is_resolved : IncidentStatus → Bool
is_resolved opened = false
is_resolved resolved = true
is_resolved false_positive = false

-- `Incident.dependency_id == d and Incident.status == "open"`
abbrev pub is_open_for : ℕ → Incident → Bool
is_open_for d i = (i.dependency_id == d) && is_open i.status

abbrev pub has_id : ℕ → Incident → Bool
has_id n i = i.id == n

abbrev pub get_by_id : ℕ → Db → Option Incident
get_by_id n db = find_first (has_id n) db.incidents

abbrev pub get_open_for_dependency : ℕ → Db → Option Incident
get_open_for_dependency d db = find_first (is_open_for d) db.incidents

abbrev pub new_incident : ℕ → ℕ → ℕ → ℕ → String → Incident
new_incident now new_id org dep description = record {
  id = new_id;
  org_id = org;
  dependency_id = dep;
  started_at = now;
  resolved_at = none;
  severity = major;
  status = opened;
  root_cause = unknown;
  description = some description;
}

-- `create` and its flush: the partial unique index `uq_incidents_one_open_per_dependency` refuses
-- a second open incident of a dependency.
unfoldable pub create : Incident → Db → Result Db
create i db =
    if any (is_open_for i.dependency_id) db.incidents
    then err conflict
    else ok (record db { incidents = db.incidents ++ i ∷ [] })

-- The columns that `update` may set; a value that is missing is skipped, as is every other column.
pub record Patch : Type 0 where
  pub status : Option IncidentStatus
  pub severity : Option IncidentSeverity
  pub root_cause : Option RootCause
  pub description : Option String
  pub resolved_at : Option ℕ

abbrev pub patch_incident : Patch → Incident → Incident
patch_incident p i = record i {
  status = or_else p.status i.status;
  severity = or_else p.severity i.severity;
  root_cause = or_else p.root_cause i.root_cause;
  description = or_some p.description i.description;
  resolved_at = or_some p.resolved_at i.resolved_at;
}

-- Another incident of the dependency is open.
abbrev pub rival : Incident → Incident → Bool
rival i other = is_open_for i.dependency_id other && not (other.id == i.id)

-- `update` and its flush: the index refuses to open an incident beside another open one.
unfoldable pub update : Incident → Patch → Db → Result Db
update i p db =
    if is_open (patch_incident p i).status && any (rival i) db.incidents
    then err conflict
    else ok (record db { incidents = update_where (has_id i.id) (patch_incident p) db.incidents })

-- `list_open_in_window`: `center - window <= started_at <= center + window`
abbrev pub in_window : ℕ → ℕ → ℕ → ℕ → Incident → Bool
in_window org center window excluded i =
    (i.org_id == org)
    && leb center (i.started_at + window)
    && leb i.started_at (center + window)
    && is_open i.status
    && not (i.id == excluded)

unfoldable pub list_open_in_window : ℕ → ℕ → ℕ → ℕ → Db → List Incident
list_open_in_window org center window excluded db =
    select (in_window org center window excluded) db.incidents

unfoldable pub create_correlation : ℕ → ℕ → ℕ → ℕ → CorrelationMethod → Db → Db
create_correlation incident dep confidence window method db = record db {
  correlations =
      db.correlations
      ++ record {
        incident_id = incident;
        correlated_dependency_id = dep;
        correlation_confidence = confidence;
        time_window_seconds = window;
        correlation_method = method;
      }
        ∷ [];
}
