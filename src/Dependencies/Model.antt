-- ===== src/Dependencies/Model.antt =====
-- app/modules/dependencies/models.py, constants.py, schemas.py and repository.py, and the applications
-- of app/modules/agencies/repository.py.
use reliastra_backend.Prelude.{
  ℕ, Bool, true, false, not, ◌&&◌, Option, some, String, List, [], ◌∷◌, ◌++◌, ◌==◌, is_none,
  find_first, count_where, update_where, or_else, or_some, str_eq,
}
use reliastra_backend.Prelude.Text.{Text}

pub data HttpMethod : Type 0 where
  get head post : HttpMethod

-- The rows that the service reads: of an organization, the plan.
pub record Organization : Type 0 where
  pub id : ℕ
  pub plan : Text

pub record Application : Type 0 where
  pub id : ℕ
  pub org_id : ℕ
  pub client_id : Option ℕ
  pub name : String

-- Headers as a request gives them: names and values.
abbrev pub Headers : Type 0
Headers = List (Text × Text)

-- The column of the headers: an object with the key `_encrypted_data`, or, in rows from before the
-- encryption, the headers themselves.
pub data StoredHeaders : Type 0 where
  encrypted : Text → StoredHeaders
  legacy : Headers → StoredHeaders

pub record Dependency : Type 0 where
  pub id : ℕ
  pub org_id : ℕ
  pub application_id : Option ℕ
  pub name : String
  pub endpoint_url : String
  pub method : HttpMethod
  pub headers : Option StoredHeaders
  pub expected_status_codes : List ℕ
  pub timeout_seconds : ℕ
  pub check_interval_seconds : ℕ
  pub next_check_at : Option ℕ
  pub regions : List String
  pub alert_threshold_ms : Option ℕ
  pub is_active : Bool
  pub is_deleted : Bool
  pub deleted_at : Option ℕ

pub record Db : Type 0 where
  pub organizations : List Organization
  pub applications : List Application
  pub dependencies : List Dependency

-- `OrganizationRepository.get_by_id`
abbrev pub get_org : ℕ → Db → Option Organization
get_org oid db = find_first (λ (o : Organization). o.id == oid) db.organizations

-- AgencyRepository; the oldest row is the first.
abbrev pub get_application : ℕ → Db → Option Application
get_application aid db = find_first (λ (a : Application). a.id == aid) db.applications

abbrev pub get_default_application : ℕ → Db → Option Application
get_default_application oid db =
    find_first
      (λ (a : Application). (a.org_id == oid) && is_none a.client_id && str_eq a.name "Default")
      db.applications

abbrev pub create_application : Application → Db → Db
create_application a db = record db { applications = db.applications ++ a ∷ [] }

-- DependencyRepository
abbrev pub get_by_id : ℕ → Db → Option Dependency
get_by_id did db =
    find_first (λ (d : Dependency). (d.id == did) && not d.is_deleted) db.dependencies

abbrev pub is_of : ℕ → Dependency → Bool
is_of oid d = (d.org_id == oid) && not d.is_deleted

abbrev pub count_for_org : ℕ → Db → ℕ
count_for_org oid db = count_where (is_of oid) db.dependencies

abbrev pub create : Dependency → Db → Db
create d db = record db { dependencies = db.dependencies ++ d ∷ [] }

-- What `update` and the request of an update carry: `none` is a field that is not given.
pub record Patch : Type 0 where
  pub name : Option String
  pub application_id : Option ℕ
  pub endpoint_url : Option String
  pub method : Option HttpMethod
  pub headers : Option StoredHeaders
  pub expected_status_codes : Option (List ℕ)
  pub timeout_seconds : Option ℕ
  pub check_interval_seconds : Option ℕ
  pub regions : Option (List String)
  pub alert_threshold_ms : Option ℕ
  pub is_active : Option Bool

-- A key that is not in `_UPDATABLE_FIELDS` is passed over, as `application_id` and `alert_threshold_ms`.
abbrev pub patch : Patch → Dependency → Dependency
patch p d = record d {
  name = or_else p.name d.name;
  endpoint_url = or_else p.endpoint_url d.endpoint_url;
  method = or_else p.method d.method;
  headers = or_some p.headers d.headers;
  expected_status_codes = or_else p.expected_status_codes d.expected_status_codes;
  timeout_seconds = or_else p.timeout_seconds d.timeout_seconds;
  check_interval_seconds = or_else p.check_interval_seconds d.check_interval_seconds;
  regions = or_else p.regions d.regions;
  is_active = or_else p.is_active d.is_active;
}

-- A change of the row that was read.
abbrev pub change : ℕ → (Dependency → Dependency) → Db → Db
change did f db = record db {
  dependencies = update_where (λ (d : Dependency). d.id == did) f db.dependencies;
}

abbrev pub update : Dependency → Patch → Db → Db
update d p db = change d.id (patch p) db

abbrev pub deleted : ℕ → Dependency → Dependency
deleted now d = record d { is_deleted = true; is_active = false; deleted_at = some now }

abbrev pub soft_delete : ℕ → Dependency → Db → Db
soft_delete now d db = change d.id (deleted now) db
