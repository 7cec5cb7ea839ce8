-- ===== src/Dependencies/Service.antt =====
-- app/modules/dependencies/service.py. The encryption of the headers is a parameter.
use reliastra_backend.Prelude.{
  ℕ, Bool, true, false, Option, none, some, String, List, [], ◌∷◌, ◌==◌, leb, ltb, if◌then◌else◌,
}
use reliastra_backend.Prelude.Text.{Text}
use reliastra_backend.Prelude.Result.{
  Result, ok, err, not_found, validation, conflict, ◌>>=◌, ◌>>◌, require, or_raise,
}
use reliastra_backend.Permissions.{get_dependency_limit, get_min_check_interval}
use reliastra_backend.Dependencies.Model.{
  HttpMethod, Headers, StoredHeaders, encrypted, legacy, Organization, Application, Dependency, Db,
  Patch, get_org, get_application, get_default_application, create_application, get_by_id,
  count_for_org, create, update, soft_delete,
}

-- `encrypt_jsonb` and `decrypt_jsonb`
pub record Cipher : Type 0 where
  pub encrypt : Headers → Text
  pub decrypt : Text → Headers

pub record CreateRequest : Type 0 where
  pub name : String
  pub application_id : Option ℕ
  pub endpoint_url : String
  pub method : HttpMethod
  pub headers : Option Headers
  pub expected_status_codes : List ℕ
  pub timeout_seconds : ℕ
  pub check_interval_seconds : ℕ
  pub regions : List String
  pub alert_threshold_ms : Option ℕ
  pub is_active : Bool

pub record UpdateRequest : Type 0 where
  pub name : Option String
  pub application_id : Option ℕ
  pub endpoint_url : Option String
  pub method : Option HttpMethod
  pub headers : Option Headers
  pub expected_status_codes : Option (List ℕ)
  pub timeout_seconds : Option ℕ
  pub check_interval_seconds : Option ℕ
  pub regions : Option (List String)
  pub alert_threshold_ms : Option ℕ
  pub is_active : Option Bool

module _ (cipher : Cipher) where
  -- `_encode_headers`
  abbrev pub encode_headers : Option Headers → Option StoredHeaders
  encode_headers none = none
  encode_headers (some []) = none
  encode_headers (some (h ∷ hs)) = some (encrypted (cipher.encrypt (h ∷ hs)))

  -- `_decode_headers`
  abbrev pub decode_headers : Option StoredHeaders → Option Headers
  decode_headers none = none
  decode_headers (some (encrypted t)) = some (cipher.decrypt t)
  decode_headers (some (legacy [])) = none
  decode_headers (some (legacy (h ∷ hs))) = some (h ∷ hs)

  -- An application of the organization itself.
  abbrev pub check_application : ℕ → ℕ → Db → Result (Unit {0})
  check_application oid aid db = elim (get_application aid db) [
    | none ↦ err validation
    | some a ↦ require (a.org_id == oid) validation
  ]

  abbrev pub default_or_new : ℕ → ℕ → Option Application → Db → ℕ × Db
  default_or_new oid new_app (some a) db = (a.id, db)
  default_or_new oid new_app none db = (
    new_app,
    create_application (record { id = new_app; org_id = oid; client_id = none; name = "Default" })
        db,
  )

  -- The application of a new dependency, which is made if none is given and there is no default.
  abbrev pub choose_application : ℕ → ℕ → Option ℕ → Db → Result (ℕ × Db)
  choose_application oid new_app (some aid) db = do check_application oid aid db; ok (aid, db)
  choose_application oid new_app none db =
      ok (default_or_new oid new_app (get_default_application oid db) db)

  abbrev pub new_dependency : ℕ → ℕ → ℕ → ℕ → CreateRequest → Dependency
  new_dependency now new_id oid aid request = record {
    id = new_id;
    org_id = oid;
    application_id = some aid;
    name = request.name;
    endpoint_url = request.endpoint_url;
    method = request.method;
    headers = encode_headers request.headers;
    expected_status_codes = request.expected_status_codes;
    timeout_seconds = request.timeout_seconds;
    check_interval_seconds = request.check_interval_seconds;
    next_check_at = some now;
    regions = request.regions;
    alert_threshold_ms = request.alert_threshold_ms;
    is_active = request.is_active;
    is_deleted = false;
    deleted_at = none;
  }

  -- `create_dependency`, with the ids of the new rows
  unfoldable pub create_dependency : ℕ → ℕ → ℕ → ℕ → CreateRequest → Db → Result (Dependency × Db)
  create_dependency now new_id new_app oid request db = do
    org ← or_raise (get_org oid db) not_found
    require (leb (get_min_check_interval org.plan) request.check_interval_seconds) validation
    require (ltb (count_for_org oid db) (get_dependency_limit org.plan)) conflict
    r ← choose_application oid new_app request.application_id db
    ok (
      new_dependency now new_id oid r.0 request,
      create (new_dependency now new_id oid r.0 request) r.1,
    )

  -- The row of an id, for an organization.
  abbrev pub owned : ℕ → Option Dependency → Result Dependency
  owned oid none = err not_found
  owned oid (some d) = if d.org_id == oid then ok d else err not_found

  -- `get_dependency`
  abbrev pub get_dependency : ℕ → ℕ → Db → Result Dependency
  get_dependency oid did db = owned oid (get_by_id did db)

  -- The interval is checked only if the organization is found.
  abbrev pub check_interval : Option Organization → Option ℕ → Result (Unit {0})
  check_interval none seconds = ok tt
  check_interval (some org) none = ok tt
  check_interval (some org) (some seconds) =
      require (leb (get_min_check_interval org.plan) seconds) validation

  abbrev pub check_new_application : ℕ → Option ℕ → Db → Result (Unit {0})
  check_new_application oid none db = ok tt
  check_new_application oid (some aid) db = check_application oid aid db

  -- `update_kwargs`
  abbrev pub update_kwargs : UpdateRequest → Patch
  update_kwargs request = record {
    name = request.name;
    application_id = request.application_id;
    endpoint_url = request.endpoint_url;
    method = request.method;
    headers = encode_headers request.headers;
    expected_status_codes = request.expected_status_codes;
    timeout_seconds = request.timeout_seconds;
    check_interval_seconds = request.check_interval_seconds;
    regions = request.regions;
    alert_threshold_ms = request.alert_threshold_ms;
    is_active = request.is_active;
  }

  unfoldable pub update_dependency : ℕ → ℕ → UpdateRequest → Db → Result Db
  update_dependency oid did request db = do
    d ← get_dependency oid did db
    check_interval (get_org oid db) request.check_interval_seconds
    check_new_application oid request.application_id db
    ok (update d (update_kwargs request) db)

  unfoldable pub delete_dependency : ℕ → ℕ → ℕ → Db → Result Db
  delete_dependency now oid did db = do d ← get_dependency oid did db; ok (soft_delete now d db)

  -- `get_dependency_config_internal`, of which the headers are told; a caller without an
  -- organization is a worker.
  abbrev pub visible : Option ℕ → Dependency → Bool
  visible none d = true
  visible (some oid) d = d.org_id == oid

  abbrev pub config_of : Option ℕ → Option Dependency → Option (Dependency × Option Headers)
  config_of caller none = none
  config_of caller (some d) = if visible caller d then some (d, decode_headers d.headers) else none

  abbrev pub get_dependency_config_internal :
      Option ℕ → ℕ → Db → Option (Dependency × Option Headers)
  get_dependency_config_internal caller did db = config_of caller (get_by_id did db)
