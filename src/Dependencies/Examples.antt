-- ===== src/Dependencies/Examples.antt =====
-- The theorems on dependencies at a concrete table, and tests.
use reliastra_backend.Prelude.{◌≡◌, refl, true, false, none, some, [], ◌∷◌, arith}
use reliastra_backend.Prelude.Text.{codes, lower}
use reliastra_backend.Prelude.Result.{ok, err, validation}
use reliastra_backend.Permissions.{get_dependency_limit, get_min_check_interval}
use reliastra_backend.Dependencies.Model.{get, head, Dependency, Db}
use reliastra_backend.Dependencies.Service.{
  Cipher, CreateRequest, UpdateRequest, new_dependency, create_dependency, get_dependency,
  update_dependency, delete_dependency, get_dependency_config_internal,
}
use reliastra_backend.Dependencies.Steps.{creates, deletes, done, then_step}
use reliastra_backend.Dependencies.Limits.{IsWithinPlans, Reach-IsWithinPlans}
use reliastra_backend.Dependencies.Tenancy.{others, Step-others}
use reliastra_backend.Dependencies.Own.{own, own_answer, own_creation}
use reliastra_backend.Dependencies.Confined.{requests_are_confined}

-- A cipher for headers of one name.
abbrev cipher : Cipher
cipher = record { encrypt = λ hs. codes "secret"; decrypt = λ t. (codes "X-Key", codes "v") ∷ [] }

-- An organization on the free plan, and an empty table.
abbrev empty : Db
empty = record {
  organizations = record { id = 1; plan = codes "Free" } ∷ [];
  applications = [];
  dependencies = [];
}

abbrev request : CreateRequest
request = record {
  name = "api";
  application_id = none;
  endpoint_url = "https://a.test";
  method = get;
  headers = some ((codes "X-Key", codes "v") ∷ []);
  expected_status_codes = 200 ∷ [];
  timeout_seconds = 10;
  check_interval_seconds = 60;
  regions = "us-east" ∷ [];
  alert_threshold_ms = some 500;
  is_active = true;
}

abbrev first : Dependency
first = new_dependency cipher 50 10 1 7 request

abbrev one : Db
one = record {
  organizations = record { id = 1; plan = codes "Free" } ∷ [];
  applications = record { id = 7; org_id = 1; client_id = none; name = "Default" } ∷ [];
  dependencies = first ∷ [];
}

created : create_dependency cipher 50 10 7 1 request empty ≡ ok (first, one)
unfolding create_dependency get_min_check_interval get_dependency_limit lower
created = refl

too_often :
    create_dependency cipher 50 11 7 1 (record request { check_interval_seconds = 59 }) one
    ≡ err validation
unfolding create_dependency get_min_check_interval get_dependency_limit lower
too_often = refl

foreign_application :
    create_dependency cipher 50 11 7 1 (record request { application_id = some 8 }) one
    ≡ err validation
unfolding create_dependency get_min_check_interval get_dependency_limit lower
foreign_application = refl

empty-IsWithinPlans : IsWithinPlans empty
empty-IsWithinPlans = record { keyed = tt; limited = λ oid org known. omega arith; paced = tt }

Reach-IsWithinPlans_example : IsWithinPlans one
Reach-IsWithinPlans_example =
    Reach-IsWithinPlans cipher (then_step 1 done (creates 50 10 7 request first refl created))
      empty-IsWithinPlans

-- An update that asks for another application and threshold, and for empty headers.
abbrev wish : UpdateRequest
wish = record {
  name = some "API";
  application_id = some 7;
  endpoint_url = none;
  method = some head;
  headers = some [];
  expected_status_codes = none;
  timeout_seconds = none;
  check_interval_seconds = some 120;
  regions = none;
  alert_threshold_ms = some 900;
  is_active = none;
}

abbrev changed : Db
changed = record one {
  dependencies = record first { name = "API"; method = head; check_interval_seconds = 120 } ∷ [];
}

updated : update_dependency cipher 1 10 wish one ≡ ok changed
unfolding update_dependency get_min_check_interval lower
updated = refl

abbrev gone : Db
gone = record one {
  dependencies = record first { is_deleted = true; is_active = false; deleted_at = some 90 } ∷ [];
}

deleted_first : delete_dependency cipher 90 1 10 one ≡ ok gone
unfolding delete_dependency
deleted_first = refl

Step-others_example : others 1 gone ≡ others 1 one
Step-others_example = Step-others cipher 1 (refl, tt) (deletes 90 10 deleted_first)

-- A table of two organizations.
abbrev shared : Db
shared = record one { dependencies = record first { id = 9; org_id = 2 } ∷ first ∷ [] }

requests_are_confined_example :
    (get_dependency cipher 1 9 shared ≡ get_dependency cipher 1 9 (own 1 shared))
    × (get_dependency_config_internal cipher (some 1) 9 shared
        ≡ get_dependency_config_internal cipher (some 1) 9 (own 1 shared))
    × (own_creation 1 (create_dependency cipher 50 11 7 1 request shared)
        ≡ create_dependency cipher 50 11 7 1 request (own 1 shared))
    × (own_answer 1 (update_dependency cipher 1 9 wish shared)
        ≡ update_dependency cipher 1 9 wish (own 1 shared))
    × (own_answer 1 (delete_dependency cipher 50 1 9 shared)
        ≡ delete_dependency cipher 50 1 9 (own 1 shared))
requests_are_confined_example =
    requests_are_confined cipher 50 11 7 1 9 request wish shared (refl, (refl, tt))
