-- ===== src/Incidents/Examples.antt =====
-- The theorems on incidents at a small table, and tests.
use reliastra_backend.Prelude.{◌≡◌, refl, true, none, some, [], ◌∷◌, ◌++◌, arith}
use reliastra_backend.Prelude.Result.{ok, err, not_found, conflict}
use reliastra_backend.Incidents.Model.{
  Incident, opened, resolved, Db, new_incident, is_open_for, update, create,
}
use reliastra_backend.Incidents.Service.{
  check_and_create_incident, resolve_incident, update_incident, update_if_any, close, attribute,
}
use reliastra_backend.Incidents.Unique.{OneOpen, open_count, check_and_create_incident-Created}
use reliastra_backend.Pagination.Keyset.{follow_cursors}
use reliastra_backend.Incidents.Listing.{of_org, list_incidents, times, list_incidents_repeats}

-- Organization 1: dependency 5 is down since 900.
abbrev down : Incident
down = new_incident 900 50 1 5 "timeout"

abbrev site : Db
site = record {
  incidents = down ∷ [];
  correlations = [];
  attributions = [];
  alerts = [];
  evidence_tasks = [];
}

-- Another check has opened an incident of dependency 6 in the meantime.
abbrev winner : Incident
winner = new_incident 1000 60 1 6 "refused"

both_OneOpen : OneOpen (down ∷ winner ∷ [])
both_OneOpen d = ground arith

check_and_create_incident-Created_example :
    (i : Incident) × (after : Db) × (check_and_create_incident 1001 61 1 6 "refused"
        (winner ∷ [])
        site
      ≡ ok (i, after))
    × (is_open_for 6 i ≡ true)
    × (open_count 6 after.incidents ≡ 1)
    × OneOpen after.incidents
check_and_create_incident-Created_example =
    check_and_create_incident-Created 1001 61 1 6 "refused" (winner ∷ []) site both_OneOpen

-- The loser of the race gets the winner's incident.
race_is_lost :
    check_and_create_incident 1001 61 1 6 "refused" (winner ∷ []) site
    ≡ ok (winner, record site { incidents = down ∷ winner ∷ [] })
unfolding check_and_create_incident create
race_is_lost = refl

site_OneOpen : OneOpen (down ∷ [])
site_OneOpen d = ground arith

abbrev repaired : Db
repaired = record {
  incidents = record down { status = resolved; resolved_at = some 2000 } ∷ [];
  correlations = [];
  attributions = 50 ∷ [];
  alerts = [];
  evidence_tasks = 50 ∷ [];
}

repairs : resolve_incident 2000 true 50 (some 1) site ≡ ok repaired
unfolding resolve_incident close update attribute
repairs = refl

foreign_incident : resolve_incident 2000 true 50 (some 2) site ≡ err not_found
unfolding resolve_incident
foreign_incident = refl

-- A user reopens an incident beside an open one of the same dependency: the index refuses.
reopening_is_refused :
    update_incident 2000 true 1 50
      (record { status = some opened; severity = none; root_cause = none; description = none })
      (record repaired { incidents = repaired.incidents ++ new_incident 3000 51 1 5 "again" ∷ [] })
    ≡ err conflict
unfolding update_incident update_if_any update
reopening_is_refused = refl

-- Two incidents of organization 1, in pages of one.
abbrev outage : Db
outage = record site { incidents = down ∷ winner ∷ [] }

latest_first : of_org 1 outage ≡ winner ∷ down ∷ []
latest_first = refl

list_incidents_repeats_example :
    follow_cursors (λ c. list_incidents 1 1 c none none outage) 3 none ≡ times 3 (winner ∷ [])
list_incidents_repeats_example = list_incidents_repeats 1 0 3 none none outage (omega arith) none
