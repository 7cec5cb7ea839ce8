-- ===== src/Incidents/Listing.antt =====
-- The listings of incidents: `list_for_org` and `list_with_correlations_for_org` of repository.py, with
-- their routes in router.py and app/modules/dashboard/router.py.
use reliastra_backend.Prelude.{
  ℕ, zero, suc, ◌*◌, ◌≤◌, ◌<◌, ◌≡◌, refl, ap, ◌∙◌, Bool, true, false, ◌&&◌, ◌||◌, ◌⊎◌, Option, none,
  some, List, [], ◌++◌, ◌==◌, ltb, length, take, select, arith,
}
use reliastra_backend.Prelude.Tables.{IsKeyed}
use reliastra_backend.Prelude.Order.{
  order_by, order_by-IsSorted, order_by-All, select-IsKeyed, select-All, rows-IsRowOf, IsRowOf,
}
use reliastra_backend.Pagination.{Page, slice_page}
use reliastra_backend.Pagination.Keyset.{
  request, go_on, follow_cursors, follow_cursors-rows, full_page,
}
use reliastra_backend.Incidents.Model.{
  IncidentSeverity, critical, major, minor, IncidentStatus, opened, resolved, false_positive,
  Incident, Db,
}

abbrev pub key : Incident → ℕ
key i = i.id

-- Tests for the optional filters.
abbrev same_status : IncidentStatus → IncidentStatus → Bool
same_status opened opened = true
same_status resolved resolved = true
same_status false_positive false_positive = true
same_status opened resolved = false
same_status opened false_positive = false
same_status resolved opened = false
same_status resolved false_positive = false
same_status false_positive opened = false
same_status false_positive resolved = false

abbrev same_severity : IncidentSeverity → IncidentSeverity → Bool
same_severity critical critical = true
same_severity major major = true
same_severity minor minor = true
same_severity critical major = false
same_severity critical minor = false
same_severity major critical = false
same_severity major minor = false
same_severity minor critical = false
same_severity minor major = false

abbrev pub passes_status : Option IncidentStatus → Incident → Bool
passes_status none i = true
passes_status (some s) i = same_status s i.status

abbrev pub passes_severity : Option IncidentSeverity → Incident → Bool
passes_severity none i = true
passes_severity (some s) i = same_severity s i.severity

-- ORDER BY started_at DESC
abbrev pub is_later : Incident → Incident → Bool
is_later a b = ltb b.started_at a.started_at

abbrev pub matching : ℕ → Option IncidentStatus → Option IncidentSeverity → Db → List Incident
matching oid status severity db = order_by is_later (
    select
      (λ (i : Incident). (i.org_id == oid) && passes_status status i && passes_severity severity i)
      db.incidents)

-- `list_for_org`
abbrev pub list_for_org :
    ℕ → ℕ → Option IncidentStatus → Option IncidentSeverity → Db → List Incident
list_for_org oid limit status severity db = take limit (matching oid status severity db)

-- The route `list_incidents`, which takes a cursor and does not use it.
unfoldable pub list_incidents :
    ℕ → ℕ → Option ℕ → Option IncidentStatus → Option IncidentSeverity → Db → Page Incident
list_incidents oid limit cursor status severity db =
    slice_page key (list_for_org oid (suc limit) status severity db) limit

-- ORDER BY started_at DESC, id DESC, which is also the order of the cursor
abbrev pub is_before : Incident → Incident → Bool
is_before a b = ltb b.started_at a.started_at || ((a.started_at == b.started_at) && ltb b.id a.id)

abbrev pub of_org : ℕ → Db → List Incident
of_org oid db = order_by is_before (select (λ (i : Incident). i.org_id == oid) db.incidents)

-- The incidents of `get_incident_timeline`, page by page; each comes with its correlations.
unfoldable pub get_incident_timeline : ℕ → ℕ → Option ℕ → Db → Page Incident
get_incident_timeline oid limit cursor db =
    request is_before key db.incidents (of_org oid db) limit cursor

transitive : (a b c : Incident) → is_before a b ≡ true → is_before b c ≡ true → is_before a c ≡ true
transitive a b c h k = ground arith

total :
    (a b : Incident) → (key b == key a) ≡ false → (is_before a b ≡ true) ⊎ (is_before b a ≡ true)
total a b h = ground arith

irreflexive : (a : Incident) → is_before a a ≡ false
irreflexive a = ground arith

asymmetric : (a b : Incident) → is_before a b ≡ true → is_before b a ≡ false
asymmetric a b h = ground arith

-- Over a table with distinct ids, a client that follows the cursors of the timeline gets every incident
-- of the organization, once and the latest first, with as many requests as it takes to cover them with
-- pages.
pub timeline_complete :
    (oid limit requests : ℕ) (db : Db)
    → IsKeyed key db.incidents
    → length (of_org oid db) ≤ requests * limit
    → follow_cursors (λ c. get_incident_timeline oid limit c db) requests none ≡ of_org oid db
unfolding get_incident_timeline
timeline_complete oid limit requests db k enough =
    follow_cursors-rows is_before key irreflexive asymmetric db.incidents (of_org oid db) limit
      (order_by-IsSorted is_before key transitive total _
        (select-IsKeyed key (λ (i : Incident). i.org_id == oid) db.incidents k))
      (order_by-All is_before (IsRowOf key db.incidents) _ (
        select-All (IsRowOf key db.incidents) (λ (i : Incident). i.org_id == oid) db.incidents
          (rows-IsRowOf key db.incidents k)))
      requests enough

abbrev pub times : ℕ → List Incident → List Incident
times zero xs = []
times (suc n) xs = xs ++ times n xs

-- The route `list_incidents` does not get past its first page: while more incidents match than a page
-- holds, following its cursors gives the first page again and again, as often as one asks, and the
-- other incidents never come.
pub list_incidents_repeats :
    (oid n requests : ℕ) (status : Option IncidentStatus) (severity : Option IncidentSeverity)
    (db : Db)
    → suc n < length (matching oid status severity db)
    → (cursor : Option ℕ)
    → follow_cursors (λ c. list_incidents oid (suc n) c status severity db) requests cursor
      ≡ times requests (take (suc n) (matching oid status severity db))
unfolding list_incidents
list_incidents_repeats oid n zero status severity db h cursor = refl
list_incidents_repeats oid n (suc requests) status severity db h cursor =
    let (items, (c, next)) = full_page key n (matching oid status severity db) h in
    ap
      (λ xs.
        xs
        ++ go_on
            (λ d.
              follow_cursors (λ e. list_incidents oid (suc n) e status severity db) requests
                (some d))
            (list_incidents oid (suc n) cursor status severity db).next_cursor)
      items
    ∙ ap
        (λ o.
          take (suc n) (matching oid status severity db)
          ++ go_on
              (λ d.
                follow_cursors (λ e. list_incidents oid (suc n) e status severity db) requests
                  (some d))
              o)
        next
    ∙ ap (λ r. take (suc n) (matching oid status severity db) ++ r)
        (list_incidents_repeats oid n requests status severity db h (some c))
