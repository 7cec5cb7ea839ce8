-- ===== src/Incidents/Unique.antt =====
-- At most one incident of a dependency is open, whatever the order of concurrent checks.
use reliastra_backend.Prelude.{
  ℕ, ◌≤◌, ◌≡◌, refl, sym, ap, ◌∙◌, Bool, true, false, none, some, String, List, [], ◌∷◌, ◌++◌, ◌==◌,
  any, find_first, count_where, count_where-append, arith, Bool-cases, Option-cases, inl, inr,
  find_first_sound,
}
use reliastra_backend.Prelude.Result.{Failure, ok, err, Result-cases}
use reliastra_backend.Incidents.Model.{
  Incident, Db, is_open_for, get_open_for_dependency, new_incident, create, create_correlation,
}
use reliastra_backend.Incidents.Service.{correlate_all, correlate, reuse, check_and_create_incident}

-- The rows of the partial unique index.
abbrev pub open_count : ℕ → List Incident → ℕ
open_count d rows = count_where (is_open_for d) rows

abbrev pub OneOpen : List Incident → Type 0
OneOpen rows = (d : ℕ) → open_count d rows ≤ 1

incidents-correlate_all :
    (i : Incident) (os : List Incident) (db : Db) → (correlate_all i os db).incidents ≡ db.incidents
unfolding correlate_all create_correlation
incidents-correlate_all i [] db = refl
incidents-correlate_all i (o ∷ os) db = elim (Bool-cases (o.dependency_id == i.dependency_id)) [
  | inl e ↦ rw e (incidents-correlate_all i os db)
  | inr e ↦ rw e (incidents-correlate_all i os _)
]

incidents-correlate : (i : Incident) (db : Db) → (correlate i db).incidents ≡ db.incidents
unfolding correlate
incidents-correlate i db = incidents-correlate_all i _ db

any-count :
    (p : Incident → Bool) (rows : List Incident) → any p rows ≡ false → count_where p rows ≡ 0
any-count p [] h = refl
any-count p (x ∷ xs) h = ground (arith, any-count p xs)

find_first-count :
    (p : Incident → Bool) (rows : List Incident) {i : Incident}
    → find_first p rows ≡ some i
    → 1 ≤ count_where p rows
find_first-count p [] h = absurd (ground (arith, h))
find_first-count p (x ∷ xs) h = elim (Bool-cases (p x)) [
  | inl e ↦ rw e (omega arith)
  | inr e ↦ rw e (omega (arith, find_first-count p xs (rw e at h)))
]

-- The index keeps the invariant: a row is only added where its dependency has no open incident.
create-OneOpen :
    (i : Incident) (db : Db) {after : Db}
    → create i db ≡ ok after
    → OneOpen db.incidents
    → OneOpen after.incidents
unfolding create
create-OneOpen i db {after} h k d =
    elim (Bool-cases (any (is_open_for i.dependency_id) db.incidents)) [
      | inl e ↦ absurd (ground (arith, rw e at h))
      | inr e ↦
          let w : record db { incidents = db.incidents ++ i ∷ [] } ≡ after =
            ground (arith, rw e at h) in
          rw (sym (ap (λ (x : Db). x.incidents) w)) (
            rw (count_where-append (is_open_for d) db.incidents (i ∷ []))
              (elim (Bool-cases (i.dependency_id == d)) [
                | inl f ↦ ground (arith, any-count (is_open_for i.dependency_id) db.incidents e, f)
                | inr f ↦ ground (arith, k d, f)
              ]))
    ]

OneOpen-prefix : (xs ys : List Incident) → OneOpen (xs ++ ys) → OneOpen xs
OneOpen-prefix xs ys h d = omega (arith, h d, count_where-append (is_open_for d) xs ys)

count-one :
    (d : ℕ) (rows : List Incident) {i : Incident}
    → OneOpen rows
    → find_first (is_open_for d) rows ≡ some i
    → (is_open_for d i ≡ true) × (open_count d rows ≡ 1)
count-one d rows h f = (
  find_first_sound (is_open_for d) rows f,
  omega (arith, find_first-count (is_open_for d) rows f, h d),
)

-- What the creation of an incident ends with.
record Created (dep : ℕ) (i : Incident) (after : Db) : Type 0 where
  pub current : is_open_for dep i ≡ true
  pub only : open_count dep after.incidents ≡ 1
  pub unique : OneOpen after.incidents

found-Created :
    (dep : ℕ) (db : Db) {i : Incident}
    → OneOpen db.incidents
    → get_open_for_dependency dep db ≡ some i
    → Created dep i db
found-Created dep db h f = record {
  current = (count-one dep db.incidents h f).0;
  only = (count-one dep db.incidents h f).1;
  unique = h;
}

create-Created :
    (now new_id org dep : ℕ) (message : String) (db : Db) {after : Db}
    → create (new_incident now new_id org dep message) db ≡ ok after
    → OneOpen db.incidents
    → Created dep (new_incident now new_id org dep message) after
unfolding create
create-Created now new_id org dep message db {after} h k =
    let i = new_incident now new_id org dep message in
    let u = create-OneOpen i db h k in
    elim (Bool-cases (any (is_open_for dep) db.incidents)) [
      | inl e ↦ absurd (ground (arith, rw e at h))
      | inr e ↦
          let w : record db { incidents = db.incidents ++ i ∷ [] } ≡ after =
            ground (arith, rw e at h) in
          record {
            current = ground arith;
            only =
                ap (λ (x : Db). open_count dep x.incidents) (sym w)
                ∙ count_where-append (is_open_for dep) db.incidents (i ∷ [])
                ∙ ground (arith, any-count (is_open_for dep) db.incidents e);
            unique = u;
          }
    ]

any-find_first :
    (p : Incident → Bool) (rows : List Incident)
    → any p rows ≡ true
    → (i : Incident) × (find_first p rows ≡ some i)
any-find_first p [] h = absurd (ground (arith, h))
any-find_first p (x ∷ xs) h = elim (Bool-cases (p x)) [
  | inl e ↦ (x, rw e refl)
  | inr e ↦ let (i, f) = any-find_first p xs (rw e at h) in (i, rw e f)
]

-- The insertion is refused only beside an open incident of the dependency.
refused_found :
    (i : Incident) (db : Db) {e : Failure}
    → create i db ≡ err e
    → (w : Incident) × (get_open_for_dependency i.dependency_id db ≡ some w)
unfolding create
refused_found i db h = elim (Bool-cases (any (is_open_for i.dependency_id) db.incidents)) [
  | inl e ↦ any-find_first (is_open_for i.dependency_id) db.incidents e
  | inr e ↦ absurd (ground (arith, rw e at h))
]

lost_race :
    (now new_id org dep : ℕ) (message : String) (others : List Incident) (db : Db) {e : Failure}
    {w : Incident}
    → get_open_for_dependency dep db ≡ none
    → create
        (new_incident now new_id org dep message)
        (record db { incidents = db.incidents ++ others })
      ≡ err e
    → get_open_for_dependency dep (record db { incidents = db.incidents ++ others }) ≡ some w
    → check_and_create_incident now new_id org dep message others db
      ≡ ok (w, record db { incidents = db.incidents ++ others })
unfolding check_and_create_incident
lost_race now new_id org dep message others db f k g =
    rw (f, check_and_create_incident, k, reuse, g) refl

-- If the partial unique index held when the row is written, the check is answered with an open
-- incident of its dependency, whatever concurrent checks have written in between; it is the only
-- open incident of the dependency, and the index holds again.
pub check_and_create_incident-Created :
    (now new_id org dep : ℕ) (message : String) (others : List Incident) (db : Db)
    → OneOpen (db.incidents ++ others)
    → (i : Incident) × (after : Db) × (check_and_create_incident now new_id org dep message others
          db
        ≡ ok (i, after))
      × (is_open_for dep i ≡ true)
      × (open_count dep after.incidents ≡ 1)
      × OneOpen after.incidents
unfolding check_and_create_incident
check_and_create_incident-Created now new_id org dep message others db h =
    elim (Option-cases (get_open_for_dependency dep db)) [
      | inr (i, f) ↦
          let c = found-Created dep db (OneOpen-prefix db.incidents others h) f in
          (i, db, rw (f, check_and_create_incident) refl, c.current, c.only, c.unique)
      | inl f ↦
          let seen : Db = record db { incidents = db.incidents ++ others } in
          let i = new_incident now new_id org dep message in
          elim (Result-cases (create i seen)) [
            | inr (made, k) ↦
                let c = create-Created now new_id org dep message seen k h in
                let same = incidents-correlate i made in
                let after = correlate i made in
                (
                  i,
                  record after { alerts = after.alerts ++ i.id ∷ [] },
                  rw (f, check_and_create_incident, k) refl,
                  c.current,
                  ap (open_count dep) same ∙ c.only,
                  λ d. rw same (c.unique d),
                )
            | inl (e, k) ↦
                let (w, g) = refused_found i seen k in
                let c = found-Created dep seen h g in
                (
                  w,
                  seen,
                  lost_race now new_id org dep message others db f k g,
                  c.current,
                  c.only,
                  c.unique,
                )
          ]
    ]
