-- ===== src/Incidents/Resolution.antt =====
-- Resolution: what it closes, and that it happens once.
use reliastra_backend.Prelude.{
  ℕ, ◌+◌, ◌≤◌, ◌≡◌, refl, sym, ap, ◌∙◌, Bool, true, false, ◌&&◌, Option, some, List, [], ◌∷◌, ◌++◌,
  ◌==◌, find_first, is_some, update_where, count_where, if◌then◌else◌, or_else, arith, Bool-cases,
  Option-cases, inl, inr, find_first_sound,
}
use mathlib.Core.Option
use mathlib.Core.Path.{subst}
use reliastra_backend.Prelude.Tables.{find_first-update_where}
use reliastra_backend.Prelude.Result.{ok}
use reliastra_backend.Incidents.Model.{
  Incident, Db, is_open, is_resolved, is_open_for, has_id, get_by_id, update, patch_incident,
}
use reliastra_backend.Incidents.Service.{attribute, resolution, close, resolve_incident}
use reliastra_backend.Incidents.Unique.{OneOpen, open_count}

-- An update that satisfies no more rows leaves the count no greater, and smaller if it takes one away.
count_where-update_where_le :
    (p q : Incident → Bool) (f : Incident → Incident) (rows : List Incident)
    → ((x : Incident) → p (f x) ≡ false)
    → count_where p (update_where q f rows) ≤ count_where p rows
count_where-update_where_le p q f [] h = omega arith
count_where-update_where_le p q f (x ∷ xs) h =
    ground (arith, h x, count_where-update_where_le p q f xs h)

count_where-update_where_lt :
    (p q : Incident → Bool) (f : Incident → Incident) (rows : List Incident) {i : Incident}
    → ((x : Incident) → p (f x) ≡ false)
    → find_first q rows ≡ some i
    → p i ≡ true
    → count_where p (update_where q f rows) + 1 ≤ count_where p rows
count_where-update_where_lt p q f [] h k l = absurd (ground (arith, k))
count_where-update_where_lt p q f (x ∷ xs) h k l = elim (Bool-cases (q x)) [
  | inl e ↦
      let w : x ≡ _ = ap (λ o. or_else o x) (rw e at k) in
      rw e (ground (arith, h x, w, l, count_where-update_where_le p q f xs h))
  | inr e ↦ rw e (ground (arith, count_where-update_where_lt p q f xs h (rw e at k) l))
]

abbrev pub closed : ℕ → Incident → List Incident → List Incident
closed now i rows = update_where (has_id i.id) (patch_incident (resolution now)) rows

-- What closing an incident leaves.
record Closed (now : ℕ) (i : Incident) (db after : Db) : Type 0 where
  pub rows : after.incidents ≡ closed now i db.incidents
  pub evidence : after.evidence_tasks ≡ db.evidence_tasks ++ i.id ∷ []

attribute_keeps :
    (computed : Bool) (n : ℕ) (db : Db)
    → ((attribute computed n db).incidents ≡ db.incidents)
      × ((attribute computed n db).evidence_tasks ≡ db.evidence_tasks)
unfolding attribute
attribute_keeps computed n db = ground arith

close-Closed :
    (now : ℕ) (computed : Bool) (i : Incident) (db : Db)
    → (after : Db) × (close now computed i db ≡ ok after) × Closed now i db after
unfolding close update
close-Closed now computed i db =
    let updated : Db = record db { incidents = closed now i db.incidents } in
    let (rows, evidence) = attribute_keeps computed i.id updated in
    let attributed = attribute computed i.id updated in
    (
      record attributed { evidence_tasks = attributed.evidence_tasks ++ i.id ∷ [] },
      refl,
      record { rows = rows; evidence = ap (λ es. es ++ i.id ∷ []) evidence },
    )

found_id : (n : ℕ) (db : Db) {i : Incident} → get_by_id n db ≡ some i → i.id ≡ n
found_id n db h = ground (arith, find_first_sound (has_id n) db.incidents h)

-- While no dependency has two open incidents, resolving an open incident for its own organization
-- succeeds, leaves no open incident of its dependency, asks for one evidence report, and leaves no
-- dependency with two open incidents.
pub resolve_incident_closes :
    (now : ℕ) (computed : Bool) (n : ℕ) (db : Db) {i : Incident}
    → get_by_id n db ≡ some i
    → is_open i.status ≡ true
    → OneOpen db.incidents
    → (after : Db) × (resolve_incident now computed n (some i.org_id) db ≡ ok after)
      × (open_count i.dependency_id after.incidents ≡ 0)
      × (after.evidence_tasks ≡ db.evidence_tasks ++ n ∷ [])
      × OneOpen after.incidents
unfolding resolve_incident
resolve_incident_closes now computed n db {i} f o u =
    let (after, done, c) = close-Closed now computed i db in
    let same = found_id n db f in
    let less =
      count_where-update_where_lt (is_open_for i.dependency_id) (has_id i.id)
        (patch_incident (resolution now)) db.incidents {i = i} (λ x. ground arith)
        (subst (λ m. find_first (has_id m) db.incidents ≡ some i) (sym same) f)
        (ground (arith, o)) in
    (
      after,
      rw f (ground (arith, o, done)),
      ap (open_count i.dependency_id) c.rows ∙ omega (arith, less, u i.dependency_id),
      c.evidence ∙ ap (λ m. db.evidence_tasks ++ m ∷ []) same,
      λ d. rw c.rows (
          omega (
            arith,
            u d,
            count_where-update_where_le (is_open_for d) (has_id i.id)
                (patch_incident (resolution now)) db.incidents (λ x. ground arith),
          )),
    )

Closed-found :
    (now n : ℕ) (i : Incident) (db after : Db)
    → get_by_id n db ≡ some i
    → Closed now i db after
    → get_by_id n after ≡ some (patch_incident (resolution now) i)
Closed-found now n i db after f c =
    ap (find_first (has_id n)) c.rows
    ∙ find_first-update_where (has_id n) (has_id i.id) (patch_incident (resolution now))
        db.incidents (λ x. refl)
    ∙ ap (Option.map (λ x. if has_id i.id x then patch_incident (resolution now) x else x)) f
    ∙ ground arith

resolved_again :
    (now later : ℕ) (again : Bool) (n : ℕ) (org : Option ℕ) (i : Incident) (after : Db)
    → get_by_id n after ≡ some (patch_incident (resolution now) i)
    → (or_else org i.org_id == i.org_id) ≡ true
    → resolve_incident later again n org after ≡ ok after
unfolding resolve_incident
resolved_again now later again n org i after f v = rw (f, resolve_incident, v) refl

-- Resolution happens once: when it succeeded, a second call for the same organization, at any
-- time, succeeds and changes nothing, so that neither an attribution nor an evidence report is
-- made twice.
pub resolve_incident_twice :
    (now later : ℕ) (computed again : Bool) (n : ℕ) (org : Option ℕ) (db : Db) {after : Db}
    → resolve_incident now computed n org db ≡ ok after
    → resolve_incident later again n org after ≡ ok after
unfolding resolve_incident
resolve_incident_twice now later computed again n org db {after} h =
    elim (Option-cases (get_by_id n db)) [
      | inl f ↦ absurd (ground (arith, rw f at h))
      | inr (i, f) ↦ elim (Bool-cases (or_else org i.org_id == i.org_id)) [
        | inl v ↦ elim (Bool-cases (is_resolved i.status && is_some i.resolved_at)) [
          | inl r ↦
              let w : db ≡ after = ground (arith, rw (f, v, r) at h) in
              subst (λ d. resolve_incident later again n org d ≡ ok d) w
                (rw (f, resolve_incident, v, r) refl)
          | inr r ↦
              let (made, done, c) = close-Closed now computed i db in
              let w : made ≡ after = ground (arith, done, rw (f, v, r) at h) in
              rw w at
                (resolved_again now later again n org i made (Closed-found now n i db made f c) v)
        ]
        | inr v ↦ absurd (ground (arith, rw (f, v) at h))
      ]
    ]
