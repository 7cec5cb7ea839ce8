-- ===== src/Incidents/Correlation.antt =====
-- The correlations of a new incident: both directions of every pair.
use reliastra_backend.Prelude.{
  ℕ, ◌+◌, ◌≡◌, refl, ◌∙◌, Bool, false, not, ◌&&◌, List, [], ◌∷◌, ◌==◌, select, count_where,
  count_where-append, if◌then◌else◌, arith, Bool-cases, inl, inr,
}
use reliastra_backend.Incidents.Model.{
  Incident, temporal, CorrelationMethod, Db, create_correlation, list_open_in_window, in_window,
}
use reliastra_backend.Incidents.Service.{correlate_all, correlate}

-- The correlations that say that the incident goes with the dependency.
abbrev pub links : ℕ → ℕ → Db → ℕ
links incident dep db =
    count_where (λ c. (c.incident_id == incident) && (c.correlated_dependency_id == dep))
      db.correlations

-- The incidents of a list that are of the dependency, and those under an id.
abbrev pub of_dependency : ℕ → Incident → Bool
of_dependency d o = o.dependency_id == d

links-create_correlation :
    (n d i e c w : ℕ) (m : CorrelationMethod) (db : Db)
    → links n d (create_correlation i e c w m db)
      ≡ links n d db + (if (i == n) && (e == d) then 1 else 0)
unfolding create_correlation
links-create_correlation n d i e c w m db = count_where-append _ db.correlations _ ∙ ground arith

-- No incident of the list is the incident itself.
abbrev Others : ℕ → List Incident → Type 0
Others n os = count_where (λ o. o.id == n) os ≡ 0

links_own :
    (i : Incident) (d : ℕ) (os : List Incident) (db : Db)
    → Others i.id os
    → links i.id d (correlate_all i os db)
      ≡ links i.id d db + (if i.dependency_id == d then 0 else count_where (of_dependency d) os)
unfolding correlate_all
links_own i d [] db h = ground arith
links_own i d (o ∷ os) db h = elim (Bool-cases (o.dependency_id == i.dependency_id)) [
  | inl e ↦ rw e (links_own i d os db (ground (arith, h)) ∙ ground (arith, e))
  | inr e ↦
      let first = create_correlation i.id o.dependency_id 85 300 temporal db in
      rw e (
        links_own i d os (create_correlation o.id i.dependency_id 85 300 temporal first)
          (ground (arith, h))
        ∙ ground (
          arith,
          h,
          e,
          links-create_correlation i.id d o.id i.dependency_id 85 300 temporal first,
          links-create_correlation i.id d i.id o.dependency_id 85 300 temporal db,
        ))
]

-- The incidents under an id that are of another dependency.
abbrev pub elsewhere : ℕ → ℕ → Incident → Bool
elsewhere n d o = (o.id == n) && not (o.dependency_id == d)

links_back :
    (i : Incident) (n : ℕ) (os : List Incident) (db : Db)
    → (i.id == n) ≡ false
    → links n i.dependency_id (correlate_all i os db)
      ≡ links n i.dependency_id db + count_where (elsewhere n i.dependency_id) os
unfolding correlate_all
links_back i n [] db h = ground arith
links_back i n (o ∷ os) db h = elim (Bool-cases (o.dependency_id == i.dependency_id)) [
  | inl e ↦ rw e (links_back i n os db h ∙ ground (arith, e))
  | inr e ↦
      let first = create_correlation i.id o.dependency_id 85 300 temporal db in
      rw e (
        links_back i n os (create_correlation o.id i.dependency_id 85 300 temporal first) h
        ∙ ground (
          arith,
          h,
          e,
          links-create_correlation n i.dependency_id o.id i.dependency_id 85 300 temporal first,
          links-create_correlation n i.dependency_id i.id o.dependency_id 85 300 temporal db,
        ))
]

window-Others :
    (org center window n : ℕ) (rows : List Incident)
    → Others n (select (in_window org center window n) rows)
window-Others org center window n [] = refl
window-Others org center window n (o ∷ os) = ground (arith, window-Others org center window n os)

-- The correlation of an incident links it to each dependency as often as another open incident of
-- that dependency began within 300 seconds of it in the organization, never to its own, and links
-- each such incident back to the incident's dependency.
pub correlate_both_ways :
    (i : Incident) (d n : ℕ) (db : Db)
    → (links i.id d (correlate i db)
        ≡ links i.id d db
          + (if i.dependency_id == d
              then 0
              else count_where
                  (of_dependency d)
                  (list_open_in_window i.org_id i.started_at 300 i.id db)))
      × ((i.id == n) ≡ false
          → links n i.dependency_id (correlate i db)
            ≡ links n i.dependency_id db
              + count_where
                  (elsewhere n i.dependency_id)
                  (list_open_in_window i.org_id i.started_at 300 i.id db))
unfolding correlate list_open_in_window
correlate_both_ways i d n db = (
  links_own i d (list_open_in_window i.org_id i.started_at 300 i.id db) db
      (window-Others i.org_id i.started_at 300 i.id db.incidents),
  links_back i n (list_open_in_window i.org_id i.started_at 300 i.id db) db,
)
