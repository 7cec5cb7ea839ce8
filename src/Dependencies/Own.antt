-- ===== src/Dependencies/Own.antt =====
-- The rows of one organization alone, and what reads, updates and deletions do to them.
use reliastra_backend.Prelude.{
  ℕ, ◌≡◌, refl, sym, ap, ◌∙◌, Bool, false, not, ◌&&◌, Option, none, some, List, [], ◌∷◌, ◌==◌, any,
  find_first, select, count_where, update_where, arith, Bool-cases, inl, inr,
}
use reliastra_backend.Prelude.Tables.{IsKeyed}
use reliastra_backend.Prelude.Result.{Result, ok, err, ◌>>=◌, ◌>>◌}
use reliastra_backend.Dependencies.Model.{
  Dependency, Db, get_org, is_of, change, patch, deleted, update, soft_delete,
}
use reliastra_backend.Dependencies.Service.{
  Cipher, UpdateRequest, owned, get_dependency, check_interval, check_new_application,
  update_kwargs, update_dependency, delete_dependency,
}
use reliastra_backend.Dependencies.Steps.{key}

-- The tables without the dependencies of other organizations.
abbrev pub own : ℕ → Db → Db
own oid db = record db {
  dependencies = select (λ (d : Dependency). d.org_id == oid) db.dependencies;
}

-- The same of an answer.
abbrev pub own_answer : ℕ → Result Db → Result Db
own_answer oid (err e) = err e
own_answer oid (ok db) = ok (own oid db)

abbrev pub own_creation : ℕ → Result (Dependency × Db) → Result (Dependency × Db)
own_creation oid (err e) = err e
own_creation oid (ok (d, db)) = ok (d, own oid db)

select-update_where :
    (p q : Dependency → Bool) (f : Dependency → Dependency) (rows : List Dependency)
    → ((x : Dependency) → p (f x) ≡ p x)
    → select p (update_where q f rows) ≡ update_where q f (select p rows)
select-update_where p q f [] keeps = refl
select-update_where p q f (x ∷ xs) keeps =
    let rest = select-update_where p q f xs keeps in
    elim (Bool-cases (q x)) [
      | inl a ↦ elim (Bool-cases (p x)) [
        | inl b ↦ rw (a, keeps x, b, a) (ap (λ r. f x ∷ r) rest)
        | inr b ↦ rw (a, keeps x, b) rest
      ]
      | inr a ↦ elim (Bool-cases (p x)) [
        | inl b ↦ rw (a, b, a) (ap (λ r. x ∷ r) rest)
        | inr b ↦ rw (a, b) rest
      ]
    ]

pub count_where-own :
    (oid : ℕ) (rows : List Dependency)
    → count_where (is_of oid) (select (λ (d : Dependency). d.org_id == oid) rows)
      ≡ count_where (is_of oid) rows
count_where-own oid [] = refl
count_where-own oid (x ∷ xs) = elim (Bool-cases (x.org_id == oid)) [
  | inl e ↦ ground (arith, e, count_where-own oid xs)
  | inr e ↦ ground (arith, e, count_where-own oid xs)
]

none_found :
    (did oid : ℕ) (rows : List Dependency)
    → any (λ y. key y == did) rows ≡ false
    → find_first
        (λ (x : Dependency). (x.id == did) && not x.is_deleted)
        (select (λ (d : Dependency). d.org_id == oid) rows)
      ≡ none
none_found did oid [] n = refl
none_found did oid (x ∷ xs) n = elim (Bool-cases (x.org_id == oid)) [
  | inl e ↦ ground (arith, e, n, none_found did oid xs (ground (arith, n)))
  | inr e ↦ ground (arith, e, none_found did oid xs (ground (arith, n)))
]

module _ (cipher : Cipher) where
  pub owned-own :
      (oid did : ℕ) (rows : List Dependency)
      → IsKeyed key rows
      → owned cipher oid (
          find_first
            (λ (x : Dependency). (x.id == did) && not x.is_deleted)
            (select (λ (d : Dependency). d.org_id == oid) rows))
        ≡ owned cipher oid (find_first (λ (x : Dependency). (x.id == did) && not x.is_deleted) rows)
  owned-own oid did [] k = refl
  owned-own oid did (x ∷ xs) k = elim (Bool-cases (x.org_id == oid)) [
    | inl e ↦ elim (Bool-cases ((x.id == did) && not x.is_deleted)) [
      | inl f ↦ rw (e, f) refl
      | inr f ↦ rw (e, f) (owned-own oid did xs k.1)
    ]
    | inr e ↦ elim (Bool-cases ((x.id == did) && not x.is_deleted)) [
      | inr f ↦ rw (e, f) (owned-own oid did xs k.1)
      | inl f ↦
          rw (e, f)
            (let same : x.id ≡ did = ground (arith, f) in
              rw (none_found did oid xs (ap (λ n. any (λ y. key y == n) xs) (sym same) ∙ k.0), e)
                refl)
    ]
  ]

  -- A change of the row that was read.
  changed-own :
      (oid : ℕ) (m : Result (Unit {0})) (did : ℕ) (f : Dependency → Dependency) (db : Db)
      → ((x : Dependency) → (f x).org_id ≡ x.org_id)
      → own_answer oid (◌>>=◌ m (λ u. ok (change did f db)))
        ≡ ◌>>=◌ m (λ u. ok (change did f (own oid db)))
  changed-own oid (err e) did f db keeps = refl
  changed-own oid (ok u) did f db keeps =
      ap (λ rows. ok (record db { dependencies = rows }))
        (select-update_where (λ (x : Dependency). x.org_id == oid) (λ (x : Dependency). x.id == did)
          f db.dependencies (λ x. ap (λ n. n == oid) (keeps x)))

  update_at :
      (oid : ℕ) (request : UpdateRequest) (db : Db) (m : Result Dependency)
      (interval application : Result (Unit {0}))
      → own_answer oid (
          ◌>>=◌ m
            (λ d. interval >> (application >> ok (update d (update_kwargs cipher request) db))))
        ≡ ◌>>=◌ m (λ d.
          interval >> (application >> ok (update d (update_kwargs cipher request) (own oid db))))
  update_at oid request db (err e) interval application = refl
  update_at oid request db (ok d) (err e) application = refl
  update_at oid request db (ok d) (ok u) application =
      changed-own oid application d.id (patch (update_kwargs cipher request)) db (λ x. refl)

  check_new_application-own :
      (oid : ℕ) (o : Option ℕ) (db : Db)
      → check_new_application cipher oid o db ≡ check_new_application cipher oid o (own oid db)
  check_new_application-own oid none db = refl
  check_new_application-own oid (some aid) db = refl

  pub update_dependency-own :
      (oid did : ℕ) (request : UpdateRequest) (db : Db)
      → IsKeyed key db.dependencies
      → own_answer oid (update_dependency cipher oid did request db)
        ≡ update_dependency cipher oid did request (own oid db)
  unfolding update_dependency
  update_dependency-own oid did request db k =
      update_at oid request db (get_dependency cipher oid did db)
        (check_interval cipher (get_org oid db) request.check_interval_seconds)
        (check_new_application cipher oid request.application_id db)
      ∙ ap
          (λ m. ◌>>=◌ m (λ d.
            check_interval cipher (get_org oid db) request.check_interval_seconds
            >> (check_new_application cipher oid request.application_id db
                >> ok (update d (update_kwargs cipher request) (own oid db)))))
          (sym (owned-own oid did db.dependencies k))
      ∙ ap
          (λ c. ◌>>=◌ (get_dependency cipher oid did (own oid db)) (λ d.
            check_interval cipher (get_org oid db) request.check_interval_seconds
            >> (c >> ok (update d (update_kwargs cipher request) (own oid db)))))
          (check_new_application-own oid request.application_id db)

  delete_at :
      (oid now : ℕ) (db : Db) (m : Result Dependency)
      → own_answer oid (◌>>=◌ m (λ d. ok (soft_delete now d db)))
        ≡ ◌>>=◌ m (λ d. ok (soft_delete now d (own oid db)))
  delete_at oid now db (err e) = refl
  delete_at oid now db (ok d) = changed-own oid (ok tt) d.id (deleted now) db (λ x. refl)

  pub delete_dependency-own :
      (now oid did : ℕ) (db : Db)
      → IsKeyed key db.dependencies
      → own_answer oid (delete_dependency cipher now oid did db)
        ≡ delete_dependency cipher now oid did (own oid db)
  unfolding delete_dependency
  delete_dependency-own now oid did db k =
      delete_at oid now db (get_dependency cipher oid did db)
      ∙ ap (λ m. ◌>>=◌ m (λ d. ok (soft_delete now d (own oid db))))
          (sym (owned-own oid did db.dependencies k))
