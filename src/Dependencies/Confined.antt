-- ===== src/Dependencies/Confined.antt =====
-- An organization's requests on the table of all organizations, and on its own rows alone.
use reliastra_backend.Prelude.{
  ℕ, ◌≡◌, refl, sym, ap, ◌∙◌, Bool, true, Option, none, some, [], ◌∷◌, ◌++◌, ◌==◌, select, leb, ltb,
  arith, Bool-cases, inl, inr, if◌then◌else◌,
}
use reliastra_backend.Prelude.Tables.{IsKeyed}
use reliastra_backend.Prelude.Rows.{select-append}
use reliastra_backend.Prelude.Result.{
  Result, ok, err, not_found, validation, conflict, require, or_raise, ◌>>=◌, ◌>>◌,
}
use reliastra_backend.Permissions.{get_dependency_limit, get_min_check_interval}
use reliastra_backend.Dependencies.Model.{
  Organization, Application, Dependency, Db, get_by_id, get_org, get_default_application,
  count_for_org, create,
}
use reliastra_backend.Dependencies.Service.{
  Cipher, CreateRequest, UpdateRequest, owned, get_dependency, decode_headers, update_dependency,
  delete_dependency, config_of, get_dependency_config_internal, new_dependency, default_or_new,
  choose_application, create_dependency,
}
use reliastra_backend.Dependencies.Steps.{key}
use reliastra_backend.Dependencies.Own.{
  own, own_answer, own_creation, count_where-own, owned-own, update_dependency-own,
  delete_dependency-own,
}

module _ (cipher : Cipher) where
  -- The choice of an application does not look at dependencies.
  abbrev own_choice : ℕ → Result (ℕ × Db) → Result (ℕ × Db)
  own_choice oid (err e) = err e
  own_choice oid (ok (aid, db)) = ok (aid, own oid db)

  checked_choice :
      (oid aid : ℕ) (m : Result (Unit {0})) (db : Db)
      → own_choice oid (m >> ok (aid, db)) ≡ (m >> ok (aid, own oid db))
  checked_choice oid aid (err e) db = refl
  checked_choice oid aid (ok u) db = refl

  default_choice :
      (oid new_app : ℕ) (o : Option Application) (db : Db)
      → own_choice oid (ok (default_or_new cipher oid new_app o db))
        ≡ ok (default_or_new cipher oid new_app o (own oid db))
  default_choice oid new_app none db = refl
  default_choice oid new_app (some a) db = refl

  choose_application-own :
      (oid new_app : ℕ) (o : Option ℕ) (db : Db)
      → own_choice oid (choose_application cipher oid new_app o db)
        ≡ choose_application cipher oid new_app o (own oid db)
  choose_application-own oid new_app (some aid) db = checked_choice oid aid _ db
  choose_application-own oid new_app none db =
      default_choice oid new_app (get_default_application oid db) db

  created_row-own :
      (oid : ℕ) (d : Dependency) (db : Db)
      → d.org_id ≡ oid
      → own oid (create d db) ≡ create d (own oid db)
  created_row-own oid d db e =
      let mine : (d.org_id == oid) ≡ true = ground (arith, e) in
      ap (λ rows. record db { dependencies = rows })
        (select-append (λ (x : Dependency). x.org_id == oid) db.dependencies (d ∷ [])
          ∙ ap
              (λ b.
                select (λ (x : Dependency). x.org_id == oid) db.dependencies
                ++ (if b then d ∷ [] else []))
              mine)

  create_at :
      (now new_id oid : ℕ) (request : CreateRequest) (m : Result (ℕ × Db))
      → own_creation oid (
          ◌>>=◌ m (λ r. ok (
            new_dependency cipher now new_id oid r.0 request,
            create (new_dependency cipher now new_id oid r.0 request) r.1,
          )))
        ≡ ◌>>=◌ (own_choice oid m) (λ r. ok (
          new_dependency cipher now new_id oid r.0 request,
          create (new_dependency cipher now new_id oid r.0 request) r.1,
        ))
  create_at now new_id oid request (err e) = refl
  create_at now new_id oid request (ok (aid, db)) =
      ap (λ t. ok (new_dependency cipher now new_id oid aid request, t))
        (created_row-own oid (new_dependency cipher now new_id oid aid request) db refl)

  create_limits :
      (oid : ℕ) (m : Result Organization) (interval limit : Organization → Bool)
      (rest other : Result (Dependency × Db))
      → own_creation oid rest ≡ other
      → own_creation oid
          (◌>>=◌ m (λ o. require (interval o) validation >> (require (limit o) conflict >> rest)))
        ≡ ◌>>=◌ m (λ o. require (interval o) validation >> (require (limit o) conflict >> other))
  create_limits oid (err e) interval limit rest other h = refl
  create_limits oid (ok o) interval limit rest other h = elim (Bool-cases (interval o)) [
    | inr a ↦ rw a refl
    | inl a ↦ elim (Bool-cases (limit o)) [ inl b ↦ rw (a, b) h | inr b ↦ rw (a, b) refl ]
  ]

  create_dependency-own :
      (now new_id new_app oid : ℕ) (request : CreateRequest) (db : Db)
      → own_creation oid (create_dependency cipher now new_id new_app oid request db)
        ≡ create_dependency cipher now new_id new_app oid request (own oid db)
  unfolding create_dependency
  create_dependency-own now new_id new_app oid request db =
      create_limits oid (or_raise (get_org oid db) not_found)
        (λ o. leb (get_min_check_interval o.plan) request.check_interval_seconds)
        (λ o. ltb (count_for_org oid db) (get_dependency_limit o.plan)) _ _
        (create_at now new_id oid request
            (choose_application cipher oid new_app request.application_id db)
          ∙ ap
              (λ m. ◌>>=◌ m (λ r. ok (
                new_dependency cipher now new_id oid r.0 request,
                create (new_dependency cipher now new_id oid r.0 request) r.1,
              )))
              (choose_application-own oid new_app request.application_id db))
      ∙ ap
          (λ n. ◌>>=◌ (or_raise (get_org oid db) not_found) (λ o.
            require (leb (get_min_check_interval o.plan) request.check_interval_seconds) validation
            >> (require (ltb n (get_dependency_limit o.plan)) conflict
                >> ◌>>=◌ (choose_application cipher oid new_app request.application_id (own oid db))
                    (λ r. ok (
                      new_dependency cipher now new_id oid r.0 request,
                      create (new_dependency cipher now new_id oid r.0 request) r.1,
                    )))))
          (sym (count_where-own oid db.dependencies))

  -- The configuration is told to the organization of the row.
  config-owned :
      (oid : ℕ) (o : Option Dependency)
      → config_of cipher (some oid) o ≡ (elim (owned cipher oid o) [
        | err e ↦ none
        | ok d ↦ some (d, decode_headers cipher d.headers)
      ])
  config-owned oid none = refl
  config-owned oid (some d) = elim (Bool-cases (d.org_id == oid)) [
    | inl e ↦ rw e refl
    | inr e ↦ rw e refl
  ]

  -- Over a table with distinct ids, an organization is served as if the dependencies of all others did
  -- not exist: reading a dependency or its configuration by any id, creating, updating and deleting
  -- one give the answer, the error or the rows of the organization that they give on its own rows
  -- alone.
  pub requests_are_confined :
      (now new_id new_app oid did : ℕ) (request : CreateRequest) (wish : UpdateRequest) (db : Db)
      → IsKeyed key db.dependencies
      → (get_dependency cipher oid did db ≡ get_dependency cipher oid did (own oid db))
        × (get_dependency_config_internal cipher (some oid) did db
            ≡ get_dependency_config_internal cipher (some oid) did (own oid db))
        × (own_creation oid (create_dependency cipher now new_id new_app oid request db)
            ≡ create_dependency cipher now new_id new_app oid request (own oid db))
        × (own_answer oid (update_dependency cipher oid did wish db)
            ≡ update_dependency cipher oid did wish (own oid db))
        × (own_answer oid (delete_dependency cipher now oid did db)
            ≡ delete_dependency cipher now oid did (own oid db))
  requests_are_confined now new_id new_app oid did request wish db k = (
    sym (owned-own cipher oid did db.dependencies k),
    config-owned oid (get_by_id did db)
        ∙ ap (λ m. elim m [ err e ↦ none | ok d ↦ some (d, decode_headers cipher d.headers) ])
            (sym (owned-own cipher oid did db.dependencies k))
        ∙ sym (config-owned oid (get_by_id did (own oid db))),
    create_dependency-own now new_id new_app oid request db,
    update_dependency-own cipher oid did wish db k,
    delete_dependency-own cipher now oid did db k,
  )
