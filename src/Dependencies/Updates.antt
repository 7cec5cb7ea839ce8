-- ===== src/Dependencies/Updates.antt =====
-- What an update does not do.
use reliastra_backend.Prelude.{ℕ, ◌≡◌, refl, sym, ap, ◌∙◌, Option, some, [], map, map-update_where}
use reliastra_backend.Prelude.Result.{ok}
use reliastra_backend.Dependencies.Model.{StoredHeaders, Dependency, Db, patch}
use reliastra_backend.Dependencies.Service.{Cipher, UpdateRequest, update_kwargs, update_dependency}
use reliastra_backend.Dependencies.Steps.{update_dependency_inv}

-- The application and the alert threshold of a row.
abbrev pub assignment : Dependency → Option ℕ × Option ℕ
assignment d = (d.application_id, d.alert_threshold_ms)

abbrev pub stored_headers : Dependency → Option StoredHeaders
stored_headers d = d.headers

module _ (cipher : Cipher) where
  -- An update leaves every application and every alert threshold as it was, although it succeeds and
  -- whatever application and threshold it asks for.
  pub update_dependency_ignores :
      (oid did : ℕ) (request : UpdateRequest) (db after : Db)
      → update_dependency cipher oid did request db ≡ ok after
      → map assignment after.dependencies ≡ map assignment db.dependencies
  update_dependency_ignores oid did request db after h =
      let (d, found, owner, checked, e) = update_dependency_inv cipher oid did request db after h in
      ap (λ (t : Db). map assignment t.dependencies) (sym e)
      ∙ map-update_where assignment _ (patch (update_kwargs cipher request)) db.dependencies
          (λ x. refl)

  -- Stored headers cannot be cleared: an update to empty headers succeeds and keeps them.
  pub update_dependency_keeps_headers :
      (oid did : ℕ) (request : UpdateRequest) (db after : Db)
      → request.headers ≡ some []
      → update_dependency cipher oid did request db ≡ ok after
      → map stored_headers after.dependencies ≡ map stored_headers db.dependencies
  update_dependency_keeps_headers oid did request db after empty h =
      let (d, found, owner, checked, e) = update_dependency_inv cipher oid did request db after h in
      ap (λ (t : Db). map stored_headers t.dependencies) (sym e)
      ∙ map-update_where stored_headers _ (patch (update_kwargs cipher request)) db.dependencies
          (λ x. rw empty refl)
