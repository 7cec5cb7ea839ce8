-- ===== src/Dependencies/Steps.antt =====
-- What a successful operation of the service does to the rows, and the operations as steps.
use reliastra_backend.Prelude.{
  ℕ, ◌≡◌, refl, sym, ap, ◌∙◌, true, Option, none, some, [], ◌∷◌, ◌++◌, ◌==◌, leb, ltb, arith,
  Bool-cases, Option-cases, inl, inr,
}
use mathlib.Core.Path.{subst}
use reliastra_backend.Prelude.Result.{
  ok, not_found, or_raise, bind_inv, require_inv, or_raise_inv, ok_injective,
}
use reliastra_backend.Prelude.Tables.{IsFresh}
use reliastra_backend.Permissions.{get_dependency_limit, get_min_check_interval}
use reliastra_backend.Dependencies.Model.{
  Organization, Application, Dependency, Db, get_org, get_default_application, get_by_id,
  count_for_org, create, update, soft_delete,
}
use reliastra_backend.Dependencies.Service.{
  Cipher, CreateRequest, UpdateRequest, check_application, default_or_new, choose_application,
  new_dependency, create_dependency, get_dependency, check_interval, check_new_application,
  update_kwargs, update_dependency, delete_dependency,
}

abbrev pub key : Dependency → ℕ
key d = d.id

module _ (cipher : Cipher) where
  -- A successful creation.
  pub record Created (now new_id oid : ℕ) (request : CreateRequest) (db : Db) (d : Dependency)
      (after : Db) : Type 0 where
    pub org : Organization
    pub known : get_org oid db ≡ some org
    pub paced : leb (get_min_check_interval org.plan) request.check_interval_seconds ≡ true
    pub room : ltb (count_for_org oid db) (get_dependency_limit org.plan) ≡ true
    pub application : ℕ
    pub row : d ≡ new_dependency cipher now new_id oid application request
    pub appended : after.dependencies ≡ db.dependencies ++ d ∷ []
    pub organizations : after.organizations ≡ db.organizations

  default_keeps :
      (oid new_app : ℕ) (o : Option Application) (db : Db)
      → ((default_or_new cipher oid new_app o db).1.dependencies ≡ db.dependencies)
        × ((default_or_new cipher oid new_app o db).1.organizations ≡ db.organizations)
  default_keeps oid new_app (some a) db = (refl, refl)
  default_keeps oid new_app none db = (refl, refl)

  abbrev Kept : Db → ℕ × Db → Type 0
  Kept db r = (r.1.dependencies ≡ db.dependencies) × (r.1.organizations ≡ db.organizations)

  choose_keeps :
      (oid new_app : ℕ) (o : Option ℕ) (db : Db) (r : ℕ × Db)
      → choose_application cipher oid new_app o db ≡ ok r
      → Kept db r
  choose_keeps oid new_app (some aid) db r h =
      let (u, c, e) = bind_inv (check_application cipher oid aid db) (λ u. ok (aid, db)) h in
      subst (Kept db) (ok_injective e) (refl, refl)
  choose_keeps oid new_app none db r h =
      subst (Kept db) (ok_injective h)
        (default_keeps oid new_app (get_default_application oid db) db)

  pub create_dependency-Created :
      (now new_id new_app oid : ℕ) (request : CreateRequest) (db : Db) (d : Dependency) (after : Db)
      → create_dependency cipher now new_id new_app oid request db ≡ ok (d, after)
      → Created now new_id oid request db d after
  unfolding create_dependency
  create_dependency-Created now new_id new_app oid request db d after h =
      let (org, o, h1) = bind_inv (or_raise (get_org oid db) not_found) _ h in
      let (p, h2) = require_inv _ _ _ h1 in
      let (l, h3) = require_inv _ _ _ h2 in
      let (r, c, h4) =
        bind_inv (choose_application cipher oid new_app request.application_id db) _ h3 in
      let (k, g) = choose_keeps oid new_app request.application_id db r c in
      let row : new_dependency cipher now new_id oid r.0 request ≡ d =
        ap (λ p. p.0) (ok_injective h4) in
      let tables : create (new_dependency cipher now new_id oid r.0 request) r.1 ≡ after =
        ap (λ p. p.1) (ok_injective h4) in
      record {
        org = org;
        known = or_raise_inv _ _ o;
        paced = p;
        room = l;
        application = r.0;
        row = sym row;
        appended =
            ap (λ t. t.dependencies) (sym tables)
            ∙ ap (λ rows. rows ++ new_dependency cipher now new_id oid r.0 request ∷ []) k
            ∙ ap (λ x. db.dependencies ++ x ∷ []) row;
        organizations = ap (λ t. t.organizations) (sym tables) ∙ g;
      }

  -- The row of a dependency that an organization got.
  pub get_dependency_inv :
      (oid did : ℕ) (db : Db) (d : Dependency)
      → get_dependency cipher oid did db ≡ ok d
      → (get_by_id did db ≡ some d) × ((d.org_id == oid) ≡ true)
  get_dependency_inv oid did db d h = elim (Option-cases (get_by_id did db)) [
    | inl e ↦ absurd (ground (arith, rw e at h))
    | inr (c, e) ↦ elim (Bool-cases (c.org_id == oid)) [
      | inr b ↦ absurd (ground (arith, rw (e, b) at h))
      | inl b ↦
          let s : c ≡ d = ok_injective (rw (e, b) at h) in
          (e ∙ ap some s, ap (λ y. y.org_id == oid) (sym s) ∙ b)
    ]
  ]

  pub update_dependency_inv :
      (oid did : ℕ) (request : UpdateRequest) (db after : Db)
      → update_dependency cipher oid did request db ≡ ok after
      → (d : Dependency) × (get_by_id did db ≡ some d)
        × ((d.org_id == oid) ≡ true)
        × (check_interval cipher (get_org oid db) request.check_interval_seconds ≡ ok tt)
        × (update d (update_kwargs cipher request) db ≡ after)
  unfolding update_dependency
  update_dependency_inv oid did request db after h =
      let (d, g, h1) = bind_inv (get_dependency cipher oid did db) _ h in
      let (u, c, h2) =
        bind_inv (check_interval cipher (get_org oid db) request.check_interval_seconds) _ h1 in
      let (v, a, h3) = bind_inv (check_new_application cipher oid request.application_id db) _ h2 in
      let (e, o) = get_dependency_inv oid did db d g in (d, e, o, c, ok_injective h3)

  pub delete_dependency_inv :
      (now oid did : ℕ) (db after : Db)
      → delete_dependency cipher now oid did db ≡ ok after
      → (d : Dependency) × (get_by_id did db ≡ some d)
        × ((d.org_id == oid) ≡ true)
        × (soft_delete now d db ≡ after)
  unfolding delete_dependency
  delete_dependency_inv now oid did db after h =
      let (d, g, h1) = bind_inv (get_dependency cipher oid did db) _ h in
      let (e, o) = get_dependency_inv oid did db d g in (d, e, o, ok_injective h1)

  -- A successful request of an organization. The id of a new row is fresh.
  pub data Step (oid : ℕ) : Db → Db → Type 0 where
    creates :
        (now new_id new_app : ℕ) (request : CreateRequest) {db : Db} (d : Dependency) {after : Db}
        → IsFresh key new_id db.dependencies
        → create_dependency cipher now new_id new_app oid request db ≡ ok (d, after)
        → Step oid db after
    updates :
        (did : ℕ) (request : UpdateRequest) {db after : Db}
        → update_dependency cipher oid did request db ≡ ok after
        → Step oid db after
    deletes :
        (now did : ℕ) {db after : Db}
        → delete_dependency cipher now oid did db ≡ ok after
        → Step oid db after

  -- Requests of any organizations.
  pub data Reach : Db → Db → Type 0 where
    done : {db : Db} → Reach db db
    then_step : (oid : ℕ) {db mid after : Db} → Reach db mid → Step oid mid after → Reach db after
