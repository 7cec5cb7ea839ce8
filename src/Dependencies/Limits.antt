-- ===== src/Dependencies/Limits.antt =====
-- The limits of the plans hold of the table.
use reliastra_backend.Prelude.{
  ℕ, ◌+◌, ◌≤◌, ◌≡◌, refl, sym, ap, ◌∙◌, Bool, true, false, not, ◌&&◌, Option, none, some, List, [],
  ◌∷◌, ◌++◌, ◌==◌, leb, find_first, find_first_sound, All, count_where, count_where-append,
  update_where, or_else, arith, Bool-cases, inl, inr,
}
use mathlib.Core.Path.{subst}
use reliastra_backend.Prelude.Tables.{
  IsKeyed, IsFresh, IsKeyed-append, IsKeyed-update_where, All-append, count_where-update_where,
}
use reliastra_backend.Prelude.Rows.{
  some_injective, only_row, All-update_known, find_first-update_none, count_where-update_one,
}
use reliastra_backend.Prelude.Result.{ok}
use reliastra_backend.Permissions.{get_dependency_limit, get_min_check_interval}
use reliastra_backend.Dependencies.Model.{
  Organization, Dependency, Db, get_org, get_by_id, is_of, count_for_org, update, soft_delete,
  patch, deleted,
}
use reliastra_backend.Dependencies.Service.{
  Cipher, CreateRequest, UpdateRequest, new_dependency, check_interval, update_kwargs,
  delete_dependency,
}
use reliastra_backend.Dependencies.Steps.{
  key, Created, create_dependency-Created, update_dependency_inv, delete_dependency_inv, Step,
  creates, updates, deletes, Reach, done, then_step,
}

-- The interval of a dependency is one that the plan of its organization allows.
abbrev pub IsPaced : List Organization → Dependency → Type 0
IsPaced orgs d =
    (org : Organization)
    → find_first (λ (o : Organization). o.id == d.org_id) orgs ≡ some org
    → leb (get_min_check_interval org.plan) d.check_interval_seconds ≡ true

-- No organization has more dependencies than its plan allows, and none is checked more often.
pub record IsWithinPlans (db : Db) : Type 0 where
  pub keyed : IsKeyed key db.dependencies
  pub limited :
      (oid : ℕ) (org : Organization)
      → get_org oid db ≡ some org
      → count_for_org oid db ≤ get_dependency_limit org.plan
  pub paced : All (IsPaced db.organizations) db.dependencies

-- What only depends on the tables of the organizations and of the dependencies.
abbrev Tables : List Organization → List Dependency → Type 0
Tables orgs rows =
    IsKeyed key rows
    × ((oid : ℕ) (org : Organization)
        → find_first (λ (o : Organization). o.id == oid) orgs ≡ some org
        → count_where (is_of oid) rows ≤ get_dependency_limit org.plan)
    × All (IsPaced orgs) rows

abbrev within : (db : Db) → Tables db.organizations db.dependencies → IsWithinPlans db
within db t = record { keyed = t.0; limited = t.1; paced = t.2 }

module _ (cipher : Cipher) where
  create-IsWithinPlans :
      (now new_id oid : ℕ) (request : CreateRequest) (db : Db) (d : Dependency) (after : Db)
      → IsFresh key new_id db.dependencies
      → Created cipher now new_id oid request db d after
      → IsWithinPlans db
      → IsWithinPlans after
  create-IsWithinPlans now new_id oid request db d after fresh c w = within after (
      subst (λ orgs. Tables orgs after.dependencies) (sym c.organizations)
        (subst (Tables db.organizations) (sym c.appended) (
          IsKeyed-append key db.dependencies d w.keyed
              (subst (λ x. IsFresh key (key x) db.dependencies) (sym c.row) fresh),
          limited,
          All-append (IsPaced db.organizations) db.dependencies d w.paced
              (subst (IsPaced db.organizations) (sym c.row) paced),
        )))
    where
      paced : IsPaced db.organizations (new_dependency cipher now new_id oid c.application request)
      paced org known =
          let same : c.org ≡ org = some_injective (sym c.known ∙ known) in
          subst
            (λ (o : Organization).
              leb (get_min_check_interval o.plan) request.check_interval_seconds ≡ true)
            same c.paced

      room :
          (o : ℕ) (org : Organization)
          → get_org o db ≡ some org
          → (oid == o) ≡ true
          → count_where (is_of o) db.dependencies + 1 ≤ get_dependency_limit org.plan
      room o org known e =
          let same_id : oid ≡ o = ground (arith, e) in
          let same : c.org ≡ org =
            some_injective
              (sym c.known ∙ subst (λ k. get_org k db ≡ some org) (sym same_id) known) in
          subst (λ k. count_where (is_of k) db.dependencies + 1 ≤ get_dependency_limit org.plan)
            same_id
            (subst
              (λ (x : Organization).
                count_where (is_of oid) db.dependencies + 1 ≤ get_dependency_limit x.plan)
              same (ground (arith, c.room)))

      limited :
          (o : ℕ) (org : Organization)
          → get_org o db ≡ some org
          → count_where (is_of o) (db.dependencies ++ d ∷ []) ≤ get_dependency_limit org.plan
      limited o org known =
          let owner : is_of o d ≡ (oid == o) && true = ap (is_of o) c.row in
          let n = count_where-append (is_of o) db.dependencies (d ∷ []) in
          elim (Bool-cases (oid == o)) [
            | inl e ↦
                let r = room o org known e in
                omega (arith, n, count_one (is_of o) d (owner ∙ ap (λ b. b && true) e), r)
            | inr e ↦ omega (
              arith,
              n,
              count_other (is_of o) d (owner ∙ ap (λ b. b && true) e),
              w.limited o org known,
            )
          ]
        where
          count_one :
              (p : Dependency → Bool) (x : Dependency) → p x ≡ true → count_where p (x ∷ []) ≡ 1
          count_one p x h = rw h refl

          count_other :
              (p : Dependency → Bool) (x : Dependency) → p x ≡ false → count_where p (x ∷ []) ≡ 0
          count_other p x h = rw h refl

  update-IsWithinPlans :
      (oid did : ℕ) (request : UpdateRequest) (db : Db) (d : Dependency)
      → get_by_id did db ≡ some d
      → (d.org_id == oid) ≡ true
      → check_interval cipher (get_org oid db) request.check_interval_seconds ≡ ok tt
      → IsWithinPlans db
      → IsWithinPlans (update d (update_kwargs cipher request) db)
  update-IsWithinPlans oid did request db d found owner checked w = record {
    keyed =
        IsKeyed-update_where key _ (patch (update_kwargs cipher request)) db.dependencies
          (λ x. refl) w.keyed;
    limited = λ o org known.
        subst (λ n. n ≤ get_dependency_limit org.plan)
          (sym (
            count_where-update_where (is_of o) _ (patch (update_kwargs cipher request))
              db.dependencies (λ x. refl)))
          (w.limited o org known);
    paced =
        All-update_known (IsPaced db.organizations) (λ x. (key x == key d) ≡ true → x ≡ d) _
          (patch (update_kwargs cipher request)) db.dependencies
          (λ x e same p.
            subst (λ y. IsPaced db.organizations (patch (update_kwargs cipher request) y))
              (sym (same e)) (paced (subst (IsPaced db.organizations) (same e) p)))
          (only_row key (key d) _ db.dependencies w.keyed found (ground arith)) w.paced;
  }
    where
      interval_ok :
          (org : Organization) (seconds : Option ℕ)
          → check_interval cipher (some org) seconds ≡ ok tt
          → leb (get_min_check_interval org.plan) d.check_interval_seconds ≡ true
          → leb (get_min_check_interval org.plan) (or_else seconds d.check_interval_seconds) ≡ true
      interval_ok org none h old = old
      interval_ok org (some s) h old = elim (Bool-cases (leb (get_min_check_interval org.plan) s)) [
        | inl e ↦ e
        | inr e ↦ absurd (ground (arith, rw e at h))
      ]

      paced :
          IsPaced db.organizations d
          → IsPaced db.organizations (patch (update_kwargs cipher request) d)
      paced p org known =
          let same_id : d.org_id ≡ oid = ground (arith, owner) in
          let found_org : get_org oid db ≡ some org =
            subst (λ k. get_org k db ≡ some org) same_id known in
          interval_ok org request.check_interval_seconds
            (subst (λ o. check_interval cipher o request.check_interval_seconds ≡ ok tt) found_org
              checked)
            (p org known)

  count-delete_le :
      (o now : ℕ) (q : Dependency → Bool) (rows : List Dependency)
      → count_where (is_of o) (update_where q (deleted now) rows) ≤ count_where (is_of o) rows
  count-delete_le o now q [] = omega arith
  count-delete_le o now q (x ∷ xs) = ground (arith, count-delete_le o now q xs)

  delete-IsWithinPlans :
      (now : ℕ) (db : Db) (d : Dependency) → IsWithinPlans db → IsWithinPlans (soft_delete now d db)
  delete-IsWithinPlans now db d w = record {
    keyed = IsKeyed-update_where key _ (deleted now) db.dependencies (λ x. refl) w.keyed;
    limited = λ o org known.
        omega
          (arith, count-delete_le o now (λ x. x.id == d.id) db.dependencies, w.limited o org known);
    paced =
        All-update_known (IsPaced db.organizations) (IsPaced db.organizations) _ (deleted now)
          db.dependencies (λ x e p q. p) w.paced w.paced;
  }

  pub Step-IsWithinPlans :
      (oid : ℕ) {db after : Db} → Step cipher oid db after → IsWithinPlans db → IsWithinPlans after
  Step-IsWithinPlans oid (creates now new_id new_app request {db} d {after} fresh h) w =
      create-IsWithinPlans now new_id oid request db d after fresh
        (create_dependency-Created cipher now new_id new_app oid request db d after h) w
  Step-IsWithinPlans oid (updates did request {db} {after} h) w =
      let (d, found, owner, checked, e) = update_dependency_inv cipher oid did request db after h in
      subst IsWithinPlans e (update-IsWithinPlans oid did request db d found owner checked w)
  Step-IsWithinPlans oid (deletes now did {db} {after} h) w =
      let (d, found, owner, e) = delete_dependency_inv cipher now oid did db after h in
      subst IsWithinPlans e (delete-IsWithinPlans now db d w)

  -- Whatever dependencies organizations create, update and delete, with fresh ids for new ones, no
  -- organization gets more of them than its plan allows and none is checked more often than the plan
  -- allows, as long as that holds at the start and the plans stay the same.
  pub Reach-IsWithinPlans :
      {db after : Db} → Reach cipher db after → IsWithinPlans db → IsWithinPlans after
  Reach-IsWithinPlans done w = w
  Reach-IsWithinPlans (then_step oid r s) w = Step-IsWithinPlans oid s (Reach-IsWithinPlans r w)

  -- Deleting a dependency of a table with distinct ids frees a place in the plan, and the dependency
  -- is not found any more.
  pub delete_dependency_frees :
      (now oid did : ℕ) (db after : Db)
      → IsKeyed key db.dependencies
      → delete_dependency cipher now oid did db ≡ ok after
      → (count_for_org oid after + 1 ≡ count_for_org oid db) × (get_by_id did after ≡ none)
  delete_dependency_frees now oid did db after k h =
      let (d, found, owner, e) = delete_dependency_inv cipher now oid did db after h in
      let same =
        find_first_sound (λ (x : Dependency). (x.id == did) && not x.is_deleted) db.dependencies
          found in
      subst (λ t. (count_for_org oid t + 1 ≡ count_for_org oid db) × (get_by_id did t ≡ none)) e
        (
          count_where-update_one key _ (is_of oid) (deleted now) db.dependencies k found
              (ground (arith, owner, same)) (ground arith),
          find_first-update_none _ (λ (x : Dependency). x.id == d.id) (deleted now) db.dependencies
              (λ x b. ground arith) (λ x b. ground (arith, b, same)),
        )
