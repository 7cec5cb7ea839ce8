-- ===== src/Dependencies/Tenancy.antt =====
-- One organization's requests and the dependencies of the others.
use reliastra_backend.Prelude.{
  ℕ, ◌≡◌, refl, sym, ap, ◌∙◌, true, not, some, List, [], ◌∷◌, ◌++◌, ◌==◌, select, arith,
}
use reliastra_backend.Prelude.Tables.{IsKeyed}
use reliastra_backend.Prelude.Rows.{only_row, select-append, select-update_known}
use reliastra_backend.Dependencies.Model.{Dependency, Db, get_by_id, change, patch, deleted}
use reliastra_backend.Dependencies.Service.{Cipher, update_kwargs}
use reliastra_backend.Dependencies.Steps.{
  key, create_dependency-Created, update_dependency_inv, delete_dependency_inv, Step, creates,
  updates, deletes,
}

-- The rows of all other organizations, deleted ones included.
abbrev pub others : ℕ → Db → List Dependency
others oid db = select (λ (d : Dependency). not (d.org_id == oid)) db.dependencies

append_nil : (xs : List Dependency) → xs ++ [] ≡ xs
append_nil [] = refl
append_nil (x ∷ xs) = ap (λ r. x ∷ r) (append_nil xs)

own_row :
    (oid : ℕ) (x : Dependency)
    → (x.org_id == oid) ≡ true
    → select (λ (d : Dependency). not (d.org_id == oid)) (x ∷ []) ≡ []
own_row oid x h = rw h refl

-- A change of a row of the organization that keeps its owner.
change-others :
    (oid did : ℕ) (f : Dependency → Dependency) (db : Db) {d : Dependency}
    → ((x : Dependency) → (f x).org_id ≡ x.org_id)
    → IsKeyed key db.dependencies
    → get_by_id did db ≡ some d
    → (d.org_id == oid) ≡ true
    → others oid (change d.id f db) ≡ others oid db
change-others oid did f db {d} keeps k found owner =
    select-update_known (λ (x : Dependency). not (x.org_id == oid))
      (λ x. (key x == key d) ≡ true → x ≡ d) (λ (x : Dependency). x.id == d.id) f db.dependencies
      (λ x e same.
        let o : (x.org_id == oid) ≡ true =
          ap (λ (y : Dependency). y.org_id == oid) (same e) ∙ owner in
        (ground (arith, keeps x, o), ground (arith, o)))
      (only_row key (key d) _ db.dependencies k found (ground arith))

module _ (cipher : Cipher) where
  -- Over a table with distinct ids, no successful request of an organization changes a dependency of
  -- another one.
  pub Step-others :
      (oid : ℕ) {db after : Db}
      → IsKeyed key db.dependencies
      → Step cipher oid db after
      → others oid after ≡ others oid db
  Step-others oid k (creates now new_id new_app request {db} d {after} fresh h) =
      let c = create_dependency-Created cipher now new_id new_app oid request db d after h in
      let own : (d.org_id == oid) ≡ true =
        ap (λ (x : Dependency). x.org_id == oid) c.row ∙ ground arith in
      ap (λ rows. select (λ (x : Dependency). not (x.org_id == oid)) rows) c.appended
      ∙ select-append _ db.dependencies (d ∷ [])
      ∙ ap (λ r. others oid db ++ r) (own_row oid d own)
      ∙ append_nil (others oid db)
  Step-others oid k (updates did request {db} {after} h) =
      let (d, found, owner, checked, e) = update_dependency_inv cipher oid did request db after h in
      ap (others oid) (sym e)
      ∙ change-others oid did (patch (update_kwargs cipher request)) db (λ x. refl) k found owner
  Step-others oid k (deletes now did {db} {after} h) =
      let (d, found, owner, e) = delete_dependency_inv cipher now oid did db after h in
      ap (others oid) (sym e) ∙ change-others oid did (deleted now) db (λ x. refl) k found owner
