-- ===== src/Organizations/Unique.antt =====
-- One row for each member of an organization.
use reliastra_backend.Prelude.{
  ℕ, ◌≤◌, ◌≡◌, refl, true, false, Option, none, some, List, [], ◌∷◌, ◌++◌, ◌==◌, find_first-none,
  any, count_where, count_where-append, arith, Bool-cases, inl, inr,
}
use mathlib.Core.Path.{subst}
use reliastra_backend.Prelude.Text.{Text}
use reliastra_backend.Prelude.Tables.{IsFresh, count_where-update_where}
use reliastra_backend.Prelude.Result.{ok, not_found, or_raise, bind_inv, require_inv, ok_injective}
use reliastra_backend.Organizations.Model.{
  OrganizationMember, Db, get_by_id, get_by_email, get_member_by_id, get_member_row, is_member,
  change, with_role, restored, removed,
}
use reliastra_backend.Organizations.Service.{
  Role, role_value, create_org, update_org, invite, invite_member, owned, change_member_role,
  check_owners, remove_member,
}

-- No user has two rows in an organization, removed ones included, so that `get_member` never finds more
-- than one row.
abbrev pub IsUnique : Db → Type 0
IsUnique db = (oid uid : ℕ) → count_where (is_member oid uid) db.members ≤ 1

-- A successful request. A new organization has a fresh id.
pub data Step : Db → Db → Type 0 where
  creates_org :
      (now new_id new_member : ℕ) (fallback : Text) (uid : ℕ) (name : Text) (slug : Option Text)
      {db after : Db}
      → IsFresh (λ (m : OrganizationMember). m.org_id) new_id db.members
      → create_org now new_id new_member fallback uid name slug db ≡ ok after
      → Step db after
  updates_org :
      (oid : ℕ) (name : Option Text) {db after : Db}
      → update_org oid name db ≡ ok after
      → Step db after
  invites :
      (now new_id oid : ℕ) (email : Text) (role : Role) {db after : Db}
      → invite_member now new_id oid email role db ≡ ok after
      → Step db after
  changes_role :
      (oid mid : ℕ) (role : Role) {db after : Db}
      → change_member_role oid mid role db ≡ ok after
      → Step db after
  removes :
      (now oid mid : ℕ) {db after : Db} → remove_member now oid mid db ≡ ok after → Step db after

pub data Reach : Db → Db → Type 0 where
  done : {db : Db} → Reach db db
  then_step : {db mid after : Db} → Reach db mid → Step mid after → Reach db after

count_one :
    (oid uid o u : ℕ) (rest : List OrganizationMember) (m : OrganizationMember)
    → m.org_id ≡ o
    → m.user_id ≡ u
    → count_where (is_member o u) rest ≡ 0
    → count_where (is_member oid uid) rest ≤ 1
    → count_where (is_member oid uid) (rest ++ m ∷ []) ≤ 1
count_one oid uid o u rest m e f none_yet b =
    let n = count_where-append (is_member oid uid) rest (m ∷ []) in
    elim (Bool-cases (is_member oid uid m)) [
      | inr other ↦ omega (arith, n, b, single other)
      | inl same ↦
          let so : o ≡ oid = ground (arith, e, same) in
          let su : u ≡ uid = ground (arith, f, same) in
          let z : count_where (is_member oid uid) rest ≡ 0 =
            subst (λ k. count_where (is_member k uid) rest ≡ 0) so
              (subst (λ k. count_where (is_member o k) rest ≡ 0) su none_yet) in
          omega (arith, n, z, only same)
    ]
  where
    single : is_member oid uid m ≡ false → count_where (is_member oid uid) (m ∷ []) ≡ 0
    single h = rw h refl

    only : is_member oid uid m ≡ true → count_where (is_member oid uid) (m ∷ []) ≡ 1
    only h = rw h refl

change-IsUnique :
    (mid : ℕ) (f : OrganizationMember → OrganizationMember) (db : Db)
    → ((x : OrganizationMember) → ((f x).org_id ≡ x.org_id) × ((f x).user_id ≡ x.user_id))
    → IsUnique db
    → IsUnique (change mid f db)
change-IsUnique mid f db keeps u oid uid =
    let same =
      count_where-update_where (is_member oid uid) (λ (m : OrganizationMember). m.id == mid) f
        db.members (λ x. ground (arith, (keeps x).0, (keeps x).1)) in
    omega (arith, same, u oid uid)

no_members :
    (o uid : ℕ) (rows : List OrganizationMember)
    → any (λ (m : OrganizationMember). m.org_id == o) rows ≡ false
    → count_where (is_member o uid) rows ≡ 0
no_members o uid [] h = refl
no_members o uid (x ∷ xs) h = ground (arith, h, no_members o uid xs)

invite-IsUnique :
    (now new_id oid uid : ℕ) (role : Role) (o : Option OrganizationMember) (db after : Db)
    → get_member_row oid uid db ≡ o
    → invite now new_id oid uid role o db ≡ ok after
    → IsUnique db
    → IsUnique after
invite-IsUnique now new_id oid uid role none db after found h u =
    subst IsUnique (ok_injective h) (λ o k.
      count_one o k oid uid db.members _ refl refl
        (find_first-none (is_member oid uid) db.members found) (u o k))
invite-IsUnique now new_id oid uid role (some m) db after found h u =
    elim (Bool-cases m.is_deleted) [
      | inl d ↦
          subst IsUnique (ok_injective (rw d at h))
            (change-IsUnique m.id (restored (role_value role)) db (λ x. (refl, refl)) u)
      | inr d ↦ absurd (ground (arith, rw d at h))
    ]

Step-IsUnique : {db after : Db} → Step db after → IsUnique db → IsUnique after
unfolding create_org update_org invite_member change_member_role remove_member
Step-IsUnique (creates_org now new_id new_member fallback uid name slug {db} {after} fresh h) u =
    let (free, e) = require_inv _ _ _ h in
    subst IsUnique (ok_injective e) (λ o k.
      count_one o k new_id uid db.members _ refl refl (no_members new_id uid db.members fresh)
        (u o k))
Step-IsUnique (updates_org oid name {db} {after} h) u =
    let (o, found, e) = bind_inv (or_raise (get_by_id oid db) not_found) _ h in
    subst IsUnique (ok_injective e) u
Step-IsUnique (invites now new_id oid email role {db} {after} h) u =
    let (user, found, e) = bind_inv (or_raise (get_by_email email db) not_found) _ h in
    invite-IsUnique now new_id oid user.id role (get_member_row oid user.id db) db after refl e u
Step-IsUnique (changes_role oid mid role {db} {after} h) u =
    let (m, found, e) = bind_inv (owned oid (get_member_by_id mid db)) _ h in
    subst IsUnique (ok_injective e)
      (change-IsUnique m.id (with_role (role_value role)) db (λ x. (refl, refl)) u)
Step-IsUnique (removes now oid mid {db} {after} h) u =
    let (m, found, h1) = bind_inv (owned oid (get_member_by_id mid db)) _ h in
    let (c, checked, e) = bind_inv (check_owners oid m db) _ h1 in
    subst IsUnique (ok_injective e) (change-IsUnique m.id (removed now) db (λ x. (refl, refl)) u)

-- From tables in which no user has two rows in an organization, through requests that run one after
-- another: whatever organizations are created, with fresh ids, and whatever members are invited,
-- removed and invited again or get other roles, no user has two rows in an organization.
pub Reach-IsUnique : {db after : Db} → Reach db after → IsUnique db → IsUnique after
Reach-IsUnique done u = u
Reach-IsUnique (then_step r s) u = Step-IsUnique s (Reach-IsUnique r u)
