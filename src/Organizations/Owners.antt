-- ===== src/Organizations/Owners.antt =====
-- The owners of an organization.
use reliastra_backend.Prelude.{
  ℕ, ◌≤◌, ◌<◌, ◌≡◌, refl, sym, ap, ◌∙◌, Bool, true, false, not, ◌&&◌, Option, none, some, List, [],
  ◌∷◌, ◌==◌, leb, length, length-select, find_first_sound, select, All, ◌⊎◌, count_where,
  update_where, arith, Bool-cases, inl, inr,
}
use mathlib.Core.Path.{subst}
use reliastra_backend.Prelude.Text.{text_eq}
use reliastra_backend.Prelude.Tables.{IsKeyed}
use reliastra_backend.Prelude.Rows.{count_where-update_one, only_row}
use reliastra_backend.Prelude.Order.{order_by, insert}
use reliastra_backend.Prelude.Result.{ok, bind_inv, ok_injective}
use reliastra_backend.Organizations.Model.{
  OrganizationMember, Db, get_member_by_id, is_before, is_live, list_all, update_member_role,
  remove_member_row, with_role, removed,
}
use reliastra_backend.Organizations.Service.{
  Role, owner, role_value, owned, is_owner, check_owners, change_member_role, remove_member,
}
use reliastra_backend.Organizations.Listing.{key}

-- The owners of an organization, as rows of the table.
abbrev pub is_live_owner : ℕ → OrganizationMember → Bool
is_live_owner oid m = is_live oid m && is_owner m

abbrev pub owners : ℕ → Db → ℕ
owners oid db = count_where (is_live_owner oid) db.members

count-insert :
    (p : OrganizationMember → Bool) (e : OrganizationMember) (xs : List OrganizationMember)
    → count_where p (insert is_before e xs) ≡ count_where p (e ∷ xs)
count-insert p e [] = refl
count-insert p e (x ∷ xs) = ground (arith, count-insert p e xs)

count-order_by :
    (p : OrganizationMember → Bool) (xs : List OrganizationMember)
    → count_where p (order_by is_before xs) ≡ count_where p xs
count-order_by p [] = refl
count-order_by p (x ∷ xs) =
    count-insert p x (order_by is_before xs) ∙ omega (arith, count-order_by p xs)

count-select :
    (p q : OrganizationMember → Bool) (xs : List OrganizationMember)
    → count_where q (select p xs) ≡ count_where (λ x. p x && q x) xs
count-select p q [] = refl
count-select p q (x ∷ xs) = ground (arith, count-select p q xs)

-- The list that `remove_member` counts.
listed_owners : (oid : ℕ) (db : Db) → length (select is_owner (list_all oid db)) ≡ owners oid db
listed_owners oid db =
    length-select is_owner (list_all oid db)
    ∙ count-order_by is_owner (select (is_live oid) db.members)
    ∙ count-select (is_live oid) is_owner db.members

owned_inv :
    (oid : ℕ) (o : Option OrganizationMember) (m : OrganizationMember)
    → owned oid o ≡ ok m
    → (o ≡ some m) × ((m.org_id == oid) ≡ true)
owned_inv oid none m h = absurd (ground (arith, h))
owned_inv oid (some c) m h = elim (Bool-cases (c.org_id == oid)) [
  | inr b ↦ absurd (ground (arith, rw b at h))
  | inl b ↦
      let s = ok_injective (rw b at h) in
      (ap some s, ap (λ (x : OrganizationMember). x.org_id == oid) (sym s) ∙ b)
]

fewer :
    (oid now : ℕ) (q : OrganizationMember → Bool) (rows : List OrganizationMember)
    → count_where (is_live_owner oid) (update_where q (removed now) rows)
      ≤ count_where (is_live_owner oid) rows
fewer oid now q [] = omega arith
fewer oid now q (x ∷ xs) = ground (arith, fewer oid now q xs)

-- Removing members who are no owners takes no owner away.
same_owners :
    (oid now : ℕ) (m : OrganizationMember) (rows : List OrganizationMember)
    → is_owner m ≡ false
    → All (λ x. (key x == key m) ≡ true → x ≡ m) rows
    → count_where
        (is_live_owner oid)
        (update_where (λ (x : OrganizationMember). x.id == m.id) (removed now) rows)
      ≡ count_where (is_live_owner oid) rows
same_owners oid now m [] n k = refl
same_owners oid now m (x ∷ xs) n k = elim (Bool-cases (x.id == m.id)) [
  | inl e ↦
      let o : is_owner x ≡ false = ap is_owner (k.0 e) ∙ n in
      rw e (ground (arith, o, same_owners oid now m xs n k.1))
  | inr e ↦ rw e (omega (arith, same_owners oid now m xs n k.1))
]

-- Over a table with distinct ids, an organization that has an owner still has one after a member was
-- removed from it.
pub remove_member_keeps_owner :
    (now oid mid : ℕ) (db after : Db)
    → IsKeyed key db.members
    → 0 < owners oid db
    → remove_member now oid mid db ≡ ok after
    → 0 < owners oid after
unfolding remove_member
remove_member_keeps_owner now oid mid db after k has h =
    let (m, o, h1) = bind_inv (owned oid (get_member_by_id mid db)) _ h in
    let (u, c, h2) = bind_inv (check_owners oid m db) _ h1 in
    let (found, own) = owned_inv oid (get_member_by_id mid db) m o in
    subst (λ t. 0 < owners oid t) (ok_injective h2) (still m found own c (Bool-cases (is_owner m)))
  where
    still :
        (m : OrganizationMember)
        → get_member_by_id mid db ≡ some m
        → (m.org_id == oid) ≡ true
        → check_owners oid m db ≡ ok tt
        → (is_owner m ≡ true) ⊎ (is_owner m ≡ false)
        → 0 < owners oid (remove_member_row now m db)
    still m found own c (inr n) =
        let same =
          same_owners oid now m db.members n
            (only_row key (key m) _ db.members k found (ground arith)) in
        omega (arith, same, has)
    still m found own c (inl y) =
        elim (Bool-cases (leb (length (select is_owner (list_all oid db))) 1)) [
          | inl few ↦ absurd (ground (arith, rw (y, few) at c))
          | inr many ↦
              let live =
                find_first_sound (λ (x : OrganizationMember). (x.id == mid) && not x.is_deleted)
                  db.members found in
              let one =
                count_where-update_one key _ (is_live_owner oid) (removed now) db.members k found
                  (ground (arith, own, live, y)) (ground arith) in
              let n = listed_owners oid db in ground (arith, one, n, many)
        ]

-- Changing the role of the only owner of an organization to another role succeeds and leaves the
-- organization without an owner, over a table with distinct ids.
pub change_member_role_loses_owner :
    (oid mid : ℕ) (role : Role) (db : Db) (m : OrganizationMember)
    → IsKeyed key db.members
    → get_member_by_id mid db ≡ some m
    → (m.org_id == oid) ≡ true
    → is_owner m ≡ true
    → owners oid db ≡ 1
    → text_eq (role_value role) (role_value owner) ≡ false
    → (after : Db) × (change_member_role oid mid role db ≡ ok after) × (owners oid after ≡ 0)
unfolding change_member_role
change_member_role_loses_owner oid mid role db m k found own y one other =
    (update_member_role m (role_value role) db, rw (found, own) refl, lost)
  where
    lost : owners oid (update_member_role m (role_value role) db) ≡ 0
    lost =
        let live =
          find_first_sound (λ (x : OrganizationMember). (x.id == mid) && not x.is_deleted)
            db.members found in
        let fewer_by_one =
          count_where-update_one key _ (is_live_owner oid) (with_role (role_value role)) db.members
            k found (ground (arith, own, live, y)) (ground (arith, other)) in
        omega (arith, fewer_by_one, one)
