-- ===== src/Organizations/Model.antt =====
-- app/modules/organizations/models.py and repository.py, `get_by_email` of app/modules/users/repository.py
-- and `create_application` of app/modules/agencies/repository.py.
use reliastra_backend.Prelude.{
  ℕ, Bool, true, false, not, ◌&&◌, ◌||◌, Option, none, some, String, List, [], ◌∷◌, ◌++◌, ◌==◌, ltb,
  find_first, select, update_where, or_else,
}
use reliastra_backend.Prelude.Text.{Text, text_eq, lower}
use reliastra_backend.Prelude.Order.{order_by}

pub record Organization : Type 0 where
  pub id : ℕ
  pub name : Text
  pub slug : Text
  pub plan : Text

pub record OrganizationMember : Type 0 where
  pub id : ℕ
  pub org_id : ℕ
  pub user_id : ℕ
  pub role : Text
  pub joined_at : ℕ
  pub is_deleted : Bool
  pub deleted_at : Option ℕ

pub record User : Type 0 where
  pub id : ℕ
  pub email : Text

pub record Application : Type 0 where
  pub org_id : ℕ
  pub name : String

pub record Db : Type 0 where
  pub organizations : List Organization
  pub members : List OrganizationMember
  pub users : List User
  pub applications : List Application

abbrev pub get_by_id : ℕ → Db → Option Organization
get_by_id oid db = find_first (λ (o : Organization). o.id == oid) db.organizations

abbrev pub get_by_slug : Text → Db → Option Organization
get_by_slug slug db =
    find_first (λ (o : Organization). text_eq o.slug (lower slug)) db.organizations

abbrev pub get_by_email : Text → Db → Option User
get_by_email email db = find_first (λ (u : User). text_eq u.email (lower email)) db.users

-- `create`
abbrev pub create : ℕ → Text → Text → Text → Db → Db
create new_id name slug plan db = record db {
  organizations =
      db.organizations ++ record { id = new_id; name = name; slug = lower slug; plan = plan } ∷ [];
}

-- `update` of the name; a missing one is skipped.
abbrev pub update : ℕ → Option Text → Db → Db
update oid name db = record db {
  organizations =
      update_where (λ (o : Organization). o.id == oid)
        (λ (o : Organization). record o { name = or_else name o.name }) db.organizations;
}

abbrev pub is_member : ℕ → ℕ → OrganizationMember → Bool
is_member oid uid m = (m.org_id == oid) && (m.user_id == uid)

-- `get_member` with `include_deleted`
abbrev pub get_member_row : ℕ → ℕ → Db → Option OrganizationMember
get_member_row oid uid db = find_first (is_member oid uid) db.members

abbrev pub get_member_by_id : ℕ → Db → Option OrganizationMember
get_member_by_id mid db =
    find_first (λ (m : OrganizationMember). (m.id == mid) && not m.is_deleted) db.members

-- ORDER BY joined_at ASC, id ASC, which is also the order of the cursor
abbrev pub is_before : OrganizationMember → OrganizationMember → Bool
is_before a b = ltb a.joined_at b.joined_at || ((a.joined_at == b.joined_at) && ltb a.id b.id)

abbrev pub is_live : ℕ → OrganizationMember → Bool
is_live oid m = (m.org_id == oid) && not m.is_deleted

-- `list_members` without a limit and a cursor
abbrev pub list_all : ℕ → Db → List OrganizationMember
list_all oid db = order_by is_before (select (is_live oid) db.members)

abbrev pub add_member : ℕ → ℕ → ℕ → ℕ → Text → Db → Db
add_member now new_id oid uid role db = record db {
  members =
      db.members
      ++ record {
        id = new_id;
        org_id = oid;
        user_id = uid;
        role = role;
        joined_at = now;
        is_deleted = false;
        deleted_at = none;
      }
        ∷ [];
}

-- A change of the row of a member.
abbrev pub change : ℕ → (OrganizationMember → OrganizationMember) → Db → Db
change mid f db = record db {
  members = update_where (λ (m : OrganizationMember). m.id == mid) f db.members;
}

abbrev pub with_role : Text → OrganizationMember → OrganizationMember
with_role role m = record m { role = role }

abbrev pub restored : Text → OrganizationMember → OrganizationMember
restored role m = record m { is_deleted = false; deleted_at = none; role = role }

abbrev pub removed : ℕ → OrganizationMember → OrganizationMember
removed now m = record m { is_deleted = true; deleted_at = some now }

abbrev pub update_member_role : OrganizationMember → Text → Db → Db
update_member_role m role db = change m.id (with_role role) db

abbrev pub restore_member : OrganizationMember → Text → Db → Db
restore_member m role db = change m.id (restored role) db

abbrev pub remove_member_row : ℕ → OrganizationMember → Db → Db
remove_member_row now m db = change m.id (removed now) db

abbrev pub create_application : ℕ → String → Db → Db
create_application oid name db = record db {
  applications = db.applications ++ record { org_id = oid; name = name } ∷ [];
}
