-- ===== src/Organizations/Service.antt =====
-- app/modules/organizations/service.py. The ids of new rows and the time are arguments.
use reliastra_backend.Prelude.{
  ℕ, Bool, true, false, not, ◌&&◌, ◌||◌, Option, none, some, [], ◌∷◌, ◌==◌, leb, is_none, select,
  length, if◌then◌else◌,
}
use reliastra_backend.Prelude.Text.{Text, text_eq, lower, codes, text_or}
use reliastra_backend.Prelude.Result.{
  Result, ok, err, not_found, conflict, forbidden, ◌>>=◌, ◌>>◌, require, or_raise,
}
use reliastra_backend.Pagination.{Page}
use reliastra_backend.Pagination.Keyset.{request}
use reliastra_backend.Organizations.Model.{
  OrganizationMember, Db, get_by_id, get_by_slug, get_by_email, create, update, get_member_row,
  get_member_by_id, is_before, list_all, add_member, update_member_role, restore_member,
  remove_member_row, create_application,
}

-- `Role`, and `role.value`
pub data Role : Type 0 where
  owner admin member viewer : Role

abbrev pub role_value : Role → Text
role_value owner = codes "owner"
role_value admin = codes "admin"
role_value member = codes "member"
role_value viewer = codes "viewer"

-- A letter from a to z, a digit or a hyphen.
abbrev pub is_slug_char : ℕ → Bool
is_slug_char c = (leb 97 c && leb c 122) || (leb 48 c && leb c 57) || (c == 45)

-- `re.sub(r"[^a-z0-9-]+", "-", …)`, where the flag says that a run is being replaced
abbrev pub sub_runs : Bool → Text → Text
sub_runs in_run [] = []
sub_runs in_run (c ∷ t) =
    let kept = c ∷ sub_runs false t in
    let replaced = sub_runs true t in
    if is_slug_char c then kept else if in_run then replaced else 45 ∷ replaced

abbrev pub drop_hyphens : Text → Text
drop_hyphens [] = []
drop_hyphens (c ∷ t) = let rest = drop_hyphens t in if c == 45 then rest else c ∷ t

abbrev pub backwards : Text → Text → Text
backwards [] acc = acc
backwards (c ∷ t) acc = backwards t (c ∷ acc)

-- `….strip("-")`
abbrev pub strip_hyphens : Text → Text
strip_hyphens t = backwards (drop_hyphens (backwards (drop_hyphens t) [])) []

abbrev pub slugify : Text → Text
slugify name = strip_hyphens (sub_runs false (lower name))

-- The slug of a new organization: the given one, one from the name, or `org-` and a random text.
abbrev pub choose_slug : Option Text → Text → Text → Text
choose_slug none name fallback = text_or (slugify name) fallback
choose_slug (some slug) name fallback = text_or slug (text_or (slugify name) fallback)

-- `create_org`
unfoldable pub create_org : ℕ → ℕ → ℕ → Text → ℕ → Text → Option Text → Db → Result Db
create_org now new_id new_member fallback uid name slug db = do
  require (is_none (get_by_slug (choose_slug slug name fallback) db)) conflict
  ok (
      create_application new_id "Default" (
        add_member now new_member new_id uid (role_value owner)
          (create new_id name (choose_slug slug name fallback) (codes "free") db)))

-- `update_org`; the plan is not changed here.
unfoldable pub update_org : ℕ → Option Text → Db → Result Db
update_org oid name db = do o ← or_raise (get_by_id oid db) not_found; ok (update o.id name db)

-- `list_members`, page by page
unfoldable pub list_members : ℕ → ℕ → Option ℕ → Db → Page OrganizationMember
list_members oid limit cursor db =
    request is_before (λ (m : OrganizationMember). m.id) db.members (list_all oid db) limit cursor

-- What an invitation does, with the row of the user's membership if there is one.
abbrev pub invite : ℕ → ℕ → ℕ → ℕ → Role → Option OrganizationMember → Db → Result Db
invite now new_id oid uid role none db = ok (add_member now new_id oid uid (role_value role) db)
invite now new_id oid uid role (some m) db =
    if m.is_deleted then ok (restore_member m (role_value role) db) else err conflict

unfoldable pub invite_member : ℕ → ℕ → ℕ → Text → Role → Db → Result Db
invite_member now new_id oid email role db = do
  u ← or_raise (get_by_email email db) not_found
  invite now new_id oid u.id role (get_member_row oid u.id db) db

-- The row of a member's id, for an organization.
abbrev pub owned : ℕ → Option OrganizationMember → Result OrganizationMember
owned oid none = err not_found
owned oid (some m) = if m.org_id == oid then ok m else err not_found

unfoldable pub change_member_role : ℕ → ℕ → Role → Db → Result Db
change_member_role oid mid role db = do
  m ← owned oid (get_member_by_id mid db)
  ok (update_member_role m (role_value role) db)

abbrev pub is_owner : OrganizationMember → Bool
is_owner m = text_eq m.role (role_value owner)

-- The last owner is not removed.
abbrev pub check_owners : ℕ → OrganizationMember → Db → Result (Unit {0})
check_owners oid m db =
    if is_owner m
    then require (not (leb (length (select is_owner (list_all oid db))) 1)) forbidden
    else ok tt

unfoldable pub remove_member : ℕ → ℕ → ℕ → Db → Result Db
remove_member now oid mid db = do
  m ← owned oid (get_member_by_id mid db)
  check_owners oid m db
  ok (remove_member_row now m db)
