-- ===== src/Organizations/Examples.antt =====
-- The theorems on organizations at a small table, and tests.
use reliastra_backend.Prelude.{◌<◌, ◌≡◌, refl, false, none, [], ◌∷◌, arith}
use reliastra_backend.Prelude.Text.{codes, lower}
use reliastra_backend.Prelude.Result.{ok, err, forbidden, conflict}
use reliastra_backend.Pagination.Keyset.{follow_cursors}
use reliastra_backend.Organizations.Model.{OrganizationMember, Db, list_all, change, removed}
use reliastra_backend.Organizations.Service.{
  admin, viewer, choose_slug, create_org, invite_member, change_member_role, remove_member,
  list_members,
}
use reliastra_backend.Organizations.Listing.{list_members_complete}
use reliastra_backend.Organizations.Owners.{
  owners, remove_member_keeps_owner, change_member_role_loses_owner,
}
use reliastra_backend.Organizations.Unique.{IsUnique, removes, done, then_step, Reach-IsUnique}

abbrev empty : Db
empty = record {
  organizations = [];
  members = [];
  users =
      record { id = 1; email = codes "a@test" } ∷ record { id = 2; email = codes "b@test" } ∷ [];
  applications = [];
}

abbrev founder : OrganizationMember
founder = record {
  id = 100;
  org_id = 10;
  user_id = 1;
  role = codes "owner";
  joined_at = 50;
  is_deleted = false;
  deleted_at = none;
}

abbrev guest : OrganizationMember
guest = record {
  id = 101;
  org_id = 10;
  user_id = 2;
  role = codes "viewer";
  joined_at = 60;
  is_deleted = false;
  deleted_at = none;
}

abbrev founded : Db
founded = record {
  organizations =
      record { id = 10; name = codes "My  Org!"; slug = codes "my-org"; plan = codes "free" } ∷ [];
  members = founder ∷ [];
  users =
      record { id = 1; email = codes "a@test" } ∷ record { id = 2; email = codes "b@test" } ∷ [];
  applications = record { org_id = 10; name = "Default" } ∷ [];
}

abbrev with_guest : Db
with_guest = record founded { members = founder ∷ guest ∷ [] }

created : create_org 50 10 100 (codes "org-0") 1 (codes "My  Org!") none empty ≡ ok founded
unfolding create_org lower
created = refl

invited : invite_member 60 101 10 (codes "B@test") viewer founded ≡ ok with_guest
unfolding invite_member lower
invited = refl

invited_twice : invite_member 61 102 10 (codes "B@test") admin with_guest ≡ err conflict
unfolding invite_member lower
invited_twice = refl

last_owner_stays : remove_member 70 10 100 with_guest ≡ err forbidden
unfolding remove_member
last_owner_stays = refl

abbrev without_guest : Db
without_guest = change 101 (removed 70) with_guest

guest_removed : remove_member 70 10 101 with_guest ≡ ok without_guest
unfolding remove_member
guest_removed = refl

remove_member_keeps_owner_example : 0 < owners 10 without_guest
remove_member_keeps_owner_example =
    remove_member_keeps_owner 70 10 101 with_guest without_guest (refl, (refl, tt)) (omega arith)
      guest_removed

change_member_role_loses_owner_example :
    (after : Db) × (change_member_role 10 100 admin with_guest ≡ ok after) × (owners 10 after ≡ 0)
change_member_role_loses_owner_example =
    change_member_role_loses_owner 10 100 admin with_guest founder (refl, (refl, tt)) refl refl refl
      refl refl

list_members_complete_example :
    follow_cursors (λ c. list_members 10 1 c with_guest) 2 none ≡ list_all 10 with_guest
list_members_complete_example =
    list_members_complete 10 1 2 with_guest (refl, (refl, tt)) (omega arith)

two_pages : list_all 10 with_guest ≡ founder ∷ guest ∷ []
two_pages = refl

with_guest-IsUnique : IsUnique with_guest
with_guest-IsUnique oid uid = ground arith

Reach-IsUnique_example : IsUnique without_guest
Reach-IsUnique_example =
    Reach-IsUnique (then_step done (removes 70 10 101 guest_removed)) with_guest-IsUnique

same_slug :
    choose_slug none (codes "My Org") (codes "org-1")
    ≡ choose_slug none (codes "My  Org!") (codes "org-0")
unfolding lower
same_slug = refl
