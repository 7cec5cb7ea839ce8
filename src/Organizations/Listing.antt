-- ===== src/Organizations/Listing.antt =====
-- Following the pages of `list_members`.
use reliastra_backend.Prelude.{ℕ, ◌*◌, ◌≤◌, ◌≡◌, true, false, ◌⊎◌, none, length, arith, ◌==◌}
use reliastra_backend.Prelude.Tables.{IsKeyed}
use reliastra_backend.Prelude.Order.{
  order_by-IsSorted, order_by-All, select-IsKeyed, select-All, rows-IsRowOf, IsRowOf,
}
use reliastra_backend.Pagination.Keyset.{follow_cursors, follow_cursors-rows}
use reliastra_backend.Organizations.Model.{OrganizationMember, Db, is_before, is_live, list_all}
use reliastra_backend.Organizations.Service.{list_members}

abbrev pub key : OrganizationMember → ℕ
key m = m.id

transitive :
    (a b c : OrganizationMember)
    → is_before a b ≡ true
    → is_before b c ≡ true
    → is_before a c ≡ true
transitive a b c h k = ground arith

total :
    (a b : OrganizationMember)
    → (key b == key a) ≡ false
    → (is_before a b ≡ true) ⊎ (is_before b a ≡ true)
total a b h = ground arith

irreflexive : (a : OrganizationMember) → is_before a a ≡ false
irreflexive a = ground arith

asymmetric : (a b : OrganizationMember) → is_before a b ≡ true → is_before b a ≡ false
asymmetric a b h = ground arith

-- Over a table with distinct ids, a client that follows the cursors of `list_members` gets every
-- member of the organization that is not removed, once and in the order in which they joined, with as
-- many requests as it takes to cover them with pages.
pub list_members_complete :
    (oid limit requests : ℕ) (db : Db)
    → IsKeyed key db.members
    → length (list_all oid db) ≤ requests * limit
    → follow_cursors (λ c. list_members oid limit c db) requests none ≡ list_all oid db
unfolding list_members
list_members_complete oid limit requests db k enough =
    follow_cursors-rows is_before key irreflexive asymmetric db.members (list_all oid db) limit
      (order_by-IsSorted is_before key transitive total _
        (select-IsKeyed key (is_live oid) db.members k))
      (order_by-All is_before (IsRowOf key db.members) _ (
        select-All (IsRowOf key db.members) (is_live oid) db.members
          (rows-IsRowOf key db.members k)))
      requests enough
