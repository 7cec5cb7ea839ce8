-- ===== src/Permissions/Roles.antt =====
-- The order that the role hierarchy makes of role names.
use reliastra_backend.Prelude.{
  ◌≤◌, ◌≡◌, refl, ◌⊎◌, Bool, true, false, [], ◌∷◌, arith, or_else, is_some, Bool-cases, inl, inr,
}
use reliastra_backend.Prelude.Text.{Text, upper, lower, lower-upper, codes}
use reliastra_backend.Prelude.Result.{ok}
use reliastra_backend.Permissions.{
  get_role_level, has_permission, require_permission, role_hierarchy, table_get,
}

-- A role name is known if the hierarchy lists it, in any case of letters.
pub is_known : Text → Bool
is_known role = is_some (table_get role_hierarchy (lower role))

get_role_level-upper : (r : Text) → get_role_level (upper r) ≡ get_role_level r
unfolding get_role_level
get_role_level-upper r = rw (lower-upper r) refl

-- Permission is a total preorder on role names: every role has its own, it passes along, and of
-- two roles one has the other's; the case of letters does not matter.
pub has_permission_order :
    (a b c : Text)
    → (has_permission a a ≡ true)
      × (has_permission a b ≡ true → has_permission b c ≡ true → has_permission a c ≡ true)
      × ((has_permission a b ≡ true) ⊎ (has_permission b a ≡ true))
      × (has_permission (upper a) b ≡ has_permission a b)
      × (has_permission a (upper b) ≡ has_permission a b)
unfolding has_permission
has_permission_order a b c = (
  ground arith,
  λ h k. ground arith,
  ground arith,
  rw (get_role_level-upper a) refl,
  rw (get_role_level-upper b) refl,
)

-- Every entry of a table with the four levels is at least 10, whatever the names.
levels :
    (o a m v k : Text)
    → is_some (table_get ((o, 40) ∷ (a, 30) ∷ (m, 20) ∷ (v, 10) ∷ []) k) ≡ true
    → 10 ≤ or_else (table_get ((o, 40) ∷ (a, 30) ∷ (m, 20) ∷ (v, 10) ∷ []) k) 0
levels o a m v k h = ground arith

listed_level :
    (k : Text)
    → is_some (table_get role_hierarchy k) ≡ true
    → 10 ≤ or_else (table_get role_hierarchy k) 0
listed_level k = levels (codes "owner") (codes "admin") (codes "member") (codes "viewer") k

known_level :
    (r : Text)
    → (is_known r ≡ true → 10 ≤ get_role_level r) × (is_known r ≡ false → get_role_level r ≡ 0)
unfolding get_role_level is_known
known_level r = (λ h. listed_level (lower r) h, λ h. ground arith)

-- Whoever passes a check for a known role has a known role; a check for an unknown role name is
-- passed by everybody.
pub unknown_roles :
    (user required : Text)
    → (require_permission user required ≡ ok tt → is_known required ≡ true → is_known user ≡ true)
      × (is_known required ≡ false → require_permission user required ≡ ok tt)
unfolding require_permission has_permission
unknown_roles user required = (
  λ h k. elim (Bool-cases (is_known user)) [
    | inl e ↦ e
    | inr e ↦ absurd (ground (arith, (known_level required).0 k, (known_level user).1 e))
  ],
  λ k. ground (arith, (known_level required).1 k),
)
