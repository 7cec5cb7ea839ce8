-- ===== src/Permissions/Examples.antt =====
-- The theorems on roles and plans at concrete names.
use reliastra_backend.Prelude.{◌≡◌, refl, true, false}
use reliastra_backend.Prelude.Text.{codes, lower}
use reliastra_backend.Permissions.{get_role_level, has_permission, is_valid_plan}

gold_is_unknown : is_valid_plan (codes "gold") ≡ false
unfolding is_valid_plan lower
gold_is_unknown = refl

admin_has_member : has_permission (codes "Admin") (codes "member") ≡ true
unfolding has_permission get_role_level lower
admin_has_member = refl
