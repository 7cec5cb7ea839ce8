-- ===== src/Partners/Repository/Profiles.antt =====
-- `PartnerProfileRepository` of partners/repository.py
use reliastra_backend.Prelude.{ℕ, Option, ◌==◌, find_first}
use reliastra_backend.Partners.Model.{PartnerProfile, Db}

unfoldable pub get_by_user_id : Db → ℕ → Option PartnerProfile
get_by_user_id db uid = find_first (λ p. p.user_id == uid) db.profiles

unfoldable pub get_by_id : Db → ℕ → Option PartnerProfile
get_by_id db pid = find_first (λ p. p.id == pid) db.profiles
