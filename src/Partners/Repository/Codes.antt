-- ===== src/Partners/Repository/Codes.antt =====
-- `ReferralCodeRepository.get_by_code` of referrals/repository.py
use reliastra_backend.Prelude.{Option, find_first, ◌&&◌}
use reliastra_backend.Prelude.Text.{Text, text_eq, upper}
use reliastra_backend.Partners.Model.{ReferralCode, Db}

unfoldable pub get_by_code : Db → Text → Option ReferralCode
unfolding upper
get_by_code db code = find_first (λ c. text_eq c.code (upper code) && c.is_active) db.codes
