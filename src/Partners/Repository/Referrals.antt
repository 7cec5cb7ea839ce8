-- ===== src/Partners/Repository/Referrals.antt =====
-- `PartnerReferralRepository` of partners/repository.py
use reliastra_backend.Prelude.{ℕ, Option, none, [], ◌∷◌, ◌++◌, ◌==◌, find_first, update_where}
use reliastra_backend.Partners.Model.{PartnerReferral, ReferralStatus, Db}
use reliastra_backend.Partners.Repository.Patches.{ReferralPatch, patch_referral}

unfoldable pub get_by_referred_user : Db → ℕ → Option PartnerReferral
get_by_referred_user db uid = find_first (λ r. r.referred_user_id == uid) db.referrals

unfoldable pub create : ℕ → ℕ → ℕ → Option ℕ → ReferralStatus → Db → PartnerReferral × Db
create new_id partner_id user_id org_id status db =
    let r : PartnerReferral = record {
      id = new_id;
      partner_id = partner_id;
      referred_user_id = user_id;
      referred_org_id = org_id;
      status = status;
      subscribed_at = none;
    } in
    (r, record db { referrals = db.referrals ++ r ∷ [] })

unfoldable pub update : ℕ → ReferralPatch → Db → Db
unfolding patch_referral
update rid p db = record db {
  referrals = update_where (λ r. r.id == rid) (patch_referral p) db.referrals;
}
