-- ===== src/Partners/Service.antt =====
-- app/modules/partners/service.py: the binding of a new user to the partner who referred them, and
-- the masking of an address.
pub mod Binding
use reliastra_backend.Prelude.{
  ℕ, Option, none, some, Bool, true, false, not, List, [], ◌∷◌, ◌++◌, ◌==◌, if◌then◌else◌,
}
use reliastra_backend.Prelude.Early.{◌>>=◌, ◌>>◌, return_if}
use reliastra_backend.Prelude.Text.{Text}
use reliastra_backend.Partners.Model.{
  PartnerProfile, PartnerReferral, ReferralStatus, Db, is_active,
}
use reliastra_backend.Partners.Repository.Codes
use reliastra_backend.Partners.Repository.Profiles
use reliastra_backend.Partners.Repository.Referrals
use reliastra_backend.Partners.Repository.Shared.{log_event}

-- The early returns with `None`: the partner who may have referred the user.
pub referring_partner : Text → ℕ → Db → Option PartnerProfile
referring_partner referral_code new_user_id db = do
  code_obj ← Codes.get_by_code db referral_code
  partner ← Profiles.get_by_user_id db code_obj.user_id
  return_if (not (is_active partner.status))
  return_if (partner.user_id == new_user_id)
  some partner

-- The new row; `new_id` is its UUID.
pub bind : ℕ → ℕ → Option ℕ → PartnerProfile → Db → PartnerReferral × Db
bind new_id new_user_id new_org_id partner db =
    let made =
      Referrals.create new_id partner.id new_user_id new_org_id ReferralStatus.signed_up db in
    (made.0, log_event "partner_referral_created" (some partner.user_id) made.0.id made.1)

pub bind_referral : ℕ → Text → ℕ → Option ℕ → Db → Option PartnerReferral × Db
bind_referral new_id referral_code new_user_id new_org_id db =
    elim (referring_partner referral_code new_user_id db) [
      | none ↦ (none, db)
      | some partner ↦ elim (Referrals.get_by_referred_user db new_user_id) [
        | some existing ↦ (some existing, db)
        | none ↦ let made = bind new_id new_user_id new_org_id partner db in (some made.0, made.1)
      ]
    ]

-- `email.partition("@")`: the local part and, if there is an "@", the domain
pub partition_at : Text → Text × Option Text
partition_at [] = ([], none)
partition_at (c ∷ t) =
    let rest = partition_at t in if c == b'@' then ([], some t) else (c ∷ rest.0, rest.1)

abbrev stars : Text
stars = b'*' ∷ b'*' ∷ b'*' ∷ []

abbrev pub first_or_star : Text → ℕ
first_or_star [] = b'*'
first_or_star (c ∷ t) = c

pub mask_email : Text → Text
unfolding partition_at
mask_email email =
    let parts = partition_at email in
    elim parts.1 [ none ↦ stars | some domain ↦ first_or_star parts.0 ∷ stars ++ b'@' ∷ domain ]
