-- ===== src/Partners/Commissions/Eligible.antt =====
-- What the early returns of `record_payment` have checked when it goes on to write.
use reliastra_backend.Prelude.{
  ℕ, ◌<◌, ◌≡◌, none, some, true, false, arith, str_eq, Option-cases, inl, inr,
}
use reliastra_backend.Partners.Model.{
  PartnerProfile, PartnerReferral, Db, Settings, is_active, is_churned,
}
use reliastra_backend.Partners.Rate.{apply_rate}
use reliastra_backend.Partners.Repository.Profiles
use reliastra_backend.Partners.Repository.Referrals
use reliastra_backend.Partners.Repository.Commissions as Ledger
use reliastra_backend.Partners.Commissions.{Payment, org_owner, eligible}

-- The facts behind an accrual.
pub record IsEligible (s : Settings) (pay : Payment) (db : Db) (r : PartnerReferral)
    (p : PartnerProfile) : Type 0 where
  pub has_reference : str_eq pay.payment_reference "" ≡ false
  pub has_owner :
      (uid : ℕ) × (org_owner db pay.organization_id ≡ some uid)
      × (Referrals.get_by_referred_user db uid ≡ some r)
  pub not_churned : is_churned r.status ≡ false
  pub has_partner : Profiles.get_by_id db r.partner_id ≡ some p
  pub earning : is_active p.status ≡ true
  pub not_recorded : Ledger.get_by_billing_event db pay.payment_reference p.id ≡ none
  pub has_amount : 0 < apply_rate pay.collected_minor s.commission_rate

pub eligible_sound :
    (s : Settings) (pay : Payment) (db : Db) (r : PartnerReferral) (p : PartnerProfile)
    → eligible s pay db ≡ some (r, p)
    → IsEligible s pay db r p
unfolding eligible
eligible_sound s pay db r p h = record {
  has_reference = ground arith;
  has_owner = elim (Option-cases (org_owner db pay.organization_id)) [
    | inl e ↦ absurd (ground arith)
    | inr (u, e) ↦ (u, e, ground arith)
  ];
  not_churned = ground arith;
  has_partner = ground arith;
  earning = ground arith;
  not_recorded = ground arith;
  has_amount = ground arith;
}
