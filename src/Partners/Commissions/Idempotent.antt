-- ===== src/Partners/Commissions/Idempotent.antt =====
-- A second delivery of a payment changes nothing.
use reliastra_backend.Prelude.{
  ℕ, ◌≡◌, refl, false, arith, ◌==◌, none, some, or_else, eq_iff, Option-cases, Bool-cases, inl, inr,
  find_first, update_where,
}
use reliastra_backend.Prelude.Tables.{find_first-update_where, find_first-append}
use reliastra_backend.Partners.Model.{
  PartnerProfile, PartnerReferral, PartnerCommission, Db, Settings, ReferralStatus, is_signed_up,
  is_churned,
}
use reliastra_backend.Partners.Repository.Profiles
use reliastra_backend.Partners.Repository.Referrals
use reliastra_backend.Partners.Repository.Commissions as Ledger
use reliastra_backend.Partners.Repository.Patches.{ReferralPatch, patch_referral, for_event}
use reliastra_backend.Partners.Repository.Shared.{log_event, list_members}
use reliastra_backend.Partners.Commissions.{
  Payment, org_owner, eligible, new_commission, accrue, record_payment,
}
use reliastra_backend.Partners.Commissions.Eligible.{IsEligible, eligible_sound}
use reliastra_backend.Partners.Commissions.Keeps.{commissions-accrue}

module _ (s : Settings) (new_id now : ℕ) (pay : Payment) (r : PartnerReferral) (p : PartnerProfile)
    (db : Db) where
  org_owner-accrue : (oid : ℕ) → org_owner (accrue s new_id now pay r p db) oid ≡ org_owner db oid
  unfolding accrue org_owner Ledger.create log_event Referrals.update list_members
  org_owner-accrue oid = ground arith

  partner-accrue :
      (pid : ℕ)
      → Profiles.get_by_id (accrue s new_id now pay r p db) pid ≡ Profiles.get_by_id db pid
  unfolding accrue Profiles.get_by_id Ledger.create log_event Referrals.update
  partner-accrue pid = ground arith

  abbrev paid_patch : ReferralPatch
  paid_patch = record {
    status = some ReferralStatus.paid;
    subscribed_at = some (or_else pay.paid_at now);
  }

  promoted :
      (uid : ℕ)
      → find_first (λ x. x.referred_user_id == uid) db.referrals ≡ some r
      → find_first
          (λ x. x.referred_user_id == uid)
          (update_where (λ x. x.id == r.id) (patch_referral paid_patch) db.referrals)
        ≡ some (patch_referral paid_patch r)
  unfolding patch_referral
  promoted uid h = ground (
    arith,
    find_first-update_where (λ x. x.referred_user_id == uid) (λ x. x.id == r.id)
        (patch_referral paid_patch) db.referrals (λ x. refl),
  )

  -- The referral of a customer is found again: still of the same partner, and not churned.
  referral-accrue :
      (uid : ℕ)
      → Referrals.get_by_referred_user db uid ≡ some r
      → is_churned r.status ≡ false
      → (r' : PartnerReferral) × (Referrals.get_by_referred_user
            (accrue s new_id now pay r p db)
            uid
          ≡ some r')
        × (r'.partner_id ≡ r.partner_id)
        × (is_churned r'.status ≡ false)
  unfolding accrue Referrals.get_by_referred_user Referrals.update Ledger.create log_event
      patch_referral
  referral-accrue uid h c = elim (Bool-cases (is_signed_up r.status)) [
    | inl e ↦ (patch_referral paid_patch r, rw e (promoted uid h), refl, refl)
    | inr e ↦ (r, ground arith, refl, c)
  ]

  event-accrue :
      (c : PartnerCommission) × (Ledger.get_by_billing_event
          (accrue s new_id now pay r p db)
          pay.payment_reference
          p.id
        ≡ some c)
  unfolding Ledger.get_by_billing_event new_commission
  event-accrue = rw (commissions-accrue s new_id now pay r p db) (
      find_first-append (for_event pay.payment_reference p.id) db.commissions
        (new_commission s new_id (or_else pay.paid_at now) pay r p)
        (ground (arith, eq_iff pay.payment_reference pay.payment_reference)))

  eligible-accrue : IsEligible s pay db r p → eligible s pay (accrue s new_id now pay r p db) ≡ none
  unfolding eligible
  eligible-accrue e =
      let (uid, own, ref) = e.has_owner in
      let (r', ref', same, live) = referral-accrue uid ref e.not_churned in
      let (c, found) = event-accrue in
      ground (arith, org_owner-accrue pay.organization_id, partner-accrue r.partner_id)

-- Recording a payment a second time, at any later time and with any new UUID, changes nothing.
pub record_payment_twice :
    (s : Settings) (new_id new_id' now now' : ℕ) (pay : Payment) (db : Db)
    → record_payment s new_id' now' pay (record_payment s new_id now pay db)
      ≡ record_payment s new_id now pay db
unfolding record_payment
record_payment_twice s new_id new_id' now now' pay db = elim (Option-cases (eligible s pay db)) [
  | inl e ↦ ground arith
  | inr ((r, p), e) ↦
      ground (arith, eligible-accrue s new_id now pay r p db (eligible_sound s pay db r p e))
]
