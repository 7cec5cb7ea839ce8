-- ===== src/Partners/Commissions/Churn.antt =====
-- After a customer has churned, its payments earn nothing.
use reliastra_backend.Prelude.{ℕ, ◌≡◌, refl, true, arith, ◌==◌, none, some, Option-cases, inl, inr}
use reliastra_backend.Prelude.Tables.{find_first-update_where}
use reliastra_backend.Partners.Model.{PartnerReferral, Db, Settings, ReferralStatus, is_churned}
use reliastra_backend.Partners.Repository.Referrals
use reliastra_backend.Partners.Repository.Patches.{ReferralPatch, patch_referral}
use reliastra_backend.Partners.Repository.Shared.{list_members}
use reliastra_backend.Partners.Commissions.{
  Payment, org_owner, eligible, record_payment, churning, handle_churn,
}

abbrev churn_patch : ReferralPatch
churn_patch = record { status = some ReferralStatus.churned; subscribed_at = none }

churned_found :
    (uid : ℕ) (r : PartnerReferral) (db : Db)
    → Referrals.get_by_referred_user db uid ≡ some r
    → Referrals.get_by_referred_user (Referrals.update r.id churn_patch db) uid
      ≡ some (patch_referral churn_patch r)
unfolding Referrals.get_by_referred_user Referrals.update patch_referral
churned_found uid r db h = ground (
  arith,
  find_first-update_where (λ x. x.referred_user_id == uid) (λ x. x.id == r.id)
      (patch_referral churn_patch) db.referrals (λ x. refl),
)

org_owner-update :
    (rid oid : ℕ) (p : ReferralPatch) (db : Db)
    → org_owner (Referrals.update rid p db) oid ≡ org_owner db oid
unfolding org_owner Referrals.update list_members
org_owner-update rid oid p db = refl

module _ (s : Settings) (pay : Payment) (db : Db) where
  -- No referral to end means that the payment earns nothing already.
  eligible_of_not_churning : churning pay.organization_id db ≡ none → eligible s pay db ≡ none
  unfolding churning eligible
  eligible_of_not_churning h = ground arith

  churning_sound :
      {r : PartnerReferral}
      → churning pay.organization_id db ≡ some r
      → (uid : ℕ) × (org_owner db pay.organization_id ≡ some uid)
        × (Referrals.get_by_referred_user db uid ≡ some r)
  unfolding churning
  churning_sound h = elim (Option-cases (org_owner db pay.organization_id)) [
    | inl e ↦ absurd (ground arith)
    | inr (uid, e) ↦ (uid, e, ground arith)
  ]

  eligible_of_churned :
      {r : PartnerReferral}
      → churning pay.organization_id db ≡ some r
      → eligible s pay (Referrals.update r.id churn_patch db) ≡ none
  unfolding eligible
  eligible_of_churned {r} h =
      let (uid, own, ref) = churning_sound h in
      ground (
        arith,
        org_owner-update r.id pay.organization_id churn_patch db,
        churned_found uid r db ref,
        patched r,
      )
    where
      patched : (x : PartnerReferral) → is_churned (patch_referral churn_patch x).status ≡ true
      patched x = unfold patch_referral in refl

-- Once an organization has churned, no payment of it is recorded.
pub record_payment-handle_churn :
    (s : Settings) (new_id now : ℕ) (pay : Payment) (db : Db)
    → record_payment s new_id now pay (handle_churn pay.organization_id db)
      ≡ handle_churn pay.organization_id db
unfolding record_payment handle_churn
record_payment-handle_churn s new_id now pay db =
    elim (Option-cases (churning pay.organization_id db)) [
      | inl e ↦ ground (arith, eligible_of_not_churning s pay db e)
      | inr (r, e) ↦ ground (arith, eligible_of_churned s pay db e)
    ]
