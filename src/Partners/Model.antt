-- ===== src/Partners/Model.antt =====
-- app/modules/partners/models.py and constants.py: the rows of the referral program, with the
-- statuses as enums, and the database that the services share.
-- A UUID is a number, a moment is a number of seconds, an amount is in minor units. A table is
-- the list of its rows in the order of creation (`created_at`).
use reliastra_backend.Prelude.{ℕ, String, Option, Bool, true, false, List}
use reliastra_backend.Prelude.Text.{Text}

pub data PartnerStatus : Type 0 where
  active suspended banned : PartnerStatus

pub data ReferralStatus : Type 0 where
  referred signed_up paid churned : ReferralStatus

pub data CommissionStatus : Type 0 where
  pending payable paid reversed : CommissionStatus

pub data PayoutStatus : Type 0 where
  pending processing paid failed : PayoutStatus

pub data ReversalReason : Type 0 where
  refund chargeback admin : ReversalReason

pub record PartnerProfile : Type 0 where
  pub id : ℕ
  pub user_id : ℕ
  pub status : PartnerStatus
  pub click_count : ℕ

pub record PartnerReferral : Type 0 where
  pub id : ℕ
  pub partner_id : ℕ
  pub referred_user_id : ℕ
  pub referred_org_id : Option ℕ
  pub status : ReferralStatus
  pub subscribed_at : Option ℕ

pub record PartnerCommission : Type 0 where
  pub id : ℕ
  pub partner_id : ℕ
  pub referral_id : Option ℕ
  pub billing_event_id : String
  pub subscription_amount_minor : ℕ
  pub commission_amount_minor : ℕ
  pub currency : Text
  pub rate : ℕ
  pub status : CommissionStatus
  pub payable_at : Option ℕ
  pub paid_at : Option ℕ
  pub reversal_reason : Option String
  pub payout_id : Option ℕ

pub record PartnerPayout : Type 0 where
  pub id : ℕ
  pub partner_id : ℕ
  pub amount_minor : ℕ
  pub currency : Text
  pub status : PayoutStatus
  pub transaction_reference : Option String
  pub paid_at : Option ℕ

-- organizations/models.py, the columns that the program reads
pub record OrganizationMember : Type 0 where
  pub org_id : ℕ
  pub user_id : ℕ
  pub is_owner : Bool
  pub is_deleted : Bool

-- referrals/models.py
pub record ReferralCode : Type 0 where
  pub id : ℕ
  pub user_id : ℕ
  pub code : Text
  pub is_active : Bool

-- The event of the audit trail: its type, the user and the resource; the JSON payload is left out.
pub record AuditEvent : Type 0 where
  pub event_type : String
  pub user_id : Option ℕ
  pub resource_id : ℕ

pub record Db : Type 0 where
  pub members : List OrganizationMember
  pub codes : List ReferralCode
  pub profiles : List PartnerProfile
  pub referrals : List PartnerReferral
  pub commissions : List PartnerCommission
  pub payouts : List PartnerPayout
  pub audit : List AuditEvent

-- config.py
pub record Settings : Type 0 where
  pub commission_rate : ℕ
  pub hold_days : ℕ
  pub minimum_payout_minor : ℕ
  pub default_currency : Text

abbrev pub is_active : PartnerStatus → Bool
is_active PartnerStatus.active = true
is_active PartnerStatus.suspended = false
is_active PartnerStatus.banned = false

abbrev pub is_churned : ReferralStatus → Bool
is_churned ReferralStatus.churned = true
is_churned ReferralStatus.referred = false
is_churned ReferralStatus.signed_up = false
is_churned ReferralStatus.paid = false

abbrev pub is_signed_up : ReferralStatus → Bool
is_signed_up ReferralStatus.signed_up = true
is_signed_up ReferralStatus.referred = false
is_signed_up ReferralStatus.paid = false
is_signed_up ReferralStatus.churned = false

abbrev pub is_pending : CommissionStatus → Bool
is_pending CommissionStatus.pending = true
is_pending CommissionStatus.payable = false
is_pending CommissionStatus.paid = false
is_pending CommissionStatus.reversed = false

abbrev pub is_payable : CommissionStatus → Bool
is_payable CommissionStatus.payable = true
is_payable CommissionStatus.pending = false
is_payable CommissionStatus.paid = false
is_payable CommissionStatus.reversed = false

abbrev pub is_reversed : CommissionStatus → Bool
is_reversed CommissionStatus.reversed = true
is_reversed CommissionStatus.pending = false
is_reversed CommissionStatus.payable = false
is_reversed CommissionStatus.paid = false
