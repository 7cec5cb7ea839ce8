-- ===== src/Partners/Commissions.antt =====
-- app/modules/partners/commissions.py, `CommissionService`: what a confirmed payment, a refund,
-- the end of a subscription and the end of the holding period do to the ledger.
pub mod Eligible
pub mod Keeps
pub mod Idempotent
pub mod Churn
pub mod Refunds
pub mod History
use reliastra_backend.Prelude.{
  ℕ, ◌+◌, ◌*◌, String, Option, none, some, Bool, true, false, not, ◌&&◌, List, [], ◌∷◌, leb, ltb,
  str_eq, is_none, is_some, or_else, select, find_first, length, if◌then◌else◌, take,
}
use reliastra_backend.Prelude.Early.{◌>>=◌, ◌>>◌, return_if}
use reliastra_backend.Prelude.Result.{Result, ok, err, not_found}
use reliastra_backend.Prelude.Text.{Text, upper, text_or}
use reliastra_backend.Partners.Rate.{apply_rate}
use reliastra_backend.Partners.Model.{
  PartnerProfile, PartnerReferral, PartnerCommission, ReferralStatus, CommissionStatus, Db,
  Settings, is_active, is_churned, is_signed_up, is_reversed,
}
use reliastra_backend.Partners.Repository.Patches.{ReferralPatch, CommissionPatch}
use reliastra_backend.Partners.Repository.Profiles
use reliastra_backend.Partners.Repository.Referrals
use reliastra_backend.Partners.Repository.Commissions as Ledger
use reliastra_backend.Partners.Repository.Shared.{list_members, log_event}

-- The arguments of `record_payment`. The amount is 0 where the caller passes 0 or less.
pub record Payment : Type 0 where
  pub organization_id : ℕ
  pub collected_minor : ℕ
  pub currency : Text
  pub payment_reference : String
  pub paid_at : Option ℕ

-- `_org_owner`: the first member in the role "owner"
unfoldable pub org_owner : Db → ℕ → Option ℕ
org_owner db oid = do m ← find_first (λ m. m.is_owner) (list_members db oid); some m.user_id

-- The early returns of `record_payment`: who earns on this payment, if anyone does.
unfoldable pub eligible : Settings → Payment → Db → Option (PartnerReferral × PartnerProfile)
eligible s pay db = do
  return_if (str_eq pay.payment_reference "")
  return_if (leb pay.collected_minor 0)
  owner ← org_owner db pay.organization_id
  referral ← Referrals.get_by_referred_user db owner
  return_if (is_churned referral.status)
  partner ← Profiles.get_by_id db referral.partner_id
  return_if (not (is_active partner.status))
  return_if (is_some (Ledger.get_by_billing_event db pay.payment_reference partner.id))
  return_if (leb (apply_rate pay.collected_minor s.commission_rate) 0)
  some (referral, partner)

abbrev pub day : ℕ
day = 86400

-- The row that `record_payment` adds; `event_at` is the time of payment, or now.
pub new_commission :
    Settings → ℕ → ℕ → Payment → PartnerReferral → PartnerProfile → PartnerCommission
new_commission s new_id event_at pay referral partner = record {
  id = new_id;
  partner_id = partner.id;
  referral_id = some referral.id;
  billing_event_id = pay.payment_reference;
  subscription_amount_minor = pay.collected_minor;
  commission_amount_minor = apply_rate pay.collected_minor s.commission_rate;
  currency = text_or (upper (take 3 pay.currency)) s.default_currency;
  rate = s.commission_rate;
  status = CommissionStatus.pending;
  payable_at = some (event_at + s.hold_days * day);
  paid_at = none;
  reversal_reason = none;
  payout_id = none;
}

-- The first confirmed payment makes the referral a paying customer.
pub promote : ℕ → PartnerReferral → Db → Db
promote event_at referral db =
    if is_signed_up referral.status
    then Referrals.update referral.id
        (record { status = some ReferralStatus.paid; subscribed_at = some event_at }) db
    else db

-- What `record_payment` writes.
unfoldable pub accrue : Settings → ℕ → ℕ → Payment → PartnerReferral → PartnerProfile → Db → Db
unfolding new_commission promote
accrue s new_id now pay referral partner db =
    let event_at = or_else pay.paid_at now in
    log_event "partner_commission_created" (some partner.user_id) new_id (
      Ledger.create (new_commission s new_id event_at pay referral partner)
        (promote event_at referral db))

-- `new_id` is the UUID of the new row, `now` the time of the call.
unfoldable pub record_payment : Settings → ℕ → ℕ → Payment → Db → Db
record_payment s new_id now pay db = elim (eligible s pay db) [
  | none ↦ db
  | some e ↦ accrue s new_id now pay e.0 e.1 db
]

abbrev pub reversal : String → CommissionPatch
reversal reason = record {
  status = some CommissionStatus.reversed;
  paid_at = none;
  reversal_reason = some reason;
  payout_id = none;
}

-- The rows that a refund reaches.
abbrev pub is_reversible : String → PartnerCommission → Bool
is_reversible ref c = str_eq c.billing_event_id ref && not (is_reversed c.status)

-- Returns the number of commissions that were reversed, too.
unfoldable pub reverse_by_reference : String → String → Db → ℕ × Db
reverse_by_reference ref reason db =
    if str_eq ref ""
    then (0, db)
    else let rows = select (is_reversible ref) db.commissions in
      (length rows, Ledger.update_all (reversal reason) rows db)

-- `reason or ReversalReason.ADMIN.value`
abbrev pub reason_or_admin : String → String
reason_or_admin reason = if str_eq reason "" then "admin" else reason

pub reverse_commission : ℕ → String → Db → Result Db
reverse_commission cid reason db = elim (Ledger.get_by_id db cid) [
  | none ↦ err not_found
  | some c ↦
      if is_reversed c.status
      then ok db
      else ok (
          log_event "partner_commission_reversed" none c.id
            (Ledger.update c.id (reversal (reason_or_admin reason)) db))
]

-- The referral that `handle_churn` ends.
pub churning : ℕ → Db → Option PartnerReferral
churning oid db = do
  owner ← org_owner db oid
  referral ← Referrals.get_by_referred_user db owner
  return_if (is_churned referral.status)
  some referral

pub handle_churn : ℕ → Db → Db
unfolding churning
handle_churn oid db = elim (churning oid db) [
  | none ↦ db
  | some r ↦
      Referrals.update r.id (record { status = some ReferralStatus.churned; subscribed_at = none })
        db
]

abbrev pub release : CommissionPatch
release = record {
  status = some CommissionStatus.payable;
  paid_at = none;
  reversal_reason = none;
  payout_id = none;
}

unfoldable pub release_payable : ℕ → Db → ℕ × Db
release_payable now db =
    let pending = Ledger.pending_past_hold db now in
    (length pending, Ledger.update_all release pending db)
