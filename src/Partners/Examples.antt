-- ===== src/Partners/Examples.antt =====
-- A small program of one partner and one customer: the theorems of the referral program at
-- concrete inputs, and tests of the operations.
mod Settlement
use reliastra_backend.Prelude.{
  ℕ, ◌+◌, ◌*◌, ◌≢◌, ◌-◌, ◌≤◌, ◌<◌, ◌≡◌, refl, ◌⊎◌, true, false, not, String, Option, none, some,
  List, [], ◌∷◌, ◌++◌, arith, str_eq, select, count_where, map, All, sum_where, or_else,
}
use reliastra_backend.Prelude.Text.{Text, upper}
use reliastra_backend.Prelude.Result.{ok}
use reliastra_backend.Partners.Rate.{apply_rate, apply_rate_rounds, apply_rate-le}
use reliastra_backend.Partners.Model.{
  PartnerStatus, ReferralStatus, CommissionStatus, PayoutStatus, PartnerProfile, PartnerReferral,
  PartnerCommission, PartnerPayout, Db, Settings, is_pending, is_active,
}
use reliastra_backend.Partners.Repository.Commissions as Ledger
use reliastra_backend.Partners.Repository.Profiles
use reliastra_backend.Partners.Repository.Referrals
use reliastra_backend.Partners.Repository.Payouts as Table
use reliastra_backend.Partners.Repository.Shared.{list_members, log_event}
use reliastra_backend.Partners.Repository.Patches.{is_reserved_by}
use reliastra_backend.Partners.Ledger.Bulk.{economics, Extends}
use reliastra_backend.Partners.Ledger.Invariant.{IsLedger, append-IsLedger}
use reliastra_backend.Partners.Ledger.Reach.{
  Reach, here, next, pays, refunds, releases, Reach-IsLedger, Reach-Extends,
}
use reliastra_backend.Partners.Ledger.Revival.{refunded_commission_is_paid}
use reliastra_backend.Partners.Commissions.{
  Payment, eligible, org_owner, accrue, record_payment, reverse_by_reference, is_reversible,
  handle_churn, release_payable,
}
use reliastra_backend.Partners.Commissions.Idempotent.{record_payment_twice}
use reliastra_backend.Partners.Commissions.Churn.{record_payment-handle_churn}
use reliastra_backend.Partners.Commissions.Refunds.{
  reverse_by_reference_reverses, release_payable_releases, is_outstanding,
}
use reliastra_backend.Partners.Payouts.{
  amount, payable_balance, create_payout, process_payout, paid_action, failed_action,
}
use reliastra_backend.Partners.Payouts.Create.{
  reserved_total, create_payout_reserves, create_payout_overshoot, full_payout_settles,
}
use reliastra_backend.Partners.Payouts.Process.{mark_paid_settles, mark_failed_releases_nothing}
use reliastra_backend.Partners.Service.{bind_referral}
use reliastra_backend.Partners.Service.Binding.{
  OnePartner, bind_referral-OnePartner, bind_referral_binds, bind_referral_twice,
}

abbrev usd : Text
usd = b'U' ∷ b'S' ∷ b'D' ∷ []

abbrev settings : Settings
settings = record {
  commission_rate = 30;
  hold_days = 30;
  minimum_payout_minor = 5000;
  default_currency = usd;
}

abbrev earned : ℕ → String → ℕ → ℕ → PartnerCommission
earned cid event paid share = record {
  id = cid;
  partner_id = 10;
  referral_id = some 20;
  billing_event_id = event;
  subscription_amount_minor = paid;
  commission_amount_minor = share;
  currency = usd;
  rate = 30;
  status = CommissionStatus.payable;
  payable_at = some 100;
  paid_at = none;
  reversal_reason = none;
  payout_id = none;
}

abbrev ledger : List PartnerCommission
ledger = earned 30 "t1" 20000 6000 ∷ earned 31 "t2" 4900 1470 ∷ []

abbrev partner : PartnerProfile
partner = record { id = 10; user_id = 5; status = PartnerStatus.active; click_count = 0 }

abbrev db : Db
db = record {
  members = record { org_id = 1; user_id = 7; is_owner = true; is_deleted = false } ∷ [];
  codes = record { id = 1; user_id = 5; code = b'A' ∷ b'L' ∷ []; is_active = true } ∷ [];
  profiles = partner ∷ [];
  referrals =
      record {
        id = 20;
        partner_id = 10;
        referred_user_id = 7;
        referred_org_id = some 1;
        status = ReferralStatus.signed_up;
        subscribed_at = none;
      }
      ∷ [];
  commissions = ledger;
  payouts = [];
  audit = [];
}

abbrev payment : Payment
payment = record {
  organization_id = 1;
  collected_minor = 4900;
  currency = usd;
  payment_reference = "t3";
  paid_at = none;
}

empty-IsLedger : IsLedger []
empty-IsLedger = record { keyed = tt; unique = λ r p. omega arith; sound = tt }

ledger-IsLedger : IsLedger ledger
ledger-IsLedger =
    append-IsLedger (earned 31 "t2" 4900 1470) (earned 30 "t1" 20000 6000 ∷ []) refl refl
      (refl, refl)
      (append-IsLedger (earned 30 "t1" 20000 6000) [] refl refl (refl, refl) empty-IsLedger)

-- The commission of 30% on a payment of 49 dollars.
pays_commission :
    map economics (record_payment settings 32 1000 payment db).commissions
    ≡ map economics ledger ++ (32, 10, "t3", 4900, 1470, 30) ∷ []
unfolding record_payment eligible org_owner accrue apply_rate Ledger.create
    Ledger.get_by_billing_event Profiles.get_by_id Referrals.get_by_referred_user Referrals.update
    list_members log_event upper
pays_commission = refl

record_payment_twice_example :
    record_payment settings 33 2000 payment (record_payment settings 32 1000 payment db)
    ≡ record_payment settings 32 1000 payment db
record_payment_twice_example = record_payment_twice settings 32 33 1000 2000 payment db

-- A payment, a refund and a payout.
abbrev paid_once : Db
paid_once = record_payment settings 32 1000 payment db

life : Reach settings db (release_payable 9000 (reverse_by_reference "t1" "refund" paid_once).1).1
life = next (next (next here (pays 32 1000 payment refl)) (refunds "t1" "refund")) (releases 9000)

Reach-IsLedger_example :
    IsLedger (release_payable 9000 (reverse_by_reference "t1" "refund" paid_once).1).1.commissions
Reach-IsLedger_example = Reach-IsLedger settings (omega arith) life ledger-IsLedger

abbrev code : Text
code = b'a' ∷ b'l' ∷ []

db-OnePartner : OnePartner db.referrals
db-OnePartner uid = ground arith
