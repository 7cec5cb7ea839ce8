-- ===== src/Partners/Examples/Settlement.antt =====
-- Payouts of the small program: the theorems on payouts and refunds at concrete inputs, and tests.
use reliastra_backend.Prelude.{
  ℕ, ◌+◌, ◌≤◌, ◌<◌, ◌≡◌, refl, String, Option, none, some, List, [], ◌∷◌, or_else,
}
use reliastra_backend.Prelude.Result.{ok}
use reliastra_backend.Partners.Model.{
  CommissionStatus, PayoutStatus, PartnerCommission, PartnerPayout, Db,
}
use reliastra_backend.Partners.Repository.Commissions as Ledger
use reliastra_backend.Partners.Repository.Profiles
use reliastra_backend.Partners.Repository.Payouts as Table
use reliastra_backend.Partners.Repository.Shared.{log_event}
use reliastra_backend.Partners.Ledger.Invariant.{IsLedger, append-IsLedger}
use reliastra_backend.Partners.Ledger.Revival.{refunded_commission_is_paid}
use reliastra_backend.Partners.Commissions.{reverse_by_reference}
use reliastra_backend.Partners.Payouts.{
  payable_balance, create_payout, process_payout, paid_action, failed_action,
}
use reliastra_backend.Partners.Payouts.Create.{reserved_total, create_payout_reserves}
use reliastra_backend.Partners.Payouts.Process.{mark_failed_releases_nothing}
use reliastra_backend.Partners.Examples.{usd, settings, earned, db, empty-IsLedger, ledger-IsLedger}

-- A commission that the payout 40 holds.
abbrev held : ℕ → String → ℕ → ℕ → PartnerCommission
held cid event paid share = record (earned cid event paid share) { payout_id = some 40 }

abbrev payout : ℕ → PartnerPayout
payout n = record {
  id = 40;
  partner_id = 10;
  amount_minor = n;
  currency = usd;
  status = PayoutStatus.pending;
  transaction_reference = none;
  paid_at = none;
}

abbrev with_payout : ℕ → List PartnerCommission → Db
with_payout n cs = record db {
  commissions = cs;
  payouts = payout n ∷ [];
  audit = record { event_type = "partner_payout_created"; user_id = some 5; resource_id = 40 } ∷ [];
}

-- Both commissions are held for a payout of the whole balance, the first alone for a small one.
abbrev both_held : List PartnerCommission
both_held = held 30 "t1" 20000 6000 ∷ held 31 "t2" 4900 1470 ∷ []

abbrev first_held : List PartnerCommission
first_held = held 30 "t1" 20000 6000 ∷ earned 31 "t2" 4900 1470 ∷ []

full_payout_made :
    create_payout settings 40 10 none db ≡ ok (payout 7470, with_payout 7470 both_held)
unfolding create_payout Profiles.get_by_id Ledger.payable_by_partner Ledger.update Table.create
    log_event
full_payout_made = refl

small_payout_made :
    create_payout settings 40 10 (some 100) db ≡ ok (payout 100, with_payout 100 first_held)
unfolding create_payout Profiles.get_by_id Ledger.payable_by_partner Ledger.update Table.create
    log_event
small_payout_made = refl

create_payout_reserves_example :
    (100 ≡ or_else (some 100) (payable_balance db 10))
    × (0 < 100)
    × (100 ≤ payable_balance db 10)
    × (100 ≤ reserved_total (with_payout 100 first_held) 40)
    × (payable_balance (with_payout 100 first_held) 10
          + reserved_total (with_payout 100 first_held) 40
        ≡ payable_balance db 10)
create_payout_reserves_example =
    create_payout_reserves settings 40 10 (some 100) db ledger-IsLedger.keyed small_payout_made refl

both_held-IsLedger : IsLedger both_held
both_held-IsLedger =
    append-IsLedger (held 31 "t2" 4900 1470) (held 30 "t1" 20000 6000 ∷ []) refl refl (refl, refl)
      (append-IsLedger (held 30 "t1" 20000 6000) [] refl refl (refl, refl) empty-IsLedger)

-- The database after an action on the payout 40.
abbrev acted : PayoutStatus → Option String → Option ℕ → String → List PartnerCommission → Db
acted status ref at event cs = record (with_payout 7470 cs) {
  payouts =
      record (payout 7470) { status = status; transaction_reference = ref; paid_at = at } ∷ [];
  audit =
      record { event_type = "partner_payout_created"; user_id = some 5; resource_id = 40 }
      ∷ record { event_type = event; user_id = none; resource_id = 40 }
      ∷ [];
}

abbrev settled_commission : PartnerCommission → PartnerCommission
settled_commission c = record c { status = CommissionStatus.paid; paid_at = some 900 }

abbrev paid_db : Db
paid_db = acted PayoutStatus.paid (some "wire-1") (some 900) "partner_payout_mark_paid" (
    settled_commission (held 30 "t1" 20000 6000) ∷ settled_commission (held 31 "t2" 4900 1470) ∷ [])

marked_paid : process_payout 900 40 paid_action "wire-1" (with_payout 7470 both_held) ≡ ok paid_db
unfolding process_payout Table.get_by_id Table.update Ledger.update_all
    Ledger.commissions_for_payout log_event
marked_paid = refl

abbrev failed_db : Db
failed_db = acted PayoutStatus.failed none none "partner_payout_mark_failed" both_held

marked_failed : process_payout 900 40 failed_action "" (with_payout 7470 both_held) ≡ ok failed_db
unfolding process_payout Table.get_by_id Table.update Ledger.update_all
    Ledger.commissions_for_payout log_event
marked_failed = refl

mark_failed_releases_nothing_example :
    (failed_db.commissions ≡ both_held)
    × ((pid : ℕ) → payable_balance failed_db pid ≡ payable_balance (with_payout 7470 both_held) pid)
mark_failed_releases_nothing_example =
    mark_failed_releases_nothing 900 40 "" (with_payout 7470 both_held) both_held-IsLedger.keyed
      marked_failed

-- Nothing is payable while the payout holds the commissions, and nothing after it has failed.
nothing_payable_after_failure : payable_balance failed_db 10 ≡ 0
unfolding payable_balance Ledger.payable_by_partner
nothing_payable_after_failure = refl

abbrev refunded_db : Db
refunded_db = with_payout 7470 (
    record (held 30 "t1" 20000 6000) {
      status = CommissionStatus.reversed;
      reversal_reason = some "refund";
    }
    ∷ held 31 "t2" 4900 1470
    ∷ [])

abbrev revived_db : Db
revived_db = acted PayoutStatus.paid (some "wire-1") (some 900) "partner_payout_mark_paid" (
    record (settled_commission (held 30 "t1" 20000 6000)) { reversal_reason = some "refund" }
    ∷ settled_commission (held 31 "t2" 4900 1470)
    ∷ [])

marked_paid_after_refund :
    process_payout 900 40 paid_action "wire-1"
      (reverse_by_reference "t1" "refund" (with_payout 7470 both_held)).1
    ≡ ok revived_db
unfolding process_payout reverse_by_reference Table.get_by_id Table.update Ledger.update_all
    Ledger.commissions_for_payout log_event
marked_paid_after_refund = refl

first_held_found : Ledger.get_by_id (with_payout 7470 both_held) 30 ≡ some (held 30 "t1" 20000 6000)
unfolding Ledger.get_by_id
first_held_found = refl

refunded_commission_is_paid_example :
    (r p : PartnerCommission) × (Ledger.get_by_id
        (reverse_by_reference "t1" "refund" (with_payout 7470 both_held)).1
        30
      ≡ some r)
    × (r.status ≡ CommissionStatus.reversed)
    × (Ledger.get_by_id revived_db 30 ≡ some p)
    × (p.status ≡ CommissionStatus.paid)
refunded_commission_is_paid_example =
    refunded_commission_is_paid "t1" "refund" (with_payout 7470 both_held) both_held-IsLedger.keyed
      refl 30 40 900 "wire-1" first_held_found refl refl marked_paid_after_refund
