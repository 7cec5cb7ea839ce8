-- ===== src/Partners/Payouts.antt =====
-- app/modules/partners/payouts.py, `PartnerPayoutService`: an admin reserves payable commissions
-- for a payout, and settles or fails it.
pub mod Reserve
pub mod Walk
pub mod Create
pub mod Process
use reliastra_backend.Prelude.{
  ℕ, ◌-◌, String, Option, none, some, Bool, true, false, not, ◌&&◌, ◌||◌, List, [], ◌∷◌, leb, ltb,
  str_eq, is_none, or_else, sum_of, if◌then◌else◌, min,
}
use reliastra_backend.Prelude.Result.{
  Result, ok, err, not_found, validation, require, or_raise, ◌>>=◌, ◌>>◌,
}
use reliastra_backend.Partners.Model.{
  PartnerCommission, PartnerPayout, CommissionStatus, PayoutStatus, Db, Settings,
}
use reliastra_backend.Partners.Repository.Patches.{CommissionPatch}
use reliastra_backend.Partners.Repository.Profiles
use reliastra_backend.Partners.Repository.Payouts as Table
use reliastra_backend.Partners.Repository.Commissions as Ledger
use reliastra_backend.Partners.Repository.Shared.{log_event}

abbrev pub amount : PartnerCommission → ℕ
amount c = c.commission_amount_minor

unfoldable pub payable_balance : Db → ℕ → ℕ
payable_balance db pid = sum_of amount (Ledger.payable_by_partner db pid)

abbrev pub reservation : ℕ → CommissionPatch
reservation oid = record {
  status = none;
  paid_at = none;
  reversal_reason = none;
  payout_id = some oid;
}

-- `for commission in payable: …`, with what remains to be covered
pub reserve : ℕ → ℕ → List PartnerCommission → Db → Db
reserve oid remaining [] db = db
reserve oid remaining (c ∷ cs) db =
    let rest =
      reserve oid (remaining - min (amount c) remaining) cs
        (Ledger.update c.id (reservation oid) db) in
    if leb remaining 0 then db else rest

-- The payout's amount, or the exception; `amount_minor` is `none` to settle the whole balance.
pub payout_amount : Settings → Option ℕ → ℕ → Result ℕ
payout_amount s amount_minor available = do
  let requested = or_else amount_minor available
  require (not (leb requested 0 || ltb available requested)) validation
  require (not (is_none amount_minor && ltb available s.minimum_payout_minor)) validation
  ok requested

-- `new_id` is the UUID of the payout.
unfoldable pub create_payout : Settings → ℕ → ℕ → Option ℕ → Db → Result (PartnerPayout × Db)
unfolding payout_amount reserve
create_payout s new_id partner_id amount_minor db = do
  partner ← or_raise (Profiles.get_by_id db partner_id) not_found
  let payable = Ledger.payable_by_partner db partner_id
  requested ← payout_amount s amount_minor (sum_of amount payable)
  let created = Table.create new_id partner_id requested s.default_currency db
  ok (
    created.0,
    log_event "partner_payout_created" (some partner.user_id) created.0.id
        (reserve created.0.id requested payable created.1),
  )

abbrev pub settlement : ℕ → CommissionPatch
settlement now = record {
  status = some CommissionStatus.paid;
  paid_at = some now;
  reversal_reason = none;
  payout_id = none;
}

-- `payout_id=None`, which `update` skips
abbrev pub unreserve : CommissionPatch
unreserve = record { status = none; paid_at = none; reversal_reason = none; payout_id = none }

pub mark_paid : ℕ → ℕ → String → Db → Db
mark_paid now oid ref db =
    let settled =
      Table.update oid
        (record {
          status = some PayoutStatus.paid;
          transaction_reference = some ref;
          paid_at = some now;
        })
        db in
    Ledger.update_all (settlement now) (Ledger.commissions_for_payout settled oid) settled

pub mark_failed : ℕ → Db → Db
mark_failed oid db =
    let closed =
      Table.update oid
        (record { status = some PayoutStatus.failed; transaction_reference = none; paid_at = none })
        db in
    Ledger.update_all unreserve (Ledger.commissions_for_payout closed oid) closed

-- The two actions that are supported, and any other text.
pub data Action : Type 0 where
  paid_action failed_action : Action
  unsupported : String → Action

-- `f"partner_payout_{action}"`
abbrev pub action_event : Action → String
action_event paid_action = "partner_payout_mark_paid"
action_event failed_action = "partner_payout_mark_failed"
action_event (unsupported a) = a

-- `not transaction_reference` where it is the empty text; `None` is the empty text here.
pub settle : ℕ → ℕ → Action → String → Db → Result Db
unfolding mark_paid mark_failed
settle now oid paid_action ref db =
    if str_eq ref "" then err validation else ok (mark_paid now oid ref db)
settle now oid failed_action ref db = ok (mark_failed oid db)
settle now oid (unsupported a) ref db = err validation

unfoldable pub process_payout : ℕ → ℕ → Action → String → Db → Result Db
unfolding settle
process_payout now oid action ref db = do
  payout ← or_raise (Table.get_by_id db oid) not_found
  after ← settle now payout.id action ref db
  ok (log_event (action_event action) none payout.id after)
