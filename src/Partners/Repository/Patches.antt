-- ===== src/Partners/Repository/Patches.antt =====
-- What the `update` methods of partners/repository.py do to a row, and the `WHERE` clauses of the
-- commission queries. `update` skips a value that is `None`
-- (`if value is not None and hasattr(…)`), so a patch holds an `Option` for each column and
-- `none` leaves the column as it is, also where the caller passed `None` to clear it.
use reliastra_backend.Prelude.{
  ℕ, String, Option, none, some, Bool, false, ◌&&◌, leb, ◌==◌, str_eq, is_none, or_else, or_some,
}
use reliastra_backend.Partners.Model.{
  PartnerReferral, PartnerCommission, PartnerPayout, ReferralStatus, CommissionStatus, PayoutStatus,
  is_pending, is_payable,
}

-- What the `update` methods are passed.
pub record ReferralPatch : Type 0 where
  pub status : Option ReferralStatus
  pub subscribed_at : Option ℕ

pub record CommissionPatch : Type 0 where
  pub status : Option CommissionStatus
  pub paid_at : Option ℕ
  pub reversal_reason : Option String
  pub payout_id : Option ℕ

pub record PayoutPatch : Type 0 where
  pub status : Option PayoutStatus
  pub transaction_reference : Option String
  pub paid_at : Option ℕ

unfoldable pub patch_referral : ReferralPatch → PartnerReferral → PartnerReferral
patch_referral p r = record r {
  status = or_else p.status r.status;
  subscribed_at = or_some p.subscribed_at r.subscribed_at;
}

unfoldable pub patch_commission : CommissionPatch → PartnerCommission → PartnerCommission
patch_commission p c = record c {
  status = or_else p.status c.status;
  paid_at = or_some p.paid_at c.paid_at;
  reversal_reason = or_some p.reversal_reason c.reversal_reason;
  payout_id = or_some p.payout_id c.payout_id;
}

unfoldable pub patch_payout : PayoutPatch → PartnerPayout → PartnerPayout
patch_payout p o = record o {
  status = or_else p.status o.status;
  transaction_reference = or_some p.transaction_reference o.transaction_reference;
  paid_at = or_some p.paid_at o.paid_at;
}

abbrev pub opt_eq : Option ℕ → ℕ → Bool
opt_eq none n = false
opt_eq (some m) n = m == n

abbrev pub opt_le : Option ℕ → ℕ → Bool
opt_le none n = false
opt_le (some m) n = leb m n

-- The `WHERE` clauses.
abbrev pub for_event : String → ℕ → PartnerCommission → Bool
for_event ref pid c = str_eq c.billing_event_id ref && (c.partner_id == pid)

abbrev pub is_free_payable : ℕ → PartnerCommission → Bool
is_free_payable pid c = (c.partner_id == pid) && (is_payable c.status && is_none c.payout_id)

abbrev pub is_past_hold : ℕ → PartnerCommission → Bool
is_past_hold now c = is_pending c.status && opt_le c.payable_at now

abbrev pub is_reserved_by : ℕ → PartnerCommission → Bool
is_reserved_by oid c = opt_eq c.payout_id oid
