-- ===== src/Partners/Commissions/History.antt =====
-- No operation of `CommissionService` deletes a commission or changes what it was earned on.
use reliastra_backend.Prelude.{
  ℕ, ◌≡◌, refl, String, Option-cases, Bool-cases, inl, inr, str_eq, ◌==◌, or_else,
}
use reliastra_backend.Prelude.Result.{ok}
use reliastra_backend.Partners.Model.{Db, Settings}
use reliastra_backend.Partners.Repository.Commissions as Ledger
use reliastra_backend.Partners.Repository.Patches.{is_past_hold}
use reliastra_backend.Partners.Ledger.Bulk.{
  Extends, Extends-same, Extends-update_where, Extends-append, update_all-select,
}
use reliastra_backend.Partners.Ledger.Invariant.{IsLedger}
use reliastra_backend.Partners.Commissions.{
  Payment, eligible, new_commission, record_payment, reversal, is_reversible, release,
  reason_or_admin, reverse_by_reference, reverse_commission, release_payable,
}
use reliastra_backend.Partners.Commissions.Keeps.{
  commissions-accrue, commissions-reverse_commission,
}

pub record_payment-Extends :
    (s : Settings) (new_id now : ℕ) (pay : Payment) (db : Db)
    → Extends db.commissions (record_payment s new_id now pay db).commissions
unfolding record_payment
record_payment-Extends s new_id now pay db = elim (Option-cases (eligible s pay db)) [
  | inl e ↦ rw (e, record_payment) (Extends-same db.commissions db.commissions refl)
  | inr ((r, p), e) ↦
      rw (e, record_payment, commissions-accrue s new_id now pay r p db)
        (Extends-append db.commissions (new_commission s new_id (or_else pay.paid_at now) pay r p))
]

pub reverse_by_reference-Extends :
    (ref reason : String) (db : Db)
    → IsLedger db.commissions
    → Extends db.commissions (reverse_by_reference ref reason db).1.commissions
unfolding reverse_by_reference
reverse_by_reference-Extends ref reason db h = elim (Bool-cases (str_eq ref "")) [
  | inl e ↦ rw e (Extends-same db.commissions db.commissions refl)
  | inr e ↦
      rw (e, update_all-select (reversal reason) (is_reversible ref) db h.keyed)
        (Extends-update_where (is_reversible ref) (reversal reason) db.commissions)
]

pub reverse_commission-Extends :
    (cid : ℕ) (reason : String) (db after : Db)
    → reverse_commission cid reason db ≡ ok after
    → Extends db.commissions after.commissions
reverse_commission-Extends cid reason db after e =
    elim (commissions-reverse_commission cid reason db after e) [
      | inl same ↦ rw same (Extends-same db.commissions db.commissions refl)
      | inr (k, u) ↦
          rw u (
            Extends-update_where (λ c. c.id == k) (reversal (reason_or_admin reason))
              db.commissions)
    ]

pub release_payable-Extends :
    (now : ℕ) (db : Db)
    → IsLedger db.commissions
    → Extends db.commissions (release_payable now db).1.commissions
unfolding release_payable Ledger.pending_past_hold
release_payable-Extends now db h =
    rw (update_all-select release (is_past_hold now) db h.keyed)
      (Extends-update_where (is_past_hold now) release db.commissions)
