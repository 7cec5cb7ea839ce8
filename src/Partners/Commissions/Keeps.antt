-- ===== src/Partners/Commissions/Keeps.antt =====
-- Every operation of `CommissionService` keeps the ledger's invariant.
use reliastra_backend.Prelude.{
  ℕ, ◌≤◌, ◌≡◌, refl, String, true, false, arith, find_first-none, Option-cases, inl, inr, or_else,
  ◌++◌, [], ◌∷◌, str_eq, Bool-cases, ◌==◌, ◌⊎◌, update_where,
}
use reliastra_backend.Prelude.Tables.{IsFresh, IsKeyed}
use reliastra_backend.Prelude.Result.{ok}
use reliastra_backend.Partners.Model.{
  PartnerProfile, PartnerReferral, PartnerCommission, Db, Settings, is_reversed,
}
use reliastra_backend.Partners.Rate.{apply_rate-le}
use reliastra_backend.Partners.Repository.Referrals
use reliastra_backend.Partners.Repository.Commissions as Ledger
use reliastra_backend.Partners.Repository.Patches.{patch_commission, is_past_hold}
use reliastra_backend.Partners.Repository.Shared.{log_event}
use reliastra_backend.Partners.Ledger.Bulk.{key, update_all-select}
use reliastra_backend.Partners.Ledger.Invariant.{
  IsLedger, IsSoundRow, append-IsLedger, update_where-IsLedger,
}
use reliastra_backend.Partners.Commissions.{
  Payment, eligible, new_commission, accrue, record_payment, reversal, is_reversible, release,
  reverse_by_reference, reverse_commission, handle_churn, release_payable, reason_or_admin,
}
use reliastra_backend.Partners.Commissions.Eligible.{IsEligible, eligible_sound}

pub commissions-accrue :
    (s : Settings) (new_id now : ℕ) (pay : Payment) (r : PartnerReferral) (p : PartnerProfile)
    (db : Db)
    → (accrue s new_id now pay r p db).commissions
      ≡ db.commissions ++ new_commission s new_id (or_else pay.paid_at now) pay r p ∷ []
unfolding accrue Ledger.create log_event Referrals.update
commissions-accrue s new_id now pay r p db = ground arith

accrue-IsLedger :
    (s : Settings) (new_id now : ℕ) (pay : Payment) (r : PartnerReferral) (p : PartnerProfile)
    (db : Db)
    → s.commission_rate ≤ 100
    → IsFresh key new_id db.commissions
    → IsEligible s pay db r p
    → IsLedger db.commissions
    → IsLedger (accrue s new_id now pay r p db).commissions
unfolding new_commission Ledger.get_by_billing_event
accrue-IsLedger s new_id now pay r p db rate fresh e h =
    rw (commissions-accrue s new_id now pay r p db) (
      append-IsLedger (new_commission s new_id (or_else pay.paid_at now) pay r p) db.commissions
        fresh (find_first-none _ db.commissions e.not_recorded)
        (ground (arith, apply_rate-le pay.collected_minor s.commission_rate rate, e.has_amount)) h)

-- A confirmed payment keeps the ledger's invariant, with a rate of at most 100% and a fresh UUID.
pub record_payment-IsLedger :
    (s : Settings) (new_id now : ℕ) (pay : Payment) (db : Db)
    → s.commission_rate ≤ 100
    → IsFresh key new_id db.commissions
    → IsLedger db.commissions
    → IsLedger (record_payment s new_id now pay db).commissions
unfolding record_payment
record_payment-IsLedger s new_id now pay db rate fresh h = elim (Option-cases (eligible s pay db)) [
  | inl e ↦ rw (e, record_payment) h
  | inr ((r, p), e) ↦
      rw (e, record_payment)
        (accrue-IsLedger s new_id now pay r p db rate fresh (eligible_sound s pay db r p e) h)
]

reversal-IsSoundRow :
    (reason : String) (c : PartnerCommission)
    → IsSoundRow c
    → IsSoundRow (patch_commission (reversal reason) c)
unfolding patch_commission
reversal-IsSoundRow reason c h = ground arith

-- A refund, as one update of the rows that it reaches.
pub commissions-reverse_by_reference :
    (ref reason : String) (db : Db)
    → IsKeyed key db.commissions
    → str_eq ref "" ≡ false
    → (reverse_by_reference ref reason db).1.commissions
      ≡ update_where (is_reversible ref) (patch_commission (reversal reason)) db.commissions
unfolding reverse_by_reference
commissions-reverse_by_reference ref reason db k e =
    rw (e, update_all-select (reversal reason) (is_reversible ref) db k) refl

pub reverse_by_reference-IsLedger :
    (ref reason : String) (db : Db)
    → IsLedger db.commissions
    → IsLedger (reverse_by_reference ref reason db).1.commissions
unfolding reverse_by_reference
reverse_by_reference-IsLedger ref reason db h = elim (Bool-cases (str_eq ref "")) [
  | inl e ↦ rw e h
  | inr e ↦
      rw (e, update_all-select (reversal reason) (is_reversible ref) db h.keyed)
        (update_where-IsLedger (reversal reason) (is_reversible ref) db.commissions
          (λ c q. reversal-IsSoundRow reason c) h)
]

-- A reversal by an admin changes one row, or none.
pub commissions-reverse_commission :
    (cid : ℕ) (reason : String) (db after : Db)
    → reverse_commission cid reason db ≡ ok after
    → (after.commissions ≡ db.commissions)
      ⊎ ((k : ℕ) × (after.commissions
            ≡ update_where
                (λ c. c.id == k)
                (patch_commission (reversal (reason_or_admin reason)))
                db.commissions))
unfolding reverse_commission Ledger.update log_event
commissions-reverse_commission cid reason db after e =
    elim (Option-cases (Ledger.get_by_id db cid)) [
      | inl n ↦ absurd (ground arith)
      | inr (c, f) ↦ elim (Bool-cases (is_reversed c.status)) [
        | inl r ↦ inl (ground arith)
        | inr r ↦ inr (c.id, ground arith)
      ]
    ]

pub reverse_commission-IsLedger :
    (cid : ℕ) (reason : String) (db after : Db)
    → reverse_commission cid reason db ≡ ok after
    → IsLedger db.commissions
    → IsLedger after.commissions
reverse_commission-IsLedger cid reason db after e h =
    elim (commissions-reverse_commission cid reason db after e) [
      | inl same ↦ rw same h
      | inr (k, u) ↦ rw u (
          update_where-IsLedger (reversal (reason_or_admin reason)) (λ c. c.id == k) db.commissions
            (λ c q. reversal-IsSoundRow (reason_or_admin reason) c) h)
    ]

release-IsSoundRow :
    (now : ℕ) (c : PartnerCommission)
    → is_past_hold now c ≡ true
    → IsSoundRow c
    → IsSoundRow (patch_commission release c)
unfolding patch_commission
release-IsSoundRow now c q h = ground arith

pub release_payable-IsLedger :
    (now : ℕ) (db : Db) → IsLedger db.commissions → IsLedger (release_payable now db).1.commissions
unfolding release_payable Ledger.pending_past_hold
release_payable-IsLedger now db h =
    rw (update_all-select release (is_past_hold now) db h.keyed)
      (update_where-IsLedger release (is_past_hold now) db.commissions (release-IsSoundRow now) h)

-- A churn is no business of the ledger.
pub commissions-handle_churn :
    (oid : ℕ) (db : Db) → (handle_churn oid db).commissions ≡ db.commissions
unfolding handle_churn Referrals.update
commissions-handle_churn oid db = ground arith
