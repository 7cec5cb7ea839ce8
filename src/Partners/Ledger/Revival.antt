-- ===== src/Partners/Ledger/Revival.antt =====
-- A refund of a payment whose commission a payout holds, and the settlement of that payout.
use reliastra_backend.Prelude.{
  ℕ, ◌≡◌, refl, Bool, false, String, arith, ◌==◌, some, str_eq, eq_iff, find_first, update_where,
  List, if◌then◌else◌,
}
use reliastra_backend.Prelude.Result.{ok}
use reliastra_backend.Prelude.Tables.{IsKeyed, IsKeyed-update_where, find_first-update_where}
use reliastra_backend.Partners.Model.{PartnerCommission, CommissionStatus, Db}
use reliastra_backend.Partners.Repository.Commissions as Ledger
use reliastra_backend.Partners.Repository.Patches.{
  CommissionPatch, patch_commission, is_reserved_by,
}
use reliastra_backend.Partners.Ledger.Bulk.{key}
use reliastra_backend.Partners.Commissions.{reverse_by_reference, is_reversible, reversal}
use reliastra_backend.Partners.Commissions.Keeps.{commissions-reverse_by_reference}
use reliastra_backend.Partners.Payouts.{process_payout, paid_action, settlement}
use reliastra_backend.Partners.Payouts.Process.{commissions-process_payout}

-- A row looked up by its identity, after an update of some rows.
find-update :
    (cid : ℕ) (q : PartnerCommission → Bool) (p : CommissionPatch) (cs : List PartnerCommission)
    {c : PartnerCommission}
    → find_first (λ x. x.id == cid) cs ≡ some c
    → find_first (λ x. x.id == cid) (update_where q (patch_commission p) cs)
      ≡ some (if q c then patch_commission p c else c)
unfolding patch_commission
find-update cid q p cs h =
    ground (arith, find_first-update_where (λ x. x.id == cid) q (patch_commission p) cs (λ x. refl))

module _ (ref reason : String) (db : Db) (keyed : IsKeyed key db.commissions)
    (named : str_eq ref "" ≡ false) where
  abbrev refunded : Db
  refunded = (reverse_by_reference ref reason db).1

  -- The refund leaves the row in its payout, reversed.
  after_refund :
      (cid oid : ℕ) {c : PartnerCommission}
      → Ledger.get_by_id db cid ≡ some c
      → c.billing_event_id ≡ ref
      → c.payout_id ≡ some oid
      → (r : PartnerCommission) × (Ledger.get_by_id refunded cid ≡ some r)
        × (r.status ≡ CommissionStatus.reversed)
        × (r.payout_id ≡ some oid)
  unfolding Ledger.get_by_id patch_commission
  after_refund cid oid {c} found same held =
      let step = find-update cid (is_reversible ref) (reversal reason) db.commissions found in
      (
        if is_reversible ref c then patch_commission (reversal reason) c else c,
        rw (commissions-reverse_by_reference ref reason db keyed named) step,
        ground (arith, eq_iff c.billing_event_id ref),
        ground arith,
      )

  -- Over commissions with distinct ids, a commission whose payment, of a reference that is not empty, was
  -- refunded while a payout held it is reversed by the refund, and becomes paid again when that payout
  -- is marked paid.
  pub refunded_commission_is_paid :
      (cid oid now : ℕ) (transfer : String) {c : PartnerCommission} {after : Db}
      → Ledger.get_by_id db cid ≡ some c
      → c.billing_event_id ≡ ref
      → c.payout_id ≡ some oid
      → process_payout now oid paid_action transfer refunded ≡ ok after
      → (r p : PartnerCommission) × (Ledger.get_by_id refunded cid ≡ some r)
        × (r.status ≡ CommissionStatus.reversed)
        × (Ledger.get_by_id after cid ≡ some p)
        × (p.status ≡ CommissionStatus.paid)
  unfolding Ledger.get_by_id patch_commission
  refunded_commission_is_paid cid oid now transfer {c} found same held done =
      let (r, fr, sr, hr) = after_refund cid oid found same held in
      let k : IsKeyed key refunded.commissions =
        rw (commissions-reverse_by_reference ref reason db keyed named) (
          IsKeyed-update_where key (is_reversible ref) (patch_commission (reversal reason))
            db.commissions (λ x. refl) keyed) in
      let step = find-update cid (is_reserved_by oid) (settlement now) refunded.commissions fr in
      (
        r,
        if is_reserved_by oid r then patch_commission (settlement now) r else r,
        fr,
        sr,
        rw (commissions-process_payout now oid paid_action transfer refunded k done) step,
        ground arith,
      )
