-- ===== src/Partners/Commissions/Refunds.antt =====
-- Refunds, and the end of the holding period, on the whole ledger.
use reliastra_backend.Prelude.{
  ℕ, ◌≡◌, refl, Bool, true, false, not, ◌&&◌, String, List, [], ◌∷◌, arith, str_eq, select,
  length-select, update_where, count_where, sum_where, map, map-update_where, if◌then◌else◌,
}
use reliastra_backend.Partners.Model.{PartnerCommission, Db, is_pending, is_payable}
use reliastra_backend.Partners.Repository.Commissions as Ledger
use reliastra_backend.Partners.Repository.Patches.{patch_commission, is_past_hold}
use reliastra_backend.Partners.Ledger.Bulk.{update_all-select, economics}
use reliastra_backend.Partners.Ledger.Invariant.{IsLedger}
use reliastra_backend.Partners.Commissions.{
  reversal, is_reversible, reverse_by_reference, release, release_payable,
}

abbrev reversed_rows : String → String → List PartnerCommission → List PartnerCommission
reversed_rows ref reason cs =
    update_where (is_reversible ref) (patch_commission (reversal reason)) cs

none_reversible :
    (ref reason : String) (cs : List PartnerCommission)
    → count_where (is_reversible ref) (reversed_rows ref reason cs) ≡ 0
unfolding patch_commission
none_reversible ref reason [] = refl
none_reversible ref reason (c ∷ cs) = ground (arith, none_reversible ref reason cs)

others_kept :
    (ref reason : String) (cs : List PartnerCommission)
    → select (λ c. not (str_eq c.billing_event_id ref)) (reversed_rows ref reason cs)
      ≡ select (λ c. not (str_eq c.billing_event_id ref)) cs
unfolding patch_commission
others_kept ref reason [] = refl
others_kept ref reason (c ∷ cs) = ground (arith, others_kept ref reason cs)

-- A refund of a payment with a reference reverses every commission on it that was not reversed
-- and returns their number; it touches no commission on another payment, and deletes or
-- re-prices none.
pub reverse_by_reference_reverses :
    (ref reason : String) (db : Db)
    → IsLedger db.commissions
    → str_eq ref "" ≡ false
    → ((reverse_by_reference ref reason db).0 ≡ count_where (is_reversible ref) db.commissions)
      × (count_where (is_reversible ref) (reverse_by_reference ref reason db).1.commissions ≡ 0)
      × (select
            (λ c. not (str_eq c.billing_event_id ref))
            (reverse_by_reference ref reason db).1.commissions
          ≡ select (λ c. not (str_eq c.billing_event_id ref)) db.commissions)
      × (map economics (reverse_by_reference ref reason db).1.commissions
          ≡ map economics db.commissions)
unfolding reverse_by_reference
reverse_by_reference_reverses ref reason db l h =
    rw (h, update_all-select (reversal reason) (is_reversible ref) db l.keyed)
      (
        length-select (is_reversible ref) db.commissions,
        none_reversible ref reason db.commissions,
        others_kept ref reason db.commissions,
        map-update_where economics (is_reversible ref) (patch_commission (reversal reason))
            db.commissions (λ c. unfold patch_commission in refl),
      )

abbrev released : ℕ → List PartnerCommission → List PartnerCommission
released now cs = update_where (is_past_hold now) (patch_commission release) cs

-- The commissions that are earned and not yet settled.
abbrev pub is_outstanding : PartnerCommission → Bool
is_outstanding c = if is_pending c.status then true else is_payable c.status

abbrev amount : PartnerCommission → ℕ
amount c = c.commission_amount_minor

none_past_hold :
    (now : ℕ) (cs : List PartnerCommission) → select (is_past_hold now) (released now cs) ≡ []
unfolding patch_commission
none_past_hold now [] = refl
none_past_hold now (c ∷ cs) = ground (arith, none_past_hold now cs)

held_kept :
    (now : ℕ) (cs : List PartnerCommission)
    → select (λ c. is_pending c.status) (released now cs)
      ≡ select (λ c. is_pending c.status && not (is_past_hold now c)) cs
unfolding patch_commission
held_kept now [] = refl
held_kept now (c ∷ cs) = ground (arith, held_kept now cs)

outstanding_kept :
    (now : ℕ) (cs : List PartnerCommission)
    → sum_where is_outstanding amount (released now cs) ≡ sum_where is_outstanding amount cs
unfolding patch_commission
outstanding_kept now [] = refl
outstanding_kept now (c ∷ cs) = ground (arith, outstanding_kept now cs)

-- The release promotes the pending commissions whose hold has passed and returns their number:
-- none of them stays pending, every other pending one does, and the sum that is earned and not
-- settled is the same.
pub release_payable_releases :
    (now : ℕ) (db : Db)
    → IsLedger db.commissions
    → ((release_payable now db).0 ≡ count_where (is_past_hold now) db.commissions)
      × (Ledger.pending_past_hold (release_payable now db).1 now ≡ [])
      × (select (λ c. is_pending c.status) (release_payable now db).1.commissions
          ≡ select (λ c. is_pending c.status && not (is_past_hold now c)) db.commissions)
      × (sum_where is_outstanding amount (release_payable now db).1.commissions
          ≡ sum_where is_outstanding amount db.commissions)
unfolding release_payable Ledger.pending_past_hold
release_payable_releases now db l = rw (update_all-select release (is_past_hold now) db l.keyed) (
  length-select (is_past_hold now) db.commissions,
  none_past_hold now db.commissions,
  held_kept now db.commissions,
  outstanding_kept now db.commissions,
)
