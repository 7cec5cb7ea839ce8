-- ===== src/Partners/Repository/Commissions.antt =====
-- `PartnerCommissionRepository` of partners/repository.py
use reliastra_backend.Prelude.{
  ℕ, String, Option, none, List, [], ◌∷◌, ◌++◌, ◌==◌, select, find_first, update_where,
}
use reliastra_backend.Partners.Model.{PartnerCommission, CommissionStatus, Db}
use reliastra_backend.Partners.Repository.Patches.{
  CommissionPatch, patch_commission, for_event, is_free_payable, is_past_hold, is_reserved_by,
}

unfoldable pub get_by_billing_event : Db → String → ℕ → Option PartnerCommission
get_by_billing_event db ref pid = find_first (for_event ref pid) db.commissions

unfoldable pub get_by_id : Db → ℕ → Option PartnerCommission
get_by_id db cid = find_first (λ c. c.id == cid) db.commissions

-- The row goes in with the status "pending", and the columns that the caller does not give NULL.
unfoldable pub create : PartnerCommission → Db → Db
create c db = record db {
  commissions =
      db.commissions
      ++ record c {
        status = CommissionStatus.pending;
        paid_at = none;
        reversal_reason = none;
        payout_id = none;
      }
        ∷ [];
}

unfoldable pub update : ℕ → CommissionPatch → Db → Db
unfolding patch_commission
update cid p db = record db {
  commissions = update_where (λ c. c.id == cid) (patch_commission p) db.commissions;
}

unfoldable pub payable_by_partner : Db → ℕ → List PartnerCommission
payable_by_partner db pid = select (is_free_payable pid) db.commissions

unfoldable pub pending_past_hold : Db → ℕ → List PartnerCommission
pending_past_hold db now = select (is_past_hold now) db.commissions

unfoldable pub commissions_for_payout : Db → ℕ → List PartnerCommission
commissions_for_payout db oid = select (is_reserved_by oid) db.commissions

-- `for commission in rows: await self.commission_repo.update(session, commission, …)`, the loop of
-- the services
unfoldable pub update_all : CommissionPatch → List PartnerCommission → Db → Db
unfolding update
update_all p [] db = db
update_all p (c ∷ cs) db = update_all p cs (update c.id p db)
