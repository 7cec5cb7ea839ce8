-- ===== src/Partners/Repository/Payouts.antt =====
-- `PartnerPayoutRepository` of partners/repository.py
use reliastra_backend.Prelude.{ℕ, Option, none, [], ◌∷◌, ◌++◌, ◌==◌, find_first, update_where}
use reliastra_backend.Prelude.Text.{Text}
use reliastra_backend.Partners.Model.{PartnerPayout, PayoutStatus, Db}
use reliastra_backend.Partners.Repository.Patches.{PayoutPatch, patch_payout}

unfoldable pub create : ℕ → ℕ → ℕ → Text → Db → PartnerPayout × Db
create new_id partner_id amount currency db =
    let o : PartnerPayout = record {
      id = new_id;
      partner_id = partner_id;
      amount_minor = amount;
      currency = currency;
      status = PayoutStatus.pending;
      transaction_reference = none;
      paid_at = none;
    } in
    (o, record db { payouts = db.payouts ++ o ∷ [] })

unfoldable pub get_by_id : Db → ℕ → Option PartnerPayout
get_by_id db oid = find_first (λ o. o.id == oid) db.payouts

unfoldable pub update : ℕ → PayoutPatch → Db → Db
unfolding patch_payout
update oid p db = record db {
  payouts = update_where (λ o. o.id == oid) (patch_payout p) db.payouts;
}
