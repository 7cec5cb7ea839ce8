-- ===== src/Partners/Ledger/Bulk.antt =====
-- The loops of commissions.py and payouts.py, over the rows that a query returned, are bulk
-- updates of the rows that satisfy the query, as long as the identities are distinct.
use mathlib.Core.List.{map-append, append-nil, append_assoc}
use reliastra_backend.Prelude.{
  String, ◌++◌, map, map-update_where, sym, ℕ, ◌≡◌, refl, ap, ◌∙◌, List, [], ◌∷◌, Bool, select,
  update_where,
}
use reliastra_backend.Prelude.Tables.{update_each, update_each-select, IsKeyed}
use reliastra_backend.Partners.Model.{PartnerCommission, Db}
use reliastra_backend.Partners.Repository.Patches.{CommissionPatch, patch_commission}
use reliastra_backend.Partners.Repository.Commissions as Ledger

abbrev pub key : PartnerCommission → ℕ
key c = c.id

pub key-patch_commission :
    (p : CommissionPatch) (c : PartnerCommission) → key (patch_commission p c) ≡ key c
unfolding patch_commission
key-patch_commission p c = refl

-- What a commission was earned on, which no update has a column for.
abbrev pub Economics : Type 0
Economics = ℕ × ℕ × String × ℕ × ℕ × ℕ

abbrev pub economics : PartnerCommission → Economics
economics c = (
  c.id, c.partner_id, c.billing_event_id, c.subscription_amount_minor, c.commission_amount_minor,
  c.rate,
)

abbrev pub with_commissions : Db → List PartnerCommission → Db
with_commissions db cs = record db { commissions = cs }

update_all-update_each :
    (p : CommissionPatch) (rows : List PartnerCommission) (db : Db)
    → Ledger.update_all p rows db
      ≡ with_commissions db (update_each key (patch_commission p) rows db.commissions)
unfolding Ledger.update_all
update_all-update_each p [] db = refl
update_all-update_each p (c ∷ cs) db = update_all-update_each p cs (Ledger.update c.id p db)

-- The loop over the selected rows is one update of them.
pub update_all-select :
    (p : CommissionPatch) (q : PartnerCommission → Bool) (db : Db)
    → IsKeyed key db.commissions
    → Ledger.update_all p (select q db.commissions) db
      ≡ with_commissions db (update_where q (patch_commission p) db.commissions)
update_all-select p q db h =
    update_all-update_each p (select q db.commissions) db
    ∙ ap (with_commissions db)
        (update_each-select key (patch_commission p) q db.commissions (key-patch_commission p) h)

-- The rows of `cs`, and maybe more, by what they were earned on.
abbrev pub Extends : List PartnerCommission → List PartnerCommission → Type 0
Extends cs after = (more : List Economics) × (map economics after ≡ map economics cs ++ more)

pub Extends-same :
    (cs after : List PartnerCommission) → map economics after ≡ map economics cs → Extends cs after
Extends-same cs after h = ([], h ∙ sym (append-nil _))

pub Extends-trans :
    (cs mid after : List PartnerCommission) → Extends cs mid → Extends mid after → Extends cs after
Extends-trans cs mid after (a, h) (b, k) =
    (a ++ b, k ∙ ap (λ l. l ++ b) h ∙ append_assoc (map economics cs) a b)

pub Extends-update_where :
    (q : PartnerCommission → Bool) (p : CommissionPatch) (cs : List PartnerCommission)
    → Extends cs (update_where q (patch_commission p) cs)
unfolding patch_commission
Extends-update_where q p cs =
    Extends-same cs _ (map-update_where economics q (patch_commission p) cs (λ c. refl))

pub Extends-append :
    (cs : List PartnerCommission) (c : PartnerCommission) → Extends cs (cs ++ c ∷ [])
Extends-append cs c = (economics c ∷ [], map-append economics cs (c ∷ []))
