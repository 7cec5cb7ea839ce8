-- ===== src/Partners/Payouts/Reserve.antt =====
-- The reservation loop of `create_payout`, over the payable rows, is one walk through the table.
use reliastra_backend.Prelude.{
  ℕ, ◌-◌, ◌≡◌, refl, ap, sym, ◌∙◌, Bool, true, false, List, [], ◌∷◌, arith, leb, ◌==◌, min, any,
  select, update_where, if◌then◌else◌, Bool-cases, inl, inr,
}
use reliastra_backend.Prelude.Tables.{IsKeyed, any-select, update_where-none}
use reliastra_backend.Partners.Model.{PartnerCommission, Db}
use reliastra_backend.Partners.Repository.Commissions as Ledger
use reliastra_backend.Partners.Repository.Patches.{patch_commission, is_free_payable}
use reliastra_backend.Partners.Ledger.Bulk.{key, with_commissions}
use reliastra_backend.Partners.Payouts.{amount, reservation, reserve}

-- The loop on the table alone.
reserve_rows : ℕ → ℕ → List PartnerCommission → List PartnerCommission → List PartnerCommission
reserve_rows oid remaining [] t = t
reserve_rows oid remaining (c ∷ cs) t =
    let rest =
      reserve_rows oid (remaining - min (amount c) remaining) cs
        (update_where (λ x. x.id == c.id) (patch_commission (reservation oid)) t) in
    if leb remaining 0 then t else rest

-- From the oldest row on, the free payable rows of the partner are reserved until what remains is
-- covered.
unfoldable pub walk : ℕ → ℕ → ℕ → List PartnerCommission → List PartnerCommission
walk pid oid remaining [] = []
walk pid oid remaining (c ∷ cs) =
    if is_free_payable pid c
    then (if leb remaining 0 then c else patch_commission (reservation oid) c)
      ∷ walk pid oid (remaining - min (amount c) remaining) cs
    else c ∷ walk pid oid remaining cs

reserve-reserve_rows :
    (oid remaining : ℕ) (rows : List PartnerCommission) (db : Db)
    → reserve oid remaining rows db
      ≡ with_commissions db (reserve_rows oid remaining rows db.commissions)
unfolding reserve reserve_rows Ledger.update
reserve-reserve_rows oid remaining [] db = refl
reserve-reserve_rows oid remaining (c ∷ cs) db = elim (Bool-cases (leb remaining 0)) [
  | inl e ↦ rw e
  | inr e ↦ rw e (
      reserve-reserve_rows oid (remaining - min (amount c) remaining) cs
        (Ledger.update c.id (reservation oid) db))
]

-- With nothing left to cover, the rest of the table stays.
pub walk_done : (pid oid n : ℕ) (t : List PartnerCommission) → n ≡ 0 → walk pid oid n t ≡ t
unfolding walk
walk_done pid oid n [] h = refl
walk_done pid oid n (c ∷ cs) h =
    ground
      (arith, walk_done pid oid n cs h, walk_done pid oid (n - min (amount c) n) cs (omega arith))

reserve_rows-cons :
    (oid remaining : ℕ) (rows : List PartnerCommission) (x : PartnerCommission)
    (t : List PartnerCommission)
    → any (λ y. y.id == x.id) rows ≡ false
    → reserve_rows oid remaining rows (x ∷ t) ≡ x ∷ reserve_rows oid remaining rows t
unfolding reserve_rows
reserve_rows-cons oid remaining [] x t h = refl
reserve_rows-cons oid remaining (c ∷ cs) x t h = elim (Bool-cases (leb remaining 0)) [
  | inl e ↦ rw e
  | inr e ↦ ground (
    arith,
    reserve_rows-cons oid (remaining - min (amount c) remaining) cs x
        (update_where (λ y. y.id == c.id) (patch_commission (reservation oid)) t),
  )
]

-- The step at a payable row.
reserve_rows_step :
    (pid oid n : ℕ) (x : PartnerCommission) (rows t : List PartnerCommission)
    → any (λ y. y.id == x.id) t ≡ false
    → any (λ y. y.id == x.id) rows ≡ false
    → reserve_rows oid (n - min (amount x) n) rows t ≡ walk pid oid (n - min (amount x) n) t
    → reserve_rows oid n (x ∷ rows) (x ∷ t)
      ≡ (if leb n 0 then x else patch_commission (reservation oid) x)
        ∷ walk pid oid (n - min (amount x) n) t
unfolding reserve_rows
reserve_rows_step pid oid n x rows t kt kr ih = elim (Bool-cases (leb n 0)) [
  | inl e ↦ rw e (ap (λ r. x ∷ r) (sym (walk_done pid oid (n - min (amount x) n) t (ground arith))))
  | inr e ↦ rw e (found (x.id == x.id) (ground arith))
]
  where
    found :
        (b : Bool)
        → b ≡ true
        → reserve_rows oid (n - min (amount x) n) rows (
            (if b then patch_commission (reservation oid) x else x)
            ∷ update_where (λ y. y.id == x.id) (patch_commission (reservation oid)) t)
          ≡ patch_commission (reservation oid) x ∷ walk pid oid (n - min (amount x) n) t
    found false e = absurd (ground arith)
    found true e =
        rw (update_where-none (λ y. y.id == x.id) (patch_commission (reservation oid)) t kt) (
          reserve_rows-cons oid (n - min (amount x) n) rows (patch_commission (reservation oid) x) t
            (unfold patch_commission in kr)
          ∙ ap (λ r. patch_commission (reservation oid) x ∷ r) ih)

reserve_rows-walk :
    (pid oid remaining : ℕ) (t : List PartnerCommission)
    → IsKeyed key t
    → reserve_rows oid remaining (select (is_free_payable pid) t) t ≡ walk pid oid remaining t
unfolding walk
reserve_rows-walk pid oid remaining [] k = unfold reserve_rows in refl
reserve_rows-walk pid oid remaining (x ∷ t) k = elim (Bool-cases (is_free_payable pid x)) [
  | inl e ↦ rw e (
      reserve_rows_step pid oid remaining x (select (is_free_payable pid) t) t k.0
        (any-select _ _ t k.0)
        (reserve_rows-walk pid oid (remaining - min (amount x) remaining) t k.1))
  | inr e ↦ rw e (
      reserve_rows-cons oid remaining (select (is_free_payable pid) t) x t (any-select _ _ t k.0)
      ∙ ap (λ r. x ∷ r) (reserve_rows-walk pid oid remaining t k.1))
]

-- Over distinct identities, the loop of `create_payout` is the walk.
pub reserve-walk :
    (pid oid remaining : ℕ) (db : Db)
    → IsKeyed key db.commissions
    → reserve oid remaining (Ledger.payable_by_partner db pid) db
      ≡ with_commissions db (walk pid oid remaining db.commissions)
unfolding Ledger.payable_by_partner
reserve-walk pid oid remaining db k =
    reserve-reserve_rows oid remaining _ db
    ∙ ap (with_commissions db) (reserve_rows-walk pid oid remaining db.commissions k)
