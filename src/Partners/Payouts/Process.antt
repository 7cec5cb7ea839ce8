-- ===== src/Partners/Payouts/Process.antt =====
-- `process_payout`: what settling and failing a payout do to its commissions.
use reliastra_backend.Prelude.{
  ℕ, ◌≡◌, refl, ap, ◌∙◌, Bool, true, String, List, [], ◌∷◌, arith, ◌==◌, All, some, update_where,
  sum_where, Option-cases, inl, inr, find_first_sound,
}
use reliastra_backend.Prelude.Result.{ok, Result-cases}
use reliastra_backend.Prelude.Tables.{IsKeyed}
use reliastra_backend.Partners.Model.{PartnerCommission, CommissionStatus, PartnerPayout, Db}
use reliastra_backend.Partners.Repository.Payouts as Table
use reliastra_backend.Partners.Repository.Commissions as Ledger
use reliastra_backend.Partners.Repository.Shared.{log_event}
use reliastra_backend.Partners.Repository.Patches.{
  patch_commission, is_reserved_by, is_free_payable,
}
use reliastra_backend.Partners.Ledger.Bulk.{
  key, update_all-select, Extends, Extends-same, Extends-update_where,
}
use reliastra_backend.Partners.Ledger.Invariant.{IsLedger, IsSoundRow, update_where-IsLedger}
use reliastra_backend.Partners.Payouts.{
  amount, payable_balance, settlement, unreserve, mark_paid, mark_failed, settle, process_payout,
  Action, paid_action, failed_action, unsupported,
}
use reliastra_backend.Partners.Payouts.Create.{payable_balance-sum_where}

abbrev pub settled : ℕ → ℕ → List PartnerCommission → List PartnerCommission
settled now oid cs = update_where (is_reserved_by oid) (patch_commission (settlement now)) cs

commissions-mark_paid :
    (now oid : ℕ) (ref : String) (db : Db)
    → IsKeyed key db.commissions
    → (mark_paid now oid ref db).commissions ≡ settled now oid db.commissions
unfolding mark_paid Ledger.commissions_for_payout Table.update
commissions-mark_paid now oid ref db k =
    ap (λ (d : Db). d.commissions) (update_all-select (settlement now) (is_reserved_by oid) _ k)

-- The patch of `mark_failed` changes no column.
unreserve-patch_commission : (c : PartnerCommission) → patch_commission unreserve c ≡ c
unfolding patch_commission
unreserve-patch_commission c = refl

update_where-unreserve :
    (q : PartnerCommission → Bool) (cs : List PartnerCommission)
    → update_where q (patch_commission unreserve) cs ≡ cs
update_where-unreserve q [] = refl
update_where-unreserve q (c ∷ cs) =
    ground (arith, unreserve-patch_commission c, update_where-unreserve q cs)

update_all-unreserve :
    (rows : List PartnerCommission) (db : Db)
    → (Ledger.update_all unreserve rows db).commissions ≡ db.commissions
unfolding Ledger.update_all
update_all-unreserve [] db = refl
update_all-unreserve (c ∷ cs) db =
    update_all-unreserve cs (Ledger.update c.id unreserve db)
    ∙ update_where-unreserve (λ x. x.id == c.id) db.commissions

commissions-mark_failed : (oid : ℕ) (db : Db) → (mark_failed oid db).commissions ≡ db.commissions
unfolding mark_failed Table.update
commissions-mark_failed oid db = update_all-unreserve _ _

-- What a successful call leaves in the ledger, for each action.
abbrev after_action : ℕ → ℕ → Action → List PartnerCommission → List PartnerCommission
after_action now oid paid_action cs = settled now oid cs
after_action now oid failed_action cs = cs
after_action now oid (unsupported a) cs = cs

get_by_id-id :
    (db : Db) (oid : ℕ) {o : PartnerPayout} → Table.get_by_id db oid ≡ some o → o.id ≡ oid
unfolding Table.get_by_id
get_by_id-id db oid {o} h = ground (arith, find_first_sound (λ x. x.id == oid) db.payouts h)

settle-commissions :
    (now oid : ℕ) (action : Action) (ref : String) (db : Db) {after : Db}
    → IsKeyed key db.commissions
    → settle now oid action ref db ≡ ok after
    → after.commissions ≡ after_action now oid action db.commissions
unfolding settle
settle-commissions now oid paid_action ref db k h =
    ground (arith, commissions-mark_paid now oid ref db k)
settle-commissions now oid failed_action ref db k h = ground (arith, commissions-mark_failed oid db)
settle-commissions now oid (unsupported a) ref db k h = absurd (ground arith)

pub commissions-process_payout :
    (now oid : ℕ) (action : Action) (ref : String) (db : Db) {after : Db}
    → IsKeyed key db.commissions
    → process_payout now oid action ref db ≡ ok after
    → after.commissions ≡ after_action now oid action db.commissions
unfolding process_payout log_event
commissions-process_payout now oid action ref db k h =
    elim (Option-cases (Table.get_by_id db oid)) [
      | inl e ↦ absurd (ground arith)
      | inr (o, e) ↦ elim (Result-cases (settle now o.id action ref db)) [
        | inl (f, q) ↦ absurd (ground arith)
        | inr (d, q) ↦
            ground (arith, settle-commissions now o.id action ref db k q, get_by_id-id db oid e)
      ]
    ]

settlement-IsSoundRow :
    (now oid : ℕ) (c : PartnerCommission)
    → is_reserved_by oid c ≡ true
    → IsSoundRow c
    → IsSoundRow (patch_commission (settlement now) c)
unfolding patch_commission
settlement-IsSoundRow now oid c q h = ground arith

after_action-IsLedger :
    (now oid : ℕ) (action : Action) (cs : List PartnerCommission)
    → IsLedger cs
    → IsLedger (after_action now oid action cs)
after_action-IsLedger now oid paid_action cs h =
    update_where-IsLedger (settlement now) (is_reserved_by oid) cs (settlement-IsSoundRow now oid) h
after_action-IsLedger now oid failed_action cs h = h
after_action-IsLedger now oid (unsupported a) cs h = h

-- Settling and failing a payout keep the ledger's invariant.
pub process_payout-IsLedger :
    (now oid : ℕ) (action : Action) (ref : String) (db : Db) {after : Db}
    → process_payout now oid action ref db ≡ ok after
    → IsLedger db.commissions
    → IsLedger after.commissions
process_payout-IsLedger now oid action ref db h l =
    rw (commissions-process_payout now oid action ref db l.keyed h)
      (after_action-IsLedger now oid action db.commissions l)

-- The rows of the payout are paid, at the time of the call.
All-settled :
    (now oid : ℕ) (cs : List PartnerCommission)
    → All
        (λ c.
          is_reserved_by oid c ≡ true → (c.status ≡ CommissionStatus.paid) × (c.paid_at ≡ some now))
        (settled now oid cs)
unfolding patch_commission
All-settled now oid [] = tt
All-settled now oid (c ∷ cs) = (λ h. ground arith, All-settled now oid cs)

free-settled :
    (now oid pid : ℕ) (cs : List PartnerCommission)
    → sum_where (is_free_payable pid) amount (settled now oid cs)
      ≡ sum_where (is_free_payable pid) amount cs
unfolding patch_commission
free-settled now oid pid [] = refl
free-settled now oid pid (c ∷ cs) = ground (arith, free-settled now oid pid cs)

-- A payout that is marked paid leaves every commission that it holds paid at that time, and
-- changes no partner's payable balance.
pub mark_paid_settles :
    (now oid : ℕ) (ref : String) (db : Db) {after : Db}
    → IsLedger db.commissions
    → process_payout now oid paid_action ref db ≡ ok after
    → All
        (λ c.
          is_reserved_by oid c ≡ true → (c.status ≡ CommissionStatus.paid) × (c.paid_at ≡ some now))
        after.commissions
      × ((pid : ℕ) → payable_balance after pid ≡ payable_balance db pid)
mark_paid_settles now oid ref db {after} l h =
    let e = commissions-process_payout now oid paid_action ref db l.keyed h in
    (
      rw e (All-settled now oid db.commissions),
      λ pid.
          rw (payable_balance-sum_where after pid, payable_balance-sum_where db pid, e)
            (free-settled now oid pid db.commissions),
    )

-- Over commissions with distinct ids, a payout that is marked failed returns nothing to the payable
-- pool: no commission changes, and every partner's payable balance is what it was while the payout
-- held its commissions.
pub mark_failed_releases_nothing :
    (now oid : ℕ) (ref : String) (db : Db) {after : Db}
    → IsKeyed key db.commissions
    → process_payout now oid failed_action ref db ≡ ok after
    → (after.commissions ≡ db.commissions)
      × ((pid : ℕ) → payable_balance after pid ≡ payable_balance db pid)
mark_failed_releases_nothing now oid ref db {after} k h =
    let e = commissions-process_payout now oid failed_action ref db k h in
    (e, λ pid. rw (payable_balance-sum_where after pid, payable_balance-sum_where db pid, e) refl)

after_action-Extends :
    (now oid : ℕ) (action : Action) (cs : List PartnerCommission)
    → Extends cs (after_action now oid action cs)
after_action-Extends now oid paid_action cs =
    Extends-update_where (is_reserved_by oid) (settlement now) cs
after_action-Extends now oid failed_action cs = Extends-same cs cs refl
after_action-Extends now oid (unsupported a) cs = Extends-same cs cs refl

pub process_payout-Extends :
    (now oid : ℕ) (action : Action) (ref : String) (db : Db) {after : Db}
    → IsLedger db.commissions
    → process_payout now oid action ref db ≡ ok after
    → Extends db.commissions after.commissions
process_payout-Extends now oid action ref db l h =
    rw (commissions-process_payout now oid action ref db l.keyed h)
      (after_action-Extends now oid action db.commissions)
