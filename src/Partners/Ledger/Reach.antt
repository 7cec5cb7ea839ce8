-- ===== src/Partners/Ledger/Reach.antt =====
-- The life of the ledger as a step relation: the calls of the services, in any order.
use reliastra_backend.Prelude.{refl, ap, map, ℕ, ◌≤◌, ◌≡◌, String, Option}
use reliastra_backend.Prelude.Text.{Text}
use reliastra_backend.Prelude.Result.{ok}
use reliastra_backend.Prelude.Tables.{IsFresh}
use reliastra_backend.Partners.Model.{PartnerPayout, Db, Settings}
use reliastra_backend.Partners.Ledger.Bulk.{key, economics, Extends, Extends-same, Extends-trans}
use reliastra_backend.Partners.Ledger.Invariant.{IsLedger}
use reliastra_backend.Partners.Commissions.{
  Payment, record_payment, reverse_by_reference, reverse_commission, handle_churn, release_payable,
}
use reliastra_backend.Partners.Commissions.Keeps.{
  record_payment-IsLedger, reverse_by_reference-IsLedger, reverse_commission-IsLedger,
  release_payable-IsLedger, commissions-handle_churn,
}
use reliastra_backend.Partners.Commissions.History.{
  record_payment-Extends, reverse_by_reference-Extends, reverse_commission-Extends,
  release_payable-Extends,
}
use reliastra_backend.Partners.Payouts.{Action, create_payout, process_payout}
use reliastra_backend.Partners.Payouts.Create.{create_payout-IsLedger, create_payout-Extends}
use reliastra_backend.Partners.Payouts.Process.{process_payout-IsLedger, process_payout-Extends}
use reliastra_backend.Partners.Service.{bind_referral}
use reliastra_backend.Partners.Service.Binding.{commissions-bind_referral}

module _ (s : Settings) where
  -- One call of a service. A call that raises leaves the database as it was, so it is no step.
  pub data Step (db : Db) : Db → Type 0 where
    pays :
        (new_id now : ℕ) (pay : Payment)
        → IsFresh key new_id db.commissions
        → Step db (record_payment s new_id now pay db)
    refunds : (ref reason : String) → Step db (reverse_by_reference ref reason db).1
    reverses :
        (cid : ℕ) (reason : String) {after : Db}
        → reverse_commission cid reason db ≡ ok after
        → Step db after
    churns : (oid : ℕ) → Step db (handle_churn oid db)
    releases : (now : ℕ) → Step db (release_payable now db).1
    binds :
        (new_id : ℕ) (code : Text) (uid : ℕ) (org : Option ℕ)
        → Step db (bind_referral new_id code uid org db).1
    reserves :
        (oid pid : ℕ) (am : Option ℕ) {o : PartnerPayout} {after : Db}
        → create_payout s oid pid am db ≡ ok (o, after)
        → Step db after
    processes :
        (now oid : ℕ) (action : Action) (ref : String) {after : Db}
        → process_payout now oid action ref db ≡ ok after
        → Step db after

  pub data Reach (db : Db) : Db → Type 0 where
    here : Reach db db
    next : {mid after : Db} → Reach db mid → Step mid after → Reach db after

module _ (s : Settings) (rate : s.commission_rate ≤ 100) where
  Step-IsLedger :
      {db after : Db} → Step s db after → IsLedger db.commissions → IsLedger after.commissions
  Step-IsLedger {db} (pays new_id now pay fresh) h =
      record_payment-IsLedger s new_id now pay db rate fresh h
  Step-IsLedger {db} (refunds ref reason) h = reverse_by_reference-IsLedger ref reason db h
  Step-IsLedger {db} (reverses cid reason {after = a} e) h =
      reverse_commission-IsLedger cid reason db a e h
  Step-IsLedger {db} (churns oid) h = rw (commissions-handle_churn oid db) h
  Step-IsLedger {db} (releases now) h = release_payable-IsLedger now db h
  Step-IsLedger {db} (binds new_id code uid org) h =
      rw (commissions-bind_referral new_id code uid org db) h
  Step-IsLedger {db} (reserves oid pid am e) h = create_payout-IsLedger s oid pid am db h.keyed e h
  Step-IsLedger {db} (processes now oid action ref e) h =
      process_payout-IsLedger now oid action ref db e h

  -- At a rate of at most 100 percent, from a sound ledger, whatever calls are made: identities
  -- stay distinct; a partner has at most one commission on a billing event; every commission is
  -- positive and at most its payment; a pending one is in no payout, and a paid one in some
  -- payout.
  pub Reach-IsLedger :
      {db after : Db} → Reach s db after → IsLedger db.commissions → IsLedger after.commissions
  Reach-IsLedger here h = h
  Reach-IsLedger (next r st) h = Step-IsLedger st (Reach-IsLedger r h)

  Step-Extends :
      {db after : Db}
      → Step s db after
      → IsLedger db.commissions
      → Extends db.commissions after.commissions
  Step-Extends {db} (pays new_id now pay fresh) h = record_payment-Extends s new_id now pay db
  Step-Extends {db} (refunds ref reason) h = reverse_by_reference-Extends ref reason db h
  Step-Extends {db} (reverses cid reason {after = a} e) h =
      reverse_commission-Extends cid reason db a e
  Step-Extends {db} (churns oid) h =
      Extends-same db.commissions _ (ap (map economics) (commissions-handle_churn oid db))
  Step-Extends {db} (releases now) h = release_payable-Extends now db h
  Step-Extends {db} (binds new_id code uid org) h =
      Extends-same db.commissions _
        (ap (map economics) (commissions-bind_referral new_id code uid org db))
  Step-Extends {db} (reserves oid pid am e) h = create_payout-Extends s oid pid am db h e
  Step-Extends {db} (processes now oid action ref e) h =
      process_payout-Extends now oid action ref db h e

  -- The ledger is append-only: from a sound ledger, whatever calls are made, the commissions that
  -- were there stand first and in order, with their partner, billing event, payment, amount and
  -- rate.
  pub Reach-Extends :
      {db after : Db}
      → Reach s db after
      → IsLedger db.commissions
      → Extends db.commissions after.commissions
  Reach-Extends {db} here h = Extends-same db.commissions db.commissions refl
  Reach-Extends {db} (next {mid = m} {after = a} r st) h =
      Extends-trans db.commissions m.commissions a.commissions (Reach-Extends r h)
        (Step-Extends st (Reach-IsLedger r h))
