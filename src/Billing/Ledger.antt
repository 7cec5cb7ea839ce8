-- ===== src/Billing/Ledger.antt =====
-- What the webhook does to the referral program.
use reliastra_backend.Prelude.{
  ℕ, ◌≡◌, refl, sym, ap, Bool, true, false, Option, none, some, String, leb, inl, inr, ◌⊎◌,
}
use mathlib.Core.Path.{subst}
use reliastra_backend.Prelude.Result.{ok, Result-cases}
use reliastra_backend.Prelude.Tables.{IsFresh}
use reliastra_backend.Partners.Model as Partners
use reliastra_backend.Partners.Model.{Settings}
use reliastra_backend.Partners.Ledger.Bulk.{key}
use reliastra_backend.Partners.Ledger.Reach as Ledger
use reliastra_backend.Partners.Ledger.Reach.{Reach, here, next}
use reliastra_backend.Partners.Commissions.{record_payment}
use reliastra_backend.Billing.Model.{Db, Organization, Document, org, get_org}
use reliastra_backend.Billing.Service.{success, Payload, process_event, charge_success, process}
use reliastra_backend.Billing.Webhook.{
  Outside, Delivery, State, authenticate, commit, after_claim, deliver, handle_webhook,
  claim_webhook_event,
}
use reliastra_backend.Billing.Effects.{
  payment_of, Effect, pays, churns, reverses, Affects, process_event-Affects, charge_success-pays,
}

module _ {Server : Type 0} (env : Outside Server) (s : Settings) (new_id now : ℕ) where
  -- The claim of the event in Redis succeeds, if the event has an identifier.
  abbrev pub is_claimed : Option String → Server → Bool
  is_claimed none redis = true
  is_claimed (some event_id) redis = (claim_webhook_event env event_id redis).0

  commit-Affects :
      (p : Payload) (db : Db) (redis : Server)
      → Affects s new_id now env.answer p db (commit env s new_id now p db redis).1.db.partners
  unfolding commit process
  commit-Affects p db redis =
      elim (Result-cases (process_event s new_id now env.answer p p.event db)) [
        | inl (e, k) ↦ rw (k, commit, process) (inl refl)
        | inr (after, k) ↦
            rw (k, commit, process)
              (process_event-Affects s new_id now env.answer p p.event db refl k)
      ]

  -- An event that is not claimed has no effect.
  abbrev AffectsIf : Bool → Payload → Db → Partners.Db → Type 0
  AffectsIf b p db after =
      (after ≡ db.partners) ⊎ ((b ≡ true) × Effect s new_id now env.answer p db after)

  if_claimed :
      (p : Payload) (db : Db) {after : Partners.Db}
      → Affects s new_id now env.answer p db after
      → AffectsIf true p db after
  if_claimed p db (inl e) = inl e
  if_claimed p db (inr e) = inr (refl, e)

  after_claim-AffectsIf :
      (p : Payload) (db : Db) (claim : Bool × Server)
      → AffectsIf claim.0 p db (after_claim env s new_id now p db claim).1.db.partners
  after_claim-AffectsIf p db (true, redis) = if_claimed p db (commit-Affects p db redis)
  after_claim-AffectsIf p db (false, redis) = inl refl

  deliver-AffectsIf :
      (p : Payload) (o : Option String) (st : State Server)
      → AffectsIf (is_claimed o st.redis) p st.db (deliver env s new_id now p o st).1.db.partners
  unfolding deliver
  deliver-AffectsIf p none st = if_claimed p st.db (commit-Affects p st.db st.redis)
  deliver-AffectsIf p (some i) st = after_claim-AffectsIf p st.db _

  deliver-commits :
      (p : Payload) (o : Option String) (st : State Server)
      → is_claimed o st.redis ≡ true
      → (redis : Server) × (deliver env s new_id now p o st ≡ commit env s new_id now p st.db redis)
  unfolding deliver
  deliver-commits p none st c = (st.redis, refl)
  deliver-commits p (some i) st c = (
    (claim_webhook_event env i st.redis).1,
    ap (λ b. after_claim env s new_id now p st.db (b, (claim_webhook_event env i st.redis).1)) c,
  )

  -- A delivery to the webhook changes the referral program's database only if its signature is right
  -- and its event, if it has an identifier, is claimed; and then by exactly one call of the commission
  -- service, with the arguments of the event: the amount and reference that Paystack confirms for a
  -- charge of a known organization, the organization of a cancelled subscription, or the reference and
  -- the reason of a reversal.
  pub handle_webhook-Effect :
      (d : Delivery) (st : State Server)
      → ((handle_webhook env s new_id now d st).1.db.partners ≡ st.db.partners)
        ⊎ ((authenticate env d ≡ ok tt)
            × (is_claimed d.payload.event_id st.redis ≡ true)
            × Effect s new_id now env.answer d.payload st.db
                (handle_webhook env s new_id now d st).1.db.partners)
  unfolding handle_webhook
  handle_webhook-Effect d st = elim (Result-cases (authenticate env d)) [
    | inl (e, k) ↦ inl (rw (k, handle_webhook) refl)
    | inr (tt, k) ↦ elim (deliver-AffectsIf d.payload d.payload.event_id st) [
      | inl e ↦ inl (rw (k, handle_webhook) e)
      | inr (c, e) ↦ inr (k, c, rw (k, handle_webhook) e)
    ]
  ]

  -- A delivery with a right signature whose event is claimed, if it has an identifier, and which tells of
  -- a charge that Paystack confirms, of a positive amount and for a known organization, does to the
  -- referral program what the payment of that amount by that organization under that reference does.
  pub confirmed_charge_is_paid :
      (d : Delivery) (st : State Server) (reference : String) (doc : Document) (oid : ℕ)
      (o : Organization)
      → authenticate env d ≡ ok tt
      → is_claimed d.payload.event_id st.redis ≡ true
      → d.payload.event ≡ charge_success
      → d.payload.reference ≡ some reference
      → env.answer reference ≡ success doc
      → doc.org_id ≡ org oid
      → get_org oid st.db ≡ some o
      → leb doc.amount 0 ≡ false
      → (handle_webhook env s new_id now d st).1.db.partners
        ≡ record_payment s new_id now (payment_of o.id doc reference) st.db.partners
  unfolding handle_webhook commit process
  confirmed_charge_is_paid d st reference doc oid o right claimed event named confirmed of_org known
        positive =
      let (redis, e) = deliver-commits d.payload d.payload.event_id st claimed in
      let (after, done, paid) =
        charge_success-pays s new_id now env.answer d.payload reference doc oid o st.db event named
          confirmed of_org known positive in
      rw (right, handle_webhook) (rw e (rw (done, commit, process) paid))

  -- A delivery keeps the referral program's database among those that the services reach, if the id
  -- for a new commission is unused.
  handle_webhook-Reach :
      (d : Delivery) (st : State Server)
      → IsFresh key new_id st.db.partners.commissions
      → Reach s st.db.partners (handle_webhook env s new_id now d st).1.db.partners
  handle_webhook-Reach d st fresh = elim (handle_webhook-Effect d st) [
    | inl e ↦ subst (Reach s st.db.partners) (sym e) here
    | inr (a, c, e) ↦ reached e
  ]
    where
      reached :
          {after : Partners.Db}
          → Effect s new_id now env.answer d.payload st.db after
          → Reach s st.db.partners after
      reached (pays reference doc oid o x1 x2 x3 x4 x5 x6) =
          next here (Ledger.pays new_id now (payment_of o.id doc reference) fresh)
      reached (churns oid x1 x2) = next here (Ledger.churns oid)
      reached (reverses reference reason x1 x2) = next here (Ledger.refunds reference reason)
