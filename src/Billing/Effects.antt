-- ===== src/Billing/Effects.antt =====
-- What one event asks of the referral program, and that its handler does no more.
use reliastra_backend.Prelude.{
  ℕ, ◌≡◌, refl, sym, ap, ◌∙◌, Bool, true, false, Option, none, some, String, leb, arith, Bool-cases,
  Option-cases, inl, inr, take, ◌⊎◌,
}
use mathlib.Core.Path.{subst}
use reliastra_backend.Prelude.Result.{ok, Result-cases}
use reliastra_backend.Partners.Model as Partners
use reliastra_backend.Partners.Model.{Settings}
use reliastra_backend.Partners.Commissions.{
  Payment, record_payment, reverse_by_reference, handle_churn,
}
use reliastra_backend.Prelude.Text.{text_or, upper, codes}
use reliastra_backend.Billing.Model.{
  Db, Organization, Document, Values, OrgId, absent, malformed, org, get_org, update_plan,
  update_subscription, create_subscription,
}
use reliastra_backend.Billing.Service.{
  Verification, http_error, no_success, success, Payload, process_event, verified_for, upsert_for,
  event_values, EventType, charge_success, verified, provision, upsert, record_partner_commission,
  paid_values, upsert_webhook_subscription, disable_webhook_subscription, handle_partner_churn,
  reverse_partner_commissions, customer_org, subscription_create, subscription_disable,
  subscription_not_renew, refund_processed, charge_refunded, dispute_create, dispute_remind, other,
}

-- What the payload of an event asks for.
abbrev pub is_cancellation : EventType → Bool
is_cancellation subscription_disable = true
is_cancellation subscription_not_renew = true
is_cancellation _ = false

abbrev pub reversal_reason : EventType → Option String
reversal_reason refund_processed = some "refund"
reversal_reason charge_refunded = some "refund"
reversal_reason dispute_create = some "chargeback"
reversal_reason dispute_remind = some "chargeback"
reversal_reason _ = none

-- The payment of a transaction that Paystack confirms, by the organization that its document names.
abbrev pub payment_of : ℕ → Document → String → Payment
payment_of oid d reference = record {
  organization_id = oid;
  collected_minor = d.amount;
  currency = take 3 (upper (text_or d.currency (codes "USD")));
  payment_reference = reference;
  paid_at = d.paid_at;
}

module _ (s : Settings) (new_id now : ℕ) (answer : String → Verification) where
  -- The one call of the commission service that an event can make: the payment of a charge that
  -- Paystack confirms for a known organization, the churn of the organization of a cancelled
  -- subscription, or the reversal of a payment, each with the arguments of the event.
  pub data Effect (p : Payload) (db : Db) : Partners.Db → Type 0 where
    pays :
        (reference : String) (d : Document) (oid : ℕ) (o : Organization)
        → p.event ≡ charge_success
        → p.reference ≡ some reference
        → answer reference ≡ success d
        → d.org_id ≡ org oid
        → get_org oid db ≡ some o
        → leb d.amount 0 ≡ false
        → Effect p db (record_payment s new_id now (payment_of o.id d reference) db.partners)
    churns :
        (oid : ℕ)
        → is_cancellation p.event ≡ true
        → customer_org p.document (disable_webhook_subscription p.document db) ≡ some oid
        → Effect p db (handle_churn oid db.partners)
    reverses :
        (reference reason : String)
        → reversal_reason p.event ≡ some reason
        → p.reversed_reference ≡ some reference
        → Effect p db (reverse_by_reference reference reason db.partners).1

  -- Nothing changes, or one such call is made.
  abbrev pub Affects : Payload → Db → Partners.Db → Type 0
  Affects p db after = (after ≡ db.partners) ⊎ Effect p db after

  pub partners-upsert : (oid : ℕ) (v : Values) (db : Db) → (upsert oid v db).partners ≡ db.partners
  unfolding upsert update_subscription create_subscription
  partners-upsert oid v db = ground arith

  partners-provision :
      (p : Payload) (reference : String) (d : Document) (oid : ℕ) (o : Organization) (db : Db)
      → p.event ≡ charge_success
      → p.reference ≡ some reference
      → answer reference ≡ success d
      → d.org_id ≡ org oid
      → get_org oid db ≡ some o
      → Affects p db (provision s new_id now o.id d reference db).partners
  unfolding provision record_partner_commission update_plan
  partners-provision p reference d oid o db event named confirmed of_org known =
      elim (Bool-cases (leb d.amount 0)) [
        | inl e ↦ inl (rw e (partners-upsert o.id (paid_values d reference) db))
        | inr e ↦ rw e (
            rw (partners-upsert o.id (paid_values d reference) db)
              (inr (pays reference d oid o event named confirmed of_org known e)))
      ]

  partners-verified_for :
      (p : Payload) (reference : String) (d : Document) (o : OrgId) (db : Db) {b : Bool}
      {after : Db}
      → p.event ≡ charge_success
      → p.reference ≡ some reference
      → answer reference ≡ success d
      → d.org_id ≡ o
      → verified_for s new_id now reference d o db ≡ ok (b, after)
      → Affects p db after.partners
  unfolding verified_for
  partners-verified_for p reference d absent db {b} {after} event named confirmed of_org h =
      let w : db ≡ after = ground (arith, h) in inl (ap (λ (x : Db). x.partners) (sym w))
  partners-verified_for p reference d malformed db event named confirmed of_org h =
      absurd (ground (arith, h))
  partners-verified_for p reference d (org oid) db {b} {after} event named confirmed of_org h =
      elim (Option-cases (get_org oid db)) [
        | inl f ↦ absurd (ground (arith, rw f at h))
        | inr (x, f) ↦
            let w : provision s new_id now x.id d reference db ≡ after =
              ground (arith, rw f at h) in
            subst (λ (y : Db). Affects p db y.partners) w
              (partners-provision p reference d oid x db event named confirmed of_org f)
      ]

  partners-verified :
      (p : Payload) (reference : String) (v : Verification) (db : Db) {b : Bool} {after : Db}
      → p.event ≡ charge_success
      → p.reference ≡ some reference
      → answer reference ≡ v
      → verified s new_id now reference v db ≡ ok (b, after)
      → Affects p db after.partners
  unfolding verified
  partners-verified p reference http_error db event named confirmed h = absurd (ground (arith, h))
  partners-verified p reference no_success db {b} {after} event named confirmed h =
      let w : db ≡ after = ground (arith, h) in inl (ap (λ (x : Db). x.partners) (sym w))
  partners-verified p reference (success d) db event named confirmed h =
      partners-verified_for p reference d d.org_id db event named confirmed refl h

  partners-upsert_webhook :
      (d : Document) (db : Db) → (upsert_webhook_subscription d db).partners ≡ db.partners
  unfolding upsert_webhook_subscription update_plan
  partners-upsert_webhook d db = by_org d.org_id
    where
      by_org : (o : OrgId) → (upsert_for d o db).partners ≡ db.partners
      by_org absent = refl
      by_org malformed = refl
      by_org (org oid) = elim (Option-cases (get_org oid db)) [
        | inl f ↦ rw (f, upsert_for) refl
        | inr (x, f) ↦ rw (f, upsert_for) (partners-upsert x.id (event_values d) db)
      ]

  partners-disable :
      (d : Document) (db : Db) → (disable_webhook_subscription d db).partners ≡ db.partners
  unfolding disable_webhook_subscription update_plan update_subscription
  partners-disable d db = elim (Option-cases (customer_org d db)) [
    | inl f ↦ rw (f, disable_webhook_subscription) refl
    | inr (x, f) ↦ rw (f, disable_webhook_subscription) refl
  ]

  churned-Affects :
      (p : Payload) (db : Db)
      → is_cancellation p.event ≡ true
      → Affects p db
          (handle_partner_churn p.document (disable_webhook_subscription p.document db)).partners
  unfolding handle_partner_churn
  churned-Affects p db event =
      elim (Option-cases (customer_org p.document (disable_webhook_subscription p.document db))) [
        | inl f ↦ inl (rw (f, handle_partner_churn) (partners-disable p.document db))
        | inr (x, f) ↦
            rw (f, handle_partner_churn)
              (rw (partners-disable p.document db) (inr (churns x event f)))
      ]

  reversed-Affects :
      (p : Payload) (reason : String) (db : Db) (o : Option String)
      → reversal_reason p.event ≡ some reason
      → p.reversed_reference ≡ o
      → Affects p db (reverse_partner_commissions o reason db).partners
  unfolding reverse_partner_commissions
  reversed-Affects p reason db none event named = inl refl
  reversed-Affects p reason db (some r) event named = inr (reverses r reason event named)

  committed :
      (p : Payload) {db done after : Db}
      → ok done ≡ ok after
      → Affects p db done.partners
      → Affects p db after.partners
  committed p {db} {done} {after} h r =
      let w : done ≡ after = ground (arith, h) in subst (λ (x : Db). Affects p db x.partners) w r

  pub process_event-Affects :
      (p : Payload) (t : EventType) (db : Db) {after : Db}
      → p.event ≡ t
      → process_event s new_id now answer p t db ≡ ok after
      → Affects p db after.partners
  unfolding process_event
  process_event-Affects p charge_success db {after} event h = elim (Option-cases p.reference) [
    | inl f ↦ committed p (rw (f, process_event) at h) (inl refl)
    | inr (r, f) ↦ elim (Result-cases (verified s new_id now r (answer r) db)) [
      | inl (e, v) ↦ absurd (ground (arith, rw (f, process_event, v) at h))
      | inr ((b, done), v) ↦
          committed p (rw (f, process_event, v) at h)
            (partners-verified p r (answer r) db event f refl v)
    ]
  ]
  process_event-Affects p subscription_create db event h =
      committed p h (inl (partners-upsert_webhook p.document db))
  process_event-Affects p subscription_disable db event h =
      committed p h (churned-Affects p db (ap is_cancellation event))
  process_event-Affects p subscription_not_renew db event h =
      committed p h (churned-Affects p db (ap is_cancellation event))
  process_event-Affects p refund_processed db event h =
      committed p h
        (reversed-Affects p "refund" db p.reversed_reference (ap reversal_reason event) refl)
  process_event-Affects p charge_refunded db event h =
      committed p h
        (reversed-Affects p "refund" db p.reversed_reference (ap reversal_reason event) refl)
  process_event-Affects p dispute_create db event h =
      committed p h
        (reversed-Affects p "chargeback" db p.reversed_reference (ap reversal_reason event) refl)
  process_event-Affects p dispute_remind db event h =
      committed p h
        (reversed-Affects p "chargeback" db p.reversed_reference (ap reversal_reason event) refl)
  process_event-Affects p (other t) db event h = committed p h (inl refl)

  -- The handler of a charge that Paystack confirms for a known organization pays it.
  pub charge_success-pays :
      (p : Payload) (reference : String) (d : Document) (oid : ℕ) (o : Organization) (db : Db)
      → p.event ≡ charge_success
      → p.reference ≡ some reference
      → answer reference ≡ success d
      → d.org_id ≡ org oid
      → get_org oid db ≡ some o
      → leb d.amount 0 ≡ false
      → (after : Db) × (process_event s new_id now answer p p.event db ≡ ok after)
        × (after.partners ≡ record_payment s new_id now (payment_of o.id d reference) db.partners)
  unfolding process_event verified verified_for provision record_partner_commission update_plan
  charge_success-pays p reference d oid o db event named confirmed of_org known positive =
      let asks : verified_for s new_id now reference d d.org_id db
          ≡ ok (true, provision s new_id now o.id d reference db) =
        rw of_org (rw known refl) in
      let checks : verified s new_id now reference (answer reference) db
          ≡ ok (true, provision s new_id now o.id d reference db) =
        ap (λ v. verified s new_id now reference v db) confirmed ∙ asks in
      (
        provision s new_id now o.id d reference db,
        ap (λ t. process_event s new_id now answer p t db) event
            ∙ rw (named, process_event, checks) refl,
        rw positive (rw (partners-upsert o.id (paid_values d reference) db) refl),
      )
