-- ===== src/Billing/Provision.antt =====
-- A payment that is verified twice, as by the customer's return and by the webhook.
use reliastra_backend.Prelude.{
  ℕ, ◌≡◌, refl, sym, ap, ◌∙◌, Bool, true, Option, none, some, String, List, [], ◌∷◌, ◌++◌, ◌==◌,
  leb, is_some, or_else, or_some, take, find_first, update_where, if◌then◌else◌, arith, Bool-cases,
  Option-cases, inl, inr,
}
use reliastra_backend.Prelude.Text.{Text, codes, text_or, upper}
use reliastra_backend.Partners.Model as Partners
use reliastra_backend.Partners.Model.{Settings}
use reliastra_backend.Partners.Commissions.{record_payment}
use reliastra_backend.Partners.Commissions.Idempotent.{record_payment_twice}
use reliastra_backend.Billing.Model.{
  Db, Organization, Subscription, Document, Values, normalized_plan, is_of, patch_subscription,
  update_subscription, create_subscription, update_plan, get_subscription,
}
use reliastra_backend.Billing.Service.{upsert, paid_values, record_partner_commission, provision}

module _ {A : Type 0} (q : A → Bool) (f : A → A) (keeps : (x : A) → q (f x) ≡ q x)
    (twice : (x : A) → f (f x) ≡ f x) where
  update_where_twice : (xs : List A) → update_where q f (update_where q f xs) ≡ update_where q f xs
  update_where_twice [] = refl
  update_where_twice (x ∷ xs) = elim (Bool-cases (q x)) [
    | inl e ↦ rw (e, keeps x, e, twice x) (ap (λ r. f x ∷ r) (update_where_twice xs))
    | inr e ↦ rw (e, e) (ap (λ r. x ∷ r) (update_where_twice xs))
  ]

  -- A row that the update leaves as it is may stand behind rows that it does not select.
  update_where_last :
      (xs : List A) (y : A)
      → find_first q xs ≡ none
      → f y ≡ y
      → update_where q f (xs ++ y ∷ []) ≡ xs ++ y ∷ []
  update_where_last [] y h e = elim (Bool-cases (q y)) [
    | inl k ↦ rw (k, e) refl
    | inr k ↦ rw k refl
  ]
  update_where_last (x ∷ xs) y h e = elim (Bool-cases (q x)) [
    | inl k ↦ absurd (ground (arith, rw k at h))
    | inr k ↦ rw k (ap (λ r. x ∷ r) (update_where_last xs y (rw k at h) e))
  ]

  find_first_there :
      (xs : List A) (y : A) → q y ≡ true → is_some (find_first q (xs ++ y ∷ [])) ≡ true
  find_first_there [] y h = rw h refl
  find_first_there (x ∷ xs) y h = elim (Bool-cases (q x)) [
    | inl k ↦ rw k refl
    | inr k ↦ rw k (find_first_there xs y h)
  ]

  find_first_still :
      (xs : List A)
      → is_some (find_first q xs) ≡ true
      → is_some (find_first q (update_where q f xs)) ≡ true
  find_first_still [] h = h
  find_first_still (x ∷ xs) h = elim (Bool-cases (q x)) [
    | inl k ↦ rw (k, keeps x, k) refl
    | inr k ↦ rw (k, k) (find_first_still xs (rw k at h))
  ]

or_some_same : {A : Type 0} (o : Option A) → or_some o o ≡ o
or_some_same none = refl
or_some_same (some a) = refl

or_some_twice : {A : Type 0} (o d : Option A) → or_some o (or_some o d) ≡ or_some o d
or_some_twice none d = refl
or_some_twice (some a) d = refl

-- The three tables after a payment, each from itself.
abbrev renamed : ℕ → Text → List Organization → List Organization
renamed oid plan os =
    update_where (λ (o : Organization). o.id == oid) (λ o. record o { plan = plan }) os

abbrev new_row : ℕ → Values → Subscription
new_row oid v = record {
  organization_id = oid;
  provider_customer_id = v.provider_customer_id;
  provider_subscription_id = v.provider_subscription_id;
  plan = or_else v.plan (codes "free");
  status = or_else v.status "inactive";
  current_period_start = v.current_period_start;
  current_period_end = v.current_period_end;
}

abbrev upserted : ℕ → Values → List Subscription → List Subscription
upserted oid v ss =
    if is_some (find_first (is_of oid) ss)
    then update_where (is_of oid) (patch_subscription v) ss
    else ss ++ new_row oid v ∷ []

abbrev paid : Settings → ℕ → ℕ → ℕ → Document → String → Partners.Db → Partners.Db
paid s new_id now oid d reference p =
    if leb d.amount 0
    then p
    else record_payment s new_id now
        (record {
          organization_id = oid;
          collected_minor = d.amount;
          currency = take 3 (upper (text_or d.currency (codes "USD")));
          payment_reference = reference;
          paid_at = d.paid_at;
        })
        p

abbrev tables : List Organization → List Subscription → Partners.Db → Db
tables o ss p = record { organizations = o; subscriptions = ss; partners = p }

tables_same :
    {o o' : List Organization} {ss ss' : List Subscription} {p p' : Partners.Db}
    → o ≡ o'
    → ss ≡ ss'
    → p ≡ p'
    → tables o ss p ≡ tables o' ss' p'
tables_same {o = o} {o' = o'} {ss = ss} {ss' = ss'} {p = p} {p' = p'} e f g =
    ap (λ x. tables x ss p) e ∙ ap (λ x. tables o' x p) f ∙ ap (λ x. tables o' ss' x) g

upsert-tables :
    (oid : ℕ) (v : Values) (db : Db)
    → upsert oid v db ≡ record db { subscriptions = upserted oid v db.subscriptions }
unfolding upsert update_subscription create_subscription
upsert-tables oid v db = elim (Bool-cases (is_some (get_subscription oid db))) [
  | inl e ↦ rw (e, upsert) refl
  | inr e ↦ rw (e, upsert) refl
]

provision-tables :
    (s : Settings) (new_id now oid : ℕ) (d : Document) (reference : String) (db : Db)
    → provision s new_id now oid d reference db
      ≡ tables
          (renamed oid (normalized_plan d) db.organizations)
          (upserted oid (paid_values d reference) db.subscriptions)
          (paid s new_id now oid d reference db.partners)
unfolding provision record_partner_commission update_plan
provision-tables s new_id now oid d reference db = elim (Bool-cases (leb d.amount 0)) [
  | inl e ↦ rw (upsert-tables oid (paid_values d reference) db) (rw e refl)
  | inr e ↦ rw (upsert-tables oid (paid_values d reference) db) (rw e refl)
]

renamed_twice :
    (oid : ℕ) (plan : Text) (os : List Organization)
    → renamed oid plan (renamed oid plan os) ≡ renamed oid plan os
renamed_twice oid plan os =
    update_where_twice (λ (o : Organization). o.id == oid) (λ o. record o { plan = plan })
      (λ x. refl) (λ x. refl) os

paid_twice :
    (s : Settings) (new_id now later_id later oid : ℕ) (d : Document) (reference : String)
    (p : Partners.Db)
    → paid s later_id later oid d reference (paid s new_id now oid d reference p)
      ≡ paid s new_id now oid d reference p
paid_twice s new_id now later_id later oid d reference p = elim (Bool-cases (leb d.amount 0)) [
  | inl e ↦ rw e refl
  | inr e ↦ rw e (record_payment_twice s new_id later_id now later _ p)
]

patch_twice :
    (d : Document) (reference : String) (x : Subscription)
    → patch_subscription (paid_values d reference) (patch_subscription (paid_values d reference) x)
      ≡ patch_subscription (paid_values d reference) x
patch_twice d reference x = ground (
  arith,
  or_some_twice d.customer_code x.provider_customer_id,
  or_some_twice (or_some d.subscription_code (some reference)) x.provider_subscription_id,
  or_some_twice d.paid_at x.current_period_start,
  or_some_twice d.next_payment_date x.current_period_end,
)

patch-new_row :
    (oid : ℕ) (d : Document) (reference : String)
    → patch_subscription (paid_values d reference) (new_row oid (paid_values d reference))
      ≡ new_row oid (paid_values d reference)
patch-new_row oid d reference = ground (
  arith,
  or_some_same d.customer_code,
  or_some_same (or_some d.subscription_code (some reference)),
  or_some_same d.paid_at,
  or_some_same d.next_payment_date,
)

upserted_found :
    (oid : ℕ) (v : Values) (ss : List Subscription)
    → is_some (find_first (is_of oid) ss) ≡ true
    → upserted oid v ss ≡ update_where (is_of oid) (patch_subscription v) ss
upserted_found oid v ss h = rw h refl

upserted_new :
    (oid : ℕ) (v : Values) (ss : List Subscription)
    → find_first (is_of oid) ss ≡ none
    → upserted oid v ss ≡ ss ++ new_row oid v ∷ []
upserted_new oid v ss h = rw h refl

upserted_twice :
    (oid : ℕ) (d : Document) (reference : String) (ss : List Subscription)
    → upserted oid (paid_values d reference) (upserted oid (paid_values d reference) ss)
      ≡ upserted oid (paid_values d reference) ss
upserted_twice oid d reference ss =
    let v = paid_values d reference in
    let f = patch_subscription v in
    let same = patch_twice d reference in
    elim (Option-cases (find_first (is_of oid) ss)) [
      | inr (x, e) ↦
          let there : is_some (find_first (is_of oid) ss) ≡ true = ap is_some e in
          let once = upserted_found oid v ss there in
          ap (upserted oid v) once
          ∙ upserted_found oid v (update_where (is_of oid) f ss)
              (find_first_still (is_of oid) f (λ y. refl) same ss there)
          ∙ update_where_twice (is_of oid) f (λ y. refl) same ss
          ∙ sym once
      | inl e ↦
          let once = upserted_new oid v ss e in
          ap (upserted oid v) once
          ∙ upserted_found oid v (ss ++ new_row oid v ∷ [])
              (find_first_there (is_of oid) f (λ y. refl) same ss (new_row oid v) (ground arith))
          ∙ update_where_last (is_of oid) f (λ y. refl) same ss (new_row oid v) e
              (patch-new_row oid d reference)
          ∙ sym once
    ]

-- Provisioning a verified payment a second time, as after the customer's return and the webhook, at
-- any later time, changes nothing: neither the plan, nor the subscription, nor the referral program.
pub provision_twice :
    (s : Settings) (new_id now later_id later oid : ℕ) (d : Document) (reference : String) (db : Db)
    → provision s later_id later oid d reference (provision s new_id now oid d reference db)
      ≡ provision s new_id now oid d reference db
provision_twice s new_id now later_id later oid d reference db =
    let once = provision-tables s new_id now oid d reference db in
    ap (provision s later_id later oid d reference) once
    ∙ provision-tables s later_id later oid d reference _
    ∙ tables_same (renamed_twice oid (normalized_plan d) db.organizations)
        (upserted_twice oid d reference db.subscriptions)
        (paid_twice s new_id now later_id later oid d reference db.partners)
    ∙ sym once
