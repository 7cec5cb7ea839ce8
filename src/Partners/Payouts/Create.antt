-- ===== src/Partners/Payouts/Create.antt =====
-- `create_payout`: when it succeeds, what the payout is worth and what it reserves.
use reliastra_backend.Prelude.{
  ℕ, ◌+◌, ◌-◌, ◌≤◌, ◌<◌, ◌≡◌, refl, ap, ◌∙◌, arith, All, Option, none, some, or_else, sum_of,
  sum_of-select, sum_where, Option-cases, inl, inr,
}
use reliastra_backend.Prelude.Result.{ok, Result-cases}
use reliastra_backend.Prelude.Tables.{IsKeyed}
use reliastra_backend.Partners.Model.{PartnerPayout, Db, Settings}
use reliastra_backend.Partners.Repository.Profiles
use reliastra_backend.Partners.Repository.Payouts as Table
use reliastra_backend.Partners.Repository.Commissions as Ledger
use reliastra_backend.Partners.Repository.Shared.{log_event}
use reliastra_backend.Partners.Repository.Patches.{is_free_payable, is_reserved_by}
use reliastra_backend.Partners.Ledger.Bulk.{key, Extends}
use reliastra_backend.Partners.Ledger.Invariant.{IsLedger}
use reliastra_backend.Partners.Payouts.{
  amount, payable_balance, payout_amount, reserve, create_payout,
}
use reliastra_backend.Partners.Payouts.Reserve.{walk, reserve-walk}
use reliastra_backend.Partners.Payouts.Walk.{
  IsLedger-walk, Extends-walk, walk_conserves, walk_covers, walk_tight,
}

-- The commissions that stand reserved for a payout.
abbrev pub reserved_total : Db → ℕ → ℕ
reserved_total db oid = sum_where (is_reserved_by oid) amount db.commissions

pub payable_balance-sum_where :
    (db : Db) (pid : ℕ)
    → payable_balance db pid ≡ sum_where (is_free_payable pid) amount db.commissions
unfolding payable_balance Ledger.payable_by_partner
payable_balance-sum_where db pid = sum_of-select (is_free_payable pid) amount db.commissions

payout_amount-ok :
    (s : Settings) (am : Option ℕ) (available : ℕ) {n : ℕ}
    → payout_amount s am available ≡ ok n
    → (n ≡ or_else am available)
      × (0 < n)
      × (n ≤ available)
      × (am ≡ none → s.minimum_payout_minor ≤ available)
unfolding payout_amount
payout_amount-ok s none available h = ground arith
payout_amount-ok s (some a) available h = ground arith

-- What a successful call has done.
pub record Created (s : Settings) (pid oid : ℕ) (am : Option ℕ) (db : Db) (o : PartnerPayout)
    (after : Db) : Type 0 where
  pub identity : o.id ≡ oid
  pub requested : o.amount_minor ≡ or_else am (payable_balance db pid)
  pub positive : 0 < o.amount_minor
  pub within : o.amount_minor ≤ payable_balance db pid
  pub above_minimum : am ≡ none → s.minimum_payout_minor ≤ payable_balance db pid
  pub reserved : after.commissions ≡ walk pid oid o.amount_minor db.commissions

-- The row of the new payout, and the database in which the loop starts.
abbrev created : Settings → ℕ → ℕ → ℕ → Db → PartnerPayout × Db
created s oid pid n db = Table.create oid pid n s.default_currency db

create_payout_parts :
    (s : Settings) (oid pid : ℕ) (am : Option ℕ) (db : Db) {o : PartnerPayout} {after : Db}
    → create_payout s oid pid am db ≡ ok (o, after)
    → (n : ℕ) × (payout_amount s am (payable_balance db pid) ≡ ok n)
      × (o ≡ (created s oid pid n db).0)
      × (after.commissions
          ≡ (reserve oid n
              (Ledger.payable_by_partner db pid)
              (created s oid pid n db).1).commissions)
unfolding create_payout Table.create log_event payable_balance
create_payout_parts s oid pid am db h = elim (Option-cases (Profiles.get_by_id db pid)) [
  | inl e ↦ absurd (ground arith)
  | inr (partner, e) ↦
      elim (Result-cases (payout_amount s am (sum_of amount (Ledger.payable_by_partner db pid)))) [
        | inl (f, q) ↦ absurd (ground arith)
        | inr (n, q) ↦ (n, q, ground arith, ground arith)
      ]
]

pub create_payout-Created :
    (s : Settings) (oid pid : ℕ) (am : Option ℕ) (db : Db) {o : PartnerPayout} {after : Db}
    → IsKeyed key db.commissions
    → create_payout s oid pid am db ≡ ok (o, after)
    → Created s pid oid am db o after
unfolding Table.create Ledger.payable_by_partner
create_payout-Created s oid pid am db {o} {after} k h =
    let (n, q, eo, ea) = create_payout_parts s oid pid am db h in
    let (a, b, c, d) = payout_amount-ok s am (payable_balance db pid) q in
    let same : (created s oid pid n db).1.commissions ≡ db.commissions = refl in
    record {
      identity = ap (λ (x : PartnerPayout). x.id) eo;
      requested = ap (λ (x : PartnerPayout). x.amount_minor) eo ∙ a;
      positive = rw eo b;
      within = rw eo c;
      above_minimum = d;
      reserved =
          ea
          ∙ ap (λ (x : Db). x.commissions) (reserve-walk pid oid n (created s oid pid n db).1 k)
          ∙ rw eo refl;
    }

module _ (s : Settings) (oid pid : ℕ) (am : Option ℕ) (db : Db) {o : PartnerPayout} {after : Db}
    (keyed : IsKeyed key db.commissions)
    (done : create_payout s oid pid am db ≡ ok (o, after)) where
  made : Created s pid oid am db o after
  made = create_payout-Created s oid pid am db keyed done

  -- A payout keeps the ledger's invariant.
  pub create_payout-IsLedger : IsLedger db.commissions → IsLedger after.commissions
  create_payout-IsLedger ledger =
      rw made.reserved (IsLedger-walk pid oid o.amount_minor db.commissions ledger)

  conserved :
      payable_balance after pid + reserved_total after oid
      ≡ payable_balance db pid + reserved_total db oid
  conserved =
      rw (payable_balance-sum_where after pid, payable_balance-sum_where db pid, made.reserved)
        (walk_conserves pid oid o.amount_minor db.commissions)

  covered : o.amount_minor + reserved_total db oid ≤ reserved_total after oid
  covered = rw made.reserved (
      walk_covers pid oid o.amount_minor db.commissions
        (rw (← payable_balance-sum_where db pid) made.within))

  -- A payout that is created over commissions with distinct ids, under an id that holds nothing yet, is
  -- worth what was asked for, or the payable balance if nothing was, more than nothing and at most the
  -- payable balance; what it reserves covers its amount and leaves the payable balance.
  pub create_payout_reserves :
      reserved_total db oid ≡ 0
      → (o.amount_minor ≡ or_else am (payable_balance db pid))
        × (0 < o.amount_minor)
        × (o.amount_minor ≤ payable_balance db pid)
        × (o.amount_minor ≤ reserved_total after oid)
        × (payable_balance after pid + reserved_total after oid ≡ payable_balance db pid)
  create_payout_reserves fresh =
      (made.requested, made.positive, made.within, omega (arith, covered), omega (arith, conserved))

  -- No payout reserves a whole commission more than its amount: if no commission exceeds `m`, the
  -- reservation exceeds the payout's amount by at most `m - 1`.
  pub create_payout_overshoot :
      (m : ℕ)
      → reserved_total db oid ≡ 0
      → All (λ c. amount c ≤ m) db.commissions
      → reserved_total after oid ≤ o.amount_minor + (m - 1)
  create_payout_overshoot m fresh small =
      rw made.reserved
        (omega (arith, walk_tight pid oid m o.amount_minor db.commissions small, fresh))

-- Settling the whole balance: the payout is worth exactly what it reserves, nothing stays payable,
-- and the balance was not below the minimum.
pub full_payout_settles :
    (s : Settings) (oid pid : ℕ) (db : Db) {o : PartnerPayout} {after : Db}
    → IsLedger db.commissions
    → create_payout s oid pid none db ≡ ok (o, after)
    → reserved_total db oid ≡ 0
    → (reserved_total after oid ≡ o.amount_minor)
      × (o.amount_minor ≡ payable_balance db pid)
      × (payable_balance after pid ≡ 0)
      × (s.minimum_payout_minor ≤ o.amount_minor)
full_payout_settles s oid pid db {o} {after} ledger done fresh =
    let (a, b, c, d, e) = create_payout_reserves s oid pid none db ledger.keyed done fresh in
    let f = (create_payout-Created s oid pid none db ledger.keyed done).above_minimum refl in
    (omega arith, a, omega arith, omega arith)

pub create_payout-Extends :
    (s : Settings) (oid pid : ℕ) (am : Option ℕ) (db : Db) {o : PartnerPayout} {after : Db}
    → IsLedger db.commissions
    → create_payout s oid pid am db ≡ ok (o, after)
    → Extends db.commissions after.commissions
create_payout-Extends s oid pid am db {o} h e =
    rw (create_payout-Created s oid pid am db h.keyed e).reserved
      (Extends-walk pid oid o.amount_minor db.commissions)
