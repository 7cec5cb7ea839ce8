-- ===== src/Partners/Ledger/Invariant.antt =====
-- The invariant of the commission ledger, and the two ways in which operations keep it: an update
-- of some rows, and a new row.
use reliastra_backend.Prelude.{
  ℕ, ◌≤◌, ◌≡◌, refl, String, Option, Bool, true, ◌&&◌, List, [], ◌∷◌, ◌++◌, arith, is_none, is_some,
  leb, ltb, All, update_where, count_where, count_where-append, if◌then◌else◌, ◌+◌, eq_iff,
  Bool-cases, inl, inr,
}
use mathlib.Core.Path.{subst₂}
use reliastra_backend.Prelude.Tables.{
  IsKeyed, IsFresh, IsKeyed-append, IsKeyed-update_where, count_where-update_where, All-append,
  All-update_where,
}
use reliastra_backend.Partners.Model.{PartnerCommission, CommissionStatus}
use reliastra_backend.Partners.Repository.Patches.{CommissionPatch, patch_commission, for_event}
use reliastra_backend.Partners.Ledger.Bulk.{key, key-patch_commission}

-- A pending commission belongs to no payout, and a paid one to some payout.
abbrev pub sound_status : CommissionStatus → Option ℕ → Bool
sound_status CommissionStatus.pending o = is_none o
sound_status CommissionStatus.payable o = true
sound_status CommissionStatus.paid o = is_some o
sound_status CommissionStatus.reversed o = true

-- The commission is positive and at most the payment that it was earned on.
abbrev pub sound_amount : PartnerCommission → Bool
sound_amount c =
    ltb 0 c.commission_amount_minor && leb c.commission_amount_minor c.subscription_amount_minor

abbrev pub IsSoundRow : PartnerCommission → Type 0
IsSoundRow c = (sound_status c.status c.payout_id ≡ true) × (sound_amount c ≡ true)

pub record IsLedger (cs : List PartnerCommission) : Type 0 where
  -- identities are distinct (the primary key)
  pub keyed : IsKeyed key cs
  -- a partner has at most one commission on a billing event
  pub unique : (ref : String) (pid : ℕ) → count_where (for_event ref pid) cs ≤ 1
  pub sound : All IsSoundRow cs

for_event-patch :
    (ref : String) (pid : ℕ) (p : CommissionPatch) (c : PartnerCommission)
    → for_event ref pid (patch_commission p c) ≡ for_event ref pid c
unfolding patch_commission
for_event-patch ref pid p c = refl

pub update_where-IsLedger :
    (p : CommissionPatch) (q : PartnerCommission → Bool) (cs : List PartnerCommission)
    → ((c : PartnerCommission) → q c ≡ true → IsSoundRow c → IsSoundRow (patch_commission p c))
    → IsLedger cs
    → IsLedger (update_where q (patch_commission p) cs)
update_where-IsLedger p q cs keep h = record {
  keyed = IsKeyed-update_where key q (patch_commission p) cs (key-patch_commission p) h.keyed;
  unique = λ ref pid.
      rw
        (count_where-update_where (for_event ref pid) q (patch_commission p) cs
          (for_event-patch ref pid p))
        (h.unique ref pid);
  sound = All-update_where IsSoundRow q (patch_commission p) cs keep h.sound;
}

for_event-true :
    (ref : String) (pid : ℕ) (c : PartnerCommission)
    → for_event ref pid c ≡ true
    → (c.billing_event_id ≡ ref) × (c.partner_id ≡ pid)
for_event-true ref pid c h = ground (arith, eq_iff c.billing_event_id ref)

-- A key that has no row yet has one row with the new one.
unique-append :
    (c : PartnerCommission) (cs : List PartnerCommission) (ref : String) (pid : ℕ)
    → count_where (for_event c.billing_event_id c.partner_id) cs ≡ 0
    → count_where (for_event ref pid) cs ≤ 1
    → count_where (for_event ref pid) cs + ((if for_event ref pid c then 1 else 0) + 0) ≤ 1
unique-append c cs ref pid new h = elim (Bool-cases (for_event ref pid c)) [
  | inl e ↦
      let (er, ep) = for_event-true ref pid c e in
      rw e (subst₂ (λ r p. count_where (for_event r p) cs + (1 + 0) ≤ 1) er ep (omega arith))
  | inr e ↦ rw e (omega arith)
]

pub append-IsLedger :
    (c : PartnerCommission) (cs : List PartnerCommission)
    → IsFresh key c.id cs
    → count_where (for_event c.billing_event_id c.partner_id) cs ≡ 0
    → IsSoundRow c
    → IsLedger cs
    → IsLedger (cs ++ c ∷ [])
append-IsLedger c cs fresh new ok h = record {
  keyed = IsKeyed-append key cs c h.keyed fresh;
  unique = λ ref pid.
      rw (count_where-append (for_event ref pid) cs (c ∷ []))
        (unique-append c cs ref pid new (h.unique ref pid));
  sound = All-append IsSoundRow cs c h.sound ok;
}
