-- ===== src/Partners/Payouts/Walk.antt =====
-- What the reservation walk does to the ledger: its invariant, and the sums of the free and of the
-- reserved commissions.
use reliastra_backend.Prelude.{
  ℕ, ◌+◌, ◌-◌, ◌≤◌, ◌≡◌, refl, List, [], ◌∷◌, arith, ◌==◌, min, any, All, count_where, sum_where,
  String, map,
}
use reliastra_backend.Prelude.Tables.{IsKeyed}
use reliastra_backend.Partners.Model.{PartnerCommission}
use reliastra_backend.Partners.Repository.Patches.{
  patch_commission, is_free_payable, is_reserved_by, for_event,
}
use reliastra_backend.Partners.Ledger.Bulk.{key, economics, Extends, Extends-same}
use reliastra_backend.Partners.Ledger.Invariant.{IsLedger, IsSoundRow}
use reliastra_backend.Partners.Payouts.{amount}
use reliastra_backend.Partners.Payouts.Reserve.{walk, walk_done}

module _ (pid oid : ℕ) where
  any-walk :
      (k n : ℕ) (t : List PartnerCommission)
      → any (λ y. y.id == k) (walk pid oid n t) ≡ any (λ y. y.id == k) t
  unfolding walk patch_commission
  any-walk k n [] = refl
  any-walk k n (c ∷ cs) = ground (arith, any-walk k n cs, any-walk k (n - min (amount c) n) cs)

  IsKeyed-walk :
      (n : ℕ) (t : List PartnerCommission) → IsKeyed key t → IsKeyed key (walk pid oid n t)
  unfolding walk patch_commission
  IsKeyed-walk n [] h = tt
  IsKeyed-walk n (c ∷ cs) h = ground (
    arith,
    any-walk c.id n cs,
    any-walk c.id (n - min (amount c) n) cs,
    IsKeyed-walk n cs,
    IsKeyed-walk (n - min (amount c) n) cs,
  )

  count_where-walk :
      (ref : String) (p n : ℕ) (t : List PartnerCommission)
      → count_where (for_event ref p) (walk pid oid n t) ≡ count_where (for_event ref p) t
  unfolding walk patch_commission
  count_where-walk ref p n [] = refl
  count_where-walk ref p n (c ∷ cs) =
      ground (arith, count_where-walk ref p n cs, count_where-walk ref p (n - min (amount c) n) cs)

  IsSoundRow-walk :
      (n : ℕ) (t : List PartnerCommission) → All IsSoundRow t → All IsSoundRow (walk pid oid n t)
  unfolding walk patch_commission
  IsSoundRow-walk n [] h = tt
  IsSoundRow-walk n (c ∷ cs) h =
      ground (arith, IsSoundRow-walk n cs h.1, IsSoundRow-walk (n - min (amount c) n) cs h.1)

  pub IsLedger-walk :
      (n : ℕ) (t : List PartnerCommission) → IsLedger t → IsLedger (walk pid oid n t)
  IsLedger-walk n t h = record {
    keyed = IsKeyed-walk n t h.keyed;
    unique = λ ref p. rw (count_where-walk ref p n t) (h.unique ref p);
    sound = IsSoundRow-walk n t h.sound;
  }

  -- What leaves the free commissions of the partner is reserved for the payout.
  pub walk_conserves :
      (n : ℕ) (t : List PartnerCommission)
      → sum_where (is_free_payable pid) amount (walk pid oid n t)
          + sum_where (is_reserved_by oid) amount (walk pid oid n t)
        ≡ sum_where (is_free_payable pid) amount t + sum_where (is_reserved_by oid) amount t
  unfolding walk patch_commission
  walk_conserves n [] = refl
  walk_conserves n (c ∷ cs) =
      ground (arith, walk_conserves n cs, walk_conserves (n - min (amount c) n) cs)

  -- If the free commissions suffice, `n` is covered.
  pub walk_covers :
      (n : ℕ) (t : List PartnerCommission)
      → n ≤ sum_where (is_free_payable pid) amount t
      → n + sum_where (is_reserved_by oid) amount t
        ≤ sum_where (is_reserved_by oid) amount (walk pid oid n t)
  unfolding walk patch_commission
  walk_covers n [] h = omega arith
  walk_covers n (c ∷ cs) h = ground (arith, walk_covers n cs, walk_covers (n - min (amount c) n) cs)

  -- The overshoot is less than one commission.
  pub walk_tight :
      (m n : ℕ) (t : List PartnerCommission)
      → All (λ c. amount c ≤ m) t
      → sum_where (is_reserved_by oid) amount (walk pid oid n t)
        ≤ n + sum_where (is_reserved_by oid) amount t + (m - 1)
  unfolding walk patch_commission
  walk_tight m n [] h = omega arith
  walk_tight m n (c ∷ cs) h = ground (
    arith,
    walk_tight m n cs h.1,
    walk_tight m (n - min (amount c) n) cs h.1,
    walk_done pid oid (n - min (amount c) n) cs,
  )

  economics-walk :
      (n : ℕ) (t : List PartnerCommission) → map economics (walk pid oid n t) ≡ map economics t
  unfolding walk patch_commission
  economics-walk n [] = refl
  economics-walk n (c ∷ cs) =
      ground (arith, economics-walk n cs, economics-walk (n - min (amount c) n) cs)

  pub Extends-walk : (n : ℕ) (t : List PartnerCommission) → Extends t (walk pid oid n t)
  Extends-walk n t = Extends-same t (walk pid oid n t) (economics-walk n t)
