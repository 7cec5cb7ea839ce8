-- ===== src/Checks/Quorum.antt =====
-- Counting regions: the sets of region names in `execute_check`, as lists without duplicates.
use reliastra_backend.Prelude.{
  ℕ, ◌≤◌, ◌≡◌, refl, ap, ◌∙◌, Bool, true, false, not, ◌&&◌, List, [], ◌∷◌, length, any, ◌==◌, leb,
  arith, if◌then◌else◌, Bool-cases, inl, inr,
}
use reliastra_backend.Prelude.Tables.{IsKeyed}

-- `regions.add(region)`
abbrev pub add_region : ℕ → List ℕ → List ℕ
add_region r rs = if any (λ x. x == r) rs then rs else r ∷ rs

module _ {A : Type 0} (region_of : A → ℕ) where
  -- `{r.region for r in rows if p(r)}`
  abbrev pub regions : (A → Bool) → List A → List ℕ
  regions p [] = []
  regions p (x ∷ xs) = if p x then add_region (region_of x) (regions p xs) else regions p xs

  -- `regions.add(region); len(regions) >= QUORUM_MIN_REGIONS`
  unfoldable pub has_quorum : (A → Bool) → ℕ → List A → Bool
  has_quorum p region rows = leb 2 (length (add_region region (regions p rows)))

abbrev IsDistinct : List ℕ → Type 0
IsDistinct rs = IsKeyed (λ r. r) rs

add_region-IsDistinct : (r : ℕ) (rs : List ℕ) → IsDistinct rs → IsDistinct (add_region r rs)
add_region-IsDistinct r rs h = elim (Bool-cases (any (λ x. x == r) rs)) [
  | inl e ↦ rw e h
  | inr e ↦ rw e (e, h)
]

-- Regions that are all one region are one at most.
all_one : (r : ℕ) (rs : List ℕ) → any (λ x. not (x == r)) rs ≡ false → IsDistinct rs → length rs ≤ 1
all_one r [] h d = omega arith
all_one r (x ∷ []) h d = omega arith
all_one r (x ∷ y ∷ rs) h d = absurd (ground (arith, h, d.0))

other_and_member :
    (r : ℕ) (rs : List ℕ)
    → any (λ x. not (x == r)) rs ≡ true
    → any (λ x. x == r) rs ≡ true
    → 2 ≤ length rs
other_and_member r [] h k = absurd (ground (arith, h))
other_and_member r (x ∷ []) h k = absurd (ground (arith, h, k))
other_and_member r (x ∷ y ∷ rs) h k = omega arith

-- A region makes two with a set exactly if the set has another one.
two_regions :
    (r : ℕ) (rs : List ℕ)
    → IsDistinct rs
    → leb 2 (length (add_region r rs)) ≡ any (λ x. not (x == r)) rs
two_regions r rs d = elim (Bool-cases (any (λ x. not (x == r)) rs)) [
  | inl o ↦ elim (Bool-cases (any (λ x. x == r) rs)) [
    | inl m ↦ rw (o, m) (ground (arith, other_and_member r rs o m))
    | inr m ↦ two_with_new r rs o m
  ]
  | inr o ↦ elim (Bool-cases (any (λ x. x == r) rs)) [
    | inl m ↦ rw (o, m) (ground (arith, all_one r rs o d))
    | inr m ↦ one_with_new r rs o m
  ]
]
  where
    two_with_new :
        (r : ℕ) (rs : List ℕ)
        → any (λ x. not (x == r)) rs ≡ true
        → any (λ x. x == r) rs ≡ false
        → leb 2 (length (add_region r rs)) ≡ any (λ x. not (x == r)) rs
    two_with_new r [] h k = absurd (ground (arith, h))
    two_with_new r (x ∷ xs) h k = rw (k, h) (ground arith)

    one_with_new :
        (r : ℕ) (rs : List ℕ)
        → any (λ x. not (x == r)) rs ≡ false
        → any (λ x. x == r) rs ≡ false
        → leb 2 (length (add_region r rs)) ≡ any (λ x. not (x == r)) rs
    one_with_new r [] h k = refl
    one_with_new r (x ∷ xs) h k = absurd (ground (arith, h, k))

any-add_region :
    (q : ℕ → Bool) (r : ℕ) (rs : List ℕ)
    → any q (add_region r rs) ≡ (if q r then true else any q rs)
any-add_region q r rs = elim (Bool-cases (any (λ x. x == r) rs)) [
  | inl e ↦ rw e (ground (arith, member q r rs e))
  | inr e ↦ rw e refl
]
  where
    member :
        (q : ℕ → Bool) (r : ℕ) (rs : List ℕ)
        → any (λ x. x == r) rs ≡ true
        → q r ≡ true
        → any q rs ≡ true
    member q r [] h k = absurd (ground (arith, h))
    member q r (x ∷ xs) h k = elim (Bool-cases (x == r)) [
      | inl e ↦ ground (arith, k, e)
      | inr e ↦ ground (arith, member q r xs (rw e at h) k)
    ]

module _ {A : Type 0} (region_of : A → ℕ) where
  regions-IsDistinct : (p : A → Bool) (rows : List A) → IsDistinct (regions region_of p rows)
  regions-IsDistinct p [] = tt
  regions-IsDistinct p (x ∷ xs) = elim (Bool-cases (p x)) [
    | inl e ↦ rw e (add_region-IsDistinct (region_of x) _ (regions-IsDistinct p xs))
    | inr e ↦ rw e (regions-IsDistinct p xs)
  ]

  any-regions :
      (q : ℕ → Bool) (p : A → Bool) (rows : List A)
      → any q (regions region_of p rows) ≡ any (λ x. p x && q (region_of x)) rows
  any-regions q p [] = refl
  any-regions q p (x ∷ xs) = elim (Bool-cases (p x)) [
    | inl e ↦ rw e (
        any-add_region q (region_of x) (regions region_of p xs)
        ∙ ap (λ b. if q (region_of x) then true else b) (any-regions q p xs))
    | inr e ↦ rw e (any-regions q p xs)
  ]

  -- A quorum of two regions with the given one is there exactly if a row that counts is of another
  -- region, however many rows count.
  pub has_quorum_iff :
      (p : A → Bool) (region : ℕ) (rows : List A)
      → has_quorum region_of p region rows ≡ any (λ x. p x && not (region_of x == region)) rows
  unfolding has_quorum
  has_quorum_iff p region rows =
      two_regions region (regions region_of p rows) (regions-IsDistinct p rows)
      ∙ any-regions (λ r. not (r == region)) p rows
