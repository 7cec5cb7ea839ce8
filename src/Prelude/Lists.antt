-- ===== src/Prelude/Lists.antt =====
-- Lists as database tables: selection by a test, the first match, updates of the matching rows,
-- and sums of a column.
use Prim.Native.Nat.{ℕ, zero, suc, ◌+◌}
use mathlib.Core.Path.{◌≡◌, refl, ap, ap₂}
use mathlib.Core.Bool.{Bool, true, false}
use mathlib.Core.Logic.{inl, inr}
use mathlib.Core.List.{List, [], ◌∷◌, ◌++◌, map}
use mathlib.Core.Option.{Option, none, some}
use native.Mathlib.Omega.{arith}
use reliastra_backend.Prelude.Tests.{if◌then◌else◌, Bool-cases}

module _ {ℓ} {A : Type ℓ} where
  abbrev pub length : List A → ℕ
  length [] = 0
  length (x ∷ xs) = suc (length xs)

  -- `rows[:n]`, SQL `LIMIT n`
  abbrev pub take : ℕ → List A → List A
  take zero xs = []
  take (suc n) [] = []
  take (suc n) (x ∷ xs) = x ∷ take n xs

  -- `SELECT … WHERE p`, a filtering comprehension
  abbrev pub select : (A → Bool) → List A → List A
  select p [] = []
  select p (x ∷ xs) = if p x then x ∷ select p xs else select p xs

  -- `scalar_one_or_none`, `next(…, None)`
  abbrev pub find_first : (A → Bool) → List A → Option A
  find_first p [] = none
  find_first p (x ∷ xs) = if p x then some x else find_first p xs

  abbrev pub any : (A → Bool) → List A → Bool
  any p [] = false
  any p (x ∷ xs) = if p x then true else any p xs

  -- `UPDATE … SET f WHERE p`
  abbrev pub update_where : (A → Bool) → (A → A) → List A → List A
  update_where p f [] = []
  update_where p f (x ∷ xs) = (if p x then f x else x) ∷ update_where p f xs

  abbrev pub count_where : (A → Bool) → List A → ℕ
  count_where p [] = 0
  count_where p (x ∷ xs) = (if p x then 1 else 0) + count_where p xs

  abbrev pub sum_where : (A → Bool) → (A → ℕ) → List A → ℕ
  sum_where p g [] = 0
  sum_where p g (x ∷ xs) = (if p x then g x else 0) + sum_where p g xs

  abbrev pub sum_of : (A → ℕ) → List A → ℕ
  sum_of g [] = 0
  sum_of g (x ∷ xs) = g x + sum_of g xs

  abbrev pub All {κ} : (A → Type κ) → List A → Type κ
  All P [] = Unit
  All P (x ∷ xs) = P x × All P xs

  pub length-append : (xs ys : List A) → length (xs ++ ys) ≡ length xs + length ys
  length-append [] ys = omega arith
  length-append (x ∷ xs) ys = omega (arith, length-append xs ys)

  pub count_where-append :
      (p : A → Bool) (xs ys : List A)
      → count_where p (xs ++ ys) ≡ count_where p xs + count_where p ys
  count_where-append p [] ys = omega arith
  count_where-append p (x ∷ xs) ys = omega (arith, count_where-append p xs ys)

  pub sum_where-append :
      (p : A → Bool) (g : A → ℕ) (xs ys : List A)
      → sum_where p g (xs ++ ys) ≡ sum_where p g xs + sum_where p g ys
  sum_where-append p g [] ys = omega arith
  sum_where-append p g (x ∷ xs) ys = omega (arith, sum_where-append p g xs ys)

  pub sum_of-select :
      (p : A → Bool) (g : A → ℕ) (xs : List A) → sum_of g (select p xs) ≡ sum_where p g xs
  sum_of-select p g [] = refl
  sum_of-select p g (x ∷ xs) = ground (arith, sum_of-select p g xs)

  pub length-select : (p : A → Bool) (xs : List A) → length (select p xs) ≡ count_where p xs
  length-select p [] = refl
  length-select p (x ∷ xs) = ground (arith, length-select p xs)

  pub length-update_where :
      (p : A → Bool) (f : A → A) (xs : List A) → length (update_where p f xs) ≡ length xs
  length-update_where p f [] = refl
  length-update_where p f (x ∷ xs) = ap suc (length-update_where p f xs)

  pub find_first-none : (p : A → Bool) (xs : List A) → find_first p xs ≡ none → count_where p xs ≡ 0
  find_first-none p [] h = refl
  find_first-none p (x ∷ xs) h = ground (arith, find_first-none p xs)

  pub find_first_sound :
      (p : A → Bool) (xs : List A) {x : A} → find_first p xs ≡ some x → p x ≡ true
  find_first_sound p [] h = ground arith
  find_first_sound p (y ∷ ys) {x} h = elim (Bool-cases (p y)) [
    | inl e ↦ ground arith
    | inr e ↦ find_first_sound p ys (rw e at h)
  ]

-- What an update does not touch, as a function of the row, stays as it was.
module _ {ℓ κ} {A : Type ℓ} {B : Type κ} where
  pub map-update_where :
      (g : A → B) (p : A → Bool) (f : A → A) (xs : List A)
      → ((x : A) → g (f x) ≡ g x)
      → map g (update_where p f xs) ≡ map g xs
  map-update_where g p f [] h = refl
  map-update_where g p f (x ∷ xs) h = elim (Bool-cases (p x)) [
    | inl e ↦ rw e (ap₂ ◌∷◌ (h x) (map-update_where g p f xs h))
    | inr e ↦ rw e (ap (λ r. g x ∷ r) (map-update_where g p f xs h))
  ]
