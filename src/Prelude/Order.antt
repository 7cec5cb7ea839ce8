-- ===== src/Prelude/Order.antt =====
-- ORDER BY: a table in an order of its rows.
use Prim.Native.Nat.{ℕ, zero, suc}
use mathlib.Core.Path.{◌≡◌, refl, ap, ◌∙◌}
use mathlib.Core.Logic.{◌⊎◌, inl, inr}
use mathlib.Core.Bool.{Bool, true, false}
use mathlib.Core.List.{List, [], ◌∷◌}
use mathlib.Core.Option.{some}
use native.Mathlib.Omega.{arith}
use reliastra_backend.Prelude.Tests.{if◌then◌else◌, Bool-cases, ◌==◌}
use reliastra_backend.Prelude.Lists.{All, length, take, select, find_first, any}
use reliastra_backend.Prelude.Tables.{IsKeyed, any-select}

module _ {ℓ κ} {A : Type ℓ} (P : A → Type κ) where
  pub select-All : (p : A → Bool) (xs : List A) → All P xs → All P (select p xs)
  select-All p [] h = tt
  select-All p (x ∷ xs) h = elim (Bool-cases (p x)) [
    | inl b ↦ rw b (h.0, select-All p xs h.1)
    | inr b ↦ rw b (select-All p xs h.1)
  ]

  pub take-All : (n : ℕ) (xs : List A) → All P xs → All P (take n xs)
  take-All zero xs h = tt
  take-All (suc n) [] h = tt
  take-All (suc n) (x ∷ xs) h = (h.0, take-All n xs h.1)

  pub All-map {μ} : {Q : A → Type μ} (xs : List A) → ((x : A) → P x → Q x) → All P xs → All Q xs
  All-map [] f h = tt
  All-map (x ∷ xs) f h = (f x h.0, All-map xs f h.1)

module _ {ℓ} {A : Type ℓ} (is_before : A → A → Bool) where
  abbrev pub insert : A → List A → List A
  insert e [] = e ∷ []
  insert e (x ∷ xs) = let rest = insert e xs in if is_before e x then e ∷ x ∷ xs else x ∷ rest

  abbrev pub order_by : List A → List A
  order_by [] = []
  order_by (x ∷ xs) = insert x (order_by xs)

  any-insert : (q : A → Bool) (e : A) (xs : List A) → any q (insert e xs) ≡ any q (e ∷ xs)
  any-insert q e [] = refl
  any-insert q e (x ∷ xs) = ground (arith, any-insert q e xs)

  pub any-order_by : (q : A → Bool) (xs : List A) → any q (order_by xs) ≡ any q xs
  any-order_by q [] = refl
  any-order_by q (x ∷ xs) = ground (arith, any-insert q x (order_by xs), any-order_by q xs)

  length-insert : (e : A) (xs : List A) → length (insert e xs) ≡ suc (length xs)
  length-insert e [] = refl
  length-insert e (x ∷ xs) = ground (arith, length-insert e xs)

  pub length-order_by : (xs : List A) → length (order_by xs) ≡ length xs
  length-order_by [] = refl
  length-order_by (x ∷ xs) = length-insert x (order_by xs) ∙ ap suc (length-order_by xs)

  module _ {κ} (P : A → Type κ) where
    pub insert-All : (e : A) (xs : List A) → P e → All P xs → All P (insert e xs)
    insert-All e [] p h = (p, tt)
    insert-All e (x ∷ xs) p h = elim (Bool-cases (is_before e x)) [
      | inl b ↦ rw b (p, h)
      | inr b ↦ rw b (h.0, insert-All e xs p h.1)
    ]

    pub order_by-All : (xs : List A) → All P xs → All P (order_by xs)
    order_by-All [] h = tt
    order_by-All (x ∷ xs) h = insert-All x (order_by xs) h.0 (order_by-All xs h.1)

  module _ (key : A → ℕ) where
    insert-IsKeyed :
        (e : A) (xs : List A)
        → any (λ y. key y == key e) xs ≡ false
        → IsKeyed key xs
        → IsKeyed key (insert e xs)
    insert-IsKeyed e [] f k = (refl, tt)
    insert-IsKeyed e (x ∷ xs) f k = elim (Bool-cases (is_before e x)) [
      | inl b ↦ rw b (f, k)
      | inr b ↦ rw b (
        any-insert (λ y. key y == key x) e xs ∙ ground (arith, f, k.0),
        insert-IsKeyed e xs (ground (arith, f)) k.1,
      )
    ]

    pub order_by-IsKeyed : (xs : List A) → IsKeyed key xs → IsKeyed key (order_by xs)
    order_by-IsKeyed [] k = tt
    order_by-IsKeyed (x ∷ xs) k =
        insert-IsKeyed x (order_by xs) (any-order_by _ xs ∙ k.0) (order_by-IsKeyed xs k.1)

  -- Each row comes before all that follow it.
  abbrev pub IsSorted : List A → Type 0
  IsSorted [] = Unit
  IsSorted (x ∷ xs) = All (λ y. is_before x y ≡ true) xs × IsSorted xs

  module _ (key : A → ℕ)
      (transitive : (a b c : A)
        → is_before a b ≡ true
        → is_before b c ≡ true
        → is_before a c ≡ true)
      (total : (a b : A)
        → (key b == key a) ≡ false
        → (is_before a b ≡ true) ⊎ (is_before b a ≡ true)) where
    insert-IsSorted :
        (e : A) (xs : List A)
        → any (λ y. key y == key e) xs ≡ false
        → IsSorted xs
        → IsSorted (insert e xs)
    insert-IsSorted e [] f s = (tt, tt)
    insert-IsSorted e (x ∷ xs) f s = elim (Bool-cases (is_before e x)) [
      | inl b ↦ rw b ((b, All-map _ xs (λ y p. transitive e x y b p) s.0), s)
      | inr b ↦ rw b (
        insert-All (λ y. is_before x y ≡ true) e xs (later b) s.0,
        insert-IsSorted e xs (ground (arith, f)) s.1,
      )
    ]
      where
        later : is_before e x ≡ false → is_before x e ≡ true
        later b = elim (total e x (ground (arith, f))) [
          | inl c ↦ absurd (ground (arith, b, c))
          | inr c ↦ c
        ]

    -- A table with distinct keys is sorted by ORDER BY.
    pub order_by-IsSorted : (xs : List A) → IsKeyed key xs → IsSorted (order_by xs)
    order_by-IsSorted [] k = tt
    order_by-IsSorted (x ∷ xs) k =
        insert-IsSorted x (order_by xs) (any-order_by _ xs ∙ k.0) (order_by-IsSorted xs k.1)

module _ {ℓ} {A : Type ℓ} (key : A → ℕ) where
  pub select-IsKeyed : (p : A → Bool) (xs : List A) → IsKeyed key xs → IsKeyed key (select p xs)
  select-IsKeyed p [] k = tt
  select-IsKeyed p (x ∷ xs) k = elim (Bool-cases (p x)) [
    | inl b ↦ rw b (any-select _ p xs k.0, select-IsKeyed p xs k.1)
    | inr b ↦ rw b (select-IsKeyed p xs k.1)
  ]

  any-take : (q : A → Bool) (n : ℕ) (xs : List A) → any q xs ≡ false → any q (take n xs) ≡ false
  any-take q zero xs h = refl
  any-take q (suc n) [] h = refl
  any-take q (suc n) (x ∷ xs) h = ground (arith, any-take q n xs)

  pub take-IsKeyed : (n : ℕ) (xs : List A) → IsKeyed key xs → IsKeyed key (take n xs)
  take-IsKeyed zero xs k = tt
  take-IsKeyed (suc n) [] k = tt
  take-IsKeyed (suc n) (x ∷ xs) k = (any-take _ n xs k.0, take-IsKeyed n xs k.1)

  -- The row is found under its key.
  abbrev pub IsRowOf : List A → A → Type ℓ
  IsRowOf rows e = find_first (λ x. key x == key e) rows ≡ some e

  found-after :
      (x : A) (xs rows : List A)
      → any (λ y. key y == key x) xs ≡ false
      → All (IsRowOf rows) xs
      → All (IsRowOf (x ∷ rows)) xs
  found-after x [] rows f h = tt
  found-after x (y ∷ ys) rows f h =
      (ground (arith, h.0, f), found-after x ys rows (ground (arith, f)) h.1)

  pub rows-IsRowOf : (rows : List A) → IsKeyed key rows → All (IsRowOf rows) rows
  rows-IsRowOf [] k = tt
  rows-IsRowOf (x ∷ xs) k = (ground arith, found-after x xs xs k.0 (rows-IsRowOf xs k.1))
