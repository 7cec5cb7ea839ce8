-- ===== src/Prelude/Tables.antt =====
-- Tables with a primary key, and what the row by row loops of the services do to them.
use Prim.Native.Nat.{ℕ}
use mathlib.Core.Path.{◌≡◌, refl, ap, ◌∙◌}
use mathlib.Core.Logic.{inl, inr}
use mathlib.Core.Bool.{Bool, true, false}
use mathlib.Core.List.{List, [], ◌∷◌, ◌++◌}
use mathlib.Core.Option
use mathlib.Core.Option.{Option, none, some}
use native.Mathlib.Omega.{arith}
use reliastra_backend.Prelude.Tests.{if◌then◌else◌, Bool-cases, ◌==◌}
use reliastra_backend.Prelude.Lists.{All, select, find_first, any, update_where, count_where}

module _ {ℓ} {A : Type ℓ} where
  -- `for r in rows: update(r, f)`: each row is found again by its key.
  abbrev pub update_each : (A → ℕ) → (A → A) → List A → List A → List A
  update_each key f [] t = t
  update_each key f (r ∷ rs) t = update_each key f rs (update_where (λ x. key x == key r) f t)

  -- No two rows have one key.
  abbrev pub IsKeyed : (A → ℕ) → List A → Type 0
  IsKeyed key [] = Unit
  IsKeyed key (x ∷ xs) = (any (λ y. key y == key x) xs ≡ false) × IsKeyed key xs

  -- The key of `x` is not among the rows.
  abbrev pub IsFresh : (A → ℕ) → ℕ → List A → Type 0
  IsFresh key k rows = any (λ y. key y == k) rows ≡ false

  pub IsKeyed-append :
      (key : A → ℕ) (xs : List A) (y : A)
      → IsKeyed key xs
      → IsFresh key (key y) xs
      → IsKeyed key (xs ++ y ∷ [])
  IsKeyed-append key [] y h e = (refl, tt)
  IsKeyed-append key (x ∷ xs) y h e =
      (any-append xs (ground arith), IsKeyed-append key xs y h.1 (ground arith))
    where
      any-append :
          (ys : List A)
          → ((any (λ z. key z == key x) ys ≡ false) × ((key y == key x) ≡ false))
          → any (λ z. key z == key x) (ys ++ y ∷ []) ≡ false
      any-append [] k = ground arith
      any-append (z ∷ zs) k = ground (arith, any-append zs)

  pub any-select : (q p : A → Bool) (xs : List A) → any q xs ≡ false → any q (select p xs) ≡ false
  any-select q p [] h = refl
  any-select q p (x ∷ xs) h = ground (arith, any-select q p xs)

  pub update_where-none :
      (q : A → Bool) (f : A → A) (xs : List A) → any q xs ≡ false → update_where q f xs ≡ xs
  update_where-none q f [] h = refl
  update_where-none q f (x ∷ xs) h = ground (arith, update_where-none q f xs)

  pub any-update_where :
      (q p : A → Bool) (f : A → A) (xs : List A)
      → ((x : A) → q (f x) ≡ q x)
      → any q (update_where p f xs) ≡ any q xs
  any-update_where q p f [] h = refl
  any-update_where q p f (x ∷ xs) h = ground (arith, h x, any-update_where q p f xs h)

  pub IsKeyed-update_where :
      (key : A → ℕ) (p : A → Bool) (f : A → A) (xs : List A)
      → ((x : A) → key (f x) ≡ key x)
      → IsKeyed key xs
      → IsKeyed key (update_where p f xs)
  IsKeyed-update_where key p f [] h k = tt
  IsKeyed-update_where key p f (x ∷ xs) h k = elim (Bool-cases (p x)) [
    | inl e ↦
        rw (e, h x)
          (
            any-update_where (λ y. key y == key x) p f xs (λ y. ap (λ n. n == key x) (h y)) ∙ k.0,
            IsKeyed-update_where key p f xs h k.1,
          )
    | inr e ↦ rw e (
      any-update_where (λ y. key y == key x) p f xs (λ y. ap (λ n. n == key x) (h y)) ∙ k.0,
      IsKeyed-update_where key p f xs h k.1,
    )
  ]

  -- The loop skips the head of a table that none of the rows is.
  update_each-cons :
      (key : A → ℕ) (f : A → A) (rows : List A) (x : A) (t : List A)
      → any (λ y. key y == key x) rows ≡ false
      → update_each key f rows (x ∷ t) ≡ x ∷ update_each key f rows t
  update_each-cons key f [] x t h = refl
  update_each-cons key f (r ∷ rs) x t h = elim (Bool-cases (key x == key r)) [
    | inl e ↦ ground arith
    | inr e ↦
        rw e (update_each-cons key f rs x (update_where (λ y. key y == key r) f t) (ground arith))
  ]

  -- Over the rows that a query selects from a keyed table, the loop is one bulk update.
  pub update_each-select :
      (key : A → ℕ) (f : A → A) (p : A → Bool) (t : List A)
      → ((x : A) → key (f x) ≡ key x)
      → IsKeyed key t
      → update_each key f (select p t) t ≡ update_where p f t
  update_each-select key f p [] h k = refl
  update_each-select key f p (x ∷ t) h k = elim (Bool-cases (p x)) [
    | inl e ↦ rw e (step (key x == key x) (ground arith) (update_each-select key f p t h k.1))
    | inr e ↦ rw e (
        update_each-cons key f (select p t) x t (any-select _ p t k.0)
        ∙ ap (λ r. x ∷ r) (update_each-select key f p t h k.1))
  ]
    where
      step :
          (b : Bool)
          → b ≡ true
          → update_each key f (select p t) t ≡ update_where p f t
          → update_each key f
              (select p t)
              ((if b then f x else x) ∷ update_where (λ y. key y == key x) f t)
            ≡ f x ∷ update_where p f t
      step true b ih = rw (update_where-none _ f t k.0) (
          update_each-cons key f (select p t) (f x) t (rw (h x) (any-select _ p t k.0))
          ∙ ap (λ r. f x ∷ r) ih)
      step false b ih = absurd (ground arith)

  -- A search through a column that an update keeps finds the same row, updated.
  pub find_first-update_where :
      (q p : A → Bool) (f : A → A) (xs : List A)
      → ((x : A) → q (f x) ≡ q x)
      → find_first q (update_where p f xs)
        ≡ Option.map (λ x. if p x then f x else x) (find_first q xs)
  find_first-update_where q p f [] h = refl
  find_first-update_where q p f (x ∷ xs) h = ground (arith, h x, find_first-update_where q p f xs h)

  pub find_first-append :
      (q : A → Bool) (xs : List A) (y : A)
      → q y ≡ true
      → (z : A) × (find_first q (xs ++ y ∷ []) ≡ some z)
  find_first-append q [] y h = (y, ground arith)
  find_first-append q (x ∷ xs) y h = elim (Bool-cases (q x)) [
    | inl e ↦ (x, ground arith)
    | inr e ↦ let (z, w) = find_first-append q xs y h in (z, ground arith)
  ]

  pub count_where-update_where :
      (q p : A → Bool) (f : A → A) (xs : List A)
      → ((x : A) → q (f x) ≡ q x)
      → count_where q (update_where p f xs) ≡ count_where q xs
  count_where-update_where q p f [] h = refl
  count_where-update_where q p f (x ∷ xs) h =
      ground (arith, h x, count_where-update_where q p f xs h)

  pub All-append {κ} :
      (P : A → Type κ) (xs : List A) (y : A) → All P xs → P y → All P (xs ++ y ∷ [])
  All-append P [] y h p = (p, tt)
  All-append P (x ∷ xs) y h p = (h.0, All-append P xs y h.1 p)

  pub All-update_where {κ} :
      (P : A → Type κ) (q : A → Bool) (f : A → A) (xs : List A)
      → ((x : A) → q x ≡ true → P x → P (f x))
      → All P xs
      → All P (update_where q f xs)
  All-update_where P q f [] keep h = tt
  All-update_where P q f (x ∷ xs) keep h = elim (Bool-cases (q x)) [
    | inl e ↦ rw e (keep x e h.0, All-update_where P q f xs keep h.1)
    | inr e ↦ rw e (h.0, All-update_where P q f xs keep h.1)
  ]
