-- ===== src/Prelude/Rows.antt =====
-- The one row of a keyed table that a query found, and updates of it.
use Prim.Native.Nat.{ℕ, ◌+◌}
use mathlib.Core.Path.{◌≡◌, refl, sym, ap, ◌∙◌}
use mathlib.Core.Logic.{inl, inr}
use mathlib.Core.Bool.{Bool, true, false}
use mathlib.Core.List.{List, [], ◌∷◌, ◌++◌}
use mathlib.Core.Option.{none, some}
use native.Mathlib.Omega.{arith}
use reliastra_backend.Prelude.Tests.{if◌then◌else◌, Bool-cases, ◌==◌, or_else}
use reliastra_backend.Prelude.Lists.{All, select, find_first, any, update_where, count_where}
use reliastra_backend.Prelude.Tables.{IsKeyed}

pub some_injective {ℓ} : {A : Type ℓ} {a b : A} → some a ≡ some b → a ≡ b
some_injective {A} {a} h = ap (λ o. or_else o a) h

module _ {ℓ} {A : Type ℓ} where
  pub select-append :
      (p : A → Bool) (xs ys : List A) → select p (xs ++ ys) ≡ select p xs ++ select p ys
  select-append p [] ys = refl
  select-append p (x ∷ xs) ys = elim (Bool-cases (p x)) [
    | inl e ↦ rw e (ap (λ r. x ∷ r) (select-append p xs ys))
    | inr e ↦ rw e (select-append p xs ys)
  ]

  -- A row that is found is a row with the property.
  pub found-any :
      (q r : A → Bool) (xs : List A) {d : A}
      → find_first q xs ≡ some d
      → r d ≡ true
      → any r xs ≡ true
  found-any q r [] h k = absurd (ground (arith, h))
  found-any q r (x ∷ xs) {d} h k = elim (Bool-cases (q x)) [
    | inl e ↦
        let s : x ≡ d = some_injective (rw e at h) in let t : r x ≡ true = ap r s ∙ k in rw t refl
    | inr e ↦ ground (arith, found-any q r xs (rw e at h) k)
  ]

  -- Only the found row has its key.
  pub only_row :
      (key : A → ℕ) (k : ℕ) (q : A → Bool) (rows : List A) {d : A}
      → IsKeyed key rows
      → find_first q rows ≡ some d
      → (key d == k) ≡ true
      → All (λ x. (key x == k) ≡ true → x ≡ d) rows
  only_row key k q [] u h w = tt
  only_row key k q (x ∷ xs) {d} u h w = elim (Bool-cases (q x)) [
    | inl e ↦
        let s : x ≡ d = some_injective (rw e at h) in
        (λ c. s, others xs (ground (arith, ap key s, u.0, w)))
    | inr e ↦
        let a : any (λ y. key y == k) xs ≡ true = found-any q (λ y. key y == k) xs (rw e at h) w in
        (λ c. absurd (clash c a), only_row key k q xs u.1 (rw e at h) w)
  ]
    where
      others :
          (ys : List A)
          → any (λ y. key y == k) ys ≡ false
          → All (λ y. (key y == k) ≡ true → y ≡ d) ys
      others [] n = tt
      others (y ∷ ys) n = (λ c. absurd (ground (arith, c, n)), others ys (ground (arith, n)))

      clash : (key x == k) ≡ true → any (λ y. key y == k) xs ≡ true → ⊥
      clash c a = ground (arith, same xs (ground (arith, c)), u.0, a)
        where
          same : (ys : List A) → key x ≡ k → any (λ y. key y == k) ys ≡ any (λ y. key y == key x) ys
          same [] s = refl
          same (y ∷ ys) s = ground (arith, s, same ys s)

  pub All-update_known {κ μ} :
      (P : A → Type κ) (Q : A → Type μ) (q : A → Bool) (f : A → A) (xs : List A)
      → ((x : A) → q x ≡ true → Q x → P x → P (f x))
      → All Q xs
      → All P xs
      → All P (update_where q f xs)
  All-update_known P Q q f [] keep c h = tt
  All-update_known P Q q f (x ∷ xs) keep c h = elim (Bool-cases (q x)) [
    | inl e ↦ rw e (keep x e c.0 h.0, All-update_known P Q q f xs keep c.1 h.1)
    | inr e ↦ rw e (h.0, All-update_known P Q q f xs keep c.1 h.1)
  ]

  pub select-update_known {κ} :
      (r : A → Bool) (Q : A → Type κ) (q : A → Bool) (f : A → A) (xs : List A)
      → ((x : A) → q x ≡ true → Q x → (r (f x) ≡ false) × (r x ≡ false))
      → All Q xs
      → select r (update_where q f xs) ≡ select r xs
  select-update_known r Q q f [] out c = refl
  select-update_known r Q q f (x ∷ xs) out c = elim (Bool-cases (q x)) [
    | inl e ↦ let (a, b) = out x e c.0 in rw (e, a, b) (select-update_known r Q q f xs out c.1)
    | inr e ↦
        rw e (ap (λ rest. if r x then x ∷ rest else rest) (select-update_known r Q q f xs out c.1))
  ]

  -- An update that takes rows away from a query.
  pub find_first-update_none :
      (q p : A → Bool) (f : A → A) (xs : List A)
      → ((x : A) → p x ≡ true → q (f x) ≡ false)
      → ((x : A) → p x ≡ false → q x ≡ false)
      → find_first q (update_where p f xs) ≡ none
  find_first-update_none q p f [] a b = refl
  find_first-update_none q p f (x ∷ xs) a b = elim (Bool-cases (p x)) [
    | inl e ↦ rw (e, a x e) (find_first-update_none q p f xs a b)
    | inr e ↦ rw (e, b x e) (find_first-update_none q p f xs a b)
  ]

  -- In a keyed table it takes away the one row that was found.
  pub count_where-update_one :
      (key : A → ℕ) (q p : A → Bool) (f : A → A) (rows : List A) {d : A}
      → IsKeyed key rows
      → find_first q rows ≡ some d
      → p d ≡ true
      → p (f d) ≡ false
      → count_where p (update_where (λ x. key x == key d) f rows) + 1 ≡ count_where p rows
  count_where-update_one key q p f rows {d} u h before after =
      go rows u (found-any q _ rows h (ground arith))
        (only_row key (key d) q rows u h (ground arith))
    where
      go_none :
          (xs : List A)
          → any (λ x. key x == key d) xs ≡ false
          → count_where p (update_where (λ x. key x == key d) f xs) ≡ count_where p xs
      go_none [] n = refl
      go_none (x ∷ xs) n = ground (arith, n, go_none xs)

      go :
          (xs : List A)
          → IsKeyed key xs
          → any (λ x. key x == key d) xs ≡ true
          → All (λ x. (key x == key d) ≡ true → x ≡ d) xs
          → count_where p (update_where (λ x. key x == key d) f xs) + 1 ≡ count_where p xs
      go [] u n o = absurd (ground (arith, n))
      go (x ∷ xs) u n o = elim (Bool-cases (key x == key d)) [
        | inl e ↦
            let s = o.0 e in
            let a : p x ≡ true = ap p s ∙ before in
            let b : p (f x) ≡ false = ap (λ y. p (f y)) s ∙ after in
            let c : any (λ y. key y == key d) xs ≡ false =
              ap (λ y. any (λ z. key z == key y) xs) (sym s) ∙ u.0 in
            rw (e, a, b) (omega (arith, go_none xs c))
        | inr e ↦ rw e (omega (arith, go xs u.1 (rw e at n) o.1))
      ]
