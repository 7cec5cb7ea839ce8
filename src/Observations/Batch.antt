-- ===== src/Observations/Batch.antt =====
-- The batch that a drain works on: rows of the outbox, each once.
use reliastra_backend.Prelude.{
  ℕ, ◌+◌, ◌≡◌, refl, ap, Bool, false, List, [], ◌∷◌, ◌==◌, any, All, count_where, arith,
  if◌then◌else◌, Bool-cases, inl, inr,
}
use reliastra_backend.Prelude.Tables.{IsKeyed}
use reliastra_backend.Prelude.Rows.{some_injective}
use reliastra_backend.Prelude.Order.{
  select-All, take-All, order_by-All, order_by-IsKeyed, select-IsKeyed, take-IsKeyed, IsRowOf,
  rows-IsRowOf,
}
use reliastra_backend.Observations.Outbox.{OutboxEvent, is_before, list_pending, delete}

abbrev pub key : OutboxEvent → ℕ
key e = e.id

-- The events are rows of the table, and none comes twice.
pub record AreRows (rows batch : List OutboxEvent) : Type 0 where
  pub keyed : IsKeyed key rows
  pub once : IsKeyed key batch
  pub rows_of : All (IsRowOf key rows) batch

module _ (P : OutboxEvent → Type 0) where
  -- What holds of every row of the outbox holds of every event of a batch.
  pub list_pending-All :
      (locked : OutboxEvent → Bool) (limit : ℕ) (xs : List OutboxEvent)
      → All P xs
      → All P (list_pending locked limit xs)
  list_pending-All locked limit xs h =
      take-All P limit _ (order_by-All is_before P _ (select-All P _ xs h))

pub list_pending-AreRows :
    (locked : OutboxEvent → Bool) (limit : ℕ) (rows : List OutboxEvent)
    → IsKeyed key rows
    → AreRows rows (list_pending locked limit rows)
list_pending-AreRows locked limit rows k = record {
  keyed = k;
  once = take-IsKeyed key limit _ (order_by-IsKeyed is_before key _ (select-IsKeyed key _ rows k));
  rows_of = list_pending-All (IsRowOf key rows) locked limit rows (rows-IsRowOf key rows k);
}

-- Deleting a row takes it out of every count, and leaves the other rows.
count_where-delete_none :
    (p : OutboxEvent → Bool) (e : OutboxEvent) (rows : List OutboxEvent)
    → any (λ y. y.id == e.id) rows ≡ false
    → count_where p (delete e rows) ≡ count_where p rows
count_where-delete_none p e [] h = refl
count_where-delete_none p e (x ∷ xs) h = ground (arith, h, count_where-delete_none p e xs)

pub count_where-delete :
    (p : OutboxEvent → Bool) (e : OutboxEvent) (rows : List OutboxEvent)
    → IsKeyed key rows
    → IsRowOf key rows e
    → count_where p rows ≡ count_where p (delete e rows) + (if p e then 1 else 0)
count_where-delete p e [] k h = absurd (ground (arith, h))
count_where-delete p e (x ∷ xs) k h = elim (Bool-cases (x.id == e.id)) [
  | inl b ↦
      let same : x ≡ e = some_injective (rw b at h) in
      rw (b, ap p same)
        (ground (arith, k.0, b, count_where-delete_none p e xs (ground (arith, k.0, b))))
  | inr b ↦ rw b (omega (arith, count_where-delete p e xs k.1 (rw b at h)))
]

find_first-delete :
    (e f : OutboxEvent) (rows : List OutboxEvent)
    → (f.id == e.id) ≡ false
    → IsRowOf key rows f
    → IsRowOf key (delete e rows) f
find_first-delete e f [] n h = h
find_first-delete e f (x ∷ xs) n h = elim (Bool-cases (x.id == e.id)) [
  | inl b ↦ rw b (find_first-delete e f xs n (ground (arith, h, n, b)))
  | inr b ↦ elim (Bool-cases (x.id == f.id)) [
    | inl c ↦ rw (b, c) (rw c at h)
    | inr c ↦ rw (b, c) (find_first-delete e f xs n (rw c at h))
  ]
]

others-rows :
    (e : OutboxEvent) (es rows : List OutboxEvent)
    → any (λ y. key y == key e) es ≡ false
    → All (IsRowOf key rows) es
    → All (IsRowOf key (delete e rows)) es
others-rows e [] rows n h = tt
others-rows e (f ∷ fs) rows n h = (
  find_first-delete e f rows (ground (arith, n)) h.0,
  others-rows e fs rows (ground (arith, n)) h.1,
)

-- The rest of a batch is still there when its first event stays or is deleted.
pub kept-AreRows :
    (rows : List OutboxEvent) (e : OutboxEvent) (es : List OutboxEvent)
    → AreRows rows (e ∷ es)
    → AreRows rows es
kept-AreRows rows e es a = record { keyed = a.keyed; once = a.once.1; rows_of = a.rows_of.1 }

pub delete-AreRows :
    (rows : List OutboxEvent) (e : OutboxEvent) (es : List OutboxEvent)
    → AreRows rows (e ∷ es)
    → AreRows (delete e rows) es
delete-AreRows rows e es a = record {
  keyed = select-IsKeyed key _ rows a.keyed;
  once = a.once.1;
  rows_of = others-rows e es rows a.once.0 a.rows_of.1;
}
