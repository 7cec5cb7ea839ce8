-- ===== src/Pagination.antt =====
-- app/core/pagination.py: a page of rows that were read with one row more than the page holds.
pub mod Keyset
use reliastra_backend.Prelude.{
  ℕ, Bool, ◌&&◌, not, Option, none, some, List, [], ◌∷◌, length, take, ltb, if◌then◌else◌,
}

-- `PaginatedResponse`
pub record Page {ℓ} (A : Type ℓ) : Type ℓ where
  pub items : List A
  pub next_cursor : Option ℕ
  pub has_more : Bool
  pub limit : ℕ

-- `items[-1]`
abbrev pub last_item {ℓ} : {A : Type ℓ} → List A → Option A
last_item [] = none
last_item (x ∷ []) = some x
last_item (x ∷ y ∷ ys) = last_item (y ∷ ys)

abbrev pub cursor_of {ℓ} : {A : Type ℓ} → (A → ℕ) → Option A → Option ℕ
cursor_of id none = none
cursor_of id (some x) = some (id x)

-- `slice_page`
abbrev pub slice_page {ℓ} : {A : Type ℓ} → (A → ℕ) → List A → ℕ → Page A
slice_page id rows limit = record {
  items = take limit rows;
  next_cursor =
      if ltb limit (length rows) then cursor_of id (last_item (take limit rows)) else none;
  has_more = ltb limit (length rows);
  limit = limit;
}
