-- ===== src/Pagination/Keyset.antt =====
-- Following the cursors of a listing that continues after the row of the cursor.
use reliastra_backend.Prelude.{
  ℕ, zero, suc, ◌-◌, ◌*◌, ◌≤◌, ◌<◌, ◌≡◌, refl, sym, ap, ◌∙◌, Bool, true, false, Option, none, some,
  List, [], ◌∷◌, ◌++◌, ◌==◌, length, take, select, find_first, All, ltb, lt→ltb, arith, Bool-cases,
  inl, inr, if◌then◌else◌,
}
use mathlib.Core.Path.{subst}
use reliastra_backend.Prelude.Order.{IsSorted, IsRowOf}
use reliastra_backend.Pagination.{Page, last_item, cursor_of, slice_page}

abbrev drop {ℓ} : {A : Type ℓ} → ℕ → List A → List A
drop zero xs = xs
drop (suc n) [] = []
drop (suc n) (x ∷ xs) = drop n xs

module _ {ℓ} {A : Type ℓ} where
  take-drop : (n : ℕ) (xs : List A) → take n xs ++ drop n xs ≡ xs
  take-drop zero xs = refl
  take-drop (suc n) [] = refl
  take-drop (suc n) (x ∷ xs) = ap (λ r. x ∷ r) (take-drop n xs)

  take-take : (n : ℕ) (xs : List A) → take n (take (suc n) xs) ≡ take n xs
  take-take zero xs = refl
  take-take (suc n) [] = refl
  take-take (suc n) (x ∷ xs) = ap (λ r. x ∷ r) (take-take n xs)

  more : (n : ℕ) (xs : List A) → ltb n (length (take (suc n) xs)) ≡ ltb n (length xs)
  more zero [] = refl
  more zero (x ∷ xs) = ground arith
  more (suc n) [] = refl
  more (suc n) (x ∷ xs) = ground (arith, more n xs)

  take_all : (n : ℕ) (xs : List A) → ltb n (length xs) ≡ false → take n xs ≡ xs
  take_all zero [] h = refl
  take_all zero (x ∷ xs) h = absurd (ground (arith, h))
  take_all (suc n) [] h = refl
  take_all (suc n) (x ∷ xs) h = ap (λ r. x ∷ r) (take_all n xs (ground (arith, h)))

  length-drop : (n : ℕ) (xs : List A) → length (drop n xs) ≡ length xs - n
  length-drop zero xs = omega arith
  length-drop (suc n) [] = omega arith
  length-drop (suc n) (x ∷ xs) = omega (arith, length-drop n xs)

  append_assoc : (xs ys zs : List A) → (xs ++ ys) ++ zs ≡ xs ++ (ys ++ zs)
  append_assoc [] ys zs = refl
  append_assoc (x ∷ xs) ys zs = ap (λ r. x ∷ r) (append_assoc xs ys zs)

  append_nil : (xs : List A) → xs ++ [] ≡ xs
  append_nil [] = refl
  append_nil (x ∷ xs) = ap (λ r. x ∷ r) (append_nil xs)

  -- A list that is not empty is its front and its last item.
  record Split (xs : List A) : Type ℓ where
    front : List A
    last : A
    is_last : last_item xs ≡ some last
    parts : xs ≡ front ++ last ∷ []

  split : (x : A) (xs : List A) → Split (x ∷ xs)
  split x [] = record { front = []; last = x; is_last = refl; parts = refl }
  split x (y ∷ ys) =
      let s = split y ys in
      record {
        front = x ∷ s.front;
        last = s.last;
        is_last = s.is_last;
        parts = ap (λ r. x ∷ r) s.parts;
      }

  Split-take : (n : ℕ) (xs : List A) → n < length xs → Split (take (suc n) xs)
  Split-take n [] h = absurd (omega (arith, h))
  Split-take n (x ∷ xs) h = split x (take n xs)

module _ {ℓ} {A : Type ℓ} (id : A → ℕ) where
  -- A page that is not the last has a cursor.
  pub full_page :
      (n : ℕ) (rows : List A)
      → suc n < length rows
      → ((slice_page id (take (suc (suc n)) rows) (suc n)).items ≡ take (suc n) rows)
        × ((c : ℕ) × ((slice_page id (take (suc (suc n)) rows) (suc n)).next_cursor ≡ some c))
  full_page n rows h =
      let sp = Split-take n rows (omega (arith, h)) in
      (
        take-take (suc n) rows,
        (
          id sp.last,
          ap
                (λ b.
                  if b
                  then cursor_of id (last_item (take (suc n) (take (suc (suc n)) rows)))
                  else none)
                (more (suc n) rows ∙ lt→ltb (suc n) (length rows) h)
              ∙ ap (λ xs. cursor_of id (last_item xs)) (take-take (suc n) rows)
              ∙ ap (cursor_of id) sp.is_last,
        ),
      )

module _ {ℓ} {A : Type ℓ} where
  abbrev pub go_on : (ℕ → List A) → Option ℕ → List A
  go_on next none = []
  go_on next (some cursor) = next cursor

  -- The items that a client gets that follows the cursors, with at most so many requests.
  abbrev pub follow_cursors : (Option ℕ → Page A) → ℕ → Option ℕ → List A
  follow_cursors page zero cursor = []
  follow_cursors page (suc n) cursor =
      (page cursor).items ++ go_on (λ c. follow_cursors page n (some c)) (page cursor).next_cursor

module _ {ℓ} {A : Type ℓ} (is_before : A → A → Bool) (id : A → ℕ) where
  -- `WHERE row > cursor`, if there is a cursor and its row is found.
  abbrev pub after_cursor : Option A → List A → List A
  after_cursor none rows = rows
  after_cursor (some c) rows = select (is_before c) rows

  abbrev pub get : List A → Option ℕ → Option A
  get table none = none
  get table (some n) = find_first (λ x. id x == n) table

  -- A request for a page of `rows`, which are in order; the row of the cursor is looked up in `table`.
  abbrev pub request : List A → List A → ℕ → Option ℕ → Page A
  request table rows limit cursor =
      slice_page id (take (suc limit) (after_cursor (get table cursor) rows)) limit

  All-middle : (P : A → Type ℓ) (xs : List A) (y : A) (ys : List A) → All P (xs ++ y ∷ ys) → P y
  All-middle P [] y ys h = h.0
  All-middle P (x ∷ xs) y ys h = All-middle P xs y ys h.1

  All-before :
      (xs : List A) (y : A) (ys : List A) (x : A)
      → All (λ z. is_before x z ≡ true) (xs ++ y ∷ ys)
      → is_before x y ≡ true
  All-before [] y ys x h = h.0
  All-before (z ∷ xs) y ys x h = All-before xs y ys x h.1

  select_all :
      (c : A) (xs : List A) → All (λ y. is_before c y ≡ true) xs → select (is_before c) xs ≡ xs
  select_all c [] h = refl
  select_all c (x ∷ xs) h = rw h.0 (ap (λ r. x ∷ r) (select_all c xs h.1))

  module _ (irreflexive : (a : A) → is_before a a ≡ false)
      (asymmetric : (a b : A) → is_before a b ≡ true → is_before b a ≡ false) where
    select-after :
        (front : List A) (c : A) (rest : List A)
        → IsSorted is_before (front ++ c ∷ rest)
        → select (is_before c) (front ++ c ∷ rest) ≡ rest
    select-after [] c rest s = rw (irreflexive c) (select_all c rest s.0)
    select-after (x ∷ front) c rest s =
        rw (asymmetric x c (All-before front c rest x s.0)) (select-after front c rest s.1)

    module _ (table rows : List A) (limit : ℕ) (sorted : IsSorted is_before rows)
        (known : All (IsRowOf id table) rows) where
      -- The last item of a full page is the cursor of the rows that follow it.
      next_rows :
          (front : List A) (last : A) (rest : List A)
          → rows ≡ front ++ last ∷ rest
          → after_cursor (get table (some (id last))) rows ≡ rest
      next_rows front last rest e =
          let k : IsRowOf id table last =
            All-middle (IsRowOf id table) front last rest
              (subst (All (IsRowOf id table)) e known) in
          ap (λ o. after_cursor o rows) k
          ∙ ap (λ r. select (is_before last) r) e
          ∙ select-after front last rest (subst (IsSorted is_before) e sorted)

      page_items :
          (rest : List A) → (slice_page id (take (suc limit) rest) limit).items ≡ take limit rest
      page_items rest = take-take limit rest

      abbrev next_of : Bool → List A → Option ℕ
      next_of b items = if b then cursor_of id (last_item items) else none

      page_next :
          (rest : List A)
          → (slice_page id (take (suc limit) rest) limit).next_cursor
            ≡ next_of (ltb limit (length rest)) (take limit rest)
      page_next rest =
          ap
            (λ b. if b then cursor_of id (last_item (take limit (take (suc limit) rest))) else none)
            (more limit rest)
          ∙ ap (λ xs. if ltb limit (length rest) then cursor_of id (last_item xs) else none)
              (take-take limit rest)

      positive :
          (n : ℕ) → ltb limit n ≡ true → (m : ℕ) → n ≤ suc m * limit → (l : ℕ) × (limit ≡ suc l)
      positive n h m b = nonzero limit h b
        where
          nonzero : (k : ℕ) → ltb k n ≡ true → n ≤ suc m * k → (l : ℕ) × (k ≡ suc l)
          nonzero zero h b = absurd (ground (arith, h, b))
          nonzero (suc l) h b = (l, refl)

      following :
          (n : ℕ) (front rest : List A) (cursor : Option ℕ)
          → rows ≡ front ++ rest
          → after_cursor (get table cursor) rows ≡ rest
          → length rest ≤ n * limit
          → follow_cursors (request table rows limit) n cursor ≡ rest
      following zero front [] cursor e a b = refl
      following zero front (x ∷ rest) cursor e a b = absurd (omega (arith, b))
      following (suc n) front rest cursor e a b =
          ap
            (λ r.
              (slice_page id (take (suc limit) r) limit).items
              ++ go_on (λ c. follow_cursors (request table rows limit) n (some c))
                  (slice_page id (take (suc limit) r) limit).next_cursor)
            a
          ∙ ap
              (λ xs.
                xs
                ++ go_on (λ c. follow_cursors (request table rows limit) n (some c))
                    (slice_page id (take (suc limit) rest) limit).next_cursor)
              (page_items rest)
          ∙ ap
              (λ o.
                take limit rest
                ++ go_on (λ c. follow_cursors (request table rows limit) n (some c)) o)
              (page_next rest)
          ∙ elim (Bool-cases (ltb limit (length rest))) [
            | inr few ↦
                ap
                  (λ b.
                    take limit rest
                    ++ go_on (λ c. follow_cursors (request table rows limit) n (some c))
                        (next_of b (take limit rest)))
                  few
                ∙ append_nil (take limit rest)
                ∙ take_all limit rest few
            | inl many ↦
                let (l, suc_l) = positive (length rest) many n b in
                let sp =
                  subst (λ k. Split (take k rest)) (sym suc_l)
                    (Split-take l rest (ground (arith, many, suc_l))) in
                let cut = sym (take-drop limit rest) in
                let at_last =
                  e
                  ∙ ap (λ r. front ++ r)
                      (cut
                        ∙ ap (λ t. t ++ drop limit rest) sp.parts
                        ∙ append_assoc sp.front (sp.last ∷ []) (drop limit rest))
                  ∙ sym (append_assoc front sp.front (sp.last ∷ drop limit rest)) in
                let ih =
                  following n (front ++ take limit rest) (drop limit rest) (some (id sp.last))
                    (e
                      ∙ ap (λ r. front ++ r) cut
                      ∙ sym (append_assoc front (take limit rest) (drop limit rest)))
                    (next_rows (front ++ sp.front) sp.last (drop limit rest) at_last)
                    (omega (arith, length-drop limit rest, b)) in
                ap
                  (λ t.
                    take limit rest
                    ++ go_on (λ c. follow_cursors (request table rows limit) n (some c))
                        (next_of t (take limit rest)))
                  many
                ∙ ap
                    (λ o.
                      take limit rest
                      ++ go_on (λ c. follow_cursors (request table rows limit) n (some c))
                          (cursor_of id o))
                    sp.is_last
                ∙ ap (λ r. take limit rest ++ r) ih
                ∙ take-drop limit rest
          ]

      -- Following the cursors from the first page, as many requests as it takes to cover the rows with
      -- pages of `limit` items give every row once and in order.
      pub follow_cursors-rows :
          (n : ℕ)
          → length rows ≤ n * limit
          → follow_cursors (request table rows limit) n none ≡ rows
      follow_cursors-rows n enough = following n [] rows none refl refl enough
