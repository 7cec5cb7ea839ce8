-- ===== src/ApiKeys/Authentication.antt =====
-- Which key authenticates as which row.
use reliastra_backend.Prelude.{
  ℕ, ◌≤◌, ◌≡◌, refl, sym, ap, ◌∙◌, Bool, true, false, ◌&&◌, Option, some, List, [], ◌∷◌, ◌++◌, leb,
  length, take, find_first, select, All, zero, suc, arith, Bool-cases, Option-cases, inl, inr,
  if◌then◌else◌,
}
use mathlib.Core.Path.{subst}
use reliastra_backend.Prelude.Text.{Text, text_eq, text_eq_refl}
use reliastra_backend.Prelude.Rows.{some_injective, select-append}
use reliastra_backend.Prelude.Result.{ok, err, unauthorized, conflict, require_inv, ok_injective}
use reliastra_backend.ApiKeys.{
  ApiKey, Hashing, CreateRequest, prefix_of, newest_first, has_prefix, list_by_prefix, has_expired,
  new_key, create_key, admit, authenticate_key,
}

-- The keys of a table, in any order.
pub data IsAmong (k : ApiKey) : List ApiKey → Type 0 where
  here : {xs : List ApiKey} → IsAmong k (k ∷ xs)
  there : {x : ApiKey} {xs : List ApiKey} → IsAmong k xs → IsAmong k (x ∷ xs)

newest_last :
    (xs acc : List ApiKey) (k : ApiKey) → newest_first (xs ++ k ∷ []) acc ≡ k ∷ newest_first xs acc
newest_last [] acc k = refl
newest_last (x ∷ xs) acc k = newest_last xs (x ∷ acc) k

newest_first-All :
    (P : ApiKey → Type 0) (xs acc : List ApiKey)
    → All P xs
    → All P acc
    → All P (newest_first xs acc)
newest_first-All P [] acc h a = a
newest_first-All P (x ∷ xs) acc h a = newest_first-All P xs (x ∷ acc) h.1 (h.0, a)

All-select :
    (P : ApiKey → Type 0) (q : ApiKey → Bool) (xs : List ApiKey)
    → All P xs
    → All (λ x. P x × (q x ≡ true)) (select q xs)
All-select P q [] h = tt
All-select P q (x ∷ xs) h = elim (Bool-cases (q x)) [
  | inl e ↦ rw e ((h.0, e), All-select P q xs h.1)
  | inr e ↦ rw e (All-select P q xs h.1)
]

found-All :
    (P : ApiKey → Type 0) (q : ApiKey → Bool) (xs : List ApiKey) {k : ApiKey}
    → find_first q xs ≡ some k
    → All P xs
    → P k × (q k ≡ true)
found-All P q [] h a = absurd (ground (arith, h))
found-All P q (x ∷ xs) h a = elim (Bool-cases (q x)) [
  | inl e ↦ let s = some_injective (rw e at h) in (subst P s a.0, ap q (sym s) ∙ e)
  | inr e ↦ found-All P q xs (rw e at h) a.1
]

weaken :
    (rows more : List ApiKey) (y : ApiKey)
    → All (λ x. IsAmong x rows) more
    → All (λ x. IsAmong x (y ∷ rows)) more
weaken rows [] y h = tt
weaken rows (x ∷ xs) y h = (there h.0, weaken rows xs y h.1)

all-IsAmong : (rows : List ApiKey) → All (λ x. IsAmong x rows) rows
all-IsAmong [] = tt
all-IsAmong (x ∷ xs) = (here, weaken xs xs x (all-IsAmong xs))

-- What a row that a key is admitted with has.
pub record IsAdmitted (hashing : Hashing) (now : ℕ) (raw_key : Text) (rows : List ApiKey)
    (k : ApiKey) : Type 0 where
  pub among : IsAmong k rows
  pub alive : k.is_deleted ≡ false
  pub verified : hashing.verify_api_key raw_key k.hashed_key ≡ true
  pub prefixed : text_eq k.prefix (prefix_of raw_key) ≡ true
  pub unexpired : has_expired now k.expires_at ≡ false

module _ (hashing : Hashing) where
  abbrev pub candidate : Text → List ApiKey → Option ApiKey
  candidate raw_key rows =
      find_first (λ (k : ApiKey). hashing.verify_api_key raw_key k.hashed_key)
        (list_by_prefix (prefix_of raw_key) rows)

  pub candidate-All :
      (P : ApiKey → Type 0) (raw_key : Text) (rows : List ApiKey) {k : ApiKey}
      → candidate raw_key rows ≡ some k
      → All P rows
      → P k
        × (has_prefix (prefix_of raw_key) k ≡ true)
        × (hashing.verify_api_key raw_key k.hashed_key ≡ true)
  candidate-All P raw_key rows h a =
      let ((p, x), v) =
        found-All (λ x. P x × (has_prefix (prefix_of raw_key) x ≡ true)) _ _ h
          (newest_first-All _ _ [] (All-select P (has_prefix (prefix_of raw_key)) rows a) tt) in
      (p, x, v)

  -- A key that authenticates is admitted as a row of the table that is not revoked, whose hash and
  -- prefix fit the key and whose expiry, if it has one, is not over.
  pub authenticate_key-IsAdmitted :
      (now : ℕ) (raw_key : Text) (rows : List ApiKey) (k : ApiKey)
      → authenticate_key hashing now raw_key rows ≡ ok k
      → IsAdmitted hashing now raw_key rows k
  unfolding authenticate_key
  authenticate_key-IsAdmitted now raw_key rows k h = elim (Option-cases (candidate raw_key rows)) [
    | inl e ↦ absurd (ground (arith, rw (e, authenticate_key) at h))
    | inr (c, e) ↦ elim (Bool-cases (has_expired now c.expires_at)) [
      | inl x ↦ absurd (ground (arith, rw (e, authenticate_key, x) at h))
      | inr x ↦
          let (among, prefixed, verified) =
            candidate-All (λ y. IsAmong y rows) raw_key rows e (all-IsAmong rows) in
          subst (IsAdmitted hashing now raw_key rows)
            (ok_injective (rw (e, authenticate_key, x) at h))
            (record {
              among = among;
              alive = ground (arith, prefixed);
              verified = verified;
              prefixed = ground (arith, prefixed);
              unexpired = x;
            })
    ]
  ]

  take-short : (n : ℕ) (key : Text) → length key ≤ n → take n key ≡ key
  take-short zero [] h = refl
  take-short zero (c ∷ cs) h = absurd (omega (arith, h))
  take-short (suc n) [] h = refl
  take-short (suc n) (c ∷ cs) h = ap (λ r. c ∷ r) (take-short n cs (omega (arith, h)))

  prefix-take : (key : Text) → prefix_of key ≡ take 8 key
  prefix-take key = elim (Bool-cases (leb 8 (length key))) [
    | inl e ↦ rw e refl
    | inr e ↦ rw e (sym (take-short 8 key (ground (arith, e))))
  ]

  -- The row that was just created is the first candidate.
  created-admit :
      (now new_id oid salt : ℕ) (full_key : Text) (request : CreateRequest) (rows : List ApiKey)
      → hashing.verify_api_key full_key (hashing.hash_api_key full_key salt) ≡ true
      → authenticate_key hashing now full_key
          (rows ++ new_key hashing new_id oid full_key salt request ∷ [])
        ≡ (if has_expired now request.expires_at
            then err unauthorized
            else ok (new_key hashing new_id oid full_key salt request))
  unfolding authenticate_key
  created-admit now new_id oid salt full_key request rows v =
      let k = new_key hashing new_id oid full_key salt request in
      let p : has_prefix (prefix_of full_key) k ≡ true =
        ap (λ t. text_eq (take 8 full_key) t && true) (prefix-take full_key)
        ∙ ap (λ b. b && true) (text_eq_refl (take 8 full_key)) in
      let last : list_by_prefix (prefix_of full_key) (rows ++ k ∷ [])
          ≡ k ∷ list_by_prefix (prefix_of full_key) rows =
        ap (λ r. newest_first r [])
          (select-append (has_prefix (prefix_of full_key)) rows (k ∷ [])
            ∙ ap (λ b. select (has_prefix (prefix_of full_key)) rows ++ (if b then k ∷ [] else []))
                p)
        ∙ newest_last (select (has_prefix (prefix_of full_key)) rows) [] k in
      ap
        (λ ks.
          admit hashing now
            (find_first (λ (x : ApiKey). hashing.verify_api_key full_key x.hashed_key) ks))
        last
      ∙ ap
          (λ b. admit hashing now (
            if b
            then some k
            else find_first (λ (x : ApiKey). hashing.verify_api_key full_key x.hashed_key)
                (list_by_prefix (prefix_of full_key) rows)))
          v

  -- If the new hash verifies its key, a key whose creation succeeded authenticates as its own row until
  -- it expires, the moment of expiry included, whatever other keys are in the table; afterwards
  -- it is refused.
  pub create_key-authenticate_key :
      (now new_id oid salt : ℕ) (full_key : Text) (request : CreateRequest)
      (rows after : List ApiKey)
      → hashing.verify_api_key full_key (hashing.hash_api_key full_key salt) ≡ true
      → create_key hashing new_id oid full_key salt request rows ≡ ok after
      → authenticate_key hashing now full_key after ≡ (
          if has_expired now request.expires_at
          then err unauthorized
          else ok (new_key hashing new_id oid full_key salt request))
  unfolding create_key
  create_key-authenticate_key now new_id oid salt full_key request rows after v h =
      let (free, made) = require_inv _ conflict _ h in
      ap (authenticate_key hashing now full_key) (sym (ok_injective made))
      ∙ created-admit now new_id oid salt full_key request rows v
