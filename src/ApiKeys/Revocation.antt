-- ===== src/ApiKeys/Revocation.antt =====
-- A revoked key stays revoked.
use reliastra_backend.Prelude.{
  ℕ, ◌≡◌, refl, sym, ap, ◌∙◌, true, false, not, ◌&&◌, ◌⊎◌, List, [], ◌∷◌, ◌==◌, All,
  find_first_sound, arith, Bool-cases, Option-cases, inl, inr,
}
use mathlib.Core.Path.{subst}
use reliastra_backend.Prelude.Text.{Text}
use reliastra_backend.Prelude.Tables.{All-append, All-update_where}
use reliastra_backend.Prelude.Result.{
  ok, err, unauthorized, conflict, bind_inv, require_inv, ok_injective,
}
use reliastra_backend.ApiKeys.{
  ApiKey, Hashing, CreateRequest, get_by_id, has_prefix, prefix_of, revoked, delete, new_key,
  create_key, owned, revoke_key, authenticate_key,
}
use reliastra_backend.ApiKeys.Authentication.{candidate, candidate-All}

module _ (hashing : Hashing) (raw_key : Text) where
  -- The row is revoked, or it is a row of another key.
  abbrev pub IsDead : ApiKey → Type 0
  IsDead k = (k.is_deleted ≡ true) ⊎ (hashing.verify_api_key raw_key k.hashed_key ≡ false)

  -- What happens to the table: other keys are created, whose hashes do not verify this key, and keys
  -- are revoked.
  pub data Step : List ApiKey → List ApiKey → Type 0 where
    creates :
        (new_id oid : ℕ) (full_key : Text) (salt : ℕ) (request : CreateRequest)
        {rows after : List ApiKey}
        → hashing.verify_api_key raw_key (hashing.hash_api_key full_key salt) ≡ false
        → create_key hashing new_id oid full_key salt request rows ≡ ok after
        → Step rows after
    revokes :
        (now oid kid : ℕ) {rows after : List ApiKey}
        → revoke_key hashing now oid kid rows ≡ ok after
        → Step rows after

  pub data Reach : List ApiKey → List ApiKey → Type 0 where
    done : {rows : List ApiKey} → Reach rows rows
    then_step : {rows mid after : List ApiKey} → Reach rows mid → Step mid after → Reach rows after

  delete-IsDead :
      (now : ℕ) (k : ApiKey) (rows : List ApiKey) → All IsDead rows → All IsDead (delete now k rows)
  delete-IsDead now k rows h =
      All-update_where IsDead (λ (x : ApiKey). x.id == k.id) (revoked now) rows (λ x e d. inl refl)
        h

  Step-IsDead : {rows after : List ApiKey} → Step rows after → All IsDead rows → All IsDead after
  unfolding create_key revoke_key
  Step-IsDead (creates new_id oid full_key salt request {rows} other made) h =
      let (free, e) = require_inv _ conflict _ made in
      subst (All IsDead) (ok_injective e)
        (All-append IsDead rows (new_key hashing new_id oid full_key salt request) h (inr other))
  Step-IsDead (revokes now oid kid {rows} {after} r) h =
      let (k, o, e) = bind_inv (owned hashing oid (get_by_id kid rows)) _ r in
      subst (All IsDead) (ok_injective e) (delete-IsDead now k rows h)

  Reach-IsDead : {rows after : List ApiKey} → Reach rows after → All IsDead rows → All IsDead after
  Reach-IsDead done h = h
  Reach-IsDead (then_step r s) h = Step-IsDead s (Reach-IsDead r h)

  dead_refused :
      (now : ℕ) (rows : List ApiKey)
      → All IsDead rows
      → authenticate_key hashing now raw_key rows ≡ err unauthorized
  unfolding authenticate_key
  dead_refused now rows h = elim (Option-cases (candidate hashing raw_key rows)) [
    | inl e ↦ rw (e, authenticate_key) refl
    | inr (k, e) ↦ absurd (clash k (candidate-All hashing IsDead raw_key rows e h))
  ]
    where
      clash :
          (k : ApiKey)
          → IsDead k
            × (has_prefix (prefix_of raw_key) k ≡ true)
            × (hashing.verify_api_key raw_key k.hashed_key ≡ true)
          → ⊥
      clash k (inl d, p, v) = ground (arith, d, p)
      clash k (inr d, p, v) = ground (arith, d, v)

  -- The rows other than one are rows of other keys.
  abbrev pub IsOnlyKey : ℕ → ApiKey → Type 0
  IsOnlyKey kid k = ((k.id == kid) ≡ true) ⊎ (hashing.verify_api_key raw_key k.hashed_key ≡ false)

  revoke-IsDead :
      (now oid kid : ℕ) (rows after : List ApiKey)
      → All (IsOnlyKey kid) rows
      → revoke_key hashing now oid kid rows ≡ ok after
      → All IsDead after
  unfolding revoke_key
  revoke-IsDead now oid kid rows after only r =
      let (k, o, e) = bind_inv (owned hashing oid (get_by_id kid rows)) _ r in
      subst (All IsDead) (ok_injective e) (dead k (found k o) rows only)
    where
      found : (k : ApiKey) → owned hashing oid (get_by_id kid rows) ≡ ok k → (k.id == kid) ≡ true
      found k o = elim (Option-cases (get_by_id kid rows)) [
        | inl e ↦ absurd (ground (arith, rw e at o))
        | inr (c, e) ↦ elim (Bool-cases (c.org_id == oid)) [
          | inr b ↦ absurd (ground (arith, rw (e, b) at o))
          | inl b ↦
              let s : c ≡ k = ok_injective (rw (e, b) at o) in
              ap (λ (x : ApiKey). x.id == kid) (sym s)
              ∙ ground (
                arith,
                find_first_sound (λ (x : ApiKey). (x.id == kid) && not x.is_deleted) rows e,
              )
        ]
      ]

      dead :
          (k : ApiKey)
          → (k.id == kid) ≡ true
          → (xs : List ApiKey) → All (IsOnlyKey kid) xs
          → All IsDead (delete now k xs)
      dead k s [] a = tt
      dead k s (x ∷ xs) (inl i, a) =
          let b : (x.id == k.id) ≡ true = ground (arith, i, s) in rw b (inl refl, dead k s xs a)
      dead k s (x ∷ xs) (inr v, a) = elim (Bool-cases (x.id == k.id)) [
        | inl b ↦ rw b (inl refl, dead k s xs a)
        | inr b ↦ rw b (inr v, dead k s xs a)
      ]

  -- Once the only row whose hash verifies a key is revoked, the key is refused at any time, whatever
  -- keys are revoked and whatever other keys, which it does not verify against, are created later.
  pub revoked_key_never_authenticates :
      (now later oid kid : ℕ) (rows after final : List ApiKey)
      → All (IsOnlyKey kid) rows
      → revoke_key hashing now oid kid rows ≡ ok after
      → Reach after final
      → authenticate_key hashing later raw_key final ≡ err unauthorized
  revoked_key_never_authenticates now later oid kid rows after final only r reach =
      dead_refused later final (Reach-IsDead reach (revoke-IsDead now oid kid rows after only r))
