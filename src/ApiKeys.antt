-- ===== src/ApiKeys.antt =====
-- app/modules/api_keys/models.py, repository.py and service.py. Key generation and hashing
-- (app/core/security.py) are parameters; the time of last use, kept in Redis, is left out.
pub mod Authentication
pub mod Revocation
mod Examples
use reliastra_backend.Prelude.{
  ℕ, Bool, true, false, not, ◌&&◌, Option, none, some, String, List, [], ◌∷◌, ◌++◌, ◌==◌, ltb, leb,
  length, take, any, find_first, select, update_where, if◌then◌else◌,
}
use reliastra_backend.Prelude.Text.{Text, text_eq}
use reliastra_backend.Prelude.Result.{
  Result, ok, err, not_found, unauthorized, conflict, ◌>>=◌, ◌>>◌, require,
}

pub record ApiKey : Type 0 where
  pub id : ℕ
  pub org_id : ℕ
  pub name : String
  pub prefix : Text
  pub hashed_key : Text
  pub scopes : List String
  pub expires_at : Option ℕ
  pub is_deleted : Bool
  pub deleted_at : Option ℕ

-- `hash_api_key` with its salt, and `verify_api_key`
pub record Hashing : Type 0 where
  pub hash_api_key : Text → ℕ → Text
  pub verify_api_key : Text → Text → Bool

pub record CreateRequest : Type 0 where
  pub name : String
  pub scopes : List String
  pub expires_at : Option ℕ

-- `raw_key[:8]`, the whole key if it is shorter
abbrev pub prefix_of : Text → Text
prefix_of key = if leb 8 (length key) then take 8 key else key

abbrev pub get_by_id : ℕ → List ApiKey → Option ApiKey
get_by_id kid rows = find_first (λ (k : ApiKey). (k.id == kid) && not k.is_deleted) rows

abbrev pub newest_first : List ApiKey → List ApiKey → List ApiKey
newest_first [] acc = acc
newest_first (x ∷ xs) acc = newest_first xs (x ∷ acc)

abbrev pub has_prefix : Text → ApiKey → Bool
has_prefix prefix k = text_eq k.prefix prefix && not k.is_deleted

abbrev pub list_by_prefix : Text → List ApiKey → List ApiKey
list_by_prefix prefix rows = newest_first (select (has_prefix prefix) rows) []

abbrev pub revoked : ℕ → ApiKey → ApiKey
revoked now k = record k { is_deleted = true; deleted_at = some now }

abbrev pub delete : ℕ → ApiKey → List ApiKey → List ApiKey
delete now key rows = update_where (λ (k : ApiKey). k.id == key.id) (revoked now) rows

-- A missing expiry never passes.
abbrev pub has_expired : ℕ → Option ℕ → Bool
has_expired now none = false
has_expired now (some t) = ltb t now

module _ (hashing : Hashing) where
  -- The row of `create_key` for the key that `generate_api_key` made, with its id and salt.
  abbrev pub new_key : ℕ → ℕ → Text → ℕ → CreateRequest → ApiKey
  new_key new_id oid full_key salt request = record {
    id = new_id;
    org_id = oid;
    name = request.name;
    prefix = take 8 full_key;
    hashed_key = hashing.hash_api_key full_key salt;
    scopes = request.scopes;
    expires_at = request.expires_at;
    is_deleted = false;
    deleted_at = none;
  }

  -- `hashed_key` is a unique column.
  unfoldable pub create_key : ℕ → ℕ → Text → ℕ → CreateRequest → List ApiKey → Result (List ApiKey)
  create_key new_id oid full_key salt request rows = do
    require
        (not (any (λ (k : ApiKey). text_eq k.hashed_key (hashing.hash_api_key full_key salt)) rows))
        conflict
    ok (rows ++ new_key new_id oid full_key salt request ∷ [])

  -- The row of an id, for an organization.
  abbrev pub owned : ℕ → Option ApiKey → Result ApiKey
  owned oid none = err not_found
  owned oid (some k) = if k.org_id == oid then ok k else err not_found

  unfoldable pub revoke_key : ℕ → ℕ → ℕ → List ApiKey → Result (List ApiKey)
  revoke_key now oid kid rows = do k ← owned oid (get_by_id kid rows); ok (delete now k rows)

  -- The answer from the first candidate that the key verifies against.
  abbrev pub admit : ℕ → Option ApiKey → Result ApiKey
  admit now none = err unauthorized
  admit now (some k) = if has_expired now k.expires_at then err unauthorized else ok k

  unfoldable pub authenticate_key : ℕ → Text → List ApiKey → Result ApiKey
  authenticate_key now raw_key rows = admit now (
      find_first (λ (k : ApiKey). hashing.verify_api_key raw_key k.hashed_key)
        (list_by_prefix (prefix_of raw_key) rows))
