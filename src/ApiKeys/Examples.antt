-- ===== src/ApiKeys/Examples.antt =====
-- The theorems on keys at concrete keys, and tests.
use reliastra_backend.Prelude.{◌≡◌, refl, Bool, false, some, [], ◌∷◌, if◌then◌else◌, inl, inr}
use reliastra_backend.Prelude.Text.{Text, text_eq, codes}
use reliastra_backend.Prelude.Result.{ok, err, unauthorized, not_found}
use reliastra_backend.ApiKeys.{
  ApiKey, Hashing, CreateRequest, has_expired, new_key, create_key, revoked, revoke_key,
  authenticate_key,
}
use reliastra_backend.ApiKeys.Authentication.{create_key-authenticate_key}
use reliastra_backend.ApiKeys.Revocation.{creates, done, then_step, revoked_key_never_authenticates}

-- A hash that is the key behind its salt.
abbrev verify : Text → Text → Bool
verify raw [] = false
verify raw (salt ∷ key) = text_eq raw key

abbrev hashing : Hashing
hashing = record { hash_api_key = λ key salt. salt ∷ key; verify_api_key = verify }

abbrev request : CreateRequest
request = record { name = "ci"; scopes = "read" ∷ []; expires_at = some 90 }

abbrev key : ApiKey
key = new_key hashing 1 5 (codes "rel_0123456789") 7 request

abbrev other : ApiKey
other = new_key hashing 2 6 (codes "rel_0123ffffff") 8 request

admitted : authenticate_key hashing 90 (codes "rel_0123456789") (key ∷ other ∷ []) ≡ ok key
unfolding authenticate_key
admitted = refl

expired : authenticate_key hashing 91 (codes "rel_0123456789") (key ∷ other ∷ []) ≡ err unauthorized
unfolding authenticate_key
expired = refl

foreign_key : revoke_key hashing 50 6 1 (key ∷ []) ≡ err not_found
unfolding revoke_key
foreign_key = refl

created :
    create_key hashing 1 5 (codes "rel_0123456789") 7 request (other ∷ []) ≡ ok (other ∷ key ∷ [])
unfolding create_key
created = refl

create_key-authenticate_key_example :
    authenticate_key hashing 91 (codes "rel_0123456789") (other ∷ key ∷ [])
    ≡ (if has_expired 91 (some 90) then err unauthorized else ok key)
create_key-authenticate_key_example =
    create_key-authenticate_key hashing 91 1 5 7 (codes "rel_0123456789") request (other ∷ [])
      (other ∷ key ∷ []) refl created

revoked_now : revoke_key hashing 50 5 1 (key ∷ other ∷ []) ≡ ok (revoked 50 key ∷ other ∷ [])
unfolding revoke_key
revoked_now = refl

-- A third key, created after the first was revoked.
abbrev third : ApiKey
third = new_key hashing 3 5 (codes "rel_0123eeeeee") 9 request

created_later :
    create_key hashing 3 5 (codes "rel_0123eeeeee") 9 request (revoked 50 key ∷ other ∷ [])
    ≡ ok (revoked 50 key ∷ other ∷ third ∷ [])
unfolding create_key
created_later = refl

revoked_key_never_authenticates_example :
    authenticate_key hashing 60 (codes "rel_0123456789") (revoked 50 key ∷ other ∷ third ∷ [])
    ≡ err unauthorized
revoked_key_never_authenticates_example =
    revoked_key_never_authenticates hashing (codes "rel_0123456789") 50 60 5 1 (key ∷ other ∷ [])
      (revoked 50 key ∷ other ∷ []) (revoked 50 key ∷ other ∷ third ∷ []) (inl refl, (inr refl, tt))
      revoked_now
      (then_step done (creates 3 5 (codes "rel_0123eeeeee") 9 request refl created_later))
