-- ===== src/Dependencies/Headers.antt =====
-- The way of the headers: encrypted in the table, plain for the worker.
use reliastra_backend.Prelude.{
  ℕ, ◌≡◌, refl, ap, ◌∙◌, true, false, not, ◌&&◌, Option, none, some, List, [], ◌∷◌, ◌++◌, ◌==◌,
  find_first, any, arith, if◌then◌else◌,
}
use reliastra_backend.Prelude.Tables.{IsFresh}
use reliastra_backend.Prelude.Result.{ok}
use reliastra_backend.Dependencies.Model.{Headers, Dependency, Db, get_by_id}
use reliastra_backend.Dependencies.Service.{
  Cipher, CreateRequest, encode_headers, decode_headers, create_dependency, config_of,
  get_dependency_config_internal,
}
use reliastra_backend.Dependencies.Steps.{key, create_dependency-Created}

-- The headers that a worker is given for those of a request; empty ones are none.
abbrev pub given : Option Headers → Option Headers
given none = none
given (some []) = none
given (some (h ∷ hs)) = some (h ∷ hs)

found_last :
    (did : ℕ) (rows : List Dependency) (d : Dependency)
    → any (λ y. key y == did) rows ≡ false
    → d.id ≡ did
    → d.is_deleted ≡ false
    → find_first (λ (x : Dependency). (x.id == did) && not x.is_deleted) (rows ++ d ∷ []) ≡ some d
found_last did [] d f e l = ground (arith, e, l)
found_last did (x ∷ xs) d f e l = ground (arith, f, found_last did xs d (ground (arith, f)) e l)

module _ (cipher : Cipher) where
  decode_headers-encode_headers :
      (o : Option Headers)
      → ((hs : Headers) → o ≡ some hs → cipher.decrypt (cipher.encrypt hs) ≡ hs)
      → decode_headers cipher (encode_headers cipher o) ≡ given o
  decode_headers-encode_headers none undoes = refl
  decode_headers-encode_headers (some []) undoes = refl
  decode_headers-encode_headers (some (h ∷ hs)) undoes = ap some (undoes (h ∷ hs) refl)

  -- If the cipher decrypts what it encrypted of the request's headers, a dependency that was created under a fresh id is
  -- found with the headers of the request by the workers and by its organization, where empty headers
  -- are none; and the answer of the creation is the row.
  pub create_dependency-get_config :
      (now new_id new_app oid : ℕ) (request : CreateRequest) (db : Db) (d : Dependency) (after : Db)
      → ((hs : Headers) → request.headers ≡ some hs → cipher.decrypt (cipher.encrypt hs) ≡ hs)
      → IsFresh key new_id db.dependencies
      → create_dependency cipher now new_id new_app oid request db ≡ ok (d, after)
      → (get_dependency_config_internal cipher none new_id after ≡ some (d, given request.headers))
        × (get_dependency_config_internal cipher (some oid) new_id after
            ≡ some (d, given request.headers))
  create_dependency-get_config now new_id new_app oid request db d after undoes fresh h =
      let c = create_dependency-Created cipher now new_id new_app oid request db d after h in
      let found : get_by_id new_id after ≡ some d =
        ap (λ rows. find_first (λ (x : Dependency). (x.id == new_id) && not x.is_deleted) rows)
          c.appended
        ∙ found_last new_id db.dependencies d fresh (ap (λ (x : Dependency). x.id) c.row)
            (ap (λ (x : Dependency). x.is_deleted) c.row) in
      let plain : decode_headers cipher d.headers ≡ given request.headers =
        ap (λ (x : Dependency). decode_headers cipher x.headers) c.row
        ∙ decode_headers-encode_headers request.headers undoes in
      let own : (d.org_id == oid) ≡ true =
        ap (λ (x : Dependency). x.org_id == oid) c.row ∙ ground arith in
      (
        ap (config_of cipher none) found ∙ ap (λ hs. some (d, hs)) plain,
        ap (config_of cipher (some oid)) found
            ∙ ap (λ b. if b then some (d, decode_headers cipher d.headers) else none) own
            ∙ ap (λ hs. some (d, hs)) plain,
      )
