-- ===== src/Auth/Tokens.antt =====
-- app/modules/auth/models.py, repository.py and service.py: the table of refresh tokens, `refresh`
-- and `logout`. The table is in the order of creation.
use reliastra_backend.Prelude.{
  ℕ, ◌+◌, Bool, true, false, not, Option, List, [], ◌∷◌, ◌++◌, ltb, ◌==◌, any, find_first,
  update_where, if◌then◌else◌, or_else,
}
use reliastra_backend.Prelude.Result.{
  Result, ok, err, unauthorized, conflict, require, or_raise, ◌>>=◌, ◌>>◌,
}

pub record RefreshToken : Type 0 where
  pub user_id : ℕ
  pub token_hash : ℕ
  pub token_family : ℕ
  pub token_sequence : ℕ
  pub is_revoked : Bool
  pub expires_at : ℕ

-- What a token's claims say: whether "type" is "refresh", and "sub".
pub record Claims : Type 0 where
  pub is_refresh : Bool
  pub sub : Option ℕ

-- PyJWT's `decode_token`, where `none` is a raised `UnauthorizedException`; SHA-256; the user table,
-- as the `is_active` column of the users that exist; REFRESH_TOKEN_EXPIRE_DAYS in seconds.
pub record Outside : Type 0 where
  pub decode_token : ℕ → Option Claims
  pub sha256 : ℕ → ℕ
  pub users : ℕ → Option Bool
  pub lifetime : ℕ

abbrev pub Tokens : Type 0
Tokens = List RefreshToken

module _ (env : Outside) where
  abbrev pub has_hash : ℕ → RefreshToken → Bool
  has_hash token t = t.token_hash == env.sha256 token

  unfoldable pub get_refresh_token : ℕ → Tokens → Option RefreshToken
  get_refresh_token token ts = find_first (has_hash token) ts

  -- `token_hash` is a unique column.
  unfoldable pub create_refresh_token : ℕ → ℕ → ℕ → ℕ → ℕ → Tokens → Result Tokens
  create_refresh_token user_id token expires_at family sequence ts = do
    require (not (any (has_hash token) ts)) conflict
    ok (
        ts
        ++ record {
          user_id = user_id;
          token_hash = env.sha256 token;
          token_family = family;
          token_sequence = sequence;
          is_revoked = false;
          expires_at = expires_at;
        }
          ∷ [])

  unfoldable pub revoke_refresh_token : ℕ → Tokens → Tokens
  revoke_refresh_token token ts =
      update_where (has_hash token) (λ t. record t { is_revoked = true }) ts

-- `max(token_sequence)` of a family, or 0
abbrev pub get_latest_sequence : ℕ → Tokens → ℕ
get_latest_sequence family [] = 0
get_latest_sequence family (t ∷ ts) =
    let rest = get_latest_sequence family ts in
    if t.token_family == family
    then (if ltb rest t.token_sequence then t.token_sequence else rest)
    else rest

unfoldable pub revoke_family : ℕ → Tokens → Tokens
revoke_family family ts =
    update_where (λ t. t.token_family == family) (λ t. record t { is_revoked = true }) ts

-- `get_db` around a handler: an exception rolls the session back to what it was.
abbrev pub rollback : Tokens → Result (Unit {0}) × Tokens → Result (Unit {0}) × Tokens
rollback before (err e, session) = (err e, before)
rollback before (ok u, session) = (ok u, session)

module _ (env : Outside) where
  -- `not user or not user.is_active`
  abbrev pub is_active_user : ℕ → Bool
  is_active_user uid = or_else (env.users uid) false

  -- The checks of `refresh` before a new pair is made.
  unfoldable pub presented : ℕ → Tokens → Result (RefreshToken × ℕ)
  presented token ts = do
    claims ← or_raise (env.decode_token token) unauthorized
    require claims.is_refresh unauthorized
    stored ← or_raise (get_refresh_token env token ts) unauthorized
    require (not stored.is_revoked) unauthorized
    uid ← or_raise claims.sub unauthorized
    require (is_active_user uid) unauthorized
    ok (stored, uid)

  -- The new token of the family and the revocation of the old one.
  unfoldable pub rotate : ℕ → ℕ → ℕ → RefreshToken → ℕ → Tokens → Result Tokens
  rotate now token new_token stored uid ts = do
    created ←
        create_refresh_token env uid new_token (now + env.lifetime) stored.token_family
          (stored.token_sequence + 1) ts
    ok (revoke_refresh_token env token created)

  -- `refresh`: what the handler returns, and the session when it ends. The random token of the new
  -- pair is given.
  unfoldable pub refresh_in_session : ℕ → ℕ → ℕ → Tokens → Result (Unit {0}) × Tokens
  refresh_in_session now token new_token ts = elim (presented token ts) [
    | err e ↦ (err e, ts)
    | ok (stored, uid) ↦
        if ltb stored.token_sequence (get_latest_sequence stored.token_family ts)
        then (err unauthorized, revoke_family stored.token_family ts)
        else elim (rotate now token new_token stored uid ts) [
          | err e ↦ (err e, ts)
          | ok after ↦ (ok tt, after)
        ]
  ]

  unfoldable pub refresh : ℕ → ℕ → ℕ → Tokens → Result (Unit {0}) × Tokens
  refresh now token new_token ts = rollback ts (refresh_in_session now token new_token ts)

  unfoldable pub logout : ℕ → Tokens → Tokens
  logout token ts = revoke_refresh_token env token ts

  -- The row that `login` and `register` add for a user: a family of its own, from 1 on.
  unfoldable pub sign_in : ℕ → ℕ → ℕ → ℕ → Tokens → Result Tokens
  sign_in now uid token family ts =
      create_refresh_token env uid token (now + env.lifetime) family 1 ts
