-- ===== src/Auth/OneTime.antt =====
-- The one-time tokens of app/modules/auth/models.py and repository.py, for the reset of passwords and for
-- the verification of e-mail addresses, and the flows of email_service.py. Mails and their texts are
-- left out.
use reliastra_backend.Prelude.{
  ℕ, ◌+◌, ◌*◌, Bool, true, false, not, ◌&&◌, Option, none, some, List, [], ◌∷◌, ◌++◌, ltb, ◌==◌,
  any, find_first, update_where,
}
use reliastra_backend.Prelude.Text.{Text, text_eq, lower}
use reliastra_backend.Prelude.Result.{
  Result, ok, validation, conflict, require, or_raise, ◌>>=◌, ◌>>◌,
}
use reliastra_backend.Auth.Tokens.{Outside, Tokens}

-- `EmailVerificationToken` and `PasswordResetToken`, which have the same columns
pub record OneTimeToken : Type 0 where
  pub user_id : ℕ
  pub token_hash : ℕ
  pub is_used : Bool
  pub expires_at : ℕ

pub record User : Type 0 where
  pub id : ℕ
  pub email : Text
  pub password_hash : ℕ
  pub is_email_verified : Bool

pub record Db : Type 0 where
  pub users : List User
  pub reset_tokens : List OneTimeToken
  pub verification_tokens : List OneTimeToken
  pub refresh_tokens : Tokens

abbrev pub get_by_email : Text → Db → Option User
get_by_email email db = find_first (λ (u : User). text_eq u.email (lower email)) db.users

abbrev pub get_by_id : ℕ → Db → Option User
get_by_id uid db = find_first (λ (u : User). u.id == uid) db.users

-- PASSWORD_RESET_EXPIRE_MINUTES, in seconds
abbrev pub reset_lifetime : ℕ
reset_lifetime = 15 * 60

abbrev pub used : OneTimeToken → OneTimeToken
used t = record t { is_used = true }

-- `revoke_all_password_reset_tokens` and its twin
abbrev pub revoke_all : ℕ → List OneTimeToken → List OneTimeToken
revoke_all uid ts = update_where (λ (t : OneTimeToken). (t.user_id == uid) && not t.is_used) used ts

module _ (env : Outside) where
  abbrev pub has_hash : ℕ → OneTimeToken → Bool
  has_hash token t = t.token_hash == env.sha256 token

  -- `get_password_reset_token` and its twin
  abbrev pub get_token : ℕ → List OneTimeToken → Option OneTimeToken
  get_token token ts = find_first (has_hash token) ts

  -- `mark_password_reset_used` and its twin
  abbrev pub mark_used : ℕ → List OneTimeToken → List OneTimeToken
  mark_used token ts = update_where (has_hash token) used ts

  -- `create_password_reset_token` and its twin; `token_hash` is a unique column.
  abbrev pub create_token : ℕ → ℕ → ℕ → List OneTimeToken → Result (List OneTimeToken)
  create_token uid token expires_at ts = do
    require (not (any (has_hash token) ts)) conflict
    ok (
        ts
        ++ record {
          user_id = uid;
          token_hash = env.sha256 token;
          is_used = false;
          expires_at = expires_at;
        }
          ∷ [])

  -- `send_password_reset_email` without the mail; an unknown address gets the same answer.
  abbrev pub send_reset_to : ℕ → Option User → ℕ → Db → Result Db
  send_reset_to now none token db = ok db
  send_reset_to now (some u) token db = do
    tokens ← create_token u.id token (now + reset_lifetime) (revoke_all u.id db.reset_tokens)
    ok (record db { reset_tokens = tokens })

  unfoldable pub send_password_reset_email : ℕ → Text → ℕ → Db → Result Db
  send_password_reset_email now email token db = send_reset_to now (get_by_email email db) token db

  -- The checks of a presented token: known, not used, and not over.
  abbrev pub check_token : ℕ → ℕ → List OneTimeToken → Result OneTimeToken
  check_token now token ts = do
    stored ← or_raise (get_token token ts) validation
    require (not stored.is_used) validation
    require (not (ltb stored.expires_at now)) validation
    ok stored

  abbrev pub set_password : ℕ → ℕ → Db → Db
  set_password uid password_hash db = record db {
    users =
        update_where (λ (u : User). u.id == uid)
          (λ (u : User). record u { password_hash = password_hash }) db.users;
  }

  -- `reset_password`, with the hash of the new password
  unfoldable pub reset_password : ℕ → ℕ → ℕ → Db → Result Db
  reset_password now token password_hash db = do
    stored ← check_token now token db.reset_tokens
    ok (
        set_password stored.user_id password_hash
          (record db { reset_tokens = mark_used token db.reset_tokens }))

  abbrev pub set_verified : ℕ → Db → Db
  set_verified uid db = record db {
    users =
        update_where (λ (u : User). u.id == uid)
          (λ (u : User). record u { is_email_verified = true }) db.users;
  }

  -- `verify_email`
  unfoldable pub verify_email : ℕ → ℕ → Db → Result Db
  verify_email now token db = do
    stored ← check_token now token db.verification_tokens
    ok (
        set_verified stored.user_id
          (record db { verification_tokens = mark_used token db.verification_tokens }))
