-- ===== src/Auth/Reset.antt =====
-- What a reset of a password does, and what it does not do.
use reliastra_backend.Prelude.{
  ℕ, ◌+◌, ◌≤◌, ◌<◌, ◌≡◌, refl, ap, ◌∙◌, Bool, true, false, not, some, List, [], ◌∷◌, ◌++◌, ltb,
  ◌==◌, any, find_first_sound, arith, if◌then◌else◌,
}
use mathlib.Core.Option
use mathlib.Core.Path.{subst}
use reliastra_backend.Prelude.Text.{Text}
use reliastra_backend.Prelude.Tables.{find_first-update_where}
use reliastra_backend.Prelude.Result.{
  Result, ok, err, validation, conflict, or_raise, bind_inv, require_inv, or_raise_inv,
  ok_injective, ◌>>=◌,
}
use reliastra_backend.Auth.Tokens.{Outside, Tokens, refresh}
use reliastra_backend.Auth.OneTime.{
  OneTimeToken, User, Db, get_by_email, get_by_id, reset_lifetime, used, revoke_all, has_hash,
  get_token, mark_used, create_token, send_reset_to, send_password_reset_email, check_token,
  set_password, reset_password,
}

module _ (env : Outside) where
  abbrev hash_of : ℕ → OneTimeToken → Bool
  hash_of token t = t.token_hash == env.sha256 token

  -- A used token is refused.
  used_refused :
      (now token : ℕ) (ts : List OneTimeToken) (t : OneTimeToken)
      → get_token env token ts ≡ some t
      → t.is_used ≡ true
      → check_token env now token ts ≡ err validation
  used_refused now token ts t found u = rw (found, u) refl

  check_token_inv :
      (now token : ℕ) (ts : List OneTimeToken) (t : OneTimeToken)
      → check_token env now token ts ≡ ok t
      → get_token env token ts ≡ some t
  check_token_inv now token ts t h =
      let (stored, found, h1) = bind_inv (or_raise (get_token env token ts) validation) _ h in
      let (a, h2) = require_inv (not stored.is_used) validation _ h1 in
      let (b, h3) = require_inv (not (ltb stored.expires_at now)) validation _ h2 in
      or_raise_inv _ _ found ∙ ap some (ok_injective h3)

  marked_refused :
      (later token : ℕ) (ts : List OneTimeToken) (t : OneTimeToken)
      → get_token env token ts ≡ some t
      → check_token env later token (mark_used env token ts) ≡ err validation
  marked_refused later token ts t found =
      let same =
        find_first-update_where (hash_of token) (hash_of token) used ts (λ x. refl)
        ∙ ap (Option.map (λ x. if hash_of token x then used x else x)) found in
      used_refused later token (mark_used env token ts) _ same
        (is_used (hash_of token t) (find_first_sound (hash_of token) ts found))
    where
      is_used : (b : Bool) → b ≡ true → (if b then used t else t).is_used ≡ true
      is_used true e = refl
      is_used false e = absurd (ground (arith, e))

  -- A reset token works once: after a reset, the same token is refused, at any time and with any
  -- password.
  pub reset_password_once :
      (now later token password other : ℕ) (db after : Db)
      → reset_password env now token password db ≡ ok after
      → reset_password env later token other after ≡ err validation
  unfolding reset_password
  reset_password_once now later token password other db after h =
      let (stored, checked, e) = bind_inv (check_token env now token db.reset_tokens) _ h in
      let r =
        marked_refused later token db.reset_tokens stored
          (check_token_inv now token db.reset_tokens stored checked) in
      subst (λ t. reset_password env later token other t ≡ err validation) (ok_injective e)
        (refused
          (set_password env stored.user_id password
            (record db { reset_tokens = mark_used env token db.reset_tokens }))
          r)
    where
      refused :
          (t : Db)
          → check_token env later token t.reset_tokens ≡ err validation
          → reset_password env later token other t ≡ err validation
      refused t c =
          ap
            (λ m. ◌>>=◌ m (λ stored. ok (
              set_password env stored.user_id other
                (record t { reset_tokens = mark_used env token t.reset_tokens }))))
            c

  -- Sessions survive a reset: a refresh token that could be exchanged before a reset of the password can
  -- be exchanged after it, with the same result.
  pub reset_password_keeps_sessions :
      (now token password time session renewed : ℕ) (db after : Db) (ts : Tokens)
      → reset_password env now token password db ≡ ok after
      → refresh env time session renewed db.refresh_tokens ≡ (ok tt, ts)
      → refresh env time session renewed after.refresh_tokens ≡ (ok tt, ts)
  unfolding reset_password
  reset_password_keeps_sessions now token password time session renewed db after ts h r =
      let (stored, checked, e) = bind_inv (check_token env now token db.reset_tokens) _ h in
      subst (λ (t : Db). refresh env time session renewed t.refresh_tokens ≡ (ok tt, ts))
        (ok_injective e) r

  found_last :
      (token : ℕ) (ts : List OneTimeToken) (t : OneTimeToken)
      → any (hash_of token) ts ≡ false
      → hash_of token t ≡ true
      → get_token env token (ts ++ t ∷ []) ≡ some t
  found_last token [] t n h = rw h refl
  found_last token (x ∷ xs) t n h = ground (arith, n, found_last token xs t (ground (arith, n)) h)

  -- The row of the token of a mail.
  abbrev mailed : ℕ → ℕ → User → OneTimeToken
  mailed now token u = record {
    user_id = u.id;
    token_hash = env.sha256 token;
    is_used = false;
    expires_at = now + reset_lifetime;
  }

  over :
      (now later token : ℕ) (u : User) (ts : List OneTimeToken)
      → get_token env token ts ≡ some (mailed now token u)
      → now + 900 < later
      → check_token env later token ts ≡ err validation
  over now later token u ts found b =
      let c : ltb (now + reset_lifetime) later ≡ true = ground (arith, b) in rw (found, c) refl

  fresh :
      (now later token : ℕ) (u : User) (ts : List OneTimeToken)
      → get_token env token ts ≡ some (mailed now token u)
      → later ≤ now + 900
      → check_token env later token ts ≡ ok (mailed now token u)
  fresh now later token u ts found b =
      let c : ltb (now + reset_lifetime) later ≡ false = ground (arith, b) in rw (found, c) refl

  -- The token of the mail resets the password of its account for 15 minutes after it was asked for, the
  -- last second included, and is refused afterwards.
  pub send-reset_password :
      (now later token password : ℕ) (email : Text) (u : User) (db after : Db)
      → get_by_email email db ≡ some u
      → get_by_id u.id db ≡ some u
      → send_password_reset_email env now email token db ≡ ok after
      → (now + 900 < later → reset_password env later token password after ≡ err validation)
        × (later ≤ now + 900
            → (final : Db) × (reset_password env later token password after ≡ ok final)
              × (get_by_id u.id final ≡ some (record u { password_hash = password })))
  unfolding send_password_reset_email reset_password
  send-reset_password now later token password email u db after by_email by_id h =
      let sent = subst (λ o. send_reset_to env now o token db ≡ ok after) by_email h in
      let (tokens, made, e) =
        bind_inv
          (create_token env u.id token (now + reset_lifetime) (revoke_all u.id db.reset_tokens)) _
          sent in
      let (free, grown) =
        require_inv (not (any (has_hash env token) (revoke_all u.id db.reset_tokens))) conflict _
          made in
      let found : get_token env token tokens ≡ some (mailed now token u) =
        subst (λ ts. get_token env token ts ≡ some (mailed now token u)) (ok_injective grown)
          (found_last token (revoke_all u.id db.reset_tokens) (mailed now token u)
            (ground (arith, free)) (ground arith)) in
      subst
        (λ (t : Db).
          (now + 900 < later → reset_password env later token password t ≡ err validation)
          × (later ≤ now + 900
              → (final : Db) × (reset_password env later token password t ≡ ok final)
                × (get_by_id u.id final ≡ some (record u { password_hash = password }))))
        (ok_injective e)
        (
          (λ b. ap (λ m. ◌>>=◌ m (done tokens)) (over now later token u tokens found b)),
          (λ b. (
            set_password env u.id password
                (record db { reset_tokens = mark_used env token tokens }),
            ap (λ m. ◌>>=◌ m (done tokens)) (fresh now later token u tokens found b),
            find_first-update_where (λ (x : User). x.id == u.id) (λ (x : User). x.id == u.id)
                  (λ (x : User). record x { password_hash = password }) db.users (λ x. refl)
                ∙ ap
                    (Option.map (λ (x : User).
                      if x.id == u.id then record x { password_hash = password } else x))
                    by_id
                ∙ ap some (hit (u.id == u.id) (ground arith)),
          )),
        )
    where
      done : List OneTimeToken → OneTimeToken → Result Db
      done tokens stored = ok (
          set_password env stored.user_id password
            (record db { reset_tokens = mark_used env token tokens }))

      hit :
          (b : Bool)
          → b ≡ true
          → (if b then record u { password_hash = password } else u)
            ≡ record u { password_hash = password }
      hit true e = refl
      hit false e = absurd (ground (arith, e))
