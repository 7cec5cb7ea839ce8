-- ===== src/Auth/Examples.antt =====
-- The theorems on refresh tokens at a small table.
use reliastra_backend.Prelude.{◌+◌, ◌≡◌, ◌≤◌, ◌<◌, refl, true, false, some, [], ◌∷◌, ltb}
use reliastra_backend.Prelude.Result.{ok, err, unauthorized, validation}
use reliastra_backend.Auth.Tokens.{
  RefreshToken, Outside, Tokens, get_refresh_token, create_refresh_token, get_latest_sequence,
  presented, refresh, refresh_in_session, rotate, revoke_refresh_token, sign_in,
}
use reliastra_backend.Prelude.Text.{codes, lower}
use reliastra_backend.Auth.OneTime.{
  User, Db, get_by_email, get_by_id, send_password_reset_email, reset_password, verify_email,
}
use reliastra_backend.Auth.Reset.{reset_password_keeps_sessions, send-reset_password}
use reliastra_backend.Auth.Rotation.{Rotates}
use reliastra_backend.Auth.Sessions.{row}
use reliastra_backend.Auth.Replay.{
  Reach, here, next, signs_in, refreshes, Reach-Rotates, reuse_never_detected, refresh_works_once,
}

-- Every token is a refresh token of user 1, who is active.
abbrev site : Outside
site = record {
  decode_token = λ t. some (record { is_refresh = true; sub = some 1 });
  sha256 = λ t. t + 500;
  users = λ u. some true;
  lifetime = 1000;
}

-- User 1 signs in with token 10, in family 77.
abbrev signed_in : Tokens
signed_in = row site 0 1 10 77 1 ∷ []

signed_in_step : sign_in site 0 1 10 77 [] ≡ ok signed_in
unfolding sign_in create_refresh_token
signed_in_step = refl

abbrev spent : RefreshToken
spent = record (row site 0 1 10 77 1) { is_revoked = true }

-- Token 10 is exchanged for token 11.
abbrev exchanged : Tokens
exchanged = spent ∷ row site 5 1 11 77 2 ∷ []

exchange : refresh site 5 10 11 signed_in ≡ (ok tt, exchanged)
unfolding refresh refresh_in_session presented rotate create_refresh_token revoke_refresh_token
    get_refresh_token
exchange = refl

exchanged-Reach : Reach site [] exchanged
exchanged-Reach =
    next (next here (signs_in 0 1 10 77 refl signed_in_step)) (refreshes 5 10 11 exchange)

Reach-Rotates_example : Rotates exchanged
Reach-Rotates_example = Reach-Rotates site exchanged-Reach

abbrev current : RefreshToken
current = row site 5 1 11 77 2

presented-current : presented site 11 exchanged ≡ ok (current, 1)
unfolding presented get_refresh_token
presented-current = refl

reuse_never_detected_example : ltb 2 (get_latest_sequence 77 exchanged) ≡ false
reuse_never_detected_example =
    reuse_never_detected site 11 {s = current} exchanged-Reach presented-current

refresh_works_once_example : refresh site 20 10 12 exchanged ≡ (err unauthorized, exchanged)
refresh_works_once_example = refresh_works_once site 5 10 11 20 12 signed_in exchange here

found_current : get_refresh_token site 11 exchanged ≡ some current
unfolding get_refresh_token
found_current = refl

-- The token that the thief of token 10 did not get works on.
family_lives_on : (refresh site 30 11 13 ((refresh site 20 10 12 exchanged).1)).0 ≡ ok tt
unfolding refresh refresh_in_session presented rotate create_refresh_token revoke_refresh_token
    get_refresh_token
family_lives_on = refl

-- A table in which a live token is older than another of its family: the handler revokes the family
-- in the session, and the rollback brings it back.
abbrev forged : Tokens
forged = row site 0 1 10 77 1 ∷ row site 5 1 11 77 2 ∷ []

detection_is_rolled_back : refresh site 20 10 12 forged ≡ (err unauthorized, forged)
unfolding refresh refresh_in_session presented rotate create_refresh_token revoke_refresh_token
    get_refresh_token
detection_is_rolled_back = refl

-- User 1 asks for a mail at 0 and resets the password at 900.
abbrev ann : User
ann = record { id = 1; email = codes "ann@test"; password_hash = 7; is_email_verified = true }

abbrev accounts : Db
accounts = record {
  users = ann ∷ [];
  reset_tokens = [];
  verification_tokens = [];
  refresh_tokens = signed_in;
}

abbrev mailed : Db
mailed = record accounts {
  reset_tokens = record { user_id = 1; token_hash = 530; is_used = false; expires_at = 900 } ∷ [];
}

abbrev reset : Db
reset = record mailed {
  users = record ann { password_hash = 8 } ∷ [];
  reset_tokens = record { user_id = 1; token_hash = 530; is_used = true; expires_at = 900 } ∷ [];
}

asked : send_password_reset_email site 0 (codes "Ann@test") 30 accounts ≡ ok mailed
unfolding send_password_reset_email lower
asked = refl

was_reset : reset_password site 900 30 8 mailed ≡ ok reset
unfolding reset_password
was_reset = refl

verified_address :
    verify_email site 900 30 (record accounts { verification_tokens = mailed.reset_tokens })
    ≡ ok (record accounts { verification_tokens = reset.reset_tokens })
unfolding verify_email
verified_address = refl

reset_password_keeps_sessions_example :
    refresh site 5 10 11 reset.refresh_tokens ≡ (ok tt, exchanged)
reset_password_keeps_sessions_example =
    reset_password_keeps_sessions site 900 30 8 5 10 11 mailed reset exchanged was_reset exchange

by_email : get_by_email (codes "Ann@test") accounts ≡ some ann
unfolding lower
by_email = refl

send-reset_password_example :
    (0 + 900 < 900 → reset_password site 900 30 8 mailed ≡ err validation)
    × (900 ≤ 0 + 900
        → (final : Db) × (reset_password site 900 30 8 mailed ≡ ok final)
          × (get_by_id 1 final ≡ some (record ann { password_hash = 8 })))
send-reset_password_example =
    send-reset_password site 0 900 30 8 (codes "Ann@test") ann accounts mailed by_email refl asked
