-- ===== src/Auth/Replay.antt =====
-- What becomes of a refresh token that was rotated or logged out, and of its family.
use reliastra_backend.Prelude.{
  ℕ, ◌+◌, ◌≡◌, refl, sym, ap, ◌∙◌, Bool, true, false, some, List, [], ◌∷◌, ◌++◌, ltb, any,
  find_first, update_where, if◌then◌else◌, arith, Bool-cases, inl, inr, find_first_sound,
}
use mathlib.Core.Path.{subst}
use mathlib.Core.Option
use reliastra_backend.Prelude.Tables.{find_first-update_where, any-update_where}
use reliastra_backend.Prelude.Result.{ok, err, unauthorized}
use reliastra_backend.Auth.Tokens.{
  RefreshToken, Outside, Tokens, has_hash, get_refresh_token, get_latest_sequence, presented,
  refresh_in_session, refresh, logout, sign_in, revoke_refresh_token,
}
use reliastra_backend.Auth.Rotation.{
  Rotates, revoked, found_live, live-latest, Rotates-revoke, Rotates-append, All-Succeeds-revoke,
}
use reliastra_backend.Auth.Sessions.{
  IsNewFamily, new_family-Succeeds, row, refresh-Rotated, create_ok,
}

find_first-prefix :
    {A : Type 0} (q : A → Bool) (ts : List A) (n : A) {s : A}
    → find_first q ts ≡ some s
    → find_first q (ts ++ n ∷ []) ≡ some s
find_first-prefix q [] n h = absurd (ground (arith, h))
find_first-prefix q (t ∷ ts) n h = elim (Bool-cases (q t)) [
  | inl e ↦ rw e (rw e at h)
  | inr e ↦ rw e (find_first-prefix q ts n (rw e at h))
]

find_first_last :
    {A : Type 0} (q : A → Bool) (ts : List A) (n : A)
    → any q ts ≡ false
    → q n ≡ true
    → find_first q (ts ++ n ∷ []) ≡ some n
find_first_last q [] n h k = rw k refl
find_first_last q (t ∷ ts) n h k = elim (Bool-cases (q t)) [
  | inl e ↦ absurd (ground (arith, rw e at h))
  | inr e ↦ rw e (find_first_last q ts n (rw e at h) k)
]

module _ (env : Outside) where
  -- A sign-in, a rotation or a logout. A request that raises changes nothing, so it is no step.
  pub data Step (ts : Tokens) : Tokens → Type 0 where
    signs_in :
        (now uid token family : ℕ) {after : Tokens}
        → IsNewFamily family ts
        → sign_in env now uid token family ts ≡ ok after
        → Step ts after
    refreshes :
        (now token new_token : ℕ) {after : Tokens}
        → refresh env now token new_token ts ≡ (ok tt, after)
        → Step ts after
    logs_out : (token : ℕ) → Step ts (logout env token ts)

  pub data Reach (ts : Tokens) : Tokens → Type 0 where
    here : Reach ts ts
    next : {mid after : Tokens} → Reach ts mid → Step mid after → Reach ts after

  Step-Rotates : {ts after : Tokens} → Step ts after → Rotates ts → Rotates after
  unfolding sign_in logout revoke_refresh_token
  Step-Rotates {ts = ts} (signs_in now uid token family new h) r =
      subst Rotates (sym (create_ok env now uid token family 1 ts h).1)
        (Rotates-append ts _ r (new_family-Succeeds (row env now uid token family 1) ts new))
  Step-Rotates {ts = ts} (refreshes now token new_token h) r =
      let m = refresh-Rotated env now token new_token ts h in
      subst Rotates (sym m.made) (
        Rotates-append _ _ (Rotates-revoke (has_hash env token) ts r) (
          All-Succeeds-revoke (has_hash env token) m.stored
            (row env now m.uid new_token m.stored.token_family (m.stored.token_sequence + 1)) ts
            refl refl (found_live (has_hash env token) ts r m.found m.live)))
  Step-Rotates {ts = ts} (logs_out token) r = Rotates-revoke (has_hash env token) ts r

  -- In every state that sign-ins, rotations and logouts lead to from an empty table, every token is
  -- newer than the tokens of its family before it: it has a greater number, and they are revoked.
  pub Reach-Rotates : {ts : Tokens} → Reach [] ts → Rotates ts
  Reach-Rotates here = tt
  Reach-Rotates (next r s) = Step-Rotates s (Reach-Rotates r)

  -- In every state that is reached from an empty table by sign-ins, rotations and logouts, a token
  -- that passes the checks of `refresh` has the latest number of its family, so that the test for
  -- reuse is false.
  pub reuse_never_detected :
      (token : ℕ) {ts : Tokens} {s : RefreshToken} {uid : ℕ}
      → Reach [] ts
      → presented env token ts ≡ ok (s, uid)
      → ltb s.token_sequence (get_latest_sequence s.token_family ts) ≡ false
  unfolding presented get_refresh_token
  reuse_never_detected token {ts} {s} {uid} r h =
      let l =
        live-latest (has_hash env token) ts {s = s} (Reach-Rotates r) (ground (arith, h))
          (ground (arith, h)) in
      ground (arith, l)

  -- The table has the token, revoked.
  pub IsRevoked : ℕ → Tokens → Type 0
  IsRevoked token ts =
      (s : RefreshToken) × (get_refresh_token env token ts ≡ some s) × (s.is_revoked ≡ true)

  revoked_refused :
      (now token new_token : ℕ) (ts : Tokens)
      → IsRevoked token ts
      → refresh env now token new_token ts ≡ (err unauthorized, ts)
  unfolding IsRevoked refresh refresh_in_session presented
  revoked_refused now token new_token ts (s, f, k) = ground (arith, f, k)

  revoke-IsRevoked :
      (p : RefreshToken → Bool) (token : ℕ) (ts : Tokens)
      → ((t : RefreshToken) → p (revoked t) ≡ p t)
      → IsRevoked token ts
      → IsRevoked token (update_where p revoked ts)
  unfolding IsRevoked get_refresh_token
  revoke-IsRevoked p token ts h (s, f, k) = (
    if p s then revoked s else s,
    find_first-update_where (has_hash env token) p revoked ts (λ t. refl)
        ∙ ap (Option.map (λ t. if p t then revoked t else t)) f,
    ground (arith, k),
  )

  append-IsRevoked :
      (token : ℕ) (ts : Tokens) (n : RefreshToken)
      → IsRevoked token ts
      → IsRevoked token (ts ++ n ∷ [])
  unfolding IsRevoked get_refresh_token
  append-IsRevoked token ts n (s, f, k) = (s, find_first-prefix (has_hash env token) ts n f, k)

  Step-IsRevoked :
      (token : ℕ) {ts after : Tokens} → Step ts after → IsRevoked token ts → IsRevoked token after
  unfolding sign_in logout revoke_refresh_token
  Step-IsRevoked token {ts = ts} (signs_in now uid new_token family new h) k =
      subst (IsRevoked token) (sym (create_ok env now uid new_token family 1 ts h).1)
        (append-IsRevoked token ts _ k)
  Step-IsRevoked token {ts = ts} (refreshes now old new_token h) k =
      let m = refresh-Rotated env now old new_token ts h in
      subst (IsRevoked token) (sym m.made)
        (append-IsRevoked token _ _ (revoke-IsRevoked (has_hash env old) token ts (λ t. refl) k))
  Step-IsRevoked token {ts = ts} (logs_out old) k =
      revoke-IsRevoked (has_hash env old) token ts (λ t. refl) k

  Reach-IsRevoked :
      (token : ℕ) {ts after : Tokens} → Reach ts after → IsRevoked token ts → IsRevoked token after
  Reach-IsRevoked token here k = k
  Reach-IsRevoked token (next r s) k = Step-IsRevoked token s (Reach-IsRevoked token r k)

  spent-IsRevoked :
      (now token new_token : ℕ) (ts : Tokens) {after : Tokens}
      → refresh env now token new_token ts ≡ (ok tt, after)
      → IsRevoked token after
  unfolding IsRevoked get_refresh_token
  spent-IsRevoked now token new_token ts {after} h =
      let m = refresh-Rotated env now token new_token ts h in
      (
        revoked m.stored,
        ap (find_first (has_hash env token)) m.made
            ∙ find_first-prefix (has_hash env token) (update_where (has_hash env token) revoked ts)
                _
                (find_first-update_where (has_hash env token) (has_hash env token) revoked ts
                    (λ t. refl)
                  ∙ ap (Option.map (λ t. if has_hash env token t then revoked t else t)) m.found
                  ∙ ground (arith, find_first_sound (has_hash env token) ts m.found)),
        refl,
      )

  -- A refresh token works once: after a rotation, and any sign-ins, rotations and logouts after it,
  -- the rotated token is refused, and the refusal leaves the table as it is.
  pub refresh_works_once :
      (now token new_token later again : ℕ) (ts : Tokens) {mid after : Tokens}
      → refresh env now token new_token ts ≡ (ok tt, mid)
      → Reach mid after
      → refresh env later token again after ≡ (err unauthorized, after)
  refresh_works_once now token new_token later again ts {mid} {after} h r =
      revoked_refused later token again after
        (Reach-IsRevoked token r (spent-IsRevoked now token new_token ts h))

  -- A token of the table that a client logs out with is refused after it, whatever sign-ins,
  -- rotations and logouts follow, and the refusal leaves the table as it is.
  pub logout_is_final :
      (token later again : ℕ) (ts : Tokens) {s : RefreshToken} {after : Tokens}
      → get_refresh_token env token ts ≡ some s
      → Reach (logout env token ts) after
      → refresh env later token again after ≡ (err unauthorized, after)
  unfolding logout revoke_refresh_token get_refresh_token IsRevoked
  logout_is_final token later again ts {s} {after} f r = revoked_refused later token again after (
      Reach-IsRevoked token r (
        revoked s,
        find_first-update_where (has_hash env token) (has_hash env token) revoked ts (λ t. refl)
            ∙ ap (Option.map (λ t. if has_hash env token t then revoked t else t)) f
            ∙ ground (arith, find_first_sound (has_hash env token) ts f),
        refl,
      ))

  -- Whoever presents a token that was rotated is refused, but the family's newest token stays live:
  -- right after the rotation and the refused reuse it is in the table and not revoked.
  pub reuse_keeps_family :
      (now token new_token later again : ℕ) (ts : Tokens) {mid : Tokens}
      → refresh env now token new_token ts ≡ (ok tt, mid)
      → (s : RefreshToken) × (get_refresh_token env new_token
            ((refresh env later token again mid).1)
          ≡ some s)
        × (s.is_revoked ≡ false)
  unfolding get_refresh_token
  reuse_keeps_family now token new_token later again ts {mid} h =
      let m = refresh-Rotated env now token new_token ts h in
      let n = row env now m.uid new_token m.stored.token_family (m.stored.token_sequence + 1) in
      rw (refresh_works_once now token new_token later again ts h here) (
        n,
        ap (find_first (has_hash env new_token)) m.made
            ∙ find_first_last (has_hash env new_token)
                (update_where (has_hash env token) revoked ts) n
                (any-update_where (has_hash env new_token) (has_hash env token) revoked ts
                    (λ t. refl)
                  ∙ m.unused)
                (ground arith),
        refl,
      )
