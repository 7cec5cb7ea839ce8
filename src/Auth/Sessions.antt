-- ===== src/Auth/Sessions.antt =====
-- The life of the refresh tokens as a step relation: sign-in, rotation and logout in any order.
use reliastra_backend.Prelude.{
  ℕ, ◌+◌, ◌≡◌, refl, sym, ap, ◌∙◌, Bool, true, false, some, List, [], ◌∷◌, ◌++◌, ltb, ◌==◌, any,
  find_first, update_where, All, arith, Bool-cases, inl, inr,
}
use reliastra_backend.Prelude.Result.{ok, Result-cases}
use reliastra_backend.Auth.Tokens.{
  RefreshToken, Outside, Tokens, has_hash, get_refresh_token, create_refresh_token,
  revoke_refresh_token, get_latest_sequence, presented, rotate, refresh_in_session, refresh,
}
use reliastra_backend.Auth.Rotation.{Succeeds, revoked, update_where-append}

pub find_first-any :
    {A : Type 0} (q : A → Bool) (ts : List A) {s : A} → find_first q ts ≡ some s → any q ts ≡ true
find_first-any q [] h = absurd (ground (arith, h))
find_first-any q (t ∷ ts) h = elim (Bool-cases (q t)) [
  | inl e ↦ rw e refl
  | inr e ↦ rw e (find_first-any q ts (rw e at h))
]

-- No token is in the family.
abbrev pub IsNewFamily : ℕ → Tokens → Type 0
IsNewFamily family ts = any (λ t. t.token_family == family) ts ≡ false

pub new_family-Succeeds :
    (n : RefreshToken) (ts : Tokens) → IsNewFamily n.token_family ts → All (λ t. Succeeds t n) ts
new_family-Succeeds n [] h = tt
new_family-Succeeds n (t ∷ ts) h =
    (λ e. absurd (ground (arith, e, h)), new_family-Succeeds n ts (ground (arith, h)))

module _ (env : Outside) where
  -- The row of a new token.
  abbrev pub row : ℕ → ℕ → ℕ → ℕ → ℕ → RefreshToken
  row now uid token family sequence = record {
    user_id = uid;
    token_hash = env.sha256 token;
    token_family = family;
    token_sequence = sequence;
    is_revoked = false;
    expires_at = now + env.lifetime;
  }

  presented_ok :
      (token : ℕ) (ts : Tokens) {s : RefreshToken} {uid : ℕ}
      → presented env token ts ≡ ok (s, uid)
      → (find_first (has_hash env token) ts ≡ some s) × (s.is_revoked ≡ false)
  unfolding presented get_refresh_token
  presented_ok token ts {s} {uid} h = ground (arith, h)

  pub create_ok :
      (now uid token family sequence : ℕ) (ts : Tokens) {after : Tokens}
      → create_refresh_token env uid token (now + env.lifetime) family sequence ts ≡ ok after
      → (any (has_hash env token) ts ≡ false)
        × (after ≡ ts ++ row now uid token family sequence ∷ [])
  unfolding create_refresh_token
  create_ok now uid token family sequence ts h = ground (arith, h)

  -- What a rotation has found and made.
  pub record Rotated (now token new_token : ℕ) (ts after : Tokens) : Type 0 where
    pub stored : RefreshToken
    pub uid : ℕ
    pub found : find_first (has_hash env token) ts ≡ some stored
    pub live : stored.is_revoked ≡ false
    pub unused : any (has_hash env new_token) ts ≡ false
    pub made :
        after
        ≡ update_where (has_hash env token) revoked ts
          ++ row now uid new_token stored.token_family (stored.token_sequence + 1) ∷ []

  pub other_hash :
      (token new_token : ℕ) (ts : Tokens) {s : RefreshToken}
      → find_first (has_hash env token) ts ≡ some s
      → any (has_hash env new_token) ts ≡ false
      → (env.sha256 new_token == env.sha256 token) ≡ false
  other_hash token new_token ts h k = elim (Bool-cases (env.sha256 new_token == env.sha256 token)) [
    | inl e ↦
        let i = find_first-any (has_hash env token) ts h in
        let j : env.sha256 new_token ≡ env.sha256 token = ground (arith, e) in
        absurd (ground (arith, i, k, ap (λ m. any (λ (t : RefreshToken). t.token_hash == m) ts) j))
    | inr e ↦ e
  ]

  rotate-Rotated :
      (now token new_token uid : ℕ) (ts : Tokens) {s : RefreshToken} {after : Tokens}
      → find_first (has_hash env token) ts ≡ some s
      → s.is_revoked ≡ false
      → rotate env now token new_token s uid ts ≡ ok after
      → Rotated now token new_token ts after
  unfolding rotate revoke_refresh_token
  rotate-Rotated now token new_token uid ts {s} {after} f l h =
      elim (Result-cases (
        create_refresh_token env uid new_token (now + env.lifetime) s.token_family
          (s.token_sequence + 1) ts)) [
            | inl (e, k) ↦ absurd (ground (arith, rw k at h))
            | inr (created, k) ↦
                let (u, m) =
                  create_ok now uid new_token s.token_family (s.token_sequence + 1) ts k in
                let w =
                  update_where-append (has_hash env token) ts _
                    (other_hash token new_token ts f u) in
                record {
                  stored = s;
                  uid = uid;
                  found = f;
                  live = l;
                  unused = u;
                  made =
                      sym (ground (arith, rw k at h))
                      ∙ ap (update_where (has_hash env token) revoked) m
                      ∙ w;
                }
          ]

  pub refresh-Rotated :
      (now token new_token : ℕ) (ts : Tokens) {after : Tokens}
      → refresh env now token new_token ts ≡ (ok tt, after)
      → Rotated now token new_token ts after
  unfolding refresh refresh_in_session
  refresh-Rotated now token new_token ts {after} h = elim (Result-cases (presented env token ts)) [
    | inl (e, k) ↦ absurd (ground (arith, rw (k, refresh, refresh_in_session) at h))
    | inr ((s, uid), k) ↦
        let (f, l) = presented_ok token ts k in
        elim (Bool-cases (ltb s.token_sequence (get_latest_sequence s.token_family ts))) [
          | inl e ↦ absurd (ground (arith, rw (k, refresh, refresh_in_session, e) at h))
          | inr e ↦ elim (Result-cases (rotate env now token new_token s uid ts)) [
            | inl (x, r) ↦ absurd (ground (arith, rw (k, refresh, refresh_in_session, e, r) at h))
            | inr (next, r) ↦
                rotate-Rotated now token new_token uid ts f l
                  (r ∙ ap ok (ground (arith, rw (k, refresh, refresh_in_session, e, r) at h)))
          ]
        ]
  ]
