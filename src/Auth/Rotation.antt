-- ===== src/Auth/Rotation.antt =====
-- The rotation of refresh tokens: in a family only the newest token can be live.
use reliastra_backend.Prelude.{
  ◌+◌, ◌≤◌, ◌<◌, ◌≡◌, refl, sym, ap, ◌∙◌, Bool, true, false, some, [], ◌∷◌, ◌++◌, ◌==◌, find_first,
  update_where, if◌then◌else◌, or_else, All, arith, Bool-cases, inl, inr,
}
use mathlib.Core.Path.{subst}
use reliastra_backend.Prelude.Tables.{All-append, All-update_where}
use reliastra_backend.Auth.Tokens.{RefreshToken, Tokens, get_latest_sequence}

-- An older token of the same family is revoked and has a smaller number.
abbrev pub Succeeds : RefreshToken → RefreshToken → Type 0
Succeeds t u =
    t.token_family ≡ u.token_family → (t.is_revoked ≡ true) × (t.token_sequence < u.token_sequence)

-- Every token succeeds the older tokens of its family.
abbrev pub Rotates : Tokens → Type 0
Rotates [] = Unit
Rotates (t ∷ ts) = All (Succeeds t) ts × Rotates ts

abbrev pub revoked : RefreshToken → RefreshToken
revoked t = record t { is_revoked = true }

pub All-map :
    {P Q : RefreshToken → Type 0} (ts : Tokens)
    → ((t : RefreshToken) → P t → Q t)
    → All P ts
    → All Q ts
All-map [] f h = tt
All-map (t ∷ ts) f h = (f t h.0, All-map ts f h.1)

pub Rotates-revoke :
    (p : RefreshToken → Bool) (ts : Tokens) → Rotates ts → Rotates (update_where p revoked ts)
Rotates-revoke p [] h = tt
Rotates-revoke p (t ∷ ts) h = elim (Bool-cases (p t)) [
  | inl e ↦ rw e (
    All-update_where _ p revoked ts (λ x k l. l) (All-map ts (λ x k l. (refl, (k l).1)) h.0),
    Rotates-revoke p ts h.1,
  )
  | inr e ↦ rw e (All-update_where _ p revoked ts (λ x k l. l) h.0, Rotates-revoke p ts h.1)
]

pub Rotates-append :
    (ts : Tokens) (n : RefreshToken)
    → Rotates ts
    → All (λ t. Succeeds t n) ts
    → Rotates (ts ++ n ∷ [])
Rotates-append [] n h k = (tt, tt)
Rotates-append (t ∷ ts) n h k = (All-append _ ts n h.0 k.0, Rotates-append ts n h.1 k.1)

All-find_first :
    (P : RefreshToken → Type 0) (q : RefreshToken → Bool) (ts : Tokens) {s : RefreshToken}
    → find_first q ts ≡ some s
    → All P ts
    → P s
All-find_first P q [] h k = absurd (ground (arith, h))
All-find_first P q (t ∷ ts) h k = elim (Bool-cases (q t)) [
  | inl e ↦ subst P (ap (λ o. or_else o t) (rw e at h)) k.0
  | inr e ↦ All-find_first P q ts (rw e at h) k.1
]

-- What a live token says of the other tokens of its family: none has a greater number, and only
-- tokens under the same hash are live.
abbrev pub Newest : (RefreshToken → Bool) → RefreshToken → RefreshToken → Type 0
Newest q s t =
    t.token_family ≡ s.token_family
    → (t.token_sequence ≤ s.token_sequence) × (q t ≡ false → t.is_revoked ≡ true)

pub found_live :
    (q : RefreshToken → Bool) (ts : Tokens) {s : RefreshToken}
    → Rotates ts
    → find_first q ts ≡ some s
    → s.is_revoked ≡ false
    → All (Newest q s) ts
found_live q [] r h l = tt
found_live q (t ∷ ts) {s} r h l = elim (Bool-cases (q t)) [
  | inl e ↦
      let i = ap (λ o. or_else o t) (rw e at h) in
      (
        λ k. (ground (arith, i), λ f. absurd (ground (arith, e, f))),
        All-map ts
            (λ u k f.
              absurd
                (ground (arith, i, l, (k (ap (λ (x : RefreshToken). x.token_family) i ∙ sym f)).0)))
            r.0,
      )
  | inr e ↦
      let k = All-find_first (Succeeds t) q ts (rw e at h) r.0 in
      (λ f. (ground (arith, (k f).1), λ g. (k f).0), found_live q ts r.1 (rw e at h) l)
]

latest-Newest :
    (q : RefreshToken → Bool) (s : RefreshToken) (ts : Tokens)
    → All (Newest q s) ts
    → get_latest_sequence s.token_family ts ≤ s.token_sequence
latest-Newest q s [] h = omega arith
latest-Newest q s (t ∷ ts) h = elim (Bool-cases (t.token_family == s.token_family)) [
  | inl e ↦ ground (arith, (h.0 (ground (arith, e))).0, latest-Newest q s ts h.1)
  | inr e ↦ ground (arith, e, latest-Newest q s ts h.1)
]

-- A live token has the latest number of its family.
pub live-latest :
    (q : RefreshToken → Bool) (ts : Tokens) {s : RefreshToken}
    → Rotates ts
    → find_first q ts ≡ some s
    → s.is_revoked ≡ false
    → get_latest_sequence s.token_family ts ≤ s.token_sequence
live-latest q ts {s} r h l = latest-Newest q s ts (found_live q ts r h l)

pub All-Succeeds-revoke :
    (q : RefreshToken → Bool) (s n : RefreshToken) (ts : Tokens)
    → n.token_family ≡ s.token_family
    → n.token_sequence ≡ s.token_sequence + 1
    → All (Newest q s) ts
    → All (λ t. Succeeds t n) (update_where q revoked ts)
All-Succeeds-revoke q s n [] f g h = tt
All-Succeeds-revoke q s n (t ∷ ts) f g h = elim (Bool-cases (q t)) [
  | inl e ↦
      rw e (λ k. (refl, ground (arith, g, (h.0 (k ∙ f)).0)), All-Succeeds-revoke q s n ts f g h.1)
  | inr e ↦ rw e (
    λ k. ((h.0 (k ∙ f)).1 e, ground (arith, g, (h.0 (k ∙ f)).0)),
    All-Succeeds-revoke q s n ts f g h.1,
  )
]

pub update_where-append :
    (q : RefreshToken → Bool) (ts : Tokens) (n : RefreshToken)
    → q n ≡ false
    → update_where q revoked (ts ++ n ∷ []) ≡ update_where q revoked ts ++ n ∷ []
update_where-append q [] n h = rw h refl
update_where-append q (t ∷ ts) n h =
    ap (λ r. (if q t then revoked t else t) ∷ r) (update_where-append q ts n h)
