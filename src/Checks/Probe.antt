-- ===== src/Checks/Probe.antt =====
-- The redirect loop of `execute_check` in app/modules/checks/service.py. Addresses and pinned
-- targets are numbers.
use reliastra_backend.Prelude.{
  ℕ, zero, suc, ◌+◌, ◌≤◌, ◌≡◌, Bool, Option, none, some, String, List, [], ◌∷◌, length, All, any,
  ◌==◌, arith, if◌then◌else◌, Option-cases, inl, inr,
}

pub record Response : Type 0 where
  pub status_code : ℕ
  pub location : Option ℕ

pub data Outcome : Type 0 where
  answered : ℕ → Outcome
  too_many_redirects : ℕ → Outcome
  redirect_blocked : ℕ → Outcome
  raised : Outcome

-- `resolve_pinned_target` of app/core/ssrf_protection.py, where `none` is its ValueError, and one
-- request of the HTTP client, where `none` is an exception, both by their number in the check;
-- `urljoin`;
-- the message of an outcome that is not up, and that of an address that is blocked at once.
pub record Web : Type 0 where
  pub resolve_pinned_target : ℕ → ℕ → Option ℕ
  pub request : ℕ → ℕ → ℕ → Option Response
  pub urljoin : ℕ → ℕ → ℕ
  pub error_text : Outcome → String
  pub blocked_text : ℕ → String

-- The requests that were sent, each with its target and address, and how the loop ended.
pub record Trace : Type 0 where
  pub requests : List (ℕ × ℕ)
  pub outcome : Outcome

abbrev pub is_redirect : ℕ → Bool
is_redirect status = any (λ s. s == status) (301 ∷ 302 ∷ 303 ∷ 307 ∷ 308 ∷ [])

abbrev pub max_redirects : ℕ
max_redirects = 5

-- `response.headers.get("location")` of a redirect
abbrev pub redirect_to : Response → Option ℕ
redirect_to r = if is_redirect r.status_code then r.location else none

abbrev pub sent : ℕ → ℕ → Trace → Trace
sent target url t = record t { requests = (target, url) ∷ t.requests }

abbrev pub ended : ℕ → ℕ → Outcome → Trace
ended target url o = record { requests = (target, url) ∷ []; outcome = o }

module _ (web : Web) where
  -- The loop, with the redirects that are left and the number of the request.
  unfoldable pub follow : ℕ → ℕ → ℕ → ℕ → Trace
  follow zero hop target url = elim (web.request hop target url) [
    | none ↦ ended target url raised
    | some r ↦ elim (redirect_to r) [
      | none ↦ ended target url (answered r.status_code)
      | some loc ↦ ended target url (too_many_redirects r.status_code)
    ]
  ]
  follow (suc left) hop target url = elim (web.request hop target url) [
    | none ↦ ended target url raised
    | some r ↦ elim (redirect_to r) [
      | none ↦ ended target url (answered r.status_code)
      | some loc ↦ elim (web.resolve_pinned_target (hop + 1) (web.urljoin url loc)) [
        | none ↦ ended target url (redirect_blocked r.status_code)
        | some next ↦ sent target url (follow left (hop + 1) next (web.urljoin url loc))
      ]
    ]
  ]

  -- A request goes to a target that the policy gave for its address in the check.
  abbrev pub IsValidated : ℕ × ℕ → Type 0
  IsValidated (target, url) = (n : ℕ) × (web.resolve_pinned_target n url ≡ some target)

  IsSafe : ℕ → Trace → Type 0
  IsSafe n t = (length t.requests ≤ n) × All IsValidated t.requests

  ended-IsSafe :
      (n target url : ℕ) (o : Outcome)
      → IsValidated (target, url)
      → IsSafe (n + 1) (ended target url o)
  unfolding IsSafe
  ended-IsSafe n target url o v = (omega arith, (v, tt))

  sent-IsSafe :
      (n target url : ℕ) (t : Trace)
      → IsValidated (target, url)
      → IsSafe n t
      → IsSafe (n + 1) (sent target url t)
  unfolding IsSafe
  sent-IsSafe n target url t v (l, all) = (omega (arith, l), (v, all))

  suc-IsSafe : (n : ℕ) (t : Trace) → IsSafe (n + 1) t → IsSafe (suc n) t
  unfolding IsSafe
  suc-IsSafe n t (l, all) = (omega (arith, l), all)

  follow-IsSafe :
      (left hop target url : ℕ)
      → IsValidated (target, url)
      → IsSafe (left + 1) (follow left hop target url)
  unfolding follow
  follow-IsSafe zero hop target url v = elim (Option-cases (web.request hop target url)) [
    | inl e ↦ rw (e, follow) (ended-IsSafe 0 target url _ v)
    | inr (r, e) ↦ elim (Option-cases (redirect_to r)) [
      | inl f ↦ rw (e, follow, f) (ended-IsSafe 0 target url _ v)
      | inr (loc, f) ↦ rw (e, follow, f) (ended-IsSafe 0 target url _ v)
    ]
  ]
  follow-IsSafe (suc left) hop target url v = elim (Option-cases (web.request hop target url)) [
    | inl e ↦ rw (e, follow) (ended-IsSafe (suc left) target url _ v)
    | inr (r, e) ↦ elim (Option-cases (redirect_to r)) [
      | inl f ↦ rw (e, follow, f) (ended-IsSafe (suc left) target url _ v)
      | inr (loc, f) ↦
          elim (Option-cases (web.resolve_pinned_target (hop + 1) (web.urljoin url loc))) [
            | inl g ↦ rw (e, follow, f, g) (ended-IsSafe (suc left) target url _ v)
            | inr (next, g) ↦
                rw (e, follow, f, g)
                  (sent-IsSafe (suc left) target url
                    (follow left (hop + 1) next (web.urljoin url loc)) v
                    (suc-IsSafe left _
                      (follow-IsSafe left (hop + 1) next (web.urljoin url loc) (hop + 1, g))))
          ]
    ]
  ]

  -- From a validated address, a check sends at most six requests, and each of them goes to the
  -- target that the policy gave for the address it asks for, redirects included.
  pub follow_is_safe :
      (target url : ℕ)
      → web.resolve_pinned_target 0 url ≡ some target
      → (length (follow max_redirects 0 target url).requests ≤ 6)
        × All IsValidated (follow max_redirects 0 target url).requests
  unfolding IsSafe
  follow_is_safe target url v = follow-IsSafe 5 0 target url (0, v)
