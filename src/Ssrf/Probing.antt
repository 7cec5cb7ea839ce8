-- ===== src/Ssrf/Probing.antt =====
-- The policy in the checks: where the requests of a check go.
use reliastra_backend.Prelude.{
  ℕ, ◌+◌, ◌*◌, ◌≤◌, ◌≡◌, sym, true, Option, none, some, List, [], ◌∷◌, length, All, arith,
  Option-cases, inl, inr,
}
use reliastra_backend.Checks.Probe.{Web, follow, max_redirects, IsValidated, follow_is_safe}
use reliastra_backend.Ssrf.Address.{Ip, v4, v6, is_public_ip}
use reliastra_backend.Ssrf.Policy.{
  Url, PinnedTarget, Resolver, resolve_pinned_target, pinned_is_public,
}

-- The checks number the targets: a target is the first address that was pinned, which
-- `pinned_transport_for` connects to.
abbrev pub target_of : Ip → ℕ
target_of (v4 a) = a * 2
target_of (v6 a) = a * 2 + 1

abbrev pub pinned : Option PinnedTarget → Option ℕ
pinned none = none
pinned (some t) = some (target_of t.first)

-- Each resolution looks the host up twice.
abbrev pub guarded : Resolver → (ℕ → Url) → Web → Web
guarded dns urls web = record web {
  resolve_pinned_target = λ n u. pinned (resolve_pinned_target dns (n * 2) (urls u));
}

-- The target is an address in none of the blocked networks.
abbrev pub IsAcceptedTarget : ℕ × ℕ → Type 0
IsAcceptedTarget (target, url) = (ip : Ip) × (target ≡ target_of ip) × (is_public_ip ip ≡ true)

All-map :
    {P Q : ℕ × ℕ → Type 0} (rs : List (ℕ × ℕ)) → ((r : ℕ × ℕ) → P r → Q r) → All P rs → All Q rs
All-map [] f h = tt
All-map (r ∷ rs) f h = (f r h.0, All-map rs f h.1)

validated-IsAcceptedTarget :
    (dns : Resolver) (urls : ℕ → Url) (web : Web) (r : ℕ × ℕ)
    → IsValidated (guarded dns urls web) r
    → IsAcceptedTarget r
validated-IsAcceptedTarget dns urls web (target, url) (n, h) =
    elim (Option-cases (resolve_pinned_target dns (n * 2) (urls url))) [
      | inl e ↦ absurd (ground (arith, rw e at h))
      | inr (t, e) ↦ (
        t.first,
        sym (ground (arith, rw e at h)),
        (pinned_is_public dns (n * 2) (urls url) e).0.0,
      )
    ]

-- Over the SSRF policy, whatever the resolver and the servers answer, a check whose first address is
-- accepted sends at most six requests, and each of them goes to an address that `_is_public_ip`
-- accepts, the targets of redirects included: one outside of the eight blocked networks. The networks
-- do not include the IPv4-mapped forms of their members.
pub requests_are_accepted :
    (dns : Resolver) (urls : ℕ → Url) (web : Web) (target url : ℕ)
    → (guarded dns urls web).resolve_pinned_target 0 url ≡ some target
    → (length (follow (guarded dns urls web) max_redirects 0 target url).requests ≤ 6)
      × All IsAcceptedTarget (follow (guarded dns urls web) max_redirects 0 target url).requests
requests_are_accepted dns urls web target url v =
    let (l, all) = follow_is_safe (guarded dns urls web) target url v in
    (l, All-map _ (validated-IsAcceptedTarget dns urls web) all)
