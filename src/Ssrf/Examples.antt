-- ===== src/Ssrf/Examples.antt =====
-- The theorems on the SSRF policy at concrete hosts, and tests.
use reliastra_backend.Prelude.{
  zero, suc, ◌+◌, ◌*◌, ◌≤◌, ◌≡◌, refl, true, none, some, [], ◌∷◌, length, All, arith,
}
use reliastra_backend.Prelude.Text.{codes, lower}
use reliastra_backend.Checks.Probe.{Web, follow, max_redirects}
use reliastra_backend.Ssrf.Address.{Ip, v4, octets, is_public_ip}
use reliastra_backend.Ssrf.Policy.{
  Url, PinnedTarget, Resolver, resolve_pinned_target, is_url_safe, all_public, is_allowed_scheme,
}
use reliastra_backend.Ssrf.Probing.{guarded, IsAcceptedTarget, requests_are_accepted}
use reliastra_backend.Ssrf.Mapped.{mapped, mapped_address_is_pinned}

abbrev site : Url
site = record {
  scheme = codes "HTTPS";
  hostname = codes "a.test";
  literal = none;
  port = none;
  has_valid_port = true;
}

abbrev pinned_site : Ip → PinnedTarget
pinned_site ip = record { hostname = codes "a.test"; port = 443; first = ip; others = [] }

-- A resolver that knows one public address.
abbrev honest : Resolver
honest n host = some (v4 (octets 93 184 216 34)) ∷ []

-- A resolver that turns to the metadata service at the second lookup.
abbrev rebinding : Resolver
rebinding zero host = some (v4 (octets 93 184 216 34)) ∷ []
rebinding (suc n) host = some (v4 (octets 169 254 169 254)) ∷ []

honest-site : resolve_pinned_target honest 0 site ≡ some (pinned_site (v4 (octets 93 184 216 34)))
unfolding resolve_pinned_target is_url_safe all_public is_public_ip lower
honest-site = refl

rebinding_is_blocked : resolve_pinned_target rebinding 0 site ≡ none
unfolding resolve_pinned_target is_url_safe all_public is_public_ip lower
rebinding_is_blocked = refl

-- Every address is the site's; every answer redirects.
abbrev web : Web
web = record {
  resolve_pinned_target = λ n u. none;
  request = λ n t u. some (record { status_code = 302; location = some 1 });
  urljoin = λ u l. u + l;
  error_text = λ o. "";
  blocked_text = λ u. "";
}

accepted :
    (guarded honest (λ u. site) web).resolve_pinned_target 0 100 ≡ some (octets 93 184 216 34 * 2)
unfolding resolve_pinned_target is_url_safe all_public is_public_ip lower
accepted = refl

requests_are_accepted_example :
    (length
        (follow
          (guarded honest (λ u. site) web)
          max_redirects
          0
          (octets 93 184 216 34 * 2)
          100).requests
      ≤ 6)
    × All IsAcceptedTarget
        (follow
          (guarded honest (λ u. site) web)
          max_redirects
          0
          (octets 93 184 216 34 * 2)
          100).requests
requests_are_accepted_example =
    requests_are_accepted honest (λ u. site) web (octets 93 184 216 34 * 2) 100 accepted

-- The loopback address in its IPv4-mapped form.
abbrev loopback : Resolver
loopback n host = some (mapped (octets 127 0 0 1)) ∷ []

https : is_allowed_scheme (codes "HTTPS") ≡ true
unfolding lower
https = refl

mapped_address_is_pinned_example :
    resolve_pinned_target loopback 0 site ≡ some (pinned_site (mapped (octets 127 0 0 1)))
unfolding lower
mapped_address_is_pinned_example =
    mapped_address_is_pinned loopback 0 site (octets 127 0 0 1) https refl refl refl (λ m. refl)
      (omega arith)

-- `0.0.0.0`, which a socket takes for the local host, is in no blocked network.
any_address_is_public : is_public_ip (v4 0) ≡ true
unfolding is_public_ip
any_address_is_public = refl
