-- ===== src/Ssrf/Mapped.antt =====
-- Internal addresses that the policy does not know as such.
use reliastra_backend.Prelude.{
  ℕ, ◌+◌, ◌*◌, ◌^◌, ◌<◌, ◌≡◌, refl, true, false, none, some, [], ◌∷◌, arith,
}
use reliastra_backend.Prelude.Text.{is_empty}
use reliastra_backend.Ssrf.Address.{Ip, v6, is_public_ip}
use reliastra_backend.Ssrf.Policy.{
  Url, Resolver, resolve_pinned_target, is_url_safe, all_public, is_allowed_scheme, port_of,
}

-- `::ffff:a.b.c.d`, the IPv4-mapped form of an address, which a socket connects to over IPv4
abbrev pub mapped : ℕ → Ip
mapped a = v6 (0xffff * 2 ^ 32 + a)

mapped-is_public_ip : (a : ℕ) → a < 2 ^ 32 → is_public_ip (mapped a) ≡ true
unfolding is_public_ip
mapped-is_public_ip a h = ground arith

all_public_one : (ip : Ip) → is_public_ip ip ≡ true → all_public (some ip ∷ []) ≡ some (ip ∷ [])
unfolding all_public
all_public_one ip h = rw h refl

-- A host that resolves to one accepted address is pinned to it.
pub public_is_pinned :
    (dns : Resolver) (n : ℕ) (url : Url) (ip : Ip)
    → is_allowed_scheme url.scheme ≡ true
    → is_empty url.hostname ≡ false
    → url.literal ≡ none
    → url.has_valid_port ≡ true
    → ((m : ℕ) → dns m url.hostname ≡ some ip ∷ [])
    → is_public_ip ip ≡ true
    → resolve_pinned_target dns n url
      ≡ some (record { hostname = url.hostname; port = port_of url; first = ip; others = [] })
unfolding resolve_pinned_target is_url_safe
public_is_pinned dns n url ip s h l v d p =
    let safe : is_url_safe dns n url ≡ true = simp (s, h, l, d n, p) refl in
    rw (safe, resolve_pinned_target, d (n + 1), all_public_one ip p, v) refl

-- Every IPv4 address, loopback and private ones included, is accepted in its IPv4-mapped form: a URL of
-- the scheme http or https and with a valid port, whose host is a name that resolves to
-- `::ffff:a.b.c.d`, is pinned to that address.
pub mapped_address_is_pinned :
    (dns : Resolver) (n : ℕ) (url : Url) (a : ℕ)
    → is_allowed_scheme url.scheme ≡ true
    → is_empty url.hostname ≡ false
    → url.literal ≡ none
    → url.has_valid_port ≡ true
    → ((m : ℕ) → dns m url.hostname ≡ some (mapped a) ∷ [])
    → a < 2 ^ 32
    → resolve_pinned_target dns n url
      ≡ some (record { hostname = url.hostname; port = port_of url; first = mapped a; others = [] })
mapped_address_is_pinned dns n url a s h l v d b =
    public_is_pinned dns n url (mapped a) s h l v d (mapped-is_public_ip a b)
