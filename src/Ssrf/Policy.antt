-- ===== src/Ssrf/Policy.antt =====
-- `is_url_safe`, `validate_outbound_url` and `resolve_pinned_target`, over a resolver whose answer can
-- differ from one lookup to the next.
use reliastra_backend.Prelude.{
  ℕ, ◌+◌, ◌≡◌, Bool, true, false, not, ◌&&◌, ◌||◌, Option, none, some, List, [], ◌∷◌, ◌==◌, any,
  All, or_else, arith, if◌then◌else◌, Bool-cases, Option-cases, inl, inr,
}
use mathlib.Core.Path.{subst}
use reliastra_backend.Prelude.Text.{Text, text_eq, lower, codes, is_empty}
use reliastra_backend.Ssrf.Address.{Ip, is_public_ip}

-- What `urllib.parse.urlparse` makes of a URL: the parts that are read. A hostname that is missing is
-- empty; `literal` is the address that the hostname spells, if it spells one. Reading a port that is no
-- number up to 65535 raises.
pub record Url : Type 0 where
  pub scheme : Text
  pub hostname : Text
  pub literal : Option Ip
  pub port : Option ℕ
  pub has_valid_port : Bool

-- `PinnedTarget`, with a first address and the others
pub record PinnedTarget : Type 0 where
  pub hostname : Text
  pub port : ℕ
  pub first : Ip
  pub others : List Ip

-- The answer of `_resolve_hostname` to the n-th lookup of a host; `none` is an entry that
-- `ipaddress.ip_address` does not parse. An error of the resolver is the empty answer.
abbrev pub Resolver : Type 0
Resolver = ℕ → Text → List (Option Ip)

abbrev pub is_blocked : Option Ip → Bool
is_blocked none = false
is_blocked (some ip) = not (is_public_ip ip)

-- `scheme.lower() in {"http", "https"}`
abbrev pub is_allowed_scheme : Text → Bool
is_allowed_scheme s = text_eq (lower s) (codes "http") || text_eq (lower s) (codes "https")

abbrev pub is_nil {ℓ} : {A : Type ℓ} → List A → Bool
is_nil [] = true
is_nil (x ∷ xs) = false

-- `is_url_safe`; the reason is left out. An entry that does not parse is passed over.
unfoldable pub is_url_safe : Resolver → ℕ → Url → Bool
is_url_safe dns n url =
    is_allowed_scheme url.scheme
    && not (is_empty url.hostname)
    && not (is_blocked url.literal)
    && not (is_nil (dns n url.hostname))
    && not (any is_blocked (dns n url.hostname))

-- The second loop: every entry must parse and be public.
unfoldable pub all_public : List (Option Ip) → Option (List Ip)
all_public [] = some []
all_public (none ∷ rs) = none
all_public (some ip ∷ rs) =
    let rest = all_public rs in
    if is_public_ip ip then (elim rest [ none ↦ none | some ips ↦ some (ip ∷ ips) ]) else none

abbrev pub default_port : Text → ℕ
default_port scheme = if text_eq (lower scheme) (codes "https") then 443 else 80

-- `parsed.port or (443 if use_ssl else 80)`
abbrev pub port_of : Url → ℕ
port_of url = elim url.port [
  | none ↦ default_port url.scheme
  | some p ↦ if p == 0 then default_port url.scheme else p
]

-- The target of a URL whose port can be read.
abbrev pub pinned_to : Url → Ip → List Ip → Bool → Option PinnedTarget
pinned_to url ip ips false = none
pinned_to url ip ips true =
    some (record { hostname = url.hostname; port = port_of url; first = ip; others = ips })

abbrev pub pin : Url → List Ip → Option PinnedTarget
pin url [] = none
pin url (ip ∷ ips) = pinned_to url ip ips url.has_valid_port

-- `resolve_pinned_target`, where `none` is a raised `ValueError`
unfoldable pub resolve_pinned_target : Resolver → ℕ → Url → Option PinnedTarget
resolve_pinned_target dns n url =
    if is_url_safe dns n url
    then (elim (all_public (dns (n + 1) url.hostname)) [ none ↦ none | some ips ↦ pin url ips ])
    else none

all_public-All :
    (rs : List (Option Ip)) {ips : List Ip}
    → all_public rs ≡ some ips
    → All (λ ip. is_public_ip ip ≡ true) ips
unfolding all_public
all_public-All [] {ips} h = subst (λ o. All (λ ip. is_public_ip ip ≡ true) (or_else o [])) h tt
all_public-All (none ∷ rs) h = absurd (ground (arith, h))
all_public-All (some ip ∷ rs) {ips} h = elim (Bool-cases (is_public_ip ip)) [
  | inr e ↦ absurd (ground (arith, rw e at h))
  | inl e ↦ elim (Option-cases (all_public rs)) [
    | inl f ↦ absurd (ground (arith, rw (e, f) at h))
    | inr (more, f) ↦
        subst (λ o. All (λ x. is_public_ip x ≡ true) (or_else o [])) (rw (e, f) at h)
          (e, all_public-All rs f)
  ]
]

pin-first :
    (url : Url) (ips : List Ip) {t : PinnedTarget}
    → pin url ips ≡ some t
    → All (λ ip. is_public_ip ip ≡ true) ips
    → All (λ ip. is_public_ip ip ≡ true) (t.first ∷ t.others)
pin-first url [] h k = absurd (ground (arith, h))
pin-first url (ip ∷ ips) {t} h k = elim (Bool-cases url.has_valid_port) [
  | inr e ↦ absurd (ground (arith, rw e at h))
  | inl e ↦
      subst (λ o. All (λ x. is_public_ip x ≡ true) ((or_else o t).first ∷ (or_else o t).others))
        (rw e at h) k
]

-- `_is_public_ip` accepted every address of a pinned target at the lookup that pinned it, whatever the resolver
-- answers from one lookup to the next, and its URL had the scheme http or https.
pub pinned_is_public :
    (dns : Resolver) (n : ℕ) (url : Url) {t : PinnedTarget}
    → resolve_pinned_target dns n url ≡ some t
    → All (λ ip. is_public_ip ip ≡ true) (t.first ∷ t.others)
      × (is_allowed_scheme url.scheme ≡ true)
unfolding resolve_pinned_target is_url_safe
pinned_is_public dns n url {t} h = elim (Bool-cases (is_url_safe dns n url)) [
  | inr e ↦ absurd (ground (arith, rw (e, resolve_pinned_target) at h))
  | inl e ↦ elim (Option-cases (all_public (dns (n + 1) url.hostname))) [
    | inl f ↦ absurd (ground (arith, rw (e, resolve_pinned_target, f) at h))
    | inr (ips, f) ↦ (
      pin-first url ips (rw (e, resolve_pinned_target, f) at h)
          (all_public-All (dns (n + 1) url.hostname) f),
      ground (arith, e),
    )
  ]
]
