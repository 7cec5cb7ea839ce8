-- ===== src/Ssrf/Address.antt =====
-- The networks of `_BLOCKED_NETWORKS`, and membership of an address in them. An address is its
-- version and its number.
use reliastra_backend.Prelude.{
  ℕ, ◌+◌, ◌*◌, ◌-◌, ◌/◌, ◌^◌, Bool, false, not, List, [], ◌∷◌, any, ◌==◌,
}

pub data Ip : Type 0 where
  v4 : ℕ → Ip
  v6 : ℕ → Ip

-- A network: a base address and the length of the prefix that its members share with it.
pub record Network : Type 0 where
  pub base : Ip
  pub prefix : ℕ

-- Two addresses of one version share their first bits.
abbrev shares : Ip → Ip → ℕ → Bool
shares (v4 a) (v4 b) p = a / 2 ^ (32 - p) == b / 2 ^ (32 - p)
shares (v6 a) (v6 b) p = a / 2 ^ (128 - p) == b / 2 ^ (128 - p)
shares (v4 a) (v6 b) p = false
shares (v6 a) (v4 b) p = false

-- `ip in net`: an address of the other version is in no network
abbrev pub is_in : Ip → Network → Bool
is_in ip net = shares ip net.base net.prefix

-- `a.b.c.d`
abbrev pub octets : ℕ → ℕ → ℕ → ℕ → ℕ
octets a b c d = a * 2 ^ 24 + b * 2 ^ 16 + c * 2 ^ 8 + d

-- An IPv6 address that begins with a group of 16 bits and goes on with zeros.
abbrev pub group : ℕ → ℕ
group g = g * 2 ^ 112

pub blocked_networks : List Network
blocked_networks =
    record { base = v4 (octets 10 0 0 0); prefix = 8 }
    ∷ record { base = v4 (octets 172 16 0 0); prefix = 12 }
    ∷ record { base = v4 (octets 192 168 0 0); prefix = 16 }
    ∷ record { base = v4 (octets 127 0 0 0); prefix = 8 }
    ∷ record { base = v4 (octets 169 254 0 0); prefix = 16 }
    ∷ record { base = v6 1; prefix = 128 }
    ∷ record { base = v6 (group 0xfc00); prefix = 7 }
    ∷ record { base = v6 (group 0xfe80); prefix = 10 }
    ∷ []

-- `_is_public_ip` of an address that parses
unfoldable pub is_public_ip : Ip → Bool
unfolding blocked_networks
is_public_ip ip = not (any (is_in ip) blocked_networks)
