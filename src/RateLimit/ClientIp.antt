-- ===== src/RateLimit/ClientIp.antt =====
-- `client_ip_from_request`: which entry of X-Forwarded-For is taken for the client.
use reliastra_backend.Prelude.{
  ℕ, zero, suc, ◌-◌, ◌≤◌, ◌≡◌, sym, Bool, true, false, Option, none, some, List, [], ◌∷◌, ◌++◌, leb,
  length, arith, or_else, ◌⊎◌, ap, ◌∙◌, length-append, if◌then◌else◌, Bool-cases, inl, inr,
}
use mathlib.Core.Path.{subst}
use reliastra_backend.Prelude.Text.{Text}

-- `hops[i]` for an index in range
abbrev pub get_elem? {ℓ} : {A : Type ℓ} → List A → ℕ → Option A
get_elem? [] i = none
get_elem? (x ∷ xs) zero = some x
get_elem? (x ∷ xs) (suc i) = get_elem? xs i

-- `hops[-n]`
abbrev pub from_end : List Text → ℕ → Option Text
from_end hops n = get_elem? hops (length hops - n)

-- `hops[-1] if len(hops) <= trusted else hops[-trusted]`
abbrev pub candidate : ℕ → List Text → Option Text
candidate trusted hops =
    if leb (length hops) trusted then from_end hops 1 else from_end hops trusted

-- An entry that is an address, or the peer of the socket.
abbrev pub entry_or_peer : (Text → Bool) → Option Text → Option Text → Text → Text
entry_or_peer is_address none peer unknown = or_else peer unknown
entry_or_peer is_address (some c) peer unknown = if is_address c then c else or_else peer unknown

-- `client_ip_from_request`, from the entries of the header that are not blank, the test whether a text
-- is an address, and the peer of the socket. Of no entries, there is no candidate.
unfoldable pub client_ip : (Text → Bool) → ℕ → List Text → Option Text → Text → Text
client_ip is_address trusted hops peer unknown =
    entry_or_peer is_address (candidate trusted hops) peer unknown

get_elem?-append :
    {A : Type 0} (xs ys : List A)
    → get_elem? (xs ++ ys) (length (xs ++ ys) - length ys) ≡ get_elem? ys 0
get_elem?-append [] ys = ground arith
get_elem?-append (x ∷ xs) ys =
    subst (λ n. get_elem? (x ∷ (xs ++ ys)) n ≡ get_elem? ys 0)
      (sym (suc_minus (length (xs ++ ys)) (length ys) (omega (arith, length-append xs ys))))
      (get_elem?-append xs ys)
  where
    suc_minus : (a b : ℕ) → b ≤ a → suc a - b ≡ suc (a - b)
    suc_minus a b h = omega arith

client_ip_valid :
    (is_address : Text → Bool) (trusted : ℕ) (hops : List Text) (peer : Option Text)
    (unknown c : Text)
    → candidate trusted hops ≡ some c
    → is_address c ≡ true
    → client_ip is_address trusted hops peer unknown ≡ c
unfolding client_ip
client_ip_valid is_address trusted hops peer unknown c e h =
    ap (λ o. entry_or_peer is_address o peer unknown) e
    ∙ ap (λ b. if b then c else or_else peer unknown) h

-- What a client writes into X-Forwarded-For does not matter: behind `trusted` proxies, each of which
-- appends an entry, the address is the entry of the outermost proxy, whatever entries, one at least,
-- the client sends before it, as long as that entry is an address.
pub client_ip_ignores_client :
    (is_address : Text → Bool) (spoofed : Text) (more : List Text) (seen : Text) (inner : List Text)
    (peer : Option Text) (unknown : Text)
    → is_address seen ≡ true
    → client_ip is_address (length (seen ∷ inner)) ((spoofed ∷ more) ++ seen ∷ inner) peer unknown
      ≡ seen
client_ip_ignores_client is_address spoofed more seen inner peer unknown h =
    client_ip_valid is_address (length (seen ∷ inner)) ((spoofed ∷ more) ++ seen ∷ inner) peer
      unknown seen
      (outermost
        (Bool-cases (leb (length ((spoofed ∷ more) ++ seen ∷ inner)) (length (seen ∷ inner)))))
      h
  where
    outermost :
        (leb (length ((spoofed ∷ more) ++ seen ∷ inner)) (length (seen ∷ inner)) ≡ true)
          ⊎ (leb (length ((spoofed ∷ more) ++ seen ∷ inner)) (length (seen ∷ inner)) ≡ false)
        → candidate (length (seen ∷ inner)) ((spoofed ∷ more) ++ seen ∷ inner) ≡ some seen
    outermost (inl e) = absurd (ground (arith, e, length-append (spoofed ∷ more) (seen ∷ inner)))
    outermost (inr e) =
        ap
          (λ b.
            if b
            then from_end ((spoofed ∷ more) ++ seen ∷ inner) 1
            else from_end ((spoofed ∷ more) ++ seen ∷ inner) (length (seen ∷ inner)))
          e
        ∙ get_elem?-append (spoofed ∷ more) (seen ∷ inner)
