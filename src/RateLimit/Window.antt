-- ===== src/RateLimit/Window.antt =====
-- The limiter against its specification: the requests of the last window.
use reliastra_backend.Prelude.{
  ℕ, ◌+◌, ◌-◌, ◌≤◌, ◌<◌, ◌≡◌, refl, ap, ◌∙◌, ◌&&◌, List, [], ◌∷◌, leb, ltb, All, count_where,
  if◌then◌else◌, arith,
}
use reliastra_backend.Prelude.Result.{Result, ok, err, is_ok, rate_limited}
use reliastra_backend.RateLimit.Limiter.{SortedSets, Answers, Limiter, window, judge, check}

-- The times of requests, the newest first, in order.
abbrev pub InOrder : List ℕ → Type 0
InOrder [] = Unit
InOrder (t ∷ h) = All (λ u. u ≤ t) h × InOrder h

-- How many of the requests are later than a bound.
abbrev pub later : ℕ → List ℕ → ℕ
later x h = count_where (λ t. ltb x t) h

-- The specification: a request is refused if `limit` requests, refused ones included, came in the
-- window before it.
abbrev pub allowed : Limiter → ℕ → List ℕ → Result (Unit {0})
allowed l now h = if leb l.limit (later (now - window l) h) then err rate_limited else ok tt

later_anti : (x y : ℕ) (h : List ℕ) → x ≤ y → later y h ≤ later x h
later_anti x y [] l = omega arith
later_anti x y (t ∷ h) l = ground (arith, later_anti x y h l)

module _ {Server : Type 0} (redis : SortedSets Server) (l : Limiter) (k : ℕ) where
  -- The server after the requests of an identifier.
  abbrev pub serve : List ℕ → Server → Server
  serve [] s = s
  serve (t ∷ h) s = (check redis l k t (serve h s)).1

  -- How many requests later than a bound were let through.
  abbrev pub admitted : ℕ → List ℕ → Server → ℕ
  admitted x [] s = 0
  admitted x (t ∷ h) s =
      (if ltb x t && is_ok (check redis l k t (serve h s)).0 then 1 else 0) + admitted x h s

  admitted-later : (x : ℕ) (h : List ℕ) (s : Server) → admitted x h s ≤ later x h
  admitted-later x [] s = omega arith
  admitted-later x (t ∷ h) s = ground (arith, admitted-later x h s)

module _ {Server : Type 0} (redis : SortedSets Server) (up : Answers Server redis) (l : Limiter)
    (k : ℕ) where
  check_answers :
      (now : ℕ) (s : Server)
      → (s' : Server) × (check redis l k now s ≡ (judge l (up.above s k (now - window l)), s'))
        × ((x : ℕ)
            → now - window l ≤ x
            → up.above s' k x ≡ up.above s k x + (if ltb x now then 1 else 0))
  unfolding check
  check_answers now s =
      let (s', e) = up.executes s k (now - window l) now in
      (s', rw (e, check) refl, λ x b. up.above-execute s s' k (now - window l) now _ x e b)

  -- The set agrees with the history as far back as the next request can look.
  above-serve :
      (s : Server) (h : List ℕ) (x : ℕ)
      → ((y : ℕ) → up.above s k y ≡ 0)
      → InOrder h
      → All (λ t. t - window l ≤ x) h
      → up.above (serve redis l k h s) k x ≡ later x h
  above-serve s [] x z o b = z x
  above-serve s (t ∷ h) x z o b =
      let (s', e, a) = check_answers t (serve redis l k h s) in
      ap (λ r. up.above r.1 k x) e ∙ omega (arith, a x b.0, above-serve s h x z o.1 b.1)

  sooner-window :
      (now : ℕ) (h : List ℕ) → All (λ t. t ≤ now) h → All (λ t. t - window l ≤ now - window l) h
  sooner-window now [] o = tt
  sooner-window now (t ∷ h) o = (omega (arith, o.0), sooner-window now h o.1)

  -- On a server that answers and has no requests of an identifier, the limiter's answer to each next
  -- request of an ordered history is the one of the specification, which knows the whole history.
  pub check_refines :
      (now : ℕ) (s : Server) (h : List ℕ)
      → ((y : ℕ) → up.above s k y ≡ 0)
      → InOrder (now ∷ h)
      → (check redis l k now (serve redis l k h s)).0 ≡ allowed l now h
  check_refines now s h z o =
      let (s', e, a) = check_answers now (serve redis l k h s) in
      ap (λ r. r.0) e
      ∙ ap (judge l) (above-serve s h (now - window l) z o.1 (sooner-window now h o.0))

  -- On a server that answers and has no requests of an identifier, no window holds more than `limit`
  -- requests of an ordered history that were let through.
  pub admitted_at_most_limit :
      (x : ℕ) (h : List ℕ) (s : Server)
      → ((y : ℕ) → up.above s k y ≡ 0)
      → InOrder h
      → All (λ t. t - window l ≤ x) h
      → admitted redis l k x h s ≤ l.limit
  admitted_at_most_limit x [] s z o b = omega arith
  admitted_at_most_limit x (t ∷ h) s z o b =
      let e = check_refines t s h z o in
      let ih = admitted_at_most_limit x h s z o.1 b.1 in
      let n = admitted-later redis l k x h s in
      let m = later_anti (t - window l) x h b.0 in rw (e, admitted) (ground (arith, ih, n, m))

  -- On a server that answers and has no requests of an identifier, after an ordered history of its
  -- requests, the identifier is let through if it has been silent for a window and the limit is not 0.
  pub silence_is_enough :
      (now : ℕ) (s : Server) (h : List ℕ)
      → ((y : ℕ) → up.above s k y ≡ 0)
      → InOrder (now ∷ h)
      → All (λ t. t + window l ≤ now) h
      → 0 < l.limit
      → (check redis l k now (serve redis l k h s)).0 ≡ ok tt
  silence_is_enough now s h z o q p = check_refines now s h z o ∙ ground (arith, old h q)
    where
      old : (h : List ℕ) → All (λ t. t + window l ≤ now) h → later (now - window l) h ≡ 0
      old [] q = refl
      old (t ∷ h) q = ground (arith, q.0, old h q.1)
