-- ===== src/RateLimit/Examples.antt =====
-- A server in memory, and the theorems on the rate limiter at concrete requests.
use reliastra_backend.Prelude.{
  ℕ, ◌+◌, ◌≡◌, ◌≢◌, ◌≤◌, refl, Bool, true, ◌&&◌, Option, none, some, List, [], ◌∷◌, ltb, ◌==◌,
  count_where, select, arith, if◌then◌else◌,
}
use mathlib.Core.Path.{subst}
use reliastra_backend.Prelude.Result.{ok, err, rate_limited}
use reliastra_backend.Prelude.Text.{Text, text_eq, codes}
use reliastra_backend.RateLimit.Limiter.{SortedSets, Answers, Limiter, check}
use reliastra_backend.RateLimit.Window.{
  InOrder, serve, admitted, allowed, check_refines, admitted_at_most_limit, silence_is_enough,
}

-- The members of all sets: key and score.
abbrev Members : Type 0
Members = List (ℕ × ℕ)

abbrev count : ℕ → ℕ → Members → ℕ
count k x s = count_where (λ m. m.0 == k && ltb x m.1) s

-- ZREMRANGEBYSCORE
abbrev expire : ℕ → ℕ → Members → Members
expire k start s = select (λ m. if m.0 == k then ltb start m.1 else true) s

abbrev in_memory : SortedSets Members
in_memory = record {
  execute = λ s k start now. some (count k start s, (k, now) ∷ expire k start s);
}

count-expire :
    (s : Members) (k start x : ℕ) → start ≤ x → count k x (expire k start s) ≡ count k x s
count-expire [] k start x h = refl
count-expire (m ∷ s) k start x h = ground (arith, h, count-expire s k start x h)

count-expire_other :
    (s : Members) (k l start x : ℕ) → k ≢ l → count l x (expire k start s) ≡ count l x s
count-expire_other [] k l start x h = refl
count-expire_other (m ∷ s) k l start x h = ground (arith, h, count-expire_other s k l start x h)

after_of : Option (ℕ × Members) → Members → Members
after_of none s = s
after_of (some r) s = r.1

answers : Answers Members in_memory
unfolding after_of
answers = record {
  above = λ s k x. count k x s;
  executes = λ s k start now. ((k, now) ∷ expire k start s, refl);
  above-execute = λ s s' k start now c x e b.
      subst (λ o. count k x (after_of o s) ≡ count k x s + (if ltb x now then 1 else 0)) e
        (ground (arith, count-expire s k start x b));
  above-execute_other = λ s s' k l start now c x d e.
      subst (λ o. count l x (after_of o s) ≡ count l x s) e
        (ground (arith, d, count-expire_other s k l start x d));
}

-- Two requests a minute.
abbrev limiter : Limiter
limiter = record { limit = 2; window_seconds = 60 }

abbrev busy : List ℕ
busy = 130000 ∷ 120000 ∷ 100000 ∷ []

no_members : (y : ℕ) → answers.above [] 7 y ≡ 0
unfolding answers
no_members y = refl

in_order : InOrder busy
in_order = ((omega arith, (omega arith, tt)), ((omega arith, tt), (tt, tt)))

refused :
    (check in_memory limiter 7 140000 (serve in_memory limiter 7 busy [])).0 ≡ err rate_limited
unfolding check
refused = refl

check_refines_example :
    (check in_memory limiter 7 140000 (serve in_memory limiter 7 busy [])).0
    ≡ allowed limiter 140000 busy
check_refines_example =
    check_refines in_memory answers limiter 7 140000 [] busy no_members
      ((omega arith, (omega arith, (omega arith, tt))), in_order)

admitted_at_most_limit_example : admitted in_memory limiter 7 70000 busy [] ≤ 2
admitted_at_most_limit_example =
    admitted_at_most_limit in_memory answers limiter 7 70000 busy [] no_members in_order
      (omega arith, (omega arith, (omega arith, tt)))

silence_is_enough_example :
    (check in_memory limiter 7 190000 (serve in_memory limiter 7 busy [])).0 ≡ ok tt
silence_is_enough_example =
    silence_is_enough in_memory answers limiter 7 190000 [] busy no_members
      ((omega arith, (omega arith, (omega arith, tt))), in_order)
      (omega arith, (omega arith, (omega arith, tt))) (omega arith)

-- Behind one proxy, a client that spoofs an entry.
abbrev is_address : Text → Bool
is_address t = text_eq t (codes "192.0.2.9")

address : is_address (codes "192.0.2.9") ≡ true
address = refl
