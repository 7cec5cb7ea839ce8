-- ===== src/Breaker/Examples.antt =====
-- The theorems on the breaker with a server in memory.
use reliastra_backend.Prelude.{
  ℕ, ◌+◌, ◌*◌, ◌<◌, ◌≡◌, ◌≢◌, refl, Bool, true, false, Option, none, some, [], ◌∷◌, arith, ltb,
  ◌==◌, if◌then◌else◌, Bool-cases, inl, inr,
}
use reliastra_backend.Breaker.Client.{Stored, Key, state_key, probe_key, Redis, Answers}
use reliastra_backend.Breaker.Model.{
  load, record_outcome, should_dispatch, succeed, fail, recorded, save, release_lease,
}
use reliastra_backend.Breaker.History.{History, record_all, record_all_opens}

-- State documents by dependency, and the ends of leases.
record Memory : Type 0 where
  documents : ℕ → Option Stored
  leases : ℕ → ℕ

abbrev put {ℓ} : {A : Type ℓ} → ℕ → A → (ℕ → A) → ℕ → A
put k v f l = if k == l then v else f l

abbrev get : Memory → Key → Option (Option Stored)
get m (state_key d) = some (m.documents d)
get m (probe_key d) = some none

abbrev set : Memory → Key → Stored → Option Memory
set m (state_key d) v = some (record m { documents = put d (some v) m.documents })
set m (probe_key d) v = some m

abbrev set_nx_ex : Memory → ℕ → Key → ℕ → Option (Bool × Memory)
set_nx_ex m now (state_key d) ex = some (false, m)
set_nx_ex m now (probe_key d) ex =
    if ltb now (m.leases d)
    then some (false, m)
    else some (true, record m { leases = put d (now + ex * 1000) m.leases })

abbrev delete : Memory → Key → Option Memory
delete m (state_key d) = some (record m { documents = put d none m.documents })
delete m (probe_key d) = some (record m { leases = put d 0 m.leases })

abbrev memory : Redis Memory
memory = record { get = get; set = set; set_nx_ex = set_nx_ex; delete = delete }

memory-get-set :
    (s s' : Memory) (d : ℕ) (v : Stored)
    → set s (state_key d) v ≡ some s'
    → get s' (state_key d) ≡ some (some v)
memory-get-set s s' d v h = ground (arith, h)

memory-get-set_other :
    (s s' : Memory) (d e : ℕ) (v : Stored)
    → d ≢ e
    → set s (state_key d) v ≡ some s'
    → get s' (state_key e) ≡ get s (state_key e)
memory-get-set_other s s' d e v ne h = ground (arith, h)

memory-get-delete :
    (s s' : Memory) (d e : ℕ)
    → delete s (probe_key d) ≡ some s'
    → get s' (state_key e) ≡ get s (state_key e)
memory-get-delete s s' d e h = ground (arith, h)

memory-get-lease :
    (s s' : Memory) (b : Bool) (now d e ex : ℕ)
    → set_nx_ex s now (probe_key d) ex ≡ some (b, s')
    → get s' (state_key e) ≡ get s (state_key e)
memory-get-lease s s' b now d e ex h = ground (arith, h)

memory-answers :
    (s : Memory) (now : ℕ) (k : Key) (ex : ℕ)
    → (b : Bool) × (s' : Memory) × (set_nx_ex s now k ex ≡ some (b, s'))
memory-answers s now (state_key d) ex = (false, s, refl)
memory-answers s now (probe_key d) ex = elim (Bool-cases (ltb now (s.leases d))) [
  | inl t ↦ (false, s, rw t refl)
  | inr f ↦ (true, record s { leases = put d (now + ex * 1000) s.leases }, rw f refl)
]

memory-holds :
    (s s' : Memory) (now later d ex : ℕ)
    → set_nx_ex s now (probe_key d) ex ≡ some (true, s')
    → later < now + ex * 1000
    → set_nx_ex s' later (probe_key d) ex ≡ some (false, s')
memory-holds s s' now later d ex h l = ground (arith, h)

memory_sets : (s : Memory) (k : Key) (v : Stored) → (s' : Memory) × (set s k v ≡ some s')
memory_sets s (state_key d) v = (_, refl)
memory_sets s (probe_key d) v = (_, refl)

memory_deletes : (s : Memory) (k : Key) → (s' : Memory) × (delete s k ≡ some s')
memory_deletes s (state_key d) = (_, refl)
memory_deletes s (probe_key d) = (_, refl)

memory-Answers : Answers Memory memory
memory-Answers = record {
  sets = memory_sets;
  deletes = memory_deletes;
  answers = memory-answers;
  get-set = memory-get-set;
  get-set_other = memory-get-set_other;
  get-delete = memory-get-delete;
  get-set_nx_ex = memory-get-lease;
  holds = memory-holds;
}

-- A server on which nothing is stored.
abbrev blank : Memory
blank = record { documents = λ d. none; leases = λ d. 0 }

-- Three failures of dependency 7, twenty seconds apart.
abbrev outage : History
outage = (false, 100000) ∷ (false, 80000) ∷ (false, 60000) ∷ []

abbrev failed : Memory
failed = record_all memory memory-Answers 7 outage blank

record_all_opens_example :
    ((load memory failed 7).is_open ≡ true)
    × ((load memory failed 7).failures ≡ 3)
    × ((e : ℕ) → 7 ≢ e → load memory failed e ≡ load memory blank e)
record_all_opens_example = record_all_opens memory memory-Answers 7 outage blank refl

-- The server after the probe that is due.
abbrev probed : Memory
probed = record failed { leases = put 7 220000 failed.leases }

failed_is_open : (load memory failed 7).is_open ≡ true
unfolding record_outcome recorded fail save release_lease
failed_is_open = refl

probe_is_due : should_dispatch memory 160000 7 failed ≡ (true, probed)
unfolding should_dispatch record_outcome recorded fail save release_lease
probe_is_due = refl

-- Two successes after the probe close the circuit again.
recovery_closes :
    (load memory
      (record_all memory memory-Answers 7 ((true, 170000) ∷ (true, 165000) ∷ outage) blank)
      7).is_open
    ≡ false
unfolding record_outcome recorded fail succeed save release_lease
recovery_closes = refl
