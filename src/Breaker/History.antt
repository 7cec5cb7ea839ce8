-- ===== src/Breaker/History.antt =====
-- The state of a circuit after a history of outcomes.
use reliastra_backend.Prelude.{
  ℕ, ◌+◌, ◌≤◌, ◌≡◌, ◌≢◌, refl, ap, ◌∙◌, Bool, true, false, ◌&&◌, List, [], ◌∷◌, arith, leb,
  if◌then◌else◌, Bool-cases, inl, inr,
}
use reliastra_backend.Breaker.Client.{Circuit, document, state_key, probe_key, Redis, Answers}
use reliastra_backend.Breaker.Model.{
  empty_state, succeed, fail, recorded, load, save, release_lease, record_outcome,
  success_threshold,
}

-- Outcomes with their times, the newest first.
abbrev pub History : Type 0
History = List (Bool × ℕ)

-- How many of the newest outcomes are the same.
abbrev pub streak : Bool → History → ℕ
streak b [] = 0
streak true ((true, t) ∷ h) = streak true h + 1
streak true ((false, t) ∷ h) = 0
streak false ((true, t) ∷ h) = 0
streak false ((false, t) ∷ h) = streak false h + 1

-- The circuit is open if the newest run of three failures is newer than the newest run of two
-- successes.
abbrev pub opened : History → Bool
opened [] = false
opened ((true, t) ∷ h) =
    let rest = opened h in if leb 2 (streak true ((true, t) ∷ h)) then false else rest
opened ((false, t) ∷ h) =
    let rest = opened h in if leb 3 (streak false ((false, t) ∷ h)) then true else rest

-- The document after a history.
abbrev pub run : History → Circuit
run [] = empty_state
run ((b, t) ∷ h) = recorded b t (run h)

record Tracks (h : History) (c : Circuit) : Type 0 where
  state : c.is_open ≡ opened h
  failing : c.failures ≡ streak false h
  none_yet : streak true h ≡ 0 → c.successes ≡ 0
  one : streak true h ≡ 1 → c.successes ≡ 1
  closed : 2 ≤ streak true h → c.is_open ≡ false

succeed-Tracks :
    (t : ℕ) (h : History) (c : Circuit) → Tracks h c → Tracks ((true, t) ∷ h) (succeed c)
unfolding succeed
succeed-Tracks t h c k = record {
  state = ground (arith, k.state, k.none_yet, k.one, k.closed);
  failing = ground (arith, k.failing);
  none_yet = λ e. ground arith;
  one = λ e. ground (arith, k.none_yet);
  closed = λ e. ground (arith, k.one, k.closed);
}

fail-Tracks : (t : ℕ) (h : History) (c : Circuit) → Tracks h c → Tracks ((false, t) ∷ h) (fail t c)
unfolding fail
fail-Tracks t h c k = record {
  state = ground (arith, k.state, k.failing);
  failing = ground (arith, k.failing);
  none_yet = λ e. ground arith;
  one = λ e. ground arith;
  closed = λ e. ground arith;
}

run-Tracks : (h : History) → Tracks h (run h)
unfolding recorded
run-Tracks [] = record {
  state = refl;
  failing = refl;
  none_yet = λ e. refl;
  one = λ e. ground arith;
  closed = λ e. ground arith;
}
run-Tracks ((true, t) ∷ h) = succeed-Tracks t h (run h) (run-Tracks h)
run-Tracks ((false, t) ∷ h) = fail-Tracks t h (run h) (run-Tracks h)

pub failures-run : (h : History) → (run h).failures ≡ streak false h
failures-run h = (run-Tracks h).failing

module _ {Server : Type 0} (redis : Redis Server) (up : Answers Server redis) where
  pub load_of_get :
      (s : Server) (d : ℕ) (s' : Server)
      → redis.get s' (state_key d) ≡ redis.get s (state_key d)
      → load redis s' d ≡ load redis s d
  load_of_get s d s' h = rw (h, load) refl

  load-save : (s : Server) (d : ℕ) (c : Circuit) → load redis (save redis s d c) d ≡ c
  unfolding save
  load-save s d c =
      let (s', e) = up.sets s (state_key d) (document c) in
      rw e (rw (up.get-set s s' d (document c) e, load) refl)

  load-save_other :
      (s : Server) (d e : ℕ) (c : Circuit)
      → d ≢ e
      → load redis (save redis s d c) e ≡ load redis s e
  unfolding save
  load-save_other s d e c ne =
      let (s', h) = up.sets s (state_key d) (document c) in
      rw h (load_of_get s e s' (up.get-set_other s s' d e (document c) ne h))

  load-release_lease :
      (b : Bool) (s : Server) (d e : ℕ) (c : Circuit)
      → load redis (release_lease redis b d c s) e ≡ load redis s e
  unfolding release_lease
  load-release_lease b s d e c =
      let (s', h) = up.deletes s (probe_key d) in
      elim (Bool-cases (b && leb success_threshold (c.successes + 1))) [
        | inl t ↦ rw t (rw h (load_of_get s e s' (up.get-delete s s' d e h)))
        | inr f ↦ rw f refl
      ]

  -- Recording an outcome changes the document of its dependency as `recorded` does, and no other.
  pub load-record_outcome :
      (b : Bool) (t d : ℕ) (s : Server)
      → load redis (record_outcome redis b t d s) d ≡ recorded b t (load redis s d)
  unfolding record_outcome
  load-record_outcome b t d s = load-save (release_lease redis b d (load redis s d) s) d _

  load-record_outcome_other :
      (b : Bool) (t d e : ℕ) (s : Server)
      → d ≢ e
      → load redis (record_outcome redis b t d s) e ≡ load redis s e
  unfolding record_outcome
  load-record_outcome_other b t d e s ne =
      load-save_other (release_lease redis b d (load redis s d) s) d e _ ne
      ∙ load-release_lease b s d e (load redis s d)

  -- The server after a history of outcomes of a dependency.
  abbrev pub record_all : ℕ → History → Server → Server
  record_all d [] s = s
  record_all d ((b, t) ∷ h) s = record_outcome redis b t d (record_all d h s)

  pub load-record_all :
      (d : ℕ) (h : History) (s : Server)
      → load redis s d ≡ empty_state
      → load redis (record_all d h s) d ≡ run h
  load-record_all d [] s e = e
  load-record_all d ((b, t) ∷ h) s e =
      load-record_outcome b t d (record_all d h s) ∙ ap (recorded b t) (load-record_all d h s e)

  load-record_all_other :
      (d e : ℕ) (h : History) (s : Server)
      → d ≢ e
      → load redis (record_all d h s) e ≡ load redis s e
  load-record_all_other d e [] s ne = refl
  load-record_all_other d e ((b, t) ∷ h) s ne =
      load-record_outcome_other b t d e (record_all d h s) ne ∙ load-record_all_other d e h s ne

  -- On a server that answers, a circuit without a document is open after a history of outcomes
  -- exactly if the newest three failures in a row are newer than the newest two successes in a
  -- row, and its failure count is the number of newest failures; the document of every other
  -- dependency stays as it is.
  pub record_all_opens :
      (d : ℕ) (h : History) (s : Server)
      → load redis s d ≡ empty_state
      → ((load redis (record_all d h s) d).is_open ≡ opened h)
        × ((load redis (record_all d h s) d).failures ≡ streak false h)
        × ((e : ℕ) → d ≢ e → load redis (record_all d h s) e ≡ load redis s e)
  record_all_opens d h s e = (
    ap (λ (c : Circuit). c.is_open) (load-record_all d h s e) ∙ (run-Tracks h).state,
    ap (λ (c : Circuit). c.failures) (load-record_all d h s e) ∙ (run-Tracks h).failing,
    λ o ne. load-record_all_other d o h s ne,
  )
