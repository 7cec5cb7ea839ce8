-- ===== src/Breaker/Dispatch.antt =====
-- When checks are dispatched: never within the window of an open circuit, once per lease after it,
-- and always when Redis raises.
use reliastra_backend.Prelude.{
  ℕ, ◌+◌, ◌-◌, ◌≤◌, ◌<◌, ◌≡◌, refl, true, false, none, some, ◌∷◌, arith, or_else, lt→ltb,
}
use reliastra_backend.Breaker.Client.{Circuit, state_key, probe_key, Redis, Answers}
use reliastra_backend.Breaker.Model.{
  empty_state, fail, recorded, load, should_dispatch, half_open_interval,
}
use reliastra_backend.Breaker.History.{
  History, streak, run, failures-run, record_all, load-record_all, load_of_get,
}

-- The document after a third failure in a row carries the time of the failure.
fail_opens :
    (t : ℕ) (h : History)
    → 2 ≤ streak false h
    → ((run ((false, t) ∷ h)).is_open ≡ true) × ((run ((false, t) ∷ h)).opened_at ≡ some t)
unfolding recorded fail
fail_opens t h l = ground (arith, failures-run h)

module _ {Server : Type 0} (redis : Redis Server) (up : Answers Server redis) where
  blocked :
      (now d t : ℕ) (s : Server) (c : Circuit)
      → load redis s d ≡ c
      → c.is_open ≡ true
      → c.opened_at ≡ some t
      → now < t + half_open_interval
      → should_dispatch redis now d s ≡ (false, s)
  unfolding should_dispatch
  blocked now d t s c e o a l = rw (e, o, a, lt→ltb (now - t) half_open_interval (omega arith)) refl

  -- On a server that answers, after three or more failures in a row a check of the dependency is
  -- not dispatched before 60 seconds have passed since the newest failure, and the question
  -- changes nothing.
  pub open_blocks_dispatch :
      (d t now : ℕ) (h : History) (s : Server)
      → load redis s d ≡ empty_state
      → 2 ≤ streak false h
      → now < t + 60000
      → should_dispatch redis now d (record_all redis up d ((false, t) ∷ h) s)
        ≡ (false, record_all redis up d ((false, t) ∷ h) s)
  open_blocks_dispatch d t now h s e l w =
      let (o, a) = fail_opens t h l in
      blocked now d t _ _ (load-record_all redis up d ((false, t) ∷ h) s e) o a w

  probed :
      (now d : ℕ) (s s' : Server)
      → (load redis s d).is_open ≡ true
      → should_dispatch redis now d s ≡ (true, s')
      → redis.set_nx_ex s now (probe_key d) 60 ≡ some (true, s')
  unfolding should_dispatch
  probed now d s s' o h = let (b, s₁, e) = up.answers s now (probe_key d) 60 in ground (arith, e)

  -- On a server that answers, when an open circuit has let a probe through, the next question
  -- before the 60 seconds of the lease are over is answered with no and changes nothing.
  pub one_probe :
      (now later d : ℕ) (s s' : Server)
      → (load redis s d).is_open ≡ true
      → should_dispatch redis now d s ≡ (true, s')
      → later < now + 60000
      → should_dispatch redis later d s' ≡ (false, s')
  unfolding should_dispatch
  one_probe now later d s s' o h w =
      let e = probed now d s s' o h in
      let g = load_of_get redis up s d s' (up.get-set_nx_ex s s' true now d d 60 e) in
      rw g (rw (o, up.holds s s' now later d 60 e w) (ground arith))

-- When Redis raises on reading the document, the check is dispatched; when it raises on the lease
-- of a probe that is due, too. Nothing is written.
pub dispatch_fails_open :
    {Server : Type 0} (redis : Redis Server) (now d : ℕ) (s : Server)
    → (redis.get s (state_key d) ≡ none → should_dispatch redis now d s ≡ (true, s))
      × (redis.set_nx_ex s now (probe_key d) 60 ≡ none
          → or_else (load redis s d).opened_at 0 + 60000 ≤ now
          → should_dispatch redis now d s ≡ (true, s))
unfolding should_dispatch
dispatch_fails_open redis now d s = (λ h. rw (h, load) refl, λ h l. ground (arith, h))
