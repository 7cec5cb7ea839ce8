-- ===== src/Observations/Draining.antt =====
-- How long it takes to drain the outbox, and what blocks it.
use reliastra_backend.Prelude.{
  ℕ, zero, suc, ◌+◌, ◌-◌, ◌*◌, ◌≤◌, ◌≡◌, refl, sym, ap, ◌∙◌, ◌⊎◌, inl, inr, Bool, true, false, not,
  some, List, [], ◌∷◌, ◌++◌, length, take, select, All, count_where, arith,
}
use mathlib.Core.Path.{subst}
use reliastra_backend.Prelude.Tables.{IsKeyed}
use reliastra_backend.Prelude.Order.{order_by, length-order_by, select-All}
use reliastra_backend.Observations.Outbox.{
  OutboxEvent, ObservationCreateDto, Db, Outside, Session, running, aborted, is_before,
  list_pending, delete, is_observation, new_observation, process_event, process_events, finish,
  process_outbox,
}
use reliastra_backend.Observations.Batch.{
  key, AreRows, list_pending-AreRows, list_pending-All, count_where-delete, delete-AreRows,
}
use reliastra_backend.Observations.Conservation.{is_valid, process_outbox-IsBalanced}

abbrev pub unlocked : OutboxEvent → Bool
unlocked e = false

length-unlocked : (xs : List OutboxEvent) → length (select (λ e. not (unlocked e)) xs) ≡ length xs
length-unlocked [] = refl
length-unlocked (x ∷ xs) = ap suc (length-unlocked xs)

length-take : (n : ℕ) (xs : List OutboxEvent) → length xs - length (take n xs) ≤ length xs - n
length-take zero xs = omega arith
length-take (suc n) [] = omega arith
length-take (suc n) (x ∷ xs) = omega (arith, length-take n xs)

length-list_pending :
    (limit : ℕ) (xs : List OutboxEvent)
    → length xs - length (list_pending unlocked limit xs) ≤ length xs - limit
length-list_pending limit xs =
    let t = length-take limit (order_by is_before (select (λ e. not (unlocked e)) xs)) in
    let o = length-order_by is_before (select (λ e. not (unlocked e)) xs) ∙ length-unlocked xs in
    omega (arith, t, o)

count_all : (xs : List OutboxEvent) → count_where (λ e. true) xs ≡ length xs
count_all [] = refl
count_all (x ∷ xs) = omega (arith, count_all xs)

length-delete :
    (e : OutboxEvent) (es rows : List OutboxEvent)
    → AreRows rows (e ∷ es)
    → length rows ≡ suc (length (delete e rows))
length-delete e es rows a =
    let c = count_where-delete (λ x. true) e rows a.keyed a.rows_of.0 in
    omega (arith, c, count_all rows, count_all (delete e rows))

module _ (out : Outside) where
  -- The event leaves the outbox: it is of an unknown type, or its payload validates and the database
  -- takes the row, at any time.
  abbrev pub IsAccepted : OutboxEvent → Type 0
  IsAccepted e =
      (is_observation e ≡ false)
      ⊎ ((dto : ObservationCreateDto) × (is_observation e ≡ true)
          × (out.model_validate_json e.payload ≡ some dto)
          × ((now : ℕ) → out.accepts (new_observation out now e dto) ≡ true))

  -- The loop got through: the events are gone from the outbox, and nothing else.
  record Through (before : Db) (events : ℕ) (s : Session) : Type 0 where
    processed : ℕ
    after : Db
    runs : s ≡ running processed after
    fewer : length before.outbox ≡ length after.outbox + events
    keyed : IsKeyed key after.outbox
    accepted : All IsAccepted before.outbox → All IsAccepted after.outbox

  module _ (now : ℕ) where
    -- One accepted event is deleted.
    event-Through :
        (e : OutboxEvent) (es : List OutboxEvent) (n : ℕ) (db : Db)
        → IsAccepted e
        → AreRows db.outbox (e ∷ es)
        → (m : ℕ) × (after : Db) × (process_event out now e (running n db) ≡ running m after)
          × (after.outbox ≡ delete e db.outbox)
    event-Through e es n db (inl t) a =
        (n, record db { outbox = delete e db.outbox }, rw t refl, refl)
    event-Through e es n db (inr (dto, t, p, c)) a = (
      n + 1,
      record {
        outbox = delete e db.outbox;
        observations = db.observations ++ new_observation out now e dto ∷ [];
      },
      rw (t, p, c now) refl,
      refl,
    )

    events-Through :
        (es : List OutboxEvent) (n : ℕ) (db : Db)
        → All IsAccepted es
        → AreRows db.outbox es
        → Through db (length es) (process_events out now es (running n db))
    events-Through [] n db h a = record {
      processed = n;
      after = db;
      runs = refl;
      fewer = omega arith;
      keyed = a.keyed;
      accepted = λ x. x;
    }
    events-Through (e ∷ es) n db h a =
        let (m, db', r, o) = event-Through e es n db h.0 a in
        let a' : AreRows db'.outbox es =
          subst (λ rows. AreRows rows es) (sym o) (delete-AreRows db.outbox e es a) in
        let rest = events-Through es m db' h.1 a' in
        let l : length db.outbox ≡ suc (length db'.outbox) =
          length-delete e es db.outbox a ∙ ap (λ rows. suc (length rows)) (sym o) in
        record {
          processed = rest.processed;
          after = rest.after;
          runs = ap (process_events out now es) r ∙ rest.runs;
          fewer = omega (arith, l, rest.fewer);
          keyed = rest.keyed;
          accepted = λ all.
              rest.accepted
                (subst (All IsAccepted) (sym o) (select-All IsAccepted _ db.outbox all));
        }

  -- The task, run again and again by one worker, at some times.
  abbrev pub drains : ℕ → List ℕ → Db → Db
  drains limit [] db = db
  drains limit (now ∷ times) db = drains limit times (process_outbox out now unlocked limit db).1

  record Drained (limit : ℕ) (before after : Db) : Type 0 where
    keyed : IsKeyed key after.outbox
    accepted : All IsAccepted after.outbox
    fewer : length after.outbox ≤ length before.outbox - limit

  process_outbox-Drained :
      (now limit : ℕ) (db : Db)
      → IsKeyed key db.outbox
      → All IsAccepted db.outbox
      → Drained limit db (process_outbox out now unlocked limit db).1
  unfolding process_outbox
  process_outbox-Drained now limit db k h =
      let t =
        events-Through now (list_pending unlocked limit db.outbox) 0 db
          (list_pending-All IsAccepted unlocked limit db.outbox h)
          (list_pending-AreRows unlocked limit db.outbox k) in
      subst (λ s. Drained limit db (finish db s).1) (sym t.runs)
        (record {
          keyed = t.keyed;
          accepted = t.accepted h;
          fewer = omega (arith, t.fewer, length-list_pending limit db.outbox);
        })

  empty : (xs : List OutboxEvent) → length xs ≤ 0 → xs ≡ []
  empty [] h = refl
  empty (x ∷ xs) h = absurd (omega (arith, h))

  -- If every event of the outbox is accepted and the ids are distinct, then enough runs of the task
  -- empty the outbox: as many as it takes to cover its length with batches of `limit` events. Each
  -- event with a valid payload has become one observation by then.
  pub drains_empty :
      (limit : ℕ) (times : List ℕ) (db : Db)
      → IsKeyed key db.outbox
      → All IsAccepted db.outbox
      → length db.outbox ≤ length times * limit
      → ((drains limit times db).outbox ≡ [])
        × (length (drains limit times db).observations
            ≡ length db.observations + count_where (is_valid out) db.outbox)
  drains_empty limit [] db k h l =
      let e = empty db.outbox (omega (arith, l)) in (e, rw e (omega arith))
  drains_empty limit (now ∷ times) db k h l =
      let d = process_outbox-Drained now limit db k h in
      let after = (process_outbox out now unlocked limit db).1 in
      let b = process_outbox-IsBalanced out now limit unlocked db k in
      let (e, c) = drains_empty limit times after d.keyed d.accepted (omega (arith, d.fewer, l)) in
      (e, c ∙ b.total)

  -- An observation that validates and that the database refuses, at any time.
  abbrev pub IsRefused : OutboxEvent → Type 0
  IsRefused e =
      (dto : ObservationCreateDto) × (is_observation e ≡ true)
      × (out.model_validate_json e.payload ≡ some dto)
      × ((now : ℕ) → out.accepts (new_observation out now e dto) ≡ false)

  aborted_stays : (now : ℕ) (es : List OutboxEvent) → process_events out now es aborted ≡ aborted
  aborted_stays now [] = refl
  aborted_stays now (e ∷ es) = aborted_stays now es

  refused_aborts :
      (now : ℕ) (first : List OutboxEvent) (e : OutboxEvent) (more : List OutboxEvent) (s : Session)
      → IsRefused e
      → process_events out now (first ++ e ∷ more) s ≡ aborted
  refused_aborts now [] e more aborted r = aborted_stays now more
  refused_aborts now [] e more (running n db) (dto, t, p, c) =
      let a : process_event out now e (running n db) ≡ aborted = rw (t, p, c now) refl in
      ap (process_events out now more) a ∙ aborted_stays now more
  refused_aborts now (f ∷ first) e more s r =
      refused_aborts now first e more (process_event out now f s) r

  -- One event that validates and that the database refuses blocks the outbox: while it is among the
  -- oldest `limit` pending events, the task changes nothing as often as it runs, and the valid events
  -- around it are not recorded.
  pub refused_event_blocks :
      (limit : ℕ) (times : List ℕ) (db : Db) (first : List OutboxEvent) (e : OutboxEvent)
      (more : List OutboxEvent)
      → list_pending unlocked limit db.outbox ≡ first ++ e ∷ more
      → IsRefused e
      → drains limit times db ≡ db
  unfolding process_outbox
  refused_event_blocks limit [] db first e more h r = refl
  refused_event_blocks limit (now ∷ times) db first e more h r =
      ap (λ batch. drains limit times (finish db (process_events out now batch (running 0 db))).1) h
      ∙ ap (λ s. drains limit times (finish db s).1)
          (refused_aborts now first e more (running 0 db) r)
      ∙ refused_event_blocks limit times db first e more h r
