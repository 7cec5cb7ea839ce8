-- ===== src/Observations/Conservation.antt =====
-- No observation is lost and none is written twice.
use reliastra_backend.Prelude.{
  ℕ, ◌+◌, ◌≡◌, refl, Bool, true, false, ◌&&◌, Option, none, some, List, [], ◌∷◌, length,
  length-append, count_where, is_some, or_else, arith, Bool-cases, inl, inr,
}
use reliastra_backend.Prelude.Tables.{IsKeyed}
use reliastra_backend.Observations.Outbox.{
  OutboxEvent, Db, Outside, Session, running, aborted, delete, is_observation, new_observation,
  record_event, process_event, process_events, process_outbox_batch, list_pending, finish,
  process_outbox,
}
use reliastra_backend.Observations.Batch.{
  key, AreRows, list_pending-AreRows, count_where-delete, kept-AreRows, delete-AreRows,
}

module _ (out : Outside) where
  -- An observation whose payload validates.
  abbrev pub is_valid : OutboxEvent → Bool
  is_valid e = is_observation e && is_some (out.model_validate_json e.payload)

  -- What a drain leaves of `before`: every valid event is pending or recorded, and `processed` counts
  -- the recorded ones.
  pub record IsBalanced (before after : Db) (processed : ℕ) : Type 0 where
    pub total :
        length after.observations + count_where is_valid after.outbox
        ≡ length before.observations + count_where is_valid before.outbox
    pub counted : length after.observations ≡ length before.observations + processed

  abbrev Balanced : Db → Session → Type 0
  Balanced before aborted = Unit
  Balanced before (running n db) = IsBalanced before db n

  abbrev Rows : Session → List OutboxEvent → Type 0
  Rows aborted es = Unit
  Rows (running n db) es = AreRows db.outbox es

  module _ (now : ℕ) (before : Db) where
    -- A deleted event that is not valid changes no count.
    drop-IsBalanced :
        (e : OutboxEvent) (es : List OutboxEvent) (n : ℕ) (db : Db)
        → is_valid e ≡ false
        → AreRows db.outbox (e ∷ es)
        → IsBalanced before db n
        → IsBalanced before (record db { outbox = delete e db.outbox }) n
    drop-IsBalanced e es n db v a b =
        let c = count_where-delete is_valid e db.outbox a.keyed a.rows_of.0 in
        record { total = ground (arith, b.total, c, v); counted = b.counted }

    recorded-Balanced :
        (e : OutboxEvent) (es : List OutboxEvent) (n : ℕ) (db : Db) (o : Option _)
        → out.model_validate_json e.payload ≡ o
        → is_observation e ≡ true
        → AreRows db.outbox (e ∷ es)
        → IsBalanced before db n
        → Balanced before (record_event out now e n db o) × Rows (record_event out now e n db o) es
    recorded-Balanced e es n db none p t a b = (b, kept-AreRows db.outbox e es a)
    recorded-Balanced e es n db (some dto) p t a b =
        elim (Bool-cases (out.accepts (new_observation out now e dto))) [
          | inr r ↦ rw r (tt, tt)
          | inl r ↦
              let c = count_where-delete is_valid e db.outbox a.keyed a.rows_of.0 in
              let v : is_valid e ≡ true = rw (t, p) refl in
              let l = length-append db.observations (new_observation out now e dto ∷ []) in
              rw r (
                record {
                  total = ground (arith, b.total, c, v, l);
                  counted = ground (arith, b.counted, l);
                },
                delete-AreRows db.outbox e es a,
              )
        ]

    event-Balanced :
        (e : OutboxEvent) (es : List OutboxEvent) (s : Session)
        → Balanced before s
        → Rows s (e ∷ es)
        → Balanced before (process_event out now e s) × Rows (process_event out now e s) es
    event-Balanced e es aborted b a = (tt, tt)
    event-Balanced e es (running n db) b a = elim (Bool-cases (is_observation e)) [
      | inl t ↦ rw t (recorded-Balanced e es n db _ refl t a b)
      | inr t ↦ rw t (drop-IsBalanced e es n db (rw t refl) a b, delete-AreRows db.outbox e es a)
    ]

    events-Balanced :
        (es : List OutboxEvent) (s : Session)
        → Balanced before s
        → Rows s es
        → Balanced before (process_events out now es s)
    events-Balanced [] s b a = b
    events-Balanced (e ∷ es) s b a =
        let (b', a') = event-Balanced e es s b a in
        events-Balanced es (process_event out now e s) b' a'

    finish-IsBalanced :
        (s : Session)
        → Balanced before s
        → IsBalanced before (finish before s).1 (or_else (finish before s).0 0)
    finish-IsBalanced aborted b = record { total = refl; counted = omega arith }
    finish-IsBalanced (running n db) b = b

  -- Whatever the payloads, the database and the locks of other workers do, a drain of an outbox with
  -- distinct ids loses no observation and writes none twice: the recorded observations and the
  -- pending events with a valid payload are together as many as before, and as many observations
  -- were added as the task reports, none if it raises.
  pub process_outbox-IsBalanced :
      (now limit : ℕ) (locked : OutboxEvent → Bool) (db : Db)
      → IsKeyed key db.outbox
      → IsBalanced db
          (process_outbox out now locked limit db).1
          (or_else (process_outbox out now locked limit db).0 0)
  unfolding process_outbox
  process_outbox-IsBalanced now limit locked db k =
      finish-IsBalanced now db (process_outbox_batch out now locked limit db) (
        events-Balanced now db (list_pending locked limit db.outbox) (running 0 db)
          (record { total = refl; counted = omega arith })
          (list_pending-AreRows locked limit db.outbox k))
