-- ===== src/Observations/Outbox.antt =====
-- outbox.py, the creation of an observation in repository.py and service.py, and the task
-- `process_outbox` of tasks.py with the session of app/infrastructure/async_tasks.py.
use reliastra_backend.Prelude.{
  ℕ, ◌+◌, Bool, not, ◌&&◌, ◌||◌, Option, none, some, List, [], ◌∷◌, ◌++◌, ◌==◌, ltb, leb, take,
  select, or_else, if◌then◌else◌,
}
use reliastra_backend.Prelude.Text.{Text, text_eq, codes}
use reliastra_backend.Prelude.Order.{order_by}

pub record OutboxEvent : Type 0 where
  pub id : ℕ
  pub event_type : Text
  pub payload : ℕ
  pub created_at : ℕ

-- The columns of `ObservationCreateDTO` and of the row; the latencies, the data on TLS and the
-- metadata are copied in the same way.
pub record ObservationCreateDto : Type 0 where
  pub timestamp : Option ℕ
  pub source_type : Text
  pub source_id : Option ℕ
  pub org_id : Option ℕ
  pub region : Text
  pub endpoint_url : Text
  pub status_code : Option ℕ
  pub error_type : Option Text

pub record Observation : Type 0 where
  pub id : ℕ
  pub timestamp : ℕ
  pub source_type : Text
  pub source_id : Option ℕ
  pub org_id : Option ℕ
  pub region : Text
  pub endpoint_url : Text
  pub status_code : Option ℕ
  pub error_type : Option Text

pub record Db : Type 0 where
  pub outbox : List OutboxEvent
  pub observations : List Observation

-- `model_validate_json`, `uuid4` for an event, and whether the database takes a row: its foreign
-- keys, its columns and its partition.
pub record Outside : Type 0 where
  pub model_validate_json : ℕ → Option ObservationCreateDto
  pub uuid4 : ℕ → ℕ
  pub accepts : Observation → Bool

-- ORDER BY created_at ASC, id ASC
abbrev pub is_before : OutboxEvent → OutboxEvent → Bool
is_before a b = ltb a.created_at b.created_at || (a.created_at == b.created_at && leb a.id b.id)

-- `list_pending`: the oldest events that no other worker has locked
abbrev pub list_pending : (OutboxEvent → Bool) → ℕ → List OutboxEvent → List OutboxEvent
list_pending locked limit outbox =
    take limit (order_by is_before (select (λ e. not (locked e)) outbox))

abbrev pub delete : OutboxEvent → List OutboxEvent → List OutboxEvent
delete e outbox = select (λ x. not (x.id == e.id)) outbox

-- The session in the loop. Once the database has refused a row, the transaction is rolled back and
-- every later statement of the session raises, its commit at the latest.
pub data Session : Type 0 where
  running : ℕ → Db → Session
  aborted : Session

abbrev pub is_observation : OutboxEvent → Bool
is_observation e = text_eq e.event_type (codes "observation_created")

-- Commit or rollback: the task's result, which is missing when it raises, and the database.
abbrev pub finish : Db → Session → Option ℕ × Db
finish before (running processed db) = (some processed, db)
finish before aborted = (none, before)

module _ (out : Outside) (now : ℕ) where
  abbrev pub new_observation : OutboxEvent → ObservationCreateDto → Observation
  new_observation e dto = record {
    id = out.uuid4 e.id;
    timestamp = or_else dto.timestamp now;
    source_type = dto.source_type;
    source_id = dto.source_id;
    org_id = dto.org_id;
    region = dto.region;
    endpoint_url = dto.endpoint_url;
    status_code = dto.status_code;
    error_type = dto.error_type;
  }

  -- The body of the `try`: a payload that does not validate leaves the event pending.
  abbrev pub record_event : OutboxEvent → ℕ → Db → Option ObservationCreateDto → Session
  record_event e processed db none = running processed db
  record_event e processed db (some dto) =
      if out.accepts (new_observation e dto)
      then running (processed + 1) (record {
        outbox = delete e db.outbox;
        observations = db.observations ++ new_observation e dto ∷ [];
      })
      else aborted

  -- One round of the loop. An event of an unknown type is deleted.
  abbrev pub process_event : OutboxEvent → Session → Session
  process_event e aborted = aborted
  process_event e (running processed db) =
      if is_observation e
      then record_event e processed db (out.model_validate_json e.payload)
      else running processed (record db { outbox = delete e db.outbox })

  abbrev pub process_events : List OutboxEvent → Session → Session
  process_events [] s = s
  process_events (e ∷ es) s = process_events es (process_event e s)

  abbrev pub process_outbox_batch : (OutboxEvent → Bool) → ℕ → Db → Session
  process_outbox_batch locked limit db =
      process_events (list_pending locked limit db.outbox) (running 0 db)

  unfoldable pub process_outbox : (OutboxEvent → Bool) → ℕ → Db → Option ℕ × Db
  process_outbox locked limit db = finish db (process_outbox_batch locked limit db)
