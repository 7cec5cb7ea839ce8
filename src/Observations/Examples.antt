-- ===== src/Observations/Examples.antt =====
-- The theorems on the outbox at concrete events, and tests.
use reliastra_backend.Prelude.{
  ℕ, ◌+◌, ◌-◌, ◌≡◌, refl, not, none, some, [], ◌∷◌, length, count_where, or_else, arith, ◌==◌,
  if◌then◌else◌, inl, inr,
}
use reliastra_backend.Prelude.Text.{codes}
use reliastra_backend.Observations.Outbox.{
  OutboxEvent, ObservationCreateDto, Db, Outside, process_outbox,
}
use reliastra_backend.Observations.Conservation.{is_valid, IsBalanced, process_outbox-IsBalanced}
use reliastra_backend.Observations.Draining.{unlocked, drains, drains_empty, refused_event_blocks}

abbrev dto : ℕ → ObservationCreateDto
dto org = record {
  timestamp = none;
  source_type = codes "customer_check";
  source_id = some 1;
  org_id = some org;
  region = codes "us-east";
  endpoint_url = codes "https://a.test";
  status_code = some 200;
  error_type = none;
}

-- Payload 0 does not validate; organization 9 was deleted.
abbrev outside : Outside
outside = record {
  model_validate_json = λ p. if p == 0 then none else some (dto p);
  uuid4 = λ e. e + 100;
  accepts = λ o. not (or_else o.org_id 0 == 9);
}

abbrev event : ℕ → ℕ → OutboxEvent
event id payload = record {
  id = id;
  event_type = codes "observation_created";
  payload = payload;
  created_at = 10 - id;
}

abbrev other : ℕ → OutboxEvent
other id = record {
  id = id;
  event_type = codes "observation_deleted";
  payload = 1;
  created_at = 10 - id;
}

-- A broken payload, and a row of an unknown type.
abbrev mixed : Db
mixed = record { outbox = event 1 4 ∷ event 2 0 ∷ other 3 ∷ event 4 5 ∷ []; observations = [] }

mixed_drained : (process_outbox outside 50 unlocked 100 mixed).0 ≡ some 2
unfolding process_outbox
mixed_drained = refl

mixed_left : (process_outbox outside 50 unlocked 100 mixed).1.outbox ≡ event 2 0 ∷ []
unfolding process_outbox
mixed_left = refl

process_outbox-IsBalanced_example :
    IsBalanced outside mixed
      (process_outbox outside 50 unlocked 100 mixed).1
      (or_else (process_outbox outside 50 unlocked 100 mixed).0 0)
process_outbox-IsBalanced_example =
    process_outbox-IsBalanced outside 50 100 unlocked mixed (refl, (refl, (refl, (refl, tt))))

-- Accepted events, drained in batches of two.
abbrev accepted : Db
accepted = record { outbox = event 1 4 ∷ other 2 ∷ event 3 5 ∷ []; observations = [] }

drains_empty_example :
    ((drains outside 2 (50 ∷ 60 ∷ []) accepted).outbox ≡ [])
    × (length (drains outside 2 (50 ∷ 60 ∷ []) accepted).observations
        ≡ 0 + count_where (is_valid outside) accepted.outbox)
drains_empty_example =
    drains_empty outside 2 (50 ∷ 60 ∷ []) accepted (refl, (refl, (refl, tt)))
      (inr (dto 4, refl, refl, λ now. refl), (inl refl, (inr (dto 5, refl, refl, λ now. refl), tt)))
      (omega arith)

-- The event of a deleted organization, behind another one.
abbrev refused : Db
refused = record { outbox = event 1 9 ∷ event 2 4 ∷ []; observations = [] }

refused_event_blocks_example : drains outside 100 (50 ∷ 60 ∷ []) refused ≡ refused
refused_event_blocks_example =
    refused_event_blocks outside 100 (50 ∷ 60 ∷ []) refused (event 2 4 ∷ []) (event 1 9) [] refl
      (dto 9, refl, refl, λ now. refl)
