-- ===== src/Repository/Events/Updates.antt =====
-- What the statements on `events` leave in the tables (internal/repository/events.sql.go).
use temporal_durable_event_p.Base.{
  ◌≡◌, refl, ◌⊎◌, true, some, arith, ℕ, String, false, Option-cases, inl, inr, Bool-cases, none,
  map, take, List, ◌++◌, ◌∷◌, [],
}
use temporal_durable_event_p.Pgtype.{Uuid}
use temporal_durable_event_p.Repository.Models.{NullEventStatus}
use temporal_durable_event_p.Repository.Db.{
  Engine, Db, EventRow, StatusEnum, update_rows, statement, tick, has_id, answered, find_row,
  no_rows, DbError, Delivery-cases, connection, negative_limit, scan_uuid,
}
use temporal_durable_event_p.Repository.Events.{
  status_param, status_text, set_status, update_event_status, create_event, CreateEventParams,
  insert_event, insert_event_row, new_event, scan_event, update_status_rows, poll_pending_events,
  pending_rows, Event,
}
use temporal_durable_event_p.Base.Exec.{ok, err}
use temporal_durable_event_p.Base.Int.{ℤ, pos, negsuc}

abbrev pub valid_status : StatusEnum → NullEventStatus
valid_status s = record { event_status = status_text s; valid = true }

-- Each of the four texts names its enum value.
pub status_param-valid_status : (s : StatusEnum) → status_param (valid_status s) ≡ some (some s)
unfolding status_param
status_param-valid_status StatusEnum.pending = refl
status_param-valid_status StatusEnum.processing = refl
status_param-valid_status StatusEnum.completed = refl
status_param-valid_status StatusEnum.failed = refl

-- An update to one of the four statuses is made in full or not at all, whatever the answer is.
pub update_event_status-events :
    (engine : Engine) (u : Uuid) (s : StatusEnum) (db : Db)
    → let db' = (update_event_status engine (record { id = u; status = valid_status s }) db).1 in
      (db'.events ≡ db.events)
      ⊎ (db'.events
          ≡ update_rows
              (λ (r : EventRow). r.id)
              u
              (set_status engine db.statements (some s))
              db.events)
unfolding update_event_status
update_event_status-events engine u s db = ground (arith, status_param-valid_status s)

-- An insertion changes nothing, or it stores the row of the request with the defaults.
pub insert_event-cases :
    (engine : Engine) (arg : CreateEventParams) (n : ℕ) (db : Db)
    → ((insert_event engine arg n db).1 ≡ db)
      ⊎ ((t p : String) × (has_id (λ (e : EventRow). e.id) (engine.gen_random_uuid n) db.events
            ≡ false)
          × ((insert_event engine arg n db).1
              ≡ insert_event_row engine (new_event engine n t p) db))
unfolding insert_event
insert_event-cases engine arg n db = elim (Option-cases (engine.varchar 50 arg.event_type)) [
  | inl long ↦ inl (ground arith)
  | inr (t, short) ↦ elim (Option-cases arg.payload) [
    | inl missing ↦ inl (ground arith)
    | inr (text, given) ↦ elim (Option-cases (engine.jsonb text)) [
      | inl bad ↦ inl (ground arith)
      | inr (p, good) ↦
          elim (Bool-cases (has_id (λ (e : EventRow). e.id) (engine.gen_random_uuid n) db.events)) [
            | inl clash ↦ inl (ground arith)
            | inr new ↦ inr (t, p, new, ground arith)
          ]
    ]
  ]
]

-- So for the statement, whose answer may be lost.
pub create_event-cases :
    (engine : Engine) (arg : CreateEventParams) (db : Db)
    → ((create_event engine arg db).1 ≡ tick db)
      ⊎ ((t p : String) × (has_id
              (λ (e : EventRow). e.id)
              (engine.gen_random_uuid db.statements)
              db.events
            ≡ false)
          × ((create_event engine arg db).1
              ≡ insert_event_row engine (new_event engine db.statements t p) (tick db)))
unfolding statement create_event
create_event-cases engine arg db =
    ground (arith, insert_event-cases engine arg db.statements (tick db))

module _ (engine : Engine) (u : Uuid) (s : StatusEnum) (db : Db)
    (up : engine.delivery db.statements ≡ answered) where
  -- An answered update of a row that is there.
  pub update_event_status-found :
      (row : EventRow)
      → find_row (λ (r : EventRow). r.id) u db.events ≡ some row
      → update_event_status engine (record { id = u; status = valid_status s }) db ≡ (
        ok (scan_event (set_status engine db.statements (some s) row)),
        update_status_rows engine u (set_status engine db.statements (some s)) (tick db),
      )
  unfolding update_event_status
  update_event_status-found row found = ground (arith, status_param-valid_status s)

  -- An answered update of a row that is not there.
  pub update_event_status-missing :
      find_row (λ (r : EventRow). r.id) u db.events ≡ none
      → update_event_status engine (record { id = u; status = valid_status s }) db
        ≡ (err no_rows, tick db)
  unfolding update_event_status
  update_event_status-missing gone = ground (arith, status_param-valid_status s)

-- A poll changes no row; it fails, or it gives the oldest of the pending rows.
pub poll_pending_events-cases :
    (engine : Engine) (limit : ℤ) (db : Db)
    → let (r, db') = poll_pending_events engine limit db in
      (db' ≡ tick db)
      × (((e : DbError) × (r ≡ err e))
          ⊎ ((m : ℕ) × (r
                ≡ ok (map scan_event (take m (pending_rows engine db.statements db.events))))))
unfolding poll_pending_events
poll_pending_events-cases engine (pos m) db =
    elim (Delivery-cases (engine.delivery db.statements)) [
      | inl up ↦ (ground arith, inr (m, ground arith))
      | inr down ↦ (ground arith, inl (connection, ground arith))
    ]
poll_pending_events-cases engine (negsuc m) db =
    elim (Delivery-cases (engine.delivery db.statements)) [
      | inl up ↦ (ground arith, inl (negative_limit, ground arith))
      | inr down ↦ (ground arith, inl (connection, ground arith))
    ]

-- The insertion that returns an event has stored it, with an id that no row had.
pub create_event-ok :
    (engine : Engine) (arg : CreateEventParams) (db : Db) (event : Event)
    → (create_event engine arg db).0 ≡ ok event
    → (t p : String) × (has_id
          (λ (e : EventRow). e.id)
          (engine.gen_random_uuid db.statements)
          db.events
        ≡ false)
      × (event ≡ scan_event (new_event engine db.statements t p))
      × ((create_event engine arg db).1
          ≡ insert_event_row engine (new_event engine db.statements t p) (tick db))
unfolding statement create_event insert_event
create_event-ok engine arg db event h = elim (Option-cases (engine.varchar 50 arg.event_type)) [
  | inl long ↦ absurd (ground arith)
  | inr (t, short) ↦ elim (Option-cases arg.payload) [
    | inl missing ↦ absurd (ground arith)
    | inr (text, given) ↦ elim (Option-cases (engine.jsonb text)) [
      | inl bad ↦ absurd (ground arith)
      | inr (p, good) ↦ (t, p, ground arith, ground arith, ground arith)
    ]
  ]
]

pub find_row-append :
    (r : EventRow) (rows : List EventRow)
    → has_id (λ (e : EventRow). e.id) r.id rows ≡ false
    → find_row (λ (e : EventRow). e.id) (scan_uuid r.id) (rows ++ r ∷ []) ≡ some r
find_row-append r [] new = ground arith
find_row-append r (x ∷ rows) new =
    let rest : has_id (λ (e : EventRow). e.id) r.id rows ≡ false
        → find_row (λ (e : EventRow). e.id) (scan_uuid r.id) (rows ++ r ∷ []) ≡ some r =
      find_row-append r rows in
    ground (arith, rest)
