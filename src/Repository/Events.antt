-- ===== src/Repository/Events.antt =====
-- internal/repository/events.sql.go: the statements on the table `events`, with its trigger.
pub mod Updates
use temporal_durable_event_p.Base.{
  ℕ, String, Bool, true, false, not, ◌&&◌, Option, none, some, List, [], ◌∷◌, ◌++◌, map, str_eq,
  take, drop, keep, if◌then◌else◌,
}
use temporal_durable_event_p.Base.Int.{ℤ, pos, negsuc}
use temporal_durable_event_p.Base.Exec.{Exec, ok, err, pure, raise, or_raise, ◌>>=◌, map_ok}
use temporal_durable_event_p.Pgtype.{Uuid, Value}
use temporal_durable_event_p.Repository.Models.{
  NullEventStatus, null_event_status_value, Event, event_status_pending, event_status_processing,
  event_status_completed, event_status_failed,
}
use temporal_durable_event_p.Repository.Db.{
  Engine, Db, DbError, no_rows, unique_violation, not_null_violation, string_too_long, invalid_json,
  invalid_enum, negative_limit, EventRow, StatusEnum, statement, update_rows, find_row, has_id,
  order_asc, order_desc, scan_uuid, scan_timestamp,
}

-- The text of an enum value, as the driver hands it to `Scan`.
abbrev pub status_text : StatusEnum → String
status_text StatusEnum.pending = event_status_pending
status_text StatusEnum.processing = event_status_processing
status_text StatusEnum.completed = event_status_completed
status_text StatusEnum.failed = event_status_failed

-- The enum value that a text names.
unfoldable pub status_of_text : String → Option StatusEnum
status_of_text s =
    if str_eq s "pending"
    then some StatusEnum.pending
    else if str_eq s "processing"
    then some StatusEnum.processing
    else if str_eq s "completed"
    then some StatusEnum.completed
    else if str_eq s "failed"
    then some StatusEnum.failed
    else none

abbrev pub scan_status : Option StatusEnum → NullEventStatus
scan_status none = record { event_status = ""; valid = false }
scan_status (some s) = record { event_status = status_text s; valid = true }

-- `row.Scan(&i.ID, …, &i.ProcessedAt)`
unfoldable pub scan_event : EventRow → Event
scan_event r = record {
  id = scan_uuid r.id;
  event_type = r.event_type;
  payload = some r.payload;
  status = scan_status r.status;
  created_at = scan_timestamp (some r.created_at);
  updated_at = scan_timestamp (some r.updated_at);
  processed_at = scan_timestamp r.processed_at;
}

pub record CreateEventParams : Type 0 where
  pub event_type : String
  pub payload : Option String

pub record ListEventsParams : Type 0 where
  pub limit : ℤ
  pub offset : ℤ

pub record UpdateEventStatusParams : Type 0 where
  pub id : Uuid
  pub status : NullEventStatus

-- `$2` of `updateEventStatus` for the enum column: NULL, or an enum value, or an error.
unfoldable pub status_param : NullEventStatus → Option (Option StatusEnum)
unfolding null_event_status_value status_of_text
status_param ns = elim (null_event_status_value ns) [
  | Value.string s ↦ elim (status_of_text s) [ none ↦ none | some e ↦ some (some e) ]
  | _ ↦ some none
]

-- `LIMIT $1` and `OFFSET $1`
abbrev pub row_count : {S : Type 0} → ℤ → Exec S DbError ℕ
row_count (pos n) = pure n
row_count (negsuc n) = raise negative_limit

abbrev pub is_pending : EventRow → Bool
is_pending r = elim r.status [ some StatusEnum.pending ↦ true | _ ↦ false ]

module _ (engine : Engine) where
  -- The new row with the column defaults.
  abbrev pub new_event : ℕ → String → String → EventRow
  new_event n event_type payload = record {
    id = engine.gen_random_uuid n;
    event_type = event_type;
    payload = payload;
    status = some StatusEnum.pending;
    created_at = engine.current_timestamp n;
    updated_at = engine.current_timestamp n;
    processed_at = none;
  }

  -- The row is stored, and the trigger `notify_event_insert` sends its notification.
  abbrev pub insert_event_row : EventRow → Db → Db
  insert_event_row r db = record db {
    events = db.events ++ r ∷ [];
    notifications = db.notifications ++ engine.json_build_object r.id r.event_type r.status ∷ [];
  }

  unfoldable pub insert_event : CreateEventParams → ℕ → Exec Db DbError Event
  unfolding scan_event
  insert_event arg n = do
    event_type ← or_raise (engine.varchar 50 arg.event_type) string_too_long
    text ← or_raise arg.payload not_null_violation
    payload ← or_raise (engine.jsonb text) invalid_json
    let row = new_event n event_type payload
    λ db.
        if has_id (λ (r : EventRow). r.id) row.id db.events
        then (err unique_violation, db)
        else (ok (scan_event row), insert_event_row row db)

  unfoldable pub create_event : CreateEventParams → Exec Db DbError Event
  unfolding statement
  create_event arg = statement engine (insert_event arg)

  unfoldable pub get_event_by_id : Uuid → Exec Db DbError Event
  unfolding statement scan_event
  get_event_by_id id = statement engine λ n db.
      map_ok scan_event (or_raise (find_row (λ (r : EventRow). r.id) id db.events) no_rows) db

  unfoldable pub list_events : ListEventsParams → Exec Db DbError (List Event)
  unfolding statement scan_event order_desc
  list_events arg = statement engine λ n. do
    limit ← row_count arg.limit
    offset ← row_count arg.offset
    λ db.
        let rows = order_desc (λ (r : EventRow). r.created_at) db.events in
        (ok (map scan_event (take limit (drop offset rows))), db)

  -- The rows that `pollPendingEvents` selects: pending, not locked by others, oldest first.
  unfoldable pub pending_rows : ℕ → List EventRow → List EventRow
  unfolding order_asc
  pending_rows n events =
      order_asc (λ (r : EventRow). r.created_at)
        (keep (λ (r : EventRow). is_pending r && not (engine.locked n r.id)) events)

  unfoldable pub poll_pending_events : ℤ → Exec Db DbError (List Event)
  unfolding statement scan_event pending_rows
  poll_pending_events limit = statement engine λ n. do
    limit ← row_count limit
    λ db. (ok (map scan_event (take limit (pending_rows n db.events))), db)

  -- `SET status = $2, processed_at = CURRENT_TIMESTAMP, updated_at = CURRENT_TIMESTAMP`
  abbrev pub set_status : ℕ → Option StatusEnum → EventRow → EventRow
  set_status n status r = record r {
    status = status;
    processed_at = some (engine.current_timestamp n);
    updated_at = engine.current_timestamp n;
  }

  abbrev pub update_status_rows : Uuid → (EventRow → EventRow) → Db → Db
  update_status_rows id f db = record db {
    events = update_rows (λ (r : EventRow). r.id) id f db.events;
  }

  unfoldable pub update_event_status : UpdateEventStatusParams → Exec Db DbError Event
  unfolding statement scan_event update_rows status_param
  update_event_status arg = statement engine λ n. do
    status ← or_raise (status_param arg.status) invalid_enum
    row ← λ db. or_raise (find_row (λ (r : EventRow). r.id) arg.id db.events) no_rows db
    λ db. (
      ok (scan_event (set_status n status row)),
      update_status_rows arg.id (set_status n status) db,
    )
