-- ===== src/Handler/Events.antt =====
-- internal/handler/event_handler.go: the methods of `EventHandler`.
use Prim.Native.String.{◌++◌}
use temporal_durable_event_p.Base.{
  ℕ, String, Bool, Option, none, some, List, [], ◌∷◌, is_empty, if◌then◌else◌, true, false,
}
use temporal_durable_event_p.Base.Int.{ℤ, pos, leb_ℤ}
use temporal_durable_event_p.Base.Exec.{
  Exec, Result, ok, err, pure, raise, lift, or_raise, raise_if, ◌>>=◌, ◌>>◌, map_err,
}
use temporal_durable_event_p.Repository.Models
use temporal_durable_event_p.Handler.Rpc.{
  Status, invalid, failed, no_rows_or, any_error, Codec, EventStore,
}
use temporal_durable_event_p.Handler.Converter.{
  event_status_from_proto, pg_uuid_to_string, event_to_proto,
}
use temporal_durable_event_p.Proto
use temporal_durable_event_p.Proto.{EventStatus}

abbrev pub is_unspecified : EventStatus → Bool
is_unspecified EventStatus.unspecified = true
is_unspecified _ = false

-- `limit := req.GetLimit(); if limit <= 0 { limit = … }`
abbrev pub default_limit : ℕ → ℤ → ℤ
default_limit default limit = if leb_ℤ limit (pos 0) then pos default else limit

module _ {Struct S : Type 0} (codec : Codec Struct) (store : EventStore S) where
  -- The conversion of one event, at the end of a call.
  abbrev pub convert : Models.Event → Exec S Status (Proto.Event Struct)
  convert event =
      map_err (λ _. failed "failed to convert event") (lift (event_to_proto codec event))

  abbrev pub marshal_payload : Option Struct → Exec S Status (Option String)
  marshal_payload none = pure none
  marshal_payload (some p) = elim (codec.marshal p) [
    | none ↦ raise (invalid "invalid payload")
    | some text ↦ pure (some text)
  ]

  unfoldable pub create_event : Proto.CreateEventRequest Struct → Exec S Status (Proto.Event Struct)
  create_event req = do
    raise_if (is_empty req.event_type) (invalid "event_type is required")
    payload ← marshal_payload req.payload
    event ← map_err (any_error "failed to create event") (store.create_event req.event_type payload)
    convert event

  unfoldable pub get_event : String → Exec S Status (Proto.Event Struct)
  get_event text = do
    id ← or_raise (codec.uuid_parse text) (invalid "invalid event id")
    event ← map_err (no_rows_or "event not found" "internal error") (store.get_event_by_id id)
    convert event

  -- The loop over the events: the first that does not convert ends the call.
  unfoldable pub convert_all : List Models.Event → Result Status (List (Proto.Event Struct))
  convert_all [] = ok []
  convert_all (e ∷ es) =
      let rest = convert_all es in
      elim (event_to_proto codec e) [
        | err text ↦ err (
            failed ("failed to convert event " ++ (pg_uuid_to_string codec e.id ++ (": " ++ text))))
        | ok event ↦ elim rest [ ok events ↦ ok (event ∷ events) | err s ↦ err s ]
      ]

  unfoldable pub poll_pending_events : ℤ → Exec S Status (List (Proto.Event Struct))
  poll_pending_events limit = do
    events ←
        map_err (any_error "failed to poll pending events")
          (store.poll_pending_events (default_limit 10 limit))
    lift (convert_all events)

  unfoldable pub update_event_status :
      Proto.UpdateEventStatusRequest → Exec S Status (Proto.Event Struct)
  update_event_status req = do
    id ← or_raise (codec.uuid_parse req.id) (invalid "invalid event id")
    raise_if (is_unspecified req.status_v2) (invalid "status is required")
    let status = event_status_from_proto req.status_v2
    raise_if (is_empty status)
        (invalid "invalid status value; must be one of PENDING, PROCESSING, COMPLETED, FAILED")
    event ←
        map_err (no_rows_or "event not found" "failed to update event status")
          (store.update_event_status id status)
    convert event

  unfoldable pub list_events : Proto.ListEventsRequest → Exec S Status (List (Proto.Event Struct))
  list_events req = do
    events ←
        map_err (any_error "failed to list events")
          (store.list_events (default_limit 20 req.limit) req.offset)
    lift (convert_all events)
