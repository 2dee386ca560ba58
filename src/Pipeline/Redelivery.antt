-- ===== src/Pipeline/Redelivery.antt =====
-- What `handleNotification` (internal/poller/outbox.go) does for a stored event.
use temporal_durable_event_p.Base.{[], ◌∷◌, arith, String, Option, ◌≡◌, some, ◌++◌, ℕ, suc}
use temporal_durable_event_p.Base.Int.{ℤ}
use temporal_durable_event_p.World.{World, Network}
use temporal_durable_event_p.Repository.Store
use temporal_durable_event_p.Repository.Events
use temporal_durable_event_p.Publisher
use temporal_durable_event_p.Pipeline.Backlog.{record_of_row}
use temporal_durable_event_p.Handler.Rpc.{Codec}
use temporal_durable_event_p.Poller.Outbox.{
  Payload, OutboxListener, handle_notification, process_event,
}
use temporal_durable_event_p.Poller.System.{new_outbox_listener}
use temporal_durable_event_p.Handler.Converter.{pg_uuid_to_string}
use temporal_durable_event_p.Repository.Db.{
  EventRow, find_row, scan_uuid, answered, update_rows, StatusEnum, tick,
}
use temporal_durable_event_p.Repository.Events.Updates.{update_event_status-found}

module _ {Struct : Type 0} (codec : Codec Struct) (prefix : String) (network : Network)
    (unmarshal_payload : String → Option Payload) (limit : ℤ) where
  abbrev l : OutboxListener World Struct
  l = new_outbox_listener network codec unmarshal_payload prefix limit

  -- If the payload names a stored event, and the query for it and the request to the broker are
  -- answered, then a notification publishes the event once more, whatever its status.
  pub handle_notification-log :
      (text : String) (payload : Payload) (row : EventRow) (w : World)
      → unmarshal_payload text ≡ some payload
      → codec.uuid_parse payload.id ≡ some row.id
      → find_row (λ (r : EventRow). r.id) (scan_uuid row.id) w.db.events ≡ some row
      → network.engine.delivery w.db.statements ≡ answered
      → network.produce w.produced ≡ answered
      → (handle_notification l text w).log ≡ w.log ++ record_of_row codec prefix row ∷ []
  unfolding handle_notification process_event Store.get_event_by_id Events.get_event_by_id
      Events.scan_event Publisher.publish pg_uuid_to_string
  handle_notification-log text payload row w p q found up sent = ground arith

  -- It also marks the event completed, if the update is answered too.
  pub handle_notification-events :
      (text : String) (payload : Payload) (row : EventRow) (w : World)
      → unmarshal_payload text ≡ some payload
      → codec.uuid_parse payload.id ≡ some row.id
      → find_row (λ (r : EventRow). r.id) (scan_uuid row.id) w.db.events ≡ some row
      → ((n : ℕ) → network.engine.delivery n ≡ answered)
      → network.produce w.produced ≡ answered
      → (handle_notification l text w).db.events
        ≡ update_rows
            (λ (r : EventRow). r.id)
            (scan_uuid row.id)
            (Events.set_status network.engine (suc w.db.statements) (some StatusEnum.completed))
            w.db.events
  unfolding handle_notification process_event Store.get_event_by_id Events.get_event_by_id
      Events.scan_event Publisher.publish pg_uuid_to_string Store.update_event_status_with_params
  handle_notification-events text payload row w p q found up sent = ground (
    arith,
    up w.db.statements,
    update_event_status-found network.engine (scan_uuid row.id) StatusEnum.completed (tick w.db)
        (up (suc w.db.statements)) row found,
  )
