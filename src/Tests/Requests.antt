-- ===== src/Tests/Requests.antt =====
-- Instances of the theorems about requests to the services.
use temporal_durable_event_p.Server.StatusRoundTrip.{update_event_status-get_event}
use temporal_durable_event_p.Server.Consistent.{serve-IsConsistent}
use temporal_durable_event_p.Repository.Db.References.{IsConsistent}
use temporal_durable_event_p.Tests.Data.{some_numeric}
use temporal_durable_event_p.Server.{event_store}
use temporal_durable_event_p.Proto
use temporal_durable_event_p.Repository.Store
use temporal_durable_event_p.Handler.Converter.{event_to_proto}
use temporal_durable_event_p.Handler.Events
use temporal_durable_event_p.Repository.Events as EventTable
use temporal_durable_event_p.Server.RoundTrip.{create_event-get_event}
use temporal_durable_event_p.Server.EndToEnd.{create_event-is_published, creating}
use temporal_durable_event_p.Server.Rejected.{serve-invalid}
use temporal_durable_event_p.Handler.Statuses.{
  event_status_to_proto-from_proto, scan_status-roundtrip,
}
use temporal_durable_event_p.Tests.Data.{
  network, codec, hash, world, unmarshal_payload, strokes, engine, parses_strokes, conn,
}
use temporal_durable_event_p.Server.{Request, serve}
use temporal_durable_event_p.Server.Outbox.{serve-IsDelivered}
use temporal_durable_event_p.Server.Limits.{responses-length}
use temporal_durable_event_p.Pipeline.Delivered.{IsDelivered}
use Prim.Native.Nat.{min}
use temporal_durable_event_p.Base.{
  refl, some, none, ◌≡◌, ℕ, ◌++◌, ◌∷◌, [], String, true, arith, length, List, ◌-◌,
}
use temporal_durable_event_p.Handler.Converter.{event_status_from_proto, event_status_to_proto}
use temporal_durable_event_p.Repository.Models.{scan_null_event_status, null_event_status_value}
use temporal_durable_event_p.Poller.Outbox.{run_round, running}
use temporal_durable_event_p.Poller.System.{new_outbox_listener}
use temporal_durable_event_p.Server.Rejected.{serve-invalid}
use temporal_durable_event_p.Repository.Events.{scan_status, status_param, is_pending}
use temporal_durable_event_p.Base.Int.{pos}
use temporal_durable_event_p.Server.EndToEnd.{creating}
use temporal_durable_event_p.Repository.Db.{EventRow, StatusEnum, find_row, scan_uuid}
use temporal_durable_event_p.Handler.Statuses.{scan_status-roundtrip}
use temporal_durable_event_p.Pipeline.Backlog.{record_of_row}
use temporal_durable_event_p.Base.Exec.{ok, Result, err}
use temporal_durable_event_p.Repository.Store.{is_event_status}
use temporal_durable_event_p.World.{World}
use temporal_durable_event_p.Handler.Rpc.{Status}

serve-IsDelivered_example :
    IsDelivered codec
      (serve network codec hash
        (Request.create_event (record { event_type = "order.created"; payload = some "{}" }))
        world).1
serve-IsDelivered_example =
    serve-IsDelivered codec network hash
      (Request.create_event (record { event_type = "order.created"; payload = some "{}" })) world
      refl ((λ e. cc), ((λ e. cc), ((λ e. cc), tt)))

abbrev order_created : Proto.CreateEventRequest String
order_created = record { event_type = "order.created"; payload = some "{}" }

-- The event that the request returns in `world`.
abbrev created : Proto.Event String
created = record {
  id = strokes 21;
  event_type = "order.created";
  payload = some "{}";
  status = "";
  status_v2 = Proto.EventStatus.pending;
  created_at = some 20;
  updated_at = some 20;
  processed_at = none;
}

create_event-get_event_example :
    (Events.get_event codec
      (event_store network)
      (strokes 21)
      (Events.create_event codec (event_store network) order_created world).1).0
    ≡ ok created
unfolding Events.create_event Store.create_event EventTable.create_event EventTable.insert_event
    event_to_proto
create_event-get_event_example =
    create_event-get_event codec network order_created created world parses_strokes refl refl

create_event-is_published_example :
    let (p, w') =
      run_round
        (new_outbox_listener network codec unmarshal_payload "events" (pos 100))
        (creating codec "events" network unmarshal_payload (pos 100) order_created)
        world in
    (p ≡ running)
    × ((row : EventRow) × (n : ℕ) × (strokes 21 ≡ codec.uuid_text row.id)
        × ("order.created" ≡ row.event_type)
        × (w'.log ≡ world.log ++ record_of_row codec "events" row ∷ [])
        × (find_row (λ (r : EventRow). r.id) (scan_uuid row.id) w'.db.events
            ≡ some (record row {
              status = some StatusEnum.completed;
              processed_at = some (engine.current_timestamp n);
              updated_at = engine.current_timestamp n;
            })))
unfolding Events.create_event Store.create_event EventTable.create_event EventTable.insert_event
    event_to_proto
create_event-is_published_example =
    create_event-is_published codec "events" network unmarshal_payload (pos 100) order_created
      created conn world (ground arith) refl refl refl (λ n. refl) (λ n. refl) (λ n. refl)
      parses_strokes
      (λ k t s. (record { id = strokes k; event_type = ""; status = "pending" }, refl, refl)) refl

serve-invalid_example :
    (serve network codec hash
      (Request.create_event (record { event_type = ""; payload = none }))
      world).1
    ≡ world
unfolding serve Events.create_event
serve-invalid_example =
    serve-invalid network codec hash
      (Request.create_event (record { event_type = ""; payload = none })) "event_type is required"
      world refl

event_status_to_proto-from_proto_example :
    (event_status_to_proto (event_status_from_proto Proto.EventStatus.failed)
      ≡ Proto.EventStatus.failed)
    × (is_event_status (event_status_from_proto Proto.EventStatus.failed) ≡ true)
unfolding event_status_from_proto
event_status_to_proto-from_proto_example =
    event_status_to_proto-from_proto Proto.EventStatus.failed refl

scan_status-roundtrip_example :
    (scan_null_event_status (null_event_status_value (scan_status (some StatusEnum.failed)))
      ≡ some (scan_status (some StatusEnum.failed)))
    × (status_param (scan_status (some StatusEnum.failed)) ≡ some (some StatusEnum.failed))
scan_status-roundtrip_example = scan_status-roundtrip (some StatusEnum.failed)

-- A user with an order.
abbrev shop : World
shop = record world {
  db = record (world.db) {
    users =
        record {
          id = 1;
          username = "alice";
          email = "alice@example.org";
          password_hash = "#";
          created_at = 0;
          updated_at = 0;
        }
        ∷ [];
    orders =
        record {
          id = 2;
          user_id = 1;
          order_date = 0;
          status = some "pending";
          total_amount = some_numeric;
        }
        ∷ [];
  };
}

serve-IsConsistent_example :
    IsConsistent (serve network codec hash (Request.delete_user "|") shop).1.db
unfolding IsConsistent
serve-IsConsistent_example =
    serve-IsConsistent network codec hash (Request.delete_user "|") shop
      (record { users = (refl, tt); orders = tt; products = tt })

-- The update of the event `|` in `world`, and the event that it returns.
abbrev to_processing : Proto.UpdateEventStatusRequest
to_processing = record { id = "|"; status_v2 = Proto.EventStatus.processing }

abbrev updated : Proto.Event String
updated = record {
  id = "|";
  event_type = "user.signup";
  payload = some "{}";
  status = "";
  status_v2 = Proto.EventStatus.processing;
  created_at = some 7;
  updated_at = some 20;
  processed_at = some 20;
}

update_event_status-get_event_example :
    (Events.get_event codec
      (event_store network)
      "|"
      (Events.update_event_status codec (event_store network) to_processing world).1).0
    ≡ ok updated
unfolding Events.update_event_status Store.update_event_status EventTable.update_event_status
    event_to_proto event_status_from_proto
update_event_status-get_event_example =
    update_event_status-get_event codec network to_processing updated world refl refl refl

abbrev page : Proto.ListEventsRequest
page = record { limit = pos 2; offset = pos 0 }

abbrev value_or_none : {A : Type 0} → Result Status (List A) → List A
value_or_none (ok xs) = xs
value_or_none (err _) = []

abbrev polled_events : List (Proto.Event String)
polled_events =
    value_or_none (Events.poll_pending_events codec (event_store network) (pos 0) world).0

abbrev listed_events : List (Proto.Event String)
listed_events = value_or_none (Events.list_events codec (event_store network) page world).0

responses-length_example :
    (length polled_events ≡ 2)
    × ((o : ℕ) × (page.offset ≡ pos o) × (length listed_events ≡ min 2 (3 - o)))
unfolding Events.poll_pending_events Events.list_events Store.poll_pending_events
    EventTable.poll_pending_events Events.convert_all event_to_proto Store.list_events
    EventTable.list_events
responses-length_example =
    responses-length codec network (pos 0) page polled_events listed_events world refl refl
