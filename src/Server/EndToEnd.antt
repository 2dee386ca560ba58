-- ===== src/Server/EndToEnd.antt =====
-- An event from `CreateEvent` (internal/handler/event_handler.go) through the trigger of the table
-- and the loop of the outbox listener (internal/poller) to the broker.
use temporal_durable_event_p.Base.{
  ℕ, suc, String, Option, some, List, [], ◌∷◌, ◌++◌, length, arith, ◌≡◌, false, true, refl,
}
use temporal_durable_event_p.Base.Int.{ℤ}
use temporal_durable_event_p.Base.Exec.{ok}
use temporal_durable_event_p.Handler.Events
use temporal_durable_event_p.Handler.Rpc.{Codec}
use temporal_durable_event_p.Pipeline.Backlog.{record_of_row}
use temporal_durable_event_p.Pipeline.Redelivery.{
  handle_notification-log, handle_notification-events,
}
use temporal_durable_event_p.Poller.Outage.{IsLive}
use temporal_durable_event_p.Poller.PgListener
use temporal_durable_event_p.Poller.PgListener.{next_notification, set_conn, dial}
use temporal_durable_event_p.Poller.Outbox.{
  OutboxListener, Payload, Round, run_round, running, handle_notification,
}
use temporal_durable_event_p.Poller.System.{new_outbox_listener}
use temporal_durable_event_p.Proto
use temporal_durable_event_p.Repository.Db.{
  EventRow, StatusEnum, Engine, answered, find_row, scan_uuid, update_rows, tick,
}
use temporal_durable_event_p.Repository.Events as EventTable
use temporal_durable_event_p.Repository.Events.{set_status}
use temporal_durable_event_p.Repository.Events.Updates.{find_row-append}
use temporal_durable_event_p.Server.{event_store}
use temporal_durable_event_p.Server.RoundTrip.{create_event-IsCreated, converted-id}
use temporal_durable_event_p.World.{World, Network, Conn}

next_notification-append :
    (ns : List String) (text : String) → next_notification (ns ++ text ∷ []) (length ns) ≡ some text
unfolding next_notification
next_notification-append [] text = refl
next_notification-append (n ∷ ns) text = next_notification-append ns text

pub find_row-set_status :
    (engine : Engine) (n k : ℕ) (s : Option StatusEnum) (row : EventRow) (rows : List EventRow)
    → find_row (λ (r : EventRow). r.id) (scan_uuid k) rows ≡ some row
    → find_row
        (λ (r : EventRow). r.id)
        (scan_uuid k)
        (update_rows (λ (r : EventRow). r.id) (scan_uuid k) (set_status engine n s) rows)
      ≡ some (set_status engine n s row)
unfolding update_rows
find_row-set_status engine n k s row [] h = absurd (ground arith)
find_row-set_status engine n k s row (r ∷ rows) h =
    let rest : find_row (λ (r : EventRow). r.id) (scan_uuid k) rows ≡ some row → _ =
      find_row-set_status engine n k s row rows in
    ground (arith, rest)

module _ {Struct : Type 0} (codec : Codec Struct) (prefix : String) (network : Network)
    (unmarshal_payload : String → Option Payload) (limit : ℤ) where
  open network use {engine}

  abbrev l : OutboxListener World Struct
  l = new_outbox_listener network codec unmarshal_payload prefix limit

  -- A request `CreateEvent` that is served while the loop waits.
  abbrev pub creating : Proto.CreateEventRequest Struct → Round World
  creating req = record {
    meanwhile = λ w. (Events.create_event codec (event_store network) req w).1;
    backoff = λ w. w;
  }

  -- The world in which the notification is handled.
  abbrev received : Conn → World → World
  received c w = set_conn (some (record c { seen = suc c.seen })) (dial w)

  wait_round :
      (round : Round World) (c : Conn) (text : String) (w w' : World)
      → IsLive w
      → round.meanwhile w ≡ w'
      → IsLive w'
      → w'.pg.conn ≡ some c
      → c.listening ≡ true
      → next_notification w'.db.notifications c.seen ≡ some text
      → ((n : ℕ) → network.breaks n ≡ false)
      → run_round l round w ≡ (running, handle_notification l text (received c w'))
  unfolding run_round PgListener.wait_for_notification
  wait_round round c text w w' live same live' opened listens next sound =
      ground (arith, sound w'.dialled)

  -- If the listener's connection has run `LISTEN` and is up to date, no signal is set and the
  -- database, the broker and the connection answer, then an event that `CreateEvent` returns while
  -- the loop waits is published by that round, under the id and the topic of the event, and its row
  -- is completed, with the time of the update; for libraries that parse the ids and the notifications
  -- that are printed.
  pub create_event-is_published :
      (req : Proto.CreateEventRequest Struct) (ev : Proto.Event Struct) (c : Conn) (w : World)
      → IsLive w
      → w.pg.conn ≡ some c
      → c.listening ≡ true
      → c.seen ≡ length w.db.notifications
      → ((n : ℕ) → network.breaks n ≡ false)
      → ((n : ℕ) → network.produce n ≡ answered)
      → ((n : ℕ) → engine.delivery n ≡ answered)
      → ((k : ℕ) → codec.uuid_parse (codec.uuid_text k) ≡ some k)
      → ((k : ℕ) (t : String) (s : Option StatusEnum)
          → (p : Payload) × (unmarshal_payload (engine.json_build_object k t s) ≡ some p)
            × (p.id ≡ codec.uuid_text k))
      → (Events.create_event codec (event_store network) req w).0 ≡ ok ev
      → let (p, w') = run_round l (creating req) w in
        (p ≡ running)
        × ((row : EventRow) × (n : ℕ) × (ev.id ≡ codec.uuid_text row.id)
            × (ev.event_type ≡ row.event_type)
            × (w'.log ≡ w.log ++ record_of_row codec prefix row ∷ [])
            × (find_row (λ (r : EventRow). r.id) (scan_uuid row.id) w'.db.events
                ≡ some (record row {
                  status = some StatusEnum.completed;
                  processed_at = some (engine.current_timestamp n);
                  updated_at = engine.current_timestamp n;
                })))
  create_event-is_published req ev c w live opened listens current sound sent up parses printed h =
      let (row, made) = create_event-IsCreated codec network req ev w h in
      let (id, event_type) = converted-id codec network row ev made.is_converted in
      let text : String = engine.json_build_object row.id row.event_type row.status in
      let (payload, read, named) = printed row.id row.event_type row.status in
      let w' : World = record w { db = EventTable.insert_event_row engine row (tick w.db) } in
      let v : World = received c w' in
      let step : run_round l (creating req) w ≡ (running, handle_notification l text v) =
        wait_round (creating req) c text w w' live made.is_stored
          (record {
            not_cancelled = live.not_cancelled;
            not_stopped = live.not_stopped;
            not_closed = live.not_closed;
          })
          opened listens (rw current (next_notification-append w.db.notifications text)) sound in
      let parsed : codec.uuid_parse payload.id ≡ some row.id = rw named (parses row.id) in
      let found : find_row (λ (r : EventRow). r.id) (scan_uuid row.id) v.db.events ≡ some row =
        find_row-append row w.db.events made.new in
      rw step (
        refl,
        (
          row,
          suc v.db.statements,
          id,
          event_type,
          handle_notification-log codec prefix network unmarshal_payload limit text payload row v
              read parsed found (up v.db.statements) (sent v.produced),
          rw
              (handle_notification-events codec prefix network unmarshal_payload limit text payload
                row v read parsed found up (sent v.produced))
              (find_row-set_status engine (suc v.db.statements) row.id (some StatusEnum.completed)
                row v.db.events found),
        ),
      )
