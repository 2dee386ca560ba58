-- ===== src/Pipeline/Backlog.antt =====
-- `scanBacklog` (internal/poller/outbox.go): which records it publishes, and in which order.
use Prim.Native.String.{String}
use temporal_durable_event_p.Base.{
  List, [], ◌∷◌, arith, map, Option, ◌≡◌, some, refl, ℕ, ◌++◌, sym, take,
}
use temporal_durable_event_p.Base.Int.{ℤ, pos}
use temporal_durable_event_p.World.{World, Network, Record}
use temporal_durable_event_p.Repository.Store
use temporal_durable_event_p.Repository.Events
use temporal_durable_event_p.Publisher
use temporal_durable_event_p.Repository.Models.{Event}
use temporal_durable_event_p.Poller.Outbox.{
  OutboxListener, process_event, process_events, scan_backlog, topic_for_event_type,
  poll_limit_or_default, Payload,
}
use mathlib.Core.List.{append_assoc, append-nil}
use temporal_durable_event_p.Handler.Rpc.{Codec}
use temporal_durable_event_p.Handler.Converter.{pg_uuid_to_string}
use temporal_durable_event_p.Repository.Db.{EventRow, answered, tick}
use temporal_durable_event_p.Poller.System.{new_outbox_listener}

module _ {Struct : Type 0} (codec : Codec Struct) (prefix : String) where
  -- The record that stands for an event.
  abbrev pub record_of_event : Event → Record
  record_of_event e = record {
    topic = topic_for_event_type prefix e.event_type;
    key = pg_uuid_to_string codec e.id;
    value = e.payload;
  }

  -- The record that stands for a stored event.
  abbrev pub record_of_row : EventRow → Record
  record_of_row r = record {
    topic = topic_for_event_type prefix r.event_type;
    key = codec.uuid_text r.id;
    value = some r.payload;
  }

  record_of-scan_event :
      (rows : List EventRow)
      → map record_of_event (map Events.scan_event rows) ≡ map record_of_row rows
  unfolding Events.scan_event pg_uuid_to_string
  record_of-scan_event [] = refl
  record_of-scan_event (r ∷ rows) = rw (record_of-scan_event rows)

  module _ (network : Network) (unmarshal_payload : String → Option Payload) (limit : ℤ)
      (broker_up : (k : ℕ) → network.produce k ≡ answered) where
    abbrev l : OutboxListener World Struct
    l = new_outbox_listener network codec unmarshal_payload prefix limit

    process_event-log :
        (e : Event) (w : World) → (process_event l e w).log ≡ w.log ++ record_of_event e ∷ []
    unfolding process_event Publisher.publish
    process_event-log e w = rw (broker_up w.produced)

    process_events-log :
        (es : List Event) (w : World)
        → (process_events l es w).log ≡ w.log ++ map record_of_event es
    unfolding process_events
    process_events-log [] w = sym (append-nil w.log)
    process_events-log (e ∷ es) w =
        rw (process_events-log es (process_event l e w), process_event-log e w, append_assoc)

    -- An answered poll hands the oldest pending events to the loop.
    pub scan_backlog-eq :
        (n : ℕ) (w : World)
        → poll_limit_or_default limit ≡ pos n
        → network.engine.delivery w.db.statements ≡ answered
        → scan_backlog l w
          ≡ process_events l
              (map Events.scan_event
                (take n (Events.pending_rows network.engine w.db.statements w.db.events)))
              (record w { db = tick w.db })
    unfolding scan_backlog Store.poll_pending_events Events.poll_pending_events
    scan_backlog-eq n w e up = ground arith

    -- If the poll is answered and the broker answers every request, a scan publishes exactly the
    -- oldest pending events that are not locked, at most as many as the limit, oldest first.
    pub scan_backlog-log :
        (n : ℕ) (w : World)
        → poll_limit_or_default limit ≡ pos n
        → network.engine.delivery w.db.statements ≡ answered
        → (scan_backlog l w).log
          ≡ w.log
            ++ map record_of_row
                (take n (Events.pending_rows network.engine w.db.statements w.db.events))
    scan_backlog-log n w e up =
        rw (scan_backlog-eq n w e up, process_events-log, record_of-scan_event)
