-- ===== src/Server/Outbox.antt =====
-- The requests that write the outbox (internal/handler/event_handler.go), and all requests together.
use temporal_durable_event_p.Base.{
  String, List, [], ◌∷◌, Option, ℕ, inl, inr, ◌≢◌, false, ◌≡◌, some, ◌++◌, refl,
}
use temporal_durable_event_p.Base.Exec.{Result}
use temporal_durable_event_p.Repository.Store
use temporal_durable_event_p.Repository.Events as EventTable
use temporal_durable_event_p.Repository.Events.Updates
use temporal_durable_event_p.Repository.Events.Updates.{valid_status}
use temporal_durable_event_p.Server.Delivered.{SameOutbox}
use temporal_durable_event_p.Poller.System.{on_db}
use temporal_durable_event_p.World.{World, Network, Record}
use temporal_durable_event_p.Server.{Request, serve}
use temporal_durable_event_p.Server.Keeps.{completes, serve-keeps, OutboxKeeps}
use temporal_durable_event_p.Handler.Rpc.{Codec}
use temporal_durable_event_p.Pipeline.Delivered.{IsDelivered, RowsDelivered, mark-IsDelivered}
use temporal_durable_event_p.Repository.Db.{StatusEnum, EventRow}
use temporal_durable_event_p.Repository.Events.{
  status_text, scan_event, update_status_rows, pending_rows,
}
use temporal_durable_event_p.Repository.Store.{to_pg_uuid}

module _ {Struct : Type 0} (codec : Codec Struct) where
  RowsDelivered-append_pending :
      (log : List Record) (rows : List EventRow) (r : EventRow)
      → r.status ≡ some StatusEnum.pending
      → RowsDelivered codec log rows
      → RowsDelivered codec log (rows ++ r ∷ [])
  RowsDelivered-append_pending log [] r p h = (λ e. cc, tt)
  RowsDelivered-append_pending log (x ∷ rows) r p h =
      (h.0, RowsDelivered-append_pending log rows r p h.1)

  module _ (network : Network) where
    open network use {engine}

    -- The world after the store has inserted an event is delivered if it was before.
    insert-IsDelivered :
        (event_type : String) (payload : Option String) (w : World)
        → IsDelivered codec w
        → IsDelivered codec (on_db (Store.create_event engine event_type payload) w).1
    unfolding Store.create_event
    insert-IsDelivered event_type payload w h =
        elim (Updates.create_event-cases engine
          (record { event_type = event_type; payload = payload }) w.db) [
            | inl same ↦ rw same h
            | inr (t, p, _, stored) ↦ rw stored (
                RowsDelivered-append_pending w.log w.db.events
                  (EventTable.new_event engine w.db.statements t p) refl h)
          ]

    update-IsDelivered :
        (id : ℕ) (s : StatusEnum) (w : World)
        → s ≢ StatusEnum.completed
        → IsDelivered codec w
        → IsDelivered codec (on_db (Store.update_event_status engine id (status_text s)) w).1
    unfolding Store.update_event_status
    update-IsDelivered id StatusEnum.completed w n h = absurd (n refl)
    update-IsDelivered id StatusEnum.pending w n h =
        mark-IsDelivered codec network (to_pg_uuid id) StatusEnum.pending w (λ e. cc) h
    update-IsDelivered id StatusEnum.processing w n h =
        mark-IsDelivered codec network (to_pg_uuid id) StatusEnum.processing w (λ e. cc) h
    update-IsDelivered id StatusEnum.failed w n h =
        mark-IsDelivered codec network (to_pg_uuid id) StatusEnum.failed w (λ e. cc) h

    module _ (hash : String → World → Result (Unit {0}) String) where
      same-IsDelivered :
          (w' w : World)
          → SameOutbox network codec hash w' w
          → IsDelivered codec w
          → IsDelivered codec w'
      same-IsDelivered w' w h d = rw (h.0, h.1.0) d

      pub requests-IsDelivered : OutboxKeeps codec network hash (IsDelivered codec)
      requests-IsDelivered = record {
        same = same-IsDelivered;
        insert = insert-IsDelivered;
        set = update-IsDelivered;
      }

      -- A request of any kind that does not mark an event completed leaves each completed event with
      -- a record with its key in the broker's log, if that held before.
      pub serve-IsDelivered :
          (req : Request Struct) (w : World)
          → completes req ≡ false
          → IsDelivered codec w
          → IsDelivered codec (serve network codec hash req w).1
      serve-IsDelivered req w n h =
          serve-keeps codec network hash (IsDelivered codec) req w requests-IsDelivered n h
