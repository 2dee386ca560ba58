-- ===== src/Server/Refined.antt =====
-- The requests that write the outbox (internal/handler over internal/repository) as steps of the
-- abstract outbox.
use temporal_durable_event_p.Base.{
  String, List, [], ◌∷◌, Option, ℕ, inl, inr, ◌≢◌, ◌≡◌, ◌++◌, refl, map, ◌∙◌,
}
use temporal_durable_event_p.Base.Exec.{Result}
use temporal_durable_event_p.Repository.Store
use temporal_durable_event_p.Repository.Events as EventTable
use temporal_durable_event_p.Repository.Events.Updates
use temporal_durable_event_p.Server.Delivered.{SameOutbox}
use temporal_durable_event_p.Server.Keeps.{OutboxKeeps}
use temporal_durable_event_p.Poller.System.{on_db}
use temporal_durable_event_p.World.{World, Network}
use temporal_durable_event_p.Handler.Rpc.{Codec}
use temporal_durable_event_p.Repository.Db.{StatusEnum, EventRow, has_id}
use temporal_durable_event_p.Repository.Events.{status_text}
use temporal_durable_event_p.Repository.Store.{to_pg_uuid}
use temporal_durable_event_p.Pipeline.Spec.{Outbox, item_of, view, has_item, create, then}
use temporal_durable_event_p.Pipeline.Refined.{Reached, mark-Reached, item_of-append}

has_item-has_id :
    (k : ℕ) (rows : List EventRow)
    → has_item k (map item_of rows) ≡ has_id (λ (r : EventRow). r.id) k rows
has_item-has_id k [] = refl
has_item-has_id k (r ∷ rows) = rw (has_item-has_id k rows) refl

module _ {Struct : Type 0} (codec : Codec Struct) (network : Network)
    (hash : String → World → Result (Unit {0}) String) (v : Outbox) where
  open network use {engine}

  insert-Reached :
      (event_type : String) (payload : Option String) (w : World)
      → Reached codec network v w
      → Reached codec network v (on_db (Store.create_event engine event_type payload) w).1
  unfolding Store.create_event
  insert-Reached event_type payload w h =
      elim (Updates.create_event-cases engine
        (record { event_type = event_type; payload = payload }) w.db) [
          | inl same ↦ rw same h
          | inr (t, p, new, stored) ↦
              let row : EventRow = EventTable.new_event engine w.db.statements t p in
              rw (stored, item_of-append w.db.events row)
                (then (view w) (record (view w) { items = (view w).items ++ item_of row ∷ [] }) h
                  (create (view w) row.id (has_item-has_id row.id w.db.events ∙ new)))
        ]

  update-Reached :
      (id : ℕ) (s : StatusEnum) (w : World)
      → s ≢ StatusEnum.completed
      → Reached codec network v w
      → Reached codec network v (on_db (Store.update_event_status engine id (status_text s)) w).1
  unfolding Store.update_event_status
  update-Reached id StatusEnum.completed w n h = absurd (n refl)
  update-Reached id StatusEnum.pending w n h =
      mark-Reached codec network v (to_pg_uuid id) StatusEnum.pending w (λ e. cc) h
  update-Reached id StatusEnum.processing w n h =
      mark-Reached codec network v (to_pg_uuid id) StatusEnum.processing w (λ e. cc) h
  update-Reached id StatusEnum.failed w n h =
      mark-Reached codec network v (to_pg_uuid id) StatusEnum.failed w (λ e. cc) h

  same-Reached :
      (w' w : World)
      → SameOutbox network codec hash w' w
      → Reached codec network v w
      → Reached codec network v w'
  same-Reached w' w same h = rw (same.0, same.1.0) h

  pub requests-Reached : OutboxKeeps codec network hash (Reached codec network v)
  requests-Reached = record { same = same-Reached; insert = insert-Reached; set = update-Reached }
