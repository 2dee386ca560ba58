-- ===== src/Pipeline/Settled.antt =====
-- A scan of the backlog (internal/poller/outbox.go) and the events that are not pending.
use temporal_durable_event_p.Base.{
  List, [], ◌∷◌, arith, map, ℕ, String, ◌≡◌, Option, false, ◌∙◌, inl, ==_iff, refl, inr, some, take,
  keep, ◌&&◌, not,
}
use temporal_durable_event_p.Base.Int.{ℤ}
use temporal_durable_event_p.World.{World, Network}
use temporal_durable_event_p.Repository.Models.{Event}
use temporal_durable_event_p.Repository.Store
use temporal_durable_event_p.Repository.Events
use temporal_durable_event_p.Publisher
use temporal_durable_event_p.Repository.Db.Ordering.{
  All, All-of_map, All-take, All-order_asc, All-keep_map,
}
use temporal_durable_event_p.Repository.Events.Updates.{
  valid_status, update_event_status-events, poll_pending_events-cases,
}
use temporal_durable_event_p.Repository.Db.{
  Engine, update_rows, EventRow, StatusEnum, equals, Db, find_row, scan_uuid, tick,
}
use temporal_durable_event_p.Handler.Rpc.{Codec}
use temporal_durable_event_p.Pgtype.{Uuid}
use temporal_durable_event_p.Poller.Outbox.{
  Payload, OutboxListener, process_events, process_event, scan_backlog,
}
use temporal_durable_event_p.Poller.System.{new_outbox_listener}
use temporal_durable_event_p.Repository.Events.{pending_rows}

find_row-set_status :
    (engine : Engine) (n : ℕ) (u : Uuid) (s : Option StatusEnum) (k : ℕ) (rows : List EventRow)
    → equals u k ≡ false
    → find_row
        (λ (r : EventRow). r.id)
        (scan_uuid k)
        (update_rows (λ (r : EventRow). r.id) u (Events.set_status engine n s) rows)
      ≡ find_row (λ (r : EventRow). r.id) (scan_uuid k) rows
unfolding update_rows
find_row-set_status engine n u s k [] h = refl
find_row-set_status engine n u s k (r ∷ rows) h =
    ground (arith, ==_iff k r.id, find_row-set_status engine n u s k rows h)

update-find_row :
    (engine : Engine) (u : Uuid) (s : StatusEnum) (k : ℕ) (db : Db)
    → equals u k ≡ false
    → find_row
        (λ (r : EventRow). r.id)
        (scan_uuid k)
        (Events.update_event_status engine (record { id = u; status = valid_status s }) db).1.events
      ≡ find_row (λ (r : EventRow). r.id) (scan_uuid k) db.events
update-find_row engine u s k db h = elim (update_event_status-events engine u s db) [
  | inl same ↦ rw same
  | inr changed ↦ rw changed (find_row-set_status engine db.statements u (some s) k db.events h)
]

-- No row with the id is pending.
abbrev pub IsSettled : ℕ → List EventRow → Type 0
IsSettled k = All (λ (r : EventRow). r.id ≡ k → Events.is_pending r ≡ false)

module _ {Struct : Type 0} (codec : Codec Struct) (prefix : String) (network : Network)
    (unmarshal_payload : String → Option Payload) (limit : ℤ) where
  abbrev l : OutboxListener World Struct
  l = new_outbox_listener network codec unmarshal_payload prefix limit

  abbrev event_row : ℕ → World → Option EventRow
  event_row k w = find_row (λ (r : EventRow). r.id) (scan_uuid k) w.db.events

  process_event-other :
      (e : Event) (k : ℕ) (w : World)
      → equals e.id k ≡ false
      → event_row k (process_event l e w) ≡ event_row k w
  unfolding process_event Publisher.publish Store.update_event_status_with_params
      Store.mark_event_failed
  process_event-other e k w h = ground (
    arith,
    update-find_row network.engine e.id StatusEnum.completed k w.db h,
    update-find_row network.engine e.id StatusEnum.failed k w.db h,
  )

  process_events-other :
      (es : List Event) (k : ℕ) (w : World)
      → All (λ (e : Event). equals e.id k ≡ false) es
      → event_row k (process_events l es w) ≡ event_row k w
  unfolding process_events
  process_events-other [] k w h = refl
  process_events-other (e ∷ es) k w h =
      process_events-other es k (process_event l e w) h.1 ∙ process_event-other e k w h.0

  -- Each polled row was pending, so it has another id.
  polled-other :
      (k n m : ℕ) (rows : List EventRow)
      → IsSettled k rows
      → All
          (λ (e : Event). equals e.id k ≡ false)
          (map Events.scan_event (take m (Events.pending_rows network.engine n rows)))
  unfolding Events.pending_rows Events.scan_event
  polled-other k n m rows h =
      All-of_map (λ (e : Event). equals e.id k ≡ false) Events.scan_event
        (take m (Events.pending_rows network.engine n rows))
        (All-take IsOther m (Events.pending_rows network.engine n rows) (
          All-order_asc (λ (r : EventRow). r.created_at) IsOther
            (keep (λ (r : EventRow). Events.is_pending r && not (network.engine.locked n r.id))
              rows)
            (All-keep_map
              (λ (r : EventRow). Events.is_pending r && not (network.engine.locked n r.id)) rows
              (λ r settled test. ground (arith, settled)) h)))
    where
      IsOther : EventRow → Type 0
      IsOther r = equals (Events.scan_event r).id k ≡ false

  -- A scan leaves the row of an event that is not pending as it is, whatever the servers answer.
  pub scan_backlog-settled :
      (k : ℕ) (w : World) → IsSettled k w.db.events → event_row k (scan_backlog l w) ≡ event_row k w
  unfolding scan_backlog Store.poll_pending_events
  scan_backlog-settled k w h =
      let (same, result) = poll_pending_events-cases network.engine l.poll_limit w.db in
      elim result [
        | inl (e, failed) ↦ rw (failed, same)
        | inr (m, polled) ↦
            rw (polled, same)
              (process_events-other
                (map Events.scan_event
                  (take m (Events.pending_rows network.engine w.db.statements w.db.events)))
                k (record w { db = tick w.db }) (polled-other k w.db.statements m w.db.events h))
      ]
