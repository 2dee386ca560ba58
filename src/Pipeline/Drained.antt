-- ===== src/Pipeline/Drained.antt =====
-- What a scan of the backlog (internal/poller/outbox.go) leaves pending, when all servers answer.
use temporal_durable_event_p.Repository.Models.{Event}
use mathlib.Core.Path.{subst}
use temporal_durable_event_p.Base.{
  List, [], ◌∷◌, arith, map, Bool, ℕ, ◌≡◌, true, ◌&&◌, not, some, Bool-cases, inl, inr, String,
  none, if◌then◌else◌, Option-cases, Option, any, false, ◌==◌, keep, count, ◌≤◌, ==_refl, refl,
  take, keep_congr, take_all, length-keep,
}
use temporal_durable_event_p.Base.Int.{ℤ, pos}
use temporal_durable_event_p.World.{World, Network}
use temporal_durable_event_p.Repository.Store
use temporal_durable_event_p.Repository.Events
use temporal_durable_event_p.Publisher
use temporal_durable_event_p.Repository.Db.Ordering.{All, All-map, any-order_asc, length-order_asc}
use temporal_durable_event_p.Repository.Events.Updates.{
  valid_status, update_event_status-missing, update_event_status-found,
}
use temporal_durable_event_p.Repository.Db.{
  EventRow, update_rows, Engine, equals, StatusEnum, Db, find_row, answered, tick, order_asc,
}
use temporal_durable_event_p.Pgtype.{Uuid}
use temporal_durable_event_p.Handler.Rpc.{Codec}
use temporal_durable_event_p.Poller.Outbox.{
  Payload, OutboxListener, process_events, process_event, poll_limit_or_default, scan_backlog,
}
use temporal_durable_event_p.Poller.System.{new_outbox_listener}
use temporal_durable_event_p.Pipeline.Backlog.{scan_backlog-eq}
use temporal_durable_event_p.Repository.Events.{pending_rows}

-- Every row that is still pending passes the test.
abbrev pub PendingIn : (EventRow → Bool) → List EventRow → Type 0
PendingIn p = All (λ r. Events.is_pending r ≡ true → p r ≡ true)

-- Completing the rows of one id leaves pending only rows of other ids.
pub PendingIn-complete :
    (engine : Engine) (n : ℕ) (u : Uuid) (p : EventRow → Bool) (rows : List EventRow)
    → PendingIn p rows
    → PendingIn
        (λ r. p r && not (equals u r.id))
        (update_rows
          (λ (r : EventRow). r.id)
          u
          (Events.set_status engine n (some StatusEnum.completed))
          rows)
unfolding update_rows
PendingIn-complete engine n u p [] h = tt
PendingIn-complete engine n u p (r ∷ rows) h = elim (Bool-cases (equals u r.id)) [
  | inl same ↦ rw same (λ e. cc, PendingIn-complete engine n u p rows h.1)
  | inr other ↦ rw other (λ e. rw (h.0 e, other), PendingIn-complete engine n u p rows h.1)
]

-- The test that a row's id is none of those of the events.
abbrev pub none_of : List Event → EventRow → Bool
none_of [] r = true
none_of (e ∷ es) r = not (equals e.id r.id) && none_of es r

PendingIn-no_row :
    (u : Uuid) (p : EventRow → Bool) (rows : List EventRow)
    → find_row (λ (r : EventRow). r.id) u rows ≡ none
    → PendingIn p rows
    → PendingIn (λ r. p r && not (equals u r.id)) rows
PendingIn-no_row u p [] e h = tt
PendingIn-no_row u p (r ∷ rows) e h = elim (Bool-cases (equals u r.id)) [
  | inl same ↦ cc (
      subst (λ (b : Bool). (if b then some r else find_row (λ (x : EventRow). x.id) u rows) ≡ none)
        same e)
  | inr other ↦ (
    λ pending. rw (h.0 pending, other),
    PendingIn-no_row u p rows
        (subst
          (λ (b : Bool). (if b then some r else find_row (λ (x : EventRow). x.id) u rows) ≡ none)
          other e)
        h.1,
  )
]

-- An answered statement that completes an event leaves pending only other events.
pub complete-PendingIn :
    (engine : Engine) (u : Uuid) (p : EventRow → Bool) (db : Db)
    → engine.delivery db.statements ≡ answered
    → PendingIn p db.events
    → PendingIn
        (λ r. p r && not (equals u r.id))
        (Events.update_event_status engine
          (record { id = u; status = valid_status StatusEnum.completed })
          db).1.events
complete-PendingIn engine u p db up h =
    elim (Option-cases (find_row (λ (r : EventRow). r.id) u db.events)) [
      | inl gone ↦
          rw (update_event_status-missing engine u StatusEnum.completed db up gone)
            (PendingIn-no_row u p db.events gone h)
      | inr (row, found) ↦
          rw (update_event_status-found engine u StatusEnum.completed db up row found)
            (PendingIn-complete engine db.statements u p db.events h)
    ]

and_assoc : (a b c : Bool) → ((a && b) && c) ≡ true → (a && (b && c)) ≡ true
and_assoc true b c h = h
and_assoc false b c h = h

-- The rows of a list that have a row's id.
abbrev has_id_of : List EventRow → EventRow → Bool
has_id_of rows r = any (λ (s : EventRow). s.id == r.id) rows

-- Every pending row is found by its id among the pending rows.
pending_found : (rows : List EventRow) → PendingIn (has_id_of (keep Events.is_pending rows)) rows
pending_found [] = tt
pending_found (x ∷ rows) = (
  λ e. rw (e, ==_refl x.id),
  All-map rows (λ r q e. found_later x r rows (q e)) (pending_found rows),
)
  where
    found_later :
        (x r : EventRow) (rows : List EventRow)
        → has_id_of (keep Events.is_pending rows) r ≡ true
        → has_id_of (keep Events.is_pending (x ∷ rows)) r ≡ true
    found_later x r rows h = elim (Bool-cases (Events.is_pending x)) [
      | inl y ↦ rw y (ground arith)
      | inr n ↦ rw n h
    ]

none_of-scan :
    (rows : List EventRow) (r : EventRow)
    → none_of (map Events.scan_event rows) r ≡ not (has_id_of rows r)
unfolding Events.scan_event
none_of-scan [] r = refl
none_of-scan (x ∷ rows) r = ground (arith, none_of-scan rows r)

-- With no row locked and few enough pending, a poll selects all pending rows.
polled_all :
    (engine : Engine) (k n : ℕ) (rows : List EventRow)
    → ((id : ℕ) → engine.locked k id ≡ false)
    → count Events.is_pending rows ≤ n
    → take n (Events.pending_rows engine k rows)
      ≡ order_asc (λ (r : EventRow). r.created_at) (keep Events.is_pending rows)
unfolding Events.pending_rows
polled_all engine k n rows free few =
    rw
      (keep_congr (λ (r : EventRow). Events.is_pending r && not (engine.locked k r.id))
        Events.is_pending rows (λ r. ground (arith, free r.id)))
      (take_all n _ (
        omega (
          arith,
          length-order_asc (λ (r : EventRow). r.created_at) (keep Events.is_pending rows),
          length-keep Events.is_pending rows,
        )))

not_pending :
    (rows : List EventRow) (r : EventRow)
    → (Events.is_pending r ≡ true
        → (has_id_of (keep Events.is_pending rows) r
            && none_of
                (map Events.scan_event
                  (order_asc (λ (s : EventRow). s.created_at) (keep Events.is_pending rows)))
                r)
          ≡ true)
    → Events.is_pending r ≡ false
not_pending rows r h = ground (
  arith,
  none_of-scan (order_asc (λ (s : EventRow). s.created_at) (keep Events.is_pending rows)) r,
  any-order_asc (λ (s : EventRow). s.created_at) (λ (s : EventRow). s.id == r.id)
      (keep Events.is_pending rows),
)

module _ {Struct : Type 0} (codec : Codec Struct) (prefix : String) (network : Network)
    (unmarshal_payload : String → Option Payload) (limit : ℤ)
    (broker_up : (k : ℕ) → network.produce k ≡ answered)
    (database_up : (k : ℕ) → network.engine.delivery k ≡ answered) where
  abbrev l : OutboxListener World Struct
  l = new_outbox_listener network codec unmarshal_payload prefix limit

  process_event-PendingIn :
      (e : Event) (p : EventRow → Bool) (w : World)
      → PendingIn p w.db.events
      → PendingIn (λ r. p r && not (equals e.id r.id)) (process_event l e w).db.events
  unfolding process_event Publisher.publish Store.update_event_status_with_params
  process_event-PendingIn e p w h =
      rw (broker_up w.produced)
        (complete-PendingIn network.engine e.id p w.db (database_up w.db.statements) h)

  process_events-PendingIn :
      (es : List Event) (p : EventRow → Bool) (w : World)
      → PendingIn p w.db.events
      → PendingIn (λ r. p r && none_of es r) (process_events l es w).db.events
  unfolding process_events
  process_events-PendingIn [] p w h = All-map w.db.events (λ r q e. rw (q e)) h
  process_events-PendingIn (e ∷ es) p w h =
      All-map (process_events l es (process_event l e w)).db.events
        (λ r q pending. and_assoc (p r) (not (equals e.id r.id)) (none_of es r) (q pending))
        (process_events-PendingIn es (λ r. p r && not (equals e.id r.id)) (process_event l e w)
          (process_event-PendingIn e p w h))

  -- If the database and the broker answer every request, no event row is locked and at most as many
  -- events are pending as the poll limit, then no event is pending after a scan.
  pub scan_backlog-drains :
      (n : ℕ) (w : World)
      → poll_limit_or_default limit ≡ pos n
      → ((k id : ℕ) → network.engine.locked k id ≡ false)
      → count Events.is_pending w.db.events ≤ n
      → All (λ r. Events.is_pending r ≡ false) (scan_backlog l w).db.events
  scan_backlog-drains n w e free few =
      rw
        (
          scan_backlog-eq codec prefix network unmarshal_payload limit broker_up n w e
              (database_up w.db.statements),
          polled_all network.engine w.db.statements n w.db.events (free w.db.statements) few,
        )
        (All-map _ (λ r h. not_pending w.db.events r h)
          (process_events-PendingIn
            (map Events.scan_event
              (order_asc (λ (s : EventRow). s.created_at) (keep Events.is_pending w.db.events)))
            (has_id_of (keep Events.is_pending w.db.events)) (record w { db = tick w.db })
            (pending_found w.db.events)))
