-- ===== src/Pipeline/Delivered.antt =====
-- Completed events and the log of the broker: internal/poller/outbox.go over
-- internal/repository and internal/publisher.
use temporal_durable_event_p.Base.{
  refl, ℕ, Bool, true, ◌≡◌, inl, inr, some, List, [], ◌∷◌, ◌++◌, str_eq, eq_refl, any, arith,
  Bool-cases, String, Option, suc,
}
use temporal_durable_event_p.Pgtype.{Uuid}
use temporal_durable_event_p.Repository.Db.{
  Engine, EventRow, StatusEnum, update_rows, equals, Delivery, answered, refused, reply_lost,
}
use temporal_durable_event_p.Repository.Events.{set_status, poll_pending_events, get_event_by_id}
use temporal_durable_event_p.Repository.Events.Updates.{valid_status, update_event_status-events}
use temporal_durable_event_p.Repository.Models.{Event}
use temporal_durable_event_p.Repository.Store
use temporal_durable_event_p.Repository.Events
use temporal_durable_event_p.World.{World, Network, Record}
use temporal_durable_event_p.Handler.Rpc.{Codec}
use temporal_durable_event_p.Poller.Outbox.{
  Payload, OutboxListener, process_event, topic_for_event_type, settle, Round, run,
}
use temporal_durable_event_p.Base.Exec.{ok, Result, err}
use temporal_durable_event_p.Base.Int.{ℤ}
use temporal_durable_event_p.Handler.Converter.{pg_uuid_to_string}
use temporal_durable_event_p.Poller.System.{new_outbox_listener}
use temporal_durable_event_p.Publisher.{PublisherError}
use temporal_durable_event_p.Poller.Invariant.{CallsKeep, RoundsKeep, run-keeps}
use temporal_durable_event_p.Publisher
use temporal_durable_event_p.Poller.PgListener

-- A record with the event's key is in the log.
abbrev pub is_published : {Struct : Type 0} → Codec Struct → ℕ → List Record → Bool
is_published codec id log = any (λ (r : Record). str_eq r.key (codec.uuid_text id)) log

abbrev pub RowsDelivered : {Struct : Type 0} → Codec Struct → List Record → List EventRow → Type 0
RowsDelivered codec log [] = Unit
RowsDelivered codec log (r ∷ rs) =
    (r.status ≡ some StatusEnum.completed → is_published codec r.id log ≡ true)
    × RowsDelivered codec log rs

-- Every completed event has been published.
abbrev pub IsDelivered : {Struct : Type 0} → Codec Struct → World → Type 0
IsDelivered codec w = RowsDelivered codec w.log w.db.events

module _ {Struct : Type 0} (codec : Codec Struct) where
  is_published-append :
      (id : ℕ) (log : List Record) (r : Record)
      → is_published codec id log ≡ true
      → is_published codec id (log ++ r ∷ []) ≡ true
  is_published-append id [] r h = cc
  is_published-append id (x ∷ log) r h = ground (arith, is_published-append id log r)

  -- A record with the key of an event publishes it.
  is_published-append_self :
      (id : ℕ) (log : List Record) (r : Record)
      → r.key ≡ codec.uuid_text id
      → is_published codec id (log ++ r ∷ []) ≡ true
  is_published-append_self id [] r h = rw h (rw (eq_refl (codec.uuid_text id)))
  is_published-append_self id (x ∷ log) r h = ground (arith, is_published-append_self id log r h)

  pub RowsDelivered-append :
      (log : List Record) (r : Record) (rows : List EventRow)
      → RowsDelivered codec log rows
      → RowsDelivered codec (log ++ r ∷ []) rows
  RowsDelivered-append log r [] h = tt
  RowsDelivered-append log r (x ∷ rows) h =
      (λ e. is_published-append x.id log r (h.0 e), RowsDelivered-append log r rows h.1)

  -- A change of status keeps the rows delivered, if it completes only a published event.
  pub RowsDelivered-set_status :
      (engine : Engine) (n : ℕ) (u : Uuid) (s : StatusEnum) (log : List Record)
      (rows : List EventRow)
      → (s ≡ StatusEnum.completed
          → (id : ℕ) → equals u id ≡ true
          → is_published codec id log ≡ true)
      → RowsDelivered codec log rows
      → RowsDelivered codec log
          (update_rows (λ (r : EventRow). r.id) u (set_status engine n (some s)) rows)
  unfolding update_rows
  RowsDelivered-set_status engine n u s log [] p h = tt
  RowsDelivered-set_status engine n u s log (x ∷ rows) p h =
      let rest = RowsDelivered-set_status engine n u s log rows p h.1 in
      elim (Bool-cases (equals u x.id)) [
        | inl same ↦ rw same (λ e. p (ground arith) x.id same, rest)
        | inr other ↦ rw other (h.0, rest)
      ]

  module _ (network : Network) where
    -- The two ways in which `ProcessEvent` changes a status.
    pub mark-IsDelivered :
        (u : Uuid) (s : StatusEnum) (w : World)
        → (s ≡ StatusEnum.completed
            → (id : ℕ) → equals u id ≡ true
            → is_published codec id w.log ≡ true)
        → IsDelivered codec w
        → RowsDelivered codec w.log
            (Events.update_event_status network.engine
              (record { id = u; status = valid_status s })
              w.db).1.events
    mark-IsDelivered u s w p h = elim (update_event_status-events network.engine u s w.db) [
      | inl same ↦ rw same h
      | inr changed ↦
          rw changed
            (RowsDelivered-set_status network.engine w.db.statements u s w.log w.db.events p h)
    ]

    produce-IsDelivered :
        (d : Delivery) (r : Record) (w : World)
        → IsDelivered codec w
        → IsDelivered codec (Publisher.produce d r w).1
    produce-IsDelivered answered r w h = RowsDelivered-append w.log r w.db.events h
    produce-IsDelivered refused r w h = h
    produce-IsDelivered reply_lost r w h = RowsDelivered-append w.log r w.db.events h

    -- What `Publish` reports as sent is in the log.
    produce-is_published :
        (d : Delivery) (r : Record) (w : World) (id : ℕ)
        → r.key ≡ codec.uuid_text id
        → (Publisher.produce d r w).0 ≡ ok tt
        → is_published codec id (Publisher.produce d r w).1.log ≡ true
    produce-is_published answered r w id k e = is_published-append_self id w.log r k
    produce-is_published refused r w id k e = cc
    produce-is_published reply_lost r w id k e = cc

    module _ (unmarshal_payload : String → Option Payload) (prefix : String) (limit : ℤ) where
      abbrev l : OutboxListener World Struct
      l = new_outbox_listener network codec unmarshal_payload prefix limit

      settle-IsDelivered :
          (event : Event) (r : Result PublisherError (Unit {0})) (w : World)
          → (r ≡ ok tt → (id : ℕ) → equals event.id id ≡ true → is_published codec id w.log ≡ true)
          → IsDelivered codec w
          → IsDelivered codec (settle l event r w)
      unfolding Store.update_event_status_with_params Store.mark_event_failed
      settle-IsDelivered event (ok _) w p h =
          mark-IsDelivered event.id StatusEnum.completed w (λ _. p refl) h
      settle-IsDelivered event (err _) w p h =
          mark-IsDelivered event.id StatusEnum.failed w (λ e. cc) h

      key_of_event :
          (u : Uuid) (id : ℕ) → equals u id ≡ true → pg_uuid_to_string codec u ≡ codec.uuid_text id
      unfolding pg_uuid_to_string
      key_of_event u id h = ground arith

      -- Processing any event keeps the invariant, however the broker and the database answer.
      pub process_event-IsDelivered :
          (event : Event) (w : World)
          → IsDelivered codec w
          → IsDelivered codec (process_event l event w)
      unfolding process_event Publisher.publish
      process_event-IsDelivered event w h =
          let d : Delivery = network.produce w.produced in
          let r : Record = record {
            topic = topic_for_event_type prefix event.event_type;
            key = pg_uuid_to_string codec event.id;
            value = event.payload;
          } in
          let w' : World = record w { produced = suc w.produced } in
          settle-IsDelivered event (Publisher.produce d r w').0 (Publisher.produce d r w').1
            (λ sent id same. produce-is_published d r w' id (key_of_event event.id id same) sent)
            (produce-IsDelivered d r w' h)

      -- The listener's calls leave the database and the log alone.
      pub calls-IsDelivered : CallsKeep l (IsDelivered codec)
      unfolding Store.poll_pending_events Events.poll_pending_events Store.get_event_by_id
          Events.get_event_by_id PgListener.wait_for_notification PgListener.close
          PgListener.reconnect
      calls-IsDelivered = record {
        poll = λ limit w h. ground arith;
        get = λ id w h. ground arith;
        process = λ event w h. process_event-IsDelivered event w h;
        wait = λ w h. ground arith;
        close = λ w h. ground arith;
        reconnect = λ w h. ground arith;
      }

      pub run-IsDelivered :
          (rounds : List (Round World)) (w : World)
          → RoundsKeep l (IsDelivered codec) rounds
          → IsDelivered codec w
          → IsDelivered codec (run l rounds w).1
      run-IsDelivered rounds w rs h = run-keeps calls-IsDelivered rounds w rs h
