-- ===== src/Pipeline/Refined.antt =====
-- The poller (internal/poller, internal/publisher over internal/repository) and the steps of the
-- abstract outbox.
use temporal_durable_event_p.Base.{
  refl, ℕ, suc, true, ◌≡◌, inl, inr, some, List, [], ◌∷◌, ◌++◌, eq_refl, map, arith, String, Option,
  sym,
}
use temporal_durable_event_p.Pgtype.{Uuid}
use temporal_durable_event_p.Repository.Db.{
  Engine, EventRow, StatusEnum, update_rows, equals, Delivery, answered, refused, reply_lost,
}
use temporal_durable_event_p.Repository.Events.{set_status}
use temporal_durable_event_p.Repository.Events.Updates.{valid_status, update_event_status-events}
use temporal_durable_event_p.Repository.Models.{Event}
use temporal_durable_event_p.Repository.Store
use temporal_durable_event_p.Repository.Events
use temporal_durable_event_p.World.{World, Network, Record}
use temporal_durable_event_p.Handler.Rpc.{Codec}
use temporal_durable_event_p.Handler.Converter.{pg_uuid_to_string}
use temporal_durable_event_p.Base.Exec.{ok, Result, err}
use temporal_durable_event_p.Base.Int.{ℤ}
use temporal_durable_event_p.Poller.Outbox.{
  Payload, OutboxListener, process_event, topic_for_event_type, settle, Round, run,
}
use temporal_durable_event_p.Poller.System.{new_outbox_listener}
use temporal_durable_event_p.Poller.Invariant.{CallsKeep, RoundsKeep, run-keeps}
use temporal_durable_event_p.Poller.PgListener
use temporal_durable_event_p.Publisher
use temporal_durable_event_p.Publisher.{PublisherError}
use temporal_durable_event_p.Pipeline.Spec.{
  Outbox, item_of, view, has_key, set_item, IsSent, publish, mark, Steps, then,
}

pub item_of-append :
    (rows : List EventRow) (r : EventRow)
    → map item_of (rows ++ r ∷ []) ≡ map item_of rows ++ item_of r ∷ []
item_of-append [] r = refl
item_of-append (x ∷ rows) r = rw (item_of-append rows r) refl

key-append :
    (log : List Record) (r : Record)
    → map (λ (r : Record). r.key) (log ++ r ∷ []) ≡ map (λ (r : Record). r.key) log ++ r.key ∷ []
key-append [] r = refl
key-append (x ∷ log) r = rw (key-append log r) refl

set_item-set_status :
    (engine : Engine) (n : ℕ) (u : Uuid) (s : StatusEnum) (rows : List EventRow)
    → map item_of (update_rows (λ (r : EventRow). r.id) u (set_status engine n (some s)) rows)
      ≡ set_item u s (map item_of rows)
unfolding update_rows
set_item-set_status engine n u s [] = refl
set_item-set_status engine n u s (r ∷ rows) = ground (arith, set_item-set_status engine n u s rows)

has_key-append : (keys : List String) (key : String) → has_key key (keys ++ key ∷ []) ≡ true
has_key-append [] key = rw (eq_refl key) refl
has_key-append (k ∷ keys) key = ground (arith, has_key-append keys key)

module _ {Struct : Type 0} (codec : Codec Struct) (network : Network) (v : Outbox) where
  -- The world has been reached by steps.
  abbrev pub Reached : World → Type 0
  Reached w = Steps codec v (view w)

  pub Reached-view : (w w' : World) → view w' ≡ view w → Reached w → Reached w'
  Reached-view w w' same h = rw same h

  pub mark-Reached :
      (u : Uuid) (s : StatusEnum) (w : World)
      → (s ≡ StatusEnum.completed → IsSent codec u (view w))
      → Reached w
      → Reached (record w {
        db =
            (Events.update_event_status network.engine
              (record { id = u; status = valid_status s })
              w.db).1;
      })
  mark-Reached u s w sent h = elim (update_event_status-events network.engine u s w.db) [
    | inl same ↦ rw same h
    | inr changed ↦
        rw (changed, set_item-set_status network.engine w.db.statements u s w.db.events)
          (then (view w) (record (view w) { items = set_item u s (map item_of w.db.events) }) h
            (mark (view w) u s sent))
  ]

  append-Reached : (r : Record) (w : World) → Reached w → Reached (Publisher.append_record r w)
  append-Reached r w h = rw (key-append w.log r) (
      then (view w) (record (view w) { published = (view w).published ++ r.key ∷ [] }) h
        (publish (view w) r.key))

  pub produce-Reached :
      (d : Delivery) (r : Record) (w : World) → Reached w → Reached (Publisher.produce d r w).1
  produce-Reached answered r w h = append-Reached r w h
  produce-Reached refused r w h = h
  produce-Reached reply_lost r w h = append-Reached r w h

  pub produce-IsSent :
      (d : Delivery) (r : Record) (w : World) (u : Uuid)
      → ((id : ℕ) → equals u id ≡ true → r.key ≡ codec.uuid_text id)
      → (Publisher.produce d r w).0 ≡ ok tt
      → IsSent codec u (view (Publisher.produce d r w).1)
  produce-IsSent answered r w u key sent id same =
      rw (key-append w.log r, sym (key id same))
        (has_key-append (map (λ (r : Record). r.key) w.log) r.key)
  produce-IsSent refused r w u key sent id same = cc
  produce-IsSent reply_lost r w u key sent id same = cc

  module _ (unmarshal_payload : String → Option Payload) (prefix : String) (limit : ℤ) where
    abbrev l : OutboxListener World Struct
    l = new_outbox_listener network codec unmarshal_payload prefix limit

    settle-Reached :
        (event : Event) (r : Result PublisherError (Unit {0})) (w : World)
        → (r ≡ ok tt → IsSent codec event.id (view w))
        → Reached w
        → Reached (settle l event r w)
    unfolding Store.update_event_status_with_params Store.mark_event_failed
    settle-Reached event (ok _) w sent h =
        mark-Reached event.id StatusEnum.completed w (λ _. sent refl) h
    settle-Reached event (err _) w sent h = mark-Reached event.id StatusEnum.failed w (λ e. cc) h

    pub key_of_event :
        (u : Uuid) (id : ℕ) → equals u id ≡ true → pg_uuid_to_string codec u ≡ codec.uuid_text id
    unfolding pg_uuid_to_string
    key_of_event u id h = ground arith

    process_event-Reached :
        (event : Event) (w : World) → Reached w → Reached (process_event l event w)
    unfolding process_event Publisher.publish
    process_event-Reached event w h =
        let d : Delivery = network.produce w.produced in
        let r : Record = record {
          topic = topic_for_event_type prefix event.event_type;
          key = pg_uuid_to_string codec event.id;
          value = event.payload;
        } in
        let w' : World = record w { produced = suc w.produced } in
        settle-Reached event (Publisher.produce d r w').0 (Publisher.produce d r w').1
          (λ sent. produce-IsSent d r w' event.id (key_of_event event.id) sent)
          (produce-Reached d r w' h)

    pub calls-Reached : CallsKeep l Reached
    unfolding Store.poll_pending_events Events.poll_pending_events Store.get_event_by_id
        Events.get_event_by_id PgListener.wait_for_notification PgListener.close
        PgListener.reconnect
    calls-Reached = record {
      poll = λ limit w h. ground arith;
      get = λ id w h. ground arith;
      process = λ event w h. process_event-Reached event w h;
      wait = λ w h. ground arith;
      close = λ w h. ground arith;
      reconnect = λ w h. ground arith;
    }

    -- The loop takes steps of the abstract outbox, if the rest of the system does.
    pub run-Reached :
        (rounds : List (Round World)) (w : World)
        → RoundsKeep l Reached rounds
        → Reached w
        → Reached (run l rounds w).1
    run-Reached rounds w rs h = run-keeps calls-Reached rounds w rs h
