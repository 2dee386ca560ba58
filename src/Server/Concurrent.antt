-- ===== src/Server/Concurrent.antt =====
-- The services (internal/handler) beside the poller (internal/poller), where requests are served before
-- every single call of the loop: within a scan, and between `Publish` and the change of status.
use temporal_durable_event_p.Base.{suc, List, String, ◌≡◌, Option, map, refl}
use temporal_durable_event_p.Base.Exec.{Result, ok, err}
use temporal_durable_event_p.Base.Int.{ℤ}
use temporal_durable_event_p.World.{World, Network, Record}
use temporal_durable_event_p.Pgtype.{Uuid}
use temporal_durable_event_p.Server.{Request, serve_all}
use temporal_durable_event_p.Handler.Rpc.{Codec}
use temporal_durable_event_p.Handler.Converter.{pg_uuid_to_string}
use temporal_durable_event_p.Repository.Db.{Delivery, StatusEnum}
use temporal_durable_event_p.Repository.Models.{Event}
use temporal_durable_event_p.Repository.Store
use temporal_durable_event_p.Publisher
use temporal_durable_event_p.Publisher.{PublisherError}
use temporal_durable_event_p.Server.Keeps.{OutboxKeeps}
use temporal_durable_event_p.Server.Refined.{requests-Reached}
use temporal_durable_event_p.Server.Interleaving.{
  NoneCompletes, Traffic, TrafficLeavesCompletion, round_of, serve_all-keeps, traffic-RoundsKeep,
}
use temporal_durable_event_p.Pipeline.Refined.{
  Reached, mark-Reached, produce-Reached, produce-IsSent, key_of_event, calls-Reached,
}
use temporal_durable_event_p.Pipeline.Completed.{Steps-IsDelivered}
use temporal_durable_event_p.Pipeline.Delivered.{IsDelivered}
use temporal_durable_event_p.Pipeline.Spec.{Outbox, Steps, view, here, IsSent}
use temporal_durable_event_p.Poller.Invariant.{CallsKeep, run-keeps}
use temporal_durable_event_p.Poller.Outbox.{
  Payload, OutboxListener, run, settle, process_event, topic_for_event_type,
}
use temporal_durable_event_p.Poller.System.{new_outbox_listener}

-- The listener on a state that others change before each of its calls.
abbrev pub disturbed :
    {S Struct : Type 0} → (S → S) → OutboxListener S Struct → OutboxListener S Struct
disturbed others l = record l {
  store = record {
    poll_pending_events = λ limit s. l.store.poll_pending_events limit (others s);
    get_event_by_id = λ id s. l.store.get_event_by_id id (others s);
    update_event_status_with_params =
        λ params s. l.store.update_event_status_with_params params (others s);
    mark_event_failed = λ event s. l.store.mark_event_failed event (others s);
  };
  publisher = record {
    publish = λ topic key value s. l.publisher.publish topic key value (others s);
  };
  listener = record {
    start = λ s. l.listener.start (others s);
    wait_for_notification = λ s. l.listener.wait_for_notification (others s);
    close = λ s. l.listener.close (others s);
    reconnect = λ s. l.listener.reconnect (others s);
  };
}

module _ {Struct : Type 0} (network : Network) (codec : Codec Struct)
    (hash : String → World → Result (Unit {0}) String)
    (schedule : World → List (Request Struct)) where
  -- The requests that the schedule puts before the next call are served. Every call that reaches the
  -- database, the broker or the connection advances a counter of the world, by which the schedule can
  -- tell it from the others.
  abbrev pub others : World → World
  others w = serve_all network codec hash (schedule w) w

  module _ (quiet : (w : World) → NoneCompletes (schedule w)) where
    others-keeps :
        (P : World → Type 0) → OutboxKeeps codec network hash P → (w : World) → P w → P (others w)
    others-keeps P k w h = serve_all-keeps network codec hash P k (schedule w) w (quiet w) h

    -- What has been published stays published while requests are served.
    IsSent-OutboxKeeps : (u : Uuid) → OutboxKeeps codec network hash (λ w. IsSent codec u (view w))
    IsSent-OutboxKeeps u = record {
      same = λ w' w same h. rw (same.0) h;
      insert = λ event_type payload w h. h;
      set = λ id s w n h. h;
    }

    module _ (w₀ : World) (unmarshal_payload : String → Option Payload) (prefix : String)
        (limit : ℤ) where
      abbrev v : Outbox
      v = view w₀

      abbrev l : OutboxListener World Struct
      l = new_outbox_listener network codec unmarshal_payload prefix limit

      others-Reached : (w : World) → Reached codec network v w → Reached codec network v (others w)
      others-Reached w h =
          others-keeps (Reached codec network v) (requests-Reached codec network hash v) w h

      settle-Reached :
          (event : Event) (r : Result PublisherError (Unit {0})) (w : World)
          → (r ≡ ok tt → IsSent codec event.id (view w))
          → Reached codec network v w
          → Reached codec network v (settle (disturbed others l) event r w)
      unfolding Store.update_event_status_with_params Store.mark_event_failed
      settle-Reached event (ok _) w sent h =
          mark-Reached codec network v event.id StatusEnum.completed (others w)
            (λ _.
              others-keeps (λ x. IsSent codec event.id (view x)) (IsSent-OutboxKeeps event.id) w
                (sent refl))
            (others-Reached w h)
      settle-Reached event (err _) w sent h =
          mark-Reached codec network v event.id StatusEnum.failed (others w) (λ e. cc)
            (others-Reached w h)

      process_event-Reached :
          (event : Event) (w : World)
          → Reached codec network v w
          → Reached codec network v (process_event (disturbed others l) event w)
      unfolding process_event Publisher.publish
      process_event-Reached event w h =
          let o : World = others w in
          let d : Delivery = network.produce o.produced in
          let r : Record = record {
            topic = topic_for_event_type prefix event.event_type;
            key = pg_uuid_to_string codec event.id;
            value = event.payload;
          } in
          let w' : World = record o { produced = suc o.produced } in
          settle-Reached event (Publisher.produce d r w').0 (Publisher.produce d r w').1
            (λ sent.
              produce-IsSent codec network v d r w' event.id
                (key_of_event codec network v unmarshal_payload prefix limit event.id) sent)
            (produce-Reached codec network v d r w' (others-Reached w h))

      disturbed-CallsKeep : CallsKeep (disturbed others l) (Reached codec network v)
      disturbed-CallsKeep =
          let k : CallsKeep l (Reached codec network v) =
            calls-Reached codec network v unmarshal_payload prefix limit in
          record {
            poll = λ limit w h. k.poll limit (others w) (others-Reached w h);
            get = λ id w h. k.get id (others w) (others-Reached w h);
            process = λ event w h. process_event-Reached event w h;
            wait = λ w h. k.wait (others w) (others-Reached w h);
            close = λ w h. k.close (others w) (others-Reached w h);
            reconnect = λ w h. k.reconnect (others w) (others-Reached w h);
          }

  module _ (unmarshal_payload : String → Option Payload) (prefix : String) (limit : ℤ) where
    abbrev pub disturbed_run : List (Traffic Struct) → World → World
    disturbed_run ts w =
        (run (disturbed others (new_outbox_listener network codec unmarshal_payload prefix limit))
          (map (round_of network codec hash) ts) w).1

    -- Whatever requests, none of which marks an event completed, are served before each call of the
    -- poller to the store, the broker and its connection, within a scan and between the publication
    -- of an event and its change of status included, and however these answer: the events and the
    -- published keys change by steps of the abstract outbox, of which each inserts a new pending
    -- event, publishes a key, or changes a status, to completed only where the event's key has been
    -- published before.
    pub disturbed-refines :
        (ts : List (Traffic Struct)) (w : World)
        → ((w : World) → NoneCompletes (schedule w))
        → TrafficLeavesCompletion ts
        → Steps codec (view w) (view (disturbed_run ts w))
    disturbed-refines ts w quiet n =
        run-keeps (disturbed-CallsKeep quiet w unmarshal_payload prefix limit)
          (map (round_of network codec hash) ts) w
          (traffic-RoundsKeep network codec hash (Reached codec network (view w))
            (requests-Reached codec network hash (view w)) _ ts n)
          here

    -- Whatever requests, none of which marks an event completed, are served before each call of the
    -- poller, and however the database, the broker and the connection answer, each completed event
    -- has a record with its key in the broker's log, if that held at the start.
    pub disturbed-IsDelivered :
        (ts : List (Traffic Struct)) (w : World)
        → ((w : World) → NoneCompletes (schedule w))
        → TrafficLeavesCompletion ts
        → IsDelivered codec w
        → IsDelivered codec (disturbed_run ts w)
    disturbed-IsDelivered ts w quiet n h =
        Steps-IsDelivered codec w (disturbed_run ts w) (disturbed-refines ts w quiet n) h
