-- ===== src/Tests/Pipeline.antt =====
-- Instances of the theorems about the outbox pipeline.
use temporal_durable_event_p.Tests.Data.{network, codec, hash, unmarshal_payload, world}
use temporal_durable_event_p.Server.{Request}
use temporal_durable_event_p.Server.Interleaving.{
  Traffic, round_of, pipeline-IsDelivered, pipeline-refines, pipeline-Grows, pipeline-AreDistinct,
}
use temporal_durable_event_p.Pipeline.Spec.{Steps, view}
use temporal_durable_event_p.Pipeline.Distinct.{AreDistinct}
use temporal_durable_event_p.Pipeline.Growth.{ids, Grows}
use temporal_durable_event_p.Pipeline.Backlog.{scan_backlog-log, record_of_row}
use temporal_durable_event_p.Pipeline.Drained.{scan_backlog-drains}
use temporal_durable_event_p.Pipeline.Settled.{scan_backlog-settled}
use temporal_durable_event_p.Pipeline.Redelivery.{handle_notification-log}
use temporal_durable_event_p.Tests.Data.{pending_row, failed_row}
use temporal_durable_event_p.Repository.Events
use temporal_durable_event_p.Repository.Db.Ordering.{All}
use temporal_durable_event_p.Base.{false, List, String, some, ◌≡◌, map, arith, ◌∷◌, [], refl}
use temporal_durable_event_p.Repository.Db.{find_row, EventRow, scan_uuid}
use temporal_durable_event_p.Pipeline.Delivered.{IsDelivered}
use temporal_durable_event_p.Base.Int.{pos}
use temporal_durable_event_p.Poller.Outbox.{scan_backlog, handle_notification, run}
use temporal_durable_event_p.Poller.System.{new_outbox_listener}
use temporal_durable_event_p.Server.Concurrent.{
  disturbed-IsDelivered, disturbed-refines, disturbed_run,
}
use temporal_durable_event_p.World.{World}

-- An event is created while the poller waits.
abbrev traffic : List (Traffic String)
traffic =
    record {
      while_waiting =
          Request.create_event (record { event_type = "order.created"; payload = some "{}" }) ∷ [];
      while_backing_off = [];
    }
    ∷ []

pipeline-IsDelivered_example :
    IsDelivered codec
      (run
        (new_outbox_listener network codec unmarshal_payload "events" (pos 100))
        (map (round_of network codec hash) traffic)
        world).1
pipeline-IsDelivered_example =
    pipeline-IsDelivered network codec hash unmarshal_payload "events" (pos 100) traffic world
      ((refl, tt), tt, tt) ((λ e. cc), ((λ e. cc), ((λ e. cc), tt)))

scan_backlog-log_example :
    (scan_backlog
      (new_outbox_listener network codec unmarshal_payload "events" (pos 100))
      world).log
    ≡ map (record_of_row codec "events") (pending_row 1 7 ∷ pending_row 2 8 ∷ [])
unfolding Events.pending_rows
scan_backlog-log_example =
    scan_backlog-log codec "events" network unmarshal_payload (pos 100) (λ k. refl) 100 world refl
      refl

scan_backlog-drains_example :
    All
      (λ (r : EventRow). Events.is_pending r ≡ false)
      (scan_backlog
        (new_outbox_listener network codec unmarshal_payload "events" (pos 100))
        world).db.events
scan_backlog-drains_example =
    scan_backlog-drains codec "events" network unmarshal_payload (pos 100) (λ k. refl) (λ k. refl)
      100 world refl (λ k id. refl) (omega arith)

scan_backlog-settled_example :
    find_row
      (λ (r : EventRow). r.id)
      (scan_uuid 3)
      (scan_backlog
        (new_outbox_listener network codec unmarshal_payload "events" (pos 100))
        world).db.events
    ≡ some failed_row
scan_backlog-settled_example =
    scan_backlog-settled codec "events" network unmarshal_payload (pos 100) 3 world (ground arith)

handle_notification-log_example :
    (handle_notification
      (new_outbox_listener network codec unmarshal_payload "events" (pos 100))
      "|||"
      world).log
    ≡ record_of_row codec "events" failed_row ∷ []
handle_notification-log_example =
    handle_notification-log codec "events" network unmarshal_payload (pos 100) "|||"
      (record { id = "|||"; event_type = ""; status = "pending" }) failed_row world refl refl refl
      refl refl

pipeline-refines_example : Steps codec (view world) (
    view
      (run
        (new_outbox_listener network codec unmarshal_payload "events" (pos 100))
        (map (round_of network codec hash) traffic)
        world).1)
pipeline-refines_example =
    pipeline-refines network codec hash unmarshal_payload "events" (pos 100) traffic world
      ((refl, tt), tt, tt)

pipeline-Grows_example : Grows (view world) (
    view
      (run
        (new_outbox_listener network codec unmarshal_payload "events" (pos 100))
        (map (round_of network codec hash) traffic)
        world).1)
pipeline-Grows_example =
    pipeline-Grows network codec hash unmarshal_payload "events" (pos 100) traffic world
      ((refl, tt), tt, tt)

-- The event 3 has been published.
pipeline-AreDistinct_example : AreDistinct (
    ids
      (view
        (run
          (new_outbox_listener network codec unmarshal_payload "events" (pos 100))
          (map (round_of network codec hash) traffic)
          world).1).items)
pipeline-AreDistinct_example =
    pipeline-AreDistinct network codec hash unmarshal_payload "events" (pos 100) traffic world
      ((refl, tt), tt, tt) (refl, (refl, (refl, tt)))

-- An event is created before every call of the loop.
abbrev creations : World → List (Request String)
creations w =
    Request.create_event (record { event_type = "order.created"; payload = some "{}" }) ∷ []

disturbed-refines_example : Steps codec (view world) (
    view (
      disturbed_run network codec hash creations unmarshal_payload "events"
        (pos 100)
        traffic
        world))
disturbed-refines_example =
    disturbed-refines network codec hash creations unmarshal_payload "events" (pos 100) traffic
      world (λ w. (refl, tt)) ((refl, tt), tt, tt)

disturbed-IsDelivered_example :
    IsDelivered codec (
      disturbed_run network codec hash creations unmarshal_payload "events" (pos 100) traffic world)
disturbed-IsDelivered_example =
    disturbed-IsDelivered network codec hash creations unmarshal_payload "events" (pos 100) traffic
      world (λ w. (refl, tt)) ((refl, tt), tt, tt) ((λ e. cc), ((λ e. cc), ((λ e. cc), tt)))
