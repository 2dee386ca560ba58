-- ===== src/Server/Interleaving.antt =====
-- The services (internal/handler) and the poller (internal/poller) at work on one world, where
-- requests are served while the loop of the poller waits for a notification or backs off.
use temporal_durable_event_p.Base.{List, [], ◌∷◌, String, ◌≡◌, Option, false, map}
use temporal_durable_event_p.Base.Exec.{Result}
use temporal_durable_event_p.Base.Int.{ℤ}
use temporal_durable_event_p.World.{World, Network}
use temporal_durable_event_p.Poller.Invariant.{RoundsKeep, run_rounds-keeps}
use temporal_durable_event_p.Server.{Request, serve_all, serve}
use temporal_durable_event_p.Handler.Rpc.{Codec}
use temporal_durable_event_p.Server.Keeps.{completes, serve-keeps, OutboxKeeps}
use temporal_durable_event_p.Server.Outbox.{requests-IsDelivered}
use temporal_durable_event_p.Server.Refined.{requests-Reached}
use temporal_durable_event_p.Pipeline.Refined.{Reached, run-Reached}
use temporal_durable_event_p.Pipeline.Distinct.{AreDistinct, Steps-AreDistinct}
use temporal_durable_event_p.Pipeline.Growth.{ids, Grows, Steps-Grows}
use temporal_durable_event_p.Pipeline.Spec.{Steps, view, here}
use temporal_durable_event_p.Poller.Outbox.{Round, Payload, run, run_rounds, OutboxListener}
use temporal_durable_event_p.Pipeline.Delivered.{IsDelivered, run-IsDelivered, calls-IsDelivered}
use temporal_durable_event_p.Poller.System.{new_outbox_listener}

-- The requests that are served while the poller waits, and those served while it backs off.
pub record Traffic (Struct : Type 0) : Type 0 where
  pub while_waiting : List (Request Struct)
  pub while_backing_off : List (Request Struct)

abbrev pub NoneCompletes : {Struct : Type 0} → List (Request Struct) → Type 0
NoneCompletes [] = Unit
NoneCompletes (r ∷ rs) = (completes r ≡ false) × NoneCompletes rs

-- No request of the traffic marks an event completed.
abbrev pub TrafficLeavesCompletion : {Struct : Type 0} → List (Traffic Struct) → Type 0
TrafficLeavesCompletion [] = Unit
TrafficLeavesCompletion (t ∷ ts) =
    NoneCompletes t.while_waiting × NoneCompletes t.while_backing_off × TrafficLeavesCompletion ts

module _ {Struct : Type 0} (network : Network) (codec : Codec Struct)
    (hash : String → World → Result (Unit {0}) String) where
  abbrev pub round_of : Traffic Struct → Round World
  round_of t = record {
    meanwhile = serve_all network codec hash t.while_waiting;
    backoff = serve_all network codec hash t.while_backing_off;
  }

  module _ (P : World → Type 0) (k : OutboxKeeps codec network hash P) where
    pub serve_all-keeps :
        (rs : List (Request Struct)) (w : World)
        → NoneCompletes rs
        → P w
        → P (serve_all network codec hash rs w)
    unfolding serve_all
    serve_all-keeps [] w n h = h
    serve_all-keeps (r ∷ rs) w n h =
        serve_all-keeps rs (serve network codec hash r w).1 n.1
          (serve-keeps codec network hash P r w k n.0 h)

    -- Traffic keeps in every round what the requests keep.
    pub traffic-RoundsKeep :
        (l : OutboxListener World Struct) (ts : List (Traffic Struct))
        → TrafficLeavesCompletion ts
        → RoundsKeep l P (map round_of ts)
    traffic-RoundsKeep l [] n = tt
    traffic-RoundsKeep l (t ∷ ts) n = (
      record {
        meanwhile = λ w h. serve_all-keeps t.while_waiting w n.0 h;
        backoff = λ w h. serve_all-keeps t.while_backing_off w n.1 h;
      },
      traffic-RoundsKeep l ts n.2,
    )

  module _ (unmarshal_payload : String → Option Payload) (prefix : String) (limit : ℤ) where
    abbrev l : OutboxListener World Struct
    l = new_outbox_listener network codec unmarshal_payload prefix limit

    -- Whatever requests are served, in any order, while the loop of the poller waits or backs off,
    -- and however the database, the broker and the connection answer: if none of them marks an event
    -- completed, then each completed event has a record with its key in the broker's log, if that held
    -- at the start.
    pub pipeline-IsDelivered :
        (ts : List (Traffic Struct)) (w : World)
        → TrafficLeavesCompletion ts
        → IsDelivered codec w
        → IsDelivered codec (run l (map round_of ts) w).1
    pipeline-IsDelivered ts w n h =
        run-IsDelivered codec network unmarshal_payload prefix limit (map round_of ts) w
          (traffic-RoundsKeep (IsDelivered codec) (requests-IsDelivered codec network hash) l ts n)
          h

    -- The loop behind its first scan, after the requests `rs`.
    pub run_rounds-IsDelivered :
        (rs : List (Request Struct)) (ts : List (Traffic Struct)) (w : World)
        → NoneCompletes rs
        → TrafficLeavesCompletion ts
        → IsDelivered codec w
        → IsDelivered codec (run_rounds l (map round_of ts) (serve_all network codec hash rs w)).1
    run_rounds-IsDelivered rs ts w served n h =
        run_rounds-keeps (calls-IsDelivered codec network unmarshal_payload prefix limit)
          (map round_of ts) (serve_all network codec hash rs w)
          (traffic-RoundsKeep (IsDelivered codec) (requests-IsDelivered codec network hash) l ts n)
          (serve_all-keeps (IsDelivered codec) (requests-IsDelivered codec network hash) rs w served
            h)

    -- Whatever requests are served, in any order, while the loop of the poller waits or backs off,
    -- and however the database, the broker and the connection answer: if none of them marks an event
    -- completed, then the events and the published keys change by steps of the abstract outbox, of
    -- which each inserts a new pending event, publishes a key, or changes a status, to completed only
    -- where the event's key has been published before.
    pub pipeline-refines :
        (ts : List (Traffic Struct)) (w : World)
        → TrafficLeavesCompletion ts
        → Steps codec (view w) (view (run l (map round_of ts) w).1)
    pipeline-refines ts w n =
        run-Reached codec network (view w) unmarshal_payload prefix limit (map round_of ts) w
          (traffic-RoundsKeep (Reached codec network (view w))
            (requests-Reached codec network hash (view w)) l ts n)
          here

    -- Whatever requests, none of which marks an event completed, are served while the loop waits or
    -- backs off, no event is removed, the order of the events stays, and no published key is taken
    -- back: new events and new keys come after the old ones.
    pub pipeline-Grows :
        (ts : List (Traffic Struct)) (w : World)
        → TrafficLeavesCompletion ts
        → Grows (view w) (view (run l (map round_of ts) w).1)
    pipeline-Grows ts w n = Steps-Grows codec (view w) _ (pipeline-refines ts w n)

    -- Whatever requests, none of which marks an event completed, are served while the loop waits or
    -- backs off, no two events have the same id, if that held at the start.
    pub pipeline-AreDistinct :
        (ts : List (Traffic Struct)) (w : World)
        → TrafficLeavesCompletion ts
        → AreDistinct (ids (view w).items)
        → AreDistinct (ids (view (run l (map round_of ts) w).1).items)
    pipeline-AreDistinct ts w n h = Steps-AreDistinct codec (view w) _ (pipeline-refines ts w n) h
