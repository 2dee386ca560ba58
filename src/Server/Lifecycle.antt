-- ===== src/Server/Lifecycle.antt =====
-- internal/server/server.go: a server from `New` to `Stop`, and the shutdown of
-- cmd/server/main.go. The TCP port and the gRPC library's draining are parameters.
use temporal_durable_event_p.Base.{
  String, Bool, true, false, Option, none, some, List, [], ◌∷◌, str_eq, if◌then◌else◌, map_option,
}
use temporal_durable_event_p.Base.Int.{ℤ}
use temporal_durable_event_p.Base.Exec.{Result, ok, err}
use temporal_durable_event_p.World.{World, Network}
use temporal_durable_event_p.Poller.PgListener
use temporal_durable_event_p.Poller.Outbox as Outbox
use temporal_durable_event_p.Poller.Outbox.{
  OutboxListener, Call, returned, panicked, ListenerError, Progress, running, finished, crashed,
  Round,
}

pub data Service : Type 0 where
  user_service product_service order_service event_service health reflection : Service

pub data Grpc : Type 0 where
  ready serving stopped : Grpc

-- A `Server` and the world that it works on. `outbox_cancel` says that the field is not nil; `loop`
-- is the goroutine of the outbox listener, `finished` where there is none.
pub record Server (Struct : Type 0) : Type 0 where
  pub port : ℤ
  pub services : List Service
  pub outbox_listener : Option (OutboxListener World Struct)
  pub outbox_cancel : Bool
  pub grpc : Grpc
  pub loop : Progress
  pub world : World

pub data ServerError : Type 0 where
  port_taken : ServerError

-- Where the loop stands when it next looks at its signals: at the top of its `for`, which is also
-- where the work on an event leads back to, in the wait for a notification, or in the backoff.
pub data Position : Type 0 where
  at_top waiting backing_off : Position

-- `New`
unfoldable pub new : {Struct : Type 0} → ℤ → String → World → Server Struct
new port env w = record {
  port = port;
  services =
      user_service
      ∷ product_service
      ∷ order_service
      ∷ event_service
      ∷ health
      ∷ (if str_eq env "development" then reflection ∷ [] else []);
  outbox_listener = none;
  outbox_cancel = false;
  grpc = ready;
  loop = finished;
  world = w;
}

module _ {Struct : Type 0} where
  -- `SetOutboxListener`
  abbrev pub set_outbox_listener : OutboxListener World Struct → Server Struct → Server Struct
  set_outbox_listener l s = record s { outbox_listener = some l }

  -- After `outboxListener.Start` has returned: its error is only logged, and the context, which
  -- nothing else has, is cancelled.
  abbrev pub outbox_started :
      Server Struct
      → Call (Result ListenerError (Unit {0})) × (Progress × World)
      → Call (Result ServerError (Unit {0})) × Server Struct
  outbox_started s (panicked, (p, w)) = (panicked, record s { loop = p; world = w })
  outbox_started s (returned (ok _), (p, w)) =
      (returned (ok tt), record s { outbox_cancel = true; loop = p; world = w })
  outbox_started s (returned (err _), (p, w)) =
      (returned (ok tt), record s { outbox_cancel = false; loop = p; world = w })

  abbrev pub start_outbox :
      List (Round World)
      → Option (OutboxListener World Struct)
      → Server Struct
      → Call (Result ServerError (Unit {0})) × Server Struct
  start_outbox rounds none s = (returned (ok tt), s)
  start_outbox rounds (some l) s = outbox_started s (Outbox.start l rounds s.world)

  -- `Start`, by whether the port can be listened on, and with the rounds that the loop then makes.
  unfoldable pub start :
      Bool
      → List (Round World)
      → Server Struct
      → Call (Result ServerError (Unit {0})) × Server Struct
  start listens rounds s =
      if listens
      then start_outbox rounds s.outbox_listener (record s { grpc = serving })
      else (returned (err port_taken), s)

  -- The loop from a position on.
  abbrev pub resume :
      OutboxListener World Struct → Position → Round World → World → Progress × World
  resume l at_top round w = Outbox.run_round l round w
  resume l waiting round w = Outbox.after_wait l round (l.listener.wait_for_notification w)
  resume l backing_off round w = Outbox.after_backoff l w

  -- `wg.Wait()`, none while the loop still runs after the round given.
  abbrev pub waited : Server Struct → Progress × World → Option (Server Struct)
  waited s (running, w) = none
  waited s (finished, w) = some (record s { loop = finished; world = w })
  waited s (crashed, w) = none

  abbrev pub await :
      OutboxListener World Struct
      → Position
      → Round World
      → Server Struct
      → Progress
      → Option (Server Struct)
  await l position round s running = waited s (resume l position round s.world)
  await l position round s finished = some s
  await l position round s crashed = none

  abbrev pub cancel_outbox : Server Struct → Server Struct
  cancel_outbox s =
      if s.outbox_cancel then record s { world = record (s.world) { cancelled = true } } else s

  abbrev pub stop_listener :
      Option (OutboxListener World Struct)
      → Position
      → Round World
      → Server Struct
      → Option (Server Struct)
  stop_listener none position round s = some s
  stop_listener (some l) position round s =
      let s' : Server Struct = record s { world = Outbox.stop l s.world } in
      await l position round s' s'.loop

  -- What `GracefulStop` and `Stop` do before they stop the gRPC server.
  unfoldable pub stop_outbox : Position → Round World → Server Struct → Option (Server Struct)
  stop_outbox position round s =
      let s' = cancel_outbox s in stop_listener s'.outbox_listener position round s'

  abbrev pub stop_grpc : Server Struct → Server Struct
  stop_grpc s = record s { grpc = stopped }

  -- `Stop`
  unfoldable pub stop : Position → Round World → Server Struct → Option (Server Struct)
  unfolding stop_outbox
  stop position round s = map_option stop_grpc (stop_outbox position round s)

  -- `GracefulStop`; `drains` says that the requests being served end in the 30 seconds that `main`
  -- gives it.
  unfoldable pub graceful_stop :
      Bool → Position → Round World → Server Struct → Option (Server Struct)
  unfolding stop_outbox
  graceful_stop drains position round s =
      map_option (λ s'. if drains then stop_grpc s' else s') (stop_outbox position round s)

module _ {Struct : Type 0} (network : Network) where
  abbrev pub close_listener : Server Struct → Server Struct
  close_listener s = record s { world = (PgListener.close network s.world).1 }

  -- `main` after `GracefulStop`, or after 30 seconds of it.
  abbrev after_graceful :
      Bool → Position → Round World → Option (Server Struct) → Option (Server Struct)
  after_graceful drains position round none = none
  after_graceful drains position round (some s) =
      if drains then some (close_listener s) else map_option close_listener (stop position round s)

  -- The shutdown of `main`. Where `GracefulStop` waits for the loop for 30 seconds, so does the
  -- `Stop` that follows it.
  unfoldable pub shutdown : Bool → Position → Round World → Server Struct → Option (Server Struct)
  unfolding graceful_stop stop
  shutdown drains position round s =
      after_graceful drains position round (graceful_stop drains position round s)
