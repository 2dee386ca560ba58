-- ===== src/Server/Shutdown.antt =====
-- What the shutdown of the server (internal/server/server.go, cmd/server/main.go) leaves behind.
use temporal_durable_event_p.Base.{
  String, Bool, true, Option, none, some, ◌≡◌, refl, arith, Bool-cases, inl, inr, Option-cases, ◌⊎◌,
  ◌∙◌,
}
use temporal_durable_event_p.Base.Int.{ℤ}
use temporal_durable_event_p.World.{World, Network}
use temporal_durable_event_p.Handler.Rpc.{Codec}
use temporal_durable_event_p.Poller.PgListener
use temporal_durable_event_p.Poller.System.{new_outbox_listener}
use temporal_durable_event_p.Poller.Outbox as Outbox
use temporal_durable_event_p.Poller.Outbox.{
  OutboxListener, Payload, Progress, Round, running, finished, crashed, run_round, after_wait,
}
use temporal_durable_event_p.Server.Lifecycle.{
  Server, Position, at_top, waiting, backing_off, stopped, resume, stop_outbox, stop, graceful_stop,
  shutdown, await, cancel_outbox, close_listener, stop_grpc,
}

module _ {Struct : Type 0} (codec : Codec Struct) (prefix : String) (network : Network)
    (unmarshal_payload : String → Option Payload) (limit : ℤ) where
  abbrev l : OutboxListener World Struct
  l = new_outbox_listener network codec unmarshal_payload prefix limit

  -- Once both signals are set the loop ends from wherever it stands, without a panic.
  resume-finished :
      (position : Position) (round : Round World) (w : World)
      → w.cancelled ≡ true
      → ((resume l position round w).0 ≡ finished)
        × ((resume l position round w).1.stopped ≡ w.stopped)
  unfolding run_round PgListener.wait_for_notification PgListener.close
  resume-finished at_top round w h = ground arith
  resume-finished waiting round w h = ground arith
  resume-finished backing_off round w h = ground arith

  close-conn : (w : World) → (PgListener.close network w).1.pg.conn ≡ none
  unfolding PgListener.close
  close-conn w = elim (Option-cases w.pg.conn) [
    | inl nil ↦ ground arith
    | inr (c, up) ↦ ground arith
  ]

  close-stopped : (w : World) → (PgListener.close network w).1.stopped ≡ w.stopped
  unfolding PgListener.close
  close-stopped w = elim (Option-cases w.pg.conn) [
    | inl nil ↦ ground arith
    | inr (c, up) ↦ ground arith
  ]

  -- A server whose loop, if it runs, can be cancelled.
  abbrev pub IsCancellable : Server Struct → Type 0
  IsCancellable s =
      (s.outbox_listener ≡ some l)
      × ((s.loop ≡ finished) ⊎ ((s.loop ≡ running) × (s.outbox_cancel ≡ true)))

  -- The loop has ended, and the listener is stopped.
  abbrev HasStopped : Server Struct → Type 0
  HasStopped s = (s.outbox_listener ≡ some l) × (s.loop ≡ finished) × (s.world.stopped ≡ true)

  await-HasStopped :
      (position : Position) (round : Round World) (s : Server Struct)
      → s.outbox_listener ≡ some l
      → (s.loop ≡ finished) ⊎ ((s.loop ≡ running) × (s.world.cancelled ≡ true))
      → s.world.stopped ≡ true
      → (s' : Server Struct) × (await l position round s s.loop ≡ some s') × HasStopped s'
  await-HasStopped position round s set (inl over) stops = (s, ground arith, (set, over, stops))
  await-HasStopped position round s set (inr (runs, cancelled)) stops =
      let (ends, same) = resume-finished position round s.world cancelled in
      (
        record s { loop = finished; world = (resume l position round s.world).1 },
        ground (arith, ends),
        (set, refl, same ∙ stops),
      )

  stop-stopped : (w : World) → (Outbox.stop l w).stopped ≡ true
  unfolding Outbox.stop
  stop-stopped w = ground arith

  stop-cancelled : (w : World) → w.cancelled ≡ true → (Outbox.stop l w).cancelled ≡ true
  unfolding Outbox.stop
  stop-cancelled w h = ground arith

  stop_outbox-HasStopped :
      (position : Position) (round : Round World) (s : Server Struct)
      → IsCancellable s
      → (s' : Server Struct) × (stop_outbox position round s ≡ some s') × HasStopped s'
  unfolding stop_outbox
  stop_outbox-HasStopped position round s (set, loop) =
      let c : Server Struct = cancel_outbox s in
      let t : Server Struct = record c { world = Outbox.stop l c.world } in
      let same : stop_outbox position round s ≡ await l position round t t.loop = ground arith in
      let loop' : (t.loop ≡ finished) ⊎ ((t.loop ≡ running) × (t.world.cancelled ≡ true)) =
        elim loop [
          | inl over ↦ inl (ground arith)
          | inr (runs, cancel) ↦ inr (ground arith, stop-cancelled c.world (ground arith))
        ] in
      let (s', e, h) =
        await-HasStopped position round t (ground arith) loop' (stop-stopped c.world) in
      (s', same ∙ e, h)

  -- `Stop` does to a server that has stopped what it does to the gRPC server, and no more.
  stop_twice :
      (position : Position) (round : Round World) (s : Server Struct)
      → HasStopped s
      → (s' : Server Struct) × (stop position round s ≡ some s')
        × (s'.grpc ≡ stopped)
        × HasStopped s'
  unfolding stop
  stop_twice position round s (set, over, stops) =
      let (s', e, h) = stop_outbox-HasStopped position round s (set, inl over) in
      (stop_grpc s', rw e refl, refl, h)

  -- From a server whose outbox listener is set, and whose loop has ended or can be cancelled, the
  -- shutdown of `main` comes to its end wherever the loop stands and whether or not the requests
  -- being served end in time: the loop has then ended without a panic, the stop channel is closed,
  -- the gRPC server is stopped, and the listener's connection is nil.
  pub shutdown_finishes :
      (drains : Bool) (position : Position) (round : Round World) (s : Server Struct)
      → IsCancellable s
      → (s' : Server Struct) × (shutdown network drains position round s ≡ some s')
        × (s'.loop ≡ finished)
        × (s'.world.stopped ≡ true)
        × (s'.grpc ≡ stopped)
        × (s'.world.pg.conn ≡ none)
  unfolding shutdown graceful_stop
  shutdown_finishes drains position round s h =
      let (s₁, e₁, (set, over, stops)) = stop_outbox-HasStopped position round s h in
      elim (Bool-cases drains) [
        | inl drained ↦ (
          close_listener network (stop_grpc s₁),
          rw (e₁, drained) refl,
          over,
          close-stopped s₁.world ∙ stops,
          refl,
          close-conn s₁.world,
        )
        | inr late ↦
            let (s₂, e₂, down, (set₂, over₂, stops₂)) =
              stop_twice position round s₁ (set, over, stops) in
            (
              close_listener network s₂,
              rw (e₁, late, e₂) refl,
              over₂,
              close-stopped s₂.world ∙ stops₂,
              down,
              close-conn s₂.world,
            )
      ]
