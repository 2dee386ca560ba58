-- ===== src/Server/Startup.antt =====
-- What `Start` of internal/server/server.go does with the outbox listener.
use temporal_durable_event_p.Base.{
  String, true, false, Option, some, List, ◌≡◌, arith, Bool-cases, inl, inr, ◌⊎◌,
}
use temporal_durable_event_p.Base.Int.{ℤ}
use temporal_durable_event_p.Base.Exec.{ok}
use temporal_durable_event_p.World.{World, Network, Conn}
use temporal_durable_event_p.Handler.Rpc.{Codec}
use temporal_durable_event_p.Poller.PgListener
use temporal_durable_event_p.Poller.System.{new_outbox_listener}
use temporal_durable_event_p.Poller.Outbox as Outbox
use temporal_durable_event_p.Poller.Outbox.{
  OutboxListener, Payload, Progress, Round, running, finished, crashed, returned,
}
use temporal_durable_event_p.Server.Lifecycle.{Server, start, serving}

module _ {Struct : Type 0} (codec : Codec Struct) (prefix : String) (network : Network)
    (unmarshal_payload : String → Option Payload) (limit : ℤ) where
  abbrev l : OutboxListener World Struct
  l = new_outbox_listener network codec unmarshal_payload prefix limit

  -- The server serves, and the loop runs on a connection that is sent the notifications.
  abbrev pub RunsOutbox : List (Round World) → Server Struct → Server Struct → Type 0
  RunsOutbox rounds s s' =
      (s'.outbox_cancel ≡ true)
      × ((s'.loop, s'.world)
          ≡ Outbox.run l rounds (record ((PgListener.listen network s.world).1) { started = true }))

  -- There is no loop, and nothing was published.
  abbrev pub LacksOutbox : Server Struct → Server Struct → Type 0
  LacksOutbox s s' =
      (s'.outbox_cancel ≡ false)
      × (s'.loop ≡ finished)
      × (s'.world.log ≡ s.world.log)
      × (s'.world.started ≡ s.world.started)

  -- If the port is free and the listener has a connection, `Start` succeeds and the server serves
  -- requests: with the loop of the outbox listener running, which can be cancelled, if `LISTEN`
  -- succeeds, and with no loop, without an error, if it fails.
  pub start-outbox :
      (rounds : List (Round World)) (s : Server Struct) (c : Conn)
      → s.outbox_listener ≡ some l
      → s.world.pg.conn ≡ some c
      → let s' = (start true rounds s).1 in
        ((start true rounds s).0 ≡ returned (ok tt))
        × (s'.grpc ≡ serving)
        × (((network.exec s.world.dialled ≡ true) × RunsOutbox rounds s s')
            ⊎ ((network.exec s.world.dialled ≡ false) × LacksOutbox s s'))
  unfolding start Outbox.start PgListener.start
  start-outbox rounds s c set connected = elim (Bool-cases (network.exec s.world.dialled)) [
    | inl listens ↦ (ground arith, ground arith, inl (listens, (ground arith, ground arith)))
    | inr refused ↦ (
      ground arith,
      ground arith,
      inr (refused, (ground arith, ground arith, ground arith, ground arith)),
    )
  ]
