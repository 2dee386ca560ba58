-- ===== src/Main/Boot.antt =====
-- A server that `main` of cmd/server/main.go has started.
use temporal_durable_event_p.Base.{
  String, Bool, true, false, Option, none, some, List, ◌≡◌, refl, arith, ◌≢◌, inl, inr, ◌⊎◌, ◌∙◌,
}
use temporal_durable_event_p.Base.Int.{pos}
use temporal_durable_event_p.Base.Exec.{Result, ok, err}
use temporal_durable_event_p.World.{World, Network, PgListener, Conn}
use temporal_durable_event_p.Config.{Config, ConfigError, load}
use temporal_durable_event_p.Postgres.{Pools, Pool, WaitError, wait_for_db, default_pool_options}
use temporal_durable_event_p.Postgres.Dsn.{conn_str}
use temporal_durable_event_p.Publisher.{PublisherError, new_redpanda_publisher}
use temporal_durable_event_p.Handler.Rpc.{Codec}
use temporal_durable_event_p.Poller.PgListener.{new_pg_listener_from_config, fresh_conn}
use temporal_durable_event_p.Poller.System.{new_outbox_listener}
use temporal_durable_event_p.Poller.Outbox.{
  OutboxListener, Payload, Round, Call, returned, panicked, running, finished, Progress,
  ListenerError,
}
use temporal_durable_event_p.Poller.Outbox as Outbox
use temporal_durable_event_p.Server.Lifecycle.{
  Server, ServerError, start, serving, Position, shutdown, stopped, start_outbox, outbox_started,
  new,
}
use temporal_durable_event_p.Server.Shutdown.{IsCancellable, shutdown_finishes}
use temporal_durable_event_p.Server.Startup.{start-outbox}
use mathlib.Core.Path.{subst}
use temporal_durable_event_p.Main.{
  up, Host, after_start, start_server, connect_listener, with_pool, with_config, boot, config_path,
  zero_config, max_retries, new_server, with_listener,
}

module _ {Struct : Type 0} (network : Network) (codec : Codec Struct)
    (unmarshal_payload : String → Option Payload) (host : Host) where
  -- The listener that `main` makes for a configuration.
  abbrev pub listener_of : Config → OutboxListener World Struct
  listener_of config =
      new_outbox_listener network codec unmarshal_payload config.redpanda_config.topic_prefix
        (pos 100)

  -- A server that serves; unless its loop has panicked, it can be stopped.
  abbrev pub IsUp : Config → Server Struct → Type 0
  IsUp config s =
      (s.grpc ≡ serving)
      × (s.outbox_listener ≡ some (listener_of config))
      × (s.loop ≢ Outbox.crashed
          → IsCancellable codec config.redpanda_config.topic_prefix network unmarshal_payload
              (pos 100) s)

  after_start-up :
      (r : Call (Result ServerError (Unit {0})) × Server Struct) (s : Server Struct)
      → after_start network codec unmarshal_payload host r ≡ up s
      → r.1 ≡ s
  after_start-up (returned (ok _), t) s e = ground arith
  after_start-up (returned (err _), t) s e = absurd (cc)
  after_start-up (panicked, t) s e = absurd (cc)

  outbox_started-listener :
      (s : Server Struct) (r : Call (Result ListenerError (Unit {0})) × (Progress × World))
      → (outbox_started s r).1.outbox_listener ≡ s.outbox_listener
  outbox_started-listener s (panicked, r) = refl
  outbox_started-listener s (returned (ok _), r) = refl
  outbox_started-listener s (returned (err _), r) = refl

  start_outbox-listener :
      (rounds : List (Round World)) (o : Option (OutboxListener World Struct)) (s : Server Struct)
      → (start_outbox rounds o s).1.outbox_listener ≡ s.outbox_listener
  start_outbox-listener rounds none s = refl
  start_outbox-listener rounds (some l) s =
      outbox_started-listener s (Outbox.start l rounds s.world)

  start-outbox_listener :
      (listens : Bool) (rounds : List (Round World)) (s : Server Struct)
      → (start listens rounds s).1.outbox_listener ≡ s.outbox_listener
  unfolding start
  start-outbox_listener true rounds s =
      start_outbox-listener rounds s.outbox_listener (record s { grpc = serving })
  start-outbox_listener false rounds s = refl

  Progress-cases : (p : Progress) → p ≢ Outbox.crashed → (p ≡ finished) ⊎ (p ≡ running)
  Progress-cases running n = inr refl
  Progress-cases finished n = inl refl
  Progress-cases Outbox.crashed n = absurd (n refl)

  -- A server that has started on a listener with a connection.
  start-IsUp :
      (config : Config) (c : Conn) (s : Server Struct)
      → s.outbox_listener ≡ some (listener_of config)
      → s.world.pg.conn ≡ some c
      → IsUp config (start true host.rounds s).1
  start-IsUp config c s set connected =
      let s' : Server Struct = (start true host.rounds s).1 in
      let (_, serves, cases) =
        start-outbox codec config.redpanda_config.topic_prefix network unmarshal_payload (pos 100)
          host.rounds s c set connected in
      let set' : s'.outbox_listener ≡ some (listener_of config) =
        start-outbox_listener true host.rounds s ∙ set in
      (
        serves,
        set',
        λ n. (
          set',
          elim cases [
            | inr (_, (_, over, _, _)) ↦ inl over
            | inl (_, (cancel, _)) ↦ elim (Progress-cases s'.loop n) [
              | inl over ↦ inl over
              | inr runs ↦ inr (runs, cancel)
            ]
          ],
        ),
      )

  started-IsUp :
      (config : Config) (c : Conn) (listens : Bool) (n s : Server Struct)
      → n.outbox_listener ≡ some (listener_of config)
      → n.world.pg.conn ≡ some c
      → after_start network codec unmarshal_payload host (start listens host.rounds n) ≡ up s
      → IsUp config s
  unfolding start
  started-IsUp config c true n s set connected e =
      subst (IsUp config) (after_start-up (start true host.rounds n) s e)
        (start-IsUp config c n set connected)
  started-IsUp config c false n s set connected e = absurd cc

  start_server-IsUp :
      (config : Config) (connected : Bool) (w : World) (s : Server Struct)
      → start_server network codec unmarshal_payload host config
          (new_pg_listener_from_config connected (conn_str config.database_config))
          w
        ≡ up s
      → IsUp config s
  unfolding new new_pg_listener_from_config
  start_server-IsUp config true w s e =
      let pg : PgListener = record {
        conn_str = conn_str config.database_config;
        conn = some fresh_conn;
        stop_closed = false;
      } in
      started-IsUp config fresh_conn (host.listens config.server_config.port)
        (new_server network codec unmarshal_payload host config
          (with_listener network codec unmarshal_payload host pg w))
        s refl refl e
  start_server-IsUp config false w s e = absurd cc

  connect_listener-IsUp :
      (config : Config) (r : Result PublisherError (Unit {0})) (w : World) (s : Server Struct)
      → connect_listener network codec unmarshal_payload host config r w ≡ up s
      → IsUp config s
  connect_listener-IsUp config (err _) w s e = absurd cc
  connect_listener-IsUp config (ok _) w s e =
      start_server-IsUp config (network.connect w.dialled (conn_str config.database_config)) w s e

  -- The steps of the start before the server's have succeeded too.
  abbrev pub HasBooted : Pools → Config → Server Struct → Type 0
  HasBooted pools config s =
      (pool : Pool) × ((wait_for_db host.driver config.database_config max_retries
          default_pool_options pools).0
        ≡ ok pool)
      × IsUp config s

  with_pool-HasBooted :
      (config : Config) (r : Result WaitError Pool × Pools) (w : World) (s : Server Struct)
      → (with_pool network codec unmarshal_payload host config r w).0 ≡ up s
      → (pool : Pool) × (r.0 ≡ ok pool) × IsUp config s
  with_pool-HasBooted config (err _, pools) w s e = absurd cc
  with_pool-HasBooted config (ok pool, pools) w s e = (
    pool,
    refl,
    connect_listener-IsUp config
        (new_redpanda_publisher host.new_client config.redpanda_config.brokers) w s e,
  )

  with_config-HasBooted :
      (r : Result ConfigError (Unit {0}) × Config) (pools : Pools) (w : World) (s : Server Struct)
      → (with_config network codec unmarshal_payload host r pools w).0 ≡ up s
      → (r.0 ≡ ok tt) × HasBooted pools r.1 s
  with_config-HasBooted (err _, config) pools w s e = absurd cc
  with_config-HasBooted (ok _, config) pools w s e = (
    refl,
    with_pool-HasBooted config
        (wait_for_db host.driver config.database_config max_retries default_pool_options pools) w s
        e,
  )

  -- A server that `main` has brought up was configured from a file that `Load` accepts, has a pool
  -- that answered, and serves. If its loop has not panicked, the shutdown of `main` comes to its
  -- end, wherever the loop stands then and whether or not the requests end in time, with the loop
  -- ended, the gRPC server stopped and the listener's connection nil.
  pub boot-shutdown :
      (pools : Pools) (w : World) (s : Server Struct) (drains : Bool) (position : Position)
      (round : Round World)
      → (boot network codec unmarshal_payload host pools w).0 ≡ up s
      → s.loop ≢ Outbox.crashed
      → let (accepted, config) = load host.environment (config_path host) zero_config in
        (accepted ≡ ok tt)
        × ((pool : Pool) × ((wait_for_db host.driver config.database_config max_retries
                default_pool_options pools).0
              ≡ ok pool))
        × (s.grpc ≡ serving)
        × ((s' : Server Struct) × (shutdown network drains position round s ≡ some s')
            × (s'.loop ≡ finished)
            × (s'.world.stopped ≡ true)
            × (s'.grpc ≡ stopped)
            × (s'.world.pg.conn ≡ none))
  unfolding boot
  boot-shutdown pools w s drains position round e n =
      let loaded = load host.environment (config_path host) zero_config in
      let (accepted, (pool, connected, (serves, set, cancellable))) =
        with_config-HasBooted loaded pools w s e in
      (
        accepted,
        (pool, connected),
        serves,
        shutdown_finishes codec loaded.1.redpanda_config.topic_prefix network unmarshal_payload
            (pos 100) drains position round s (cancellable n),
      )
