-- ===== src/Main.antt =====
-- cmd/server/main.go: the server's start, from the configuration to `srv.Start`.
pub mod Boot
use temporal_durable_event_p.Base.{
  String, Bool, true, Option, none, some, List, [], suc, if◌then◌else◌,
}
use temporal_durable_event_p.Base.Int.{ℤ, pos}
use temporal_durable_event_p.Base.Exec.{Result, ok, err}
use temporal_durable_event_p.World.{World, Network, PgListener}
use temporal_durable_event_p.Config.{
  Config, ConfigError, Environment, load, get_env_or_default, DatabaseConfig,
}
use temporal_durable_event_p.Postgres.{
  Driver, Pools, Pool, WaitError, wait_for_db, default_pool_options,
}
use temporal_durable_event_p.Postgres.Dsn.{conn_str}
use temporal_durable_event_p.Publisher.{PublisherError, new_redpanda_publisher}
use temporal_durable_event_p.Handler.Rpc.{Codec}
use temporal_durable_event_p.Poller.PgListener.{new_pg_listener_from_config, dial}
use temporal_durable_event_p.Poller.System.{new_outbox_listener}
use temporal_durable_event_p.Poller.Outbox.{
  OutboxListener, Payload, Round, Call, returned, panicked,
}
use temporal_durable_event_p.Server.Lifecycle.{Server, ServerError, new, set_outbox_listener, start}

-- The errors on which `main` exits with code 1.
pub data Failure : Type 0 where
  config_failed : ConfigError → Failure
  database_failed : WaitError → Failure
  publisher_failed : PublisherError → Failure
  listener_not_connected : Failure
  server_failed : ServerError → Failure

-- How far `main` gets.
pub data Booted (Struct : Type 0) : Type 0 where
  exited : Failure → Booted Struct
  crashed : Booted Struct
  up : Server Struct → Booted Struct

-- What `main` finds: the environment and the flag, pgxpool, kgo, the port, and the rounds that the
-- loop of the outbox listener will make.
pub record Host : Type 0 where
  pub environment : Environment
  pub config_flag : Option String
  pub driver : Driver
  pub new_client : List String → Bool
  pub listens : ℤ → Bool
  pub rounds : List (Round World)

-- The flag `-config`
abbrev pub config_path : Host → String
config_path host = elim host.config_flag [
  | none ↦ get_env_or_default host.environment "SERVER_CONFIG" "config.yaml"
  | some path ↦ path
]

-- `var config pkg.Config`
abbrev pub zero_config : Config
zero_config = record {
  server_config = record { port = pos 0; env = "" };
  database_config = record {
    host = "";
    port = pos 0;
    user = "";
    ssl_mode = "";
    name = "";
    password = "";
  };
  redpanda_config = record { brokers = []; topic_prefix = "" };
}

abbrev pub max_retries : ℤ
max_retries = pos 10

module _ {Struct : Type 0} (network : Network) (codec : Codec Struct)
    (unmarshal_payload : String → Option Payload) (host : Host) where
  -- The listener's connection is made.
  abbrev pub with_listener : PgListener → World → World
  with_listener pg w = dial (record w { pg = pg })

  abbrev pub after_start : Call (Result ServerError (Unit {0})) × Server Struct → Booted Struct
  after_start (returned (ok _), s) = up s
  after_start (returned (err e), s) = exited (server_failed e)
  after_start (panicked, s) = crashed

  -- The server that `main` starts.
  abbrev pub new_server : Config → World → Server Struct
  new_server config w =
      set_outbox_listener
        (new_outbox_listener network codec unmarshal_payload config.redpanda_config.topic_prefix
          (pos 100))
        (new config.server_config.port config.server_config.env w)

  abbrev pub start_server : Config → Option PgListener → World → Booted Struct
  start_server config none w = exited listener_not_connected
  start_server config (some pg) w = after_start (
      start (host.listens config.server_config.port) host.rounds
        (new_server config (with_listener pg w)))

  abbrev pub connect_listener : Config → Result PublisherError (Unit {0}) → World → Booted Struct
  connect_listener config (err e) w = exited (publisher_failed e)
  connect_listener config (ok _) w =
      let text = conn_str config.database_config in
      start_server config (new_pg_listener_from_config (network.connect w.dialled text) text) w

  abbrev pub with_pool : Config → Result WaitError Pool × Pools → World → Booted Struct × Pools
  with_pool config (err e, pools) w = (exited (database_failed e), pools)
  with_pool config (ok pool, pools) w = (
    connect_listener config (new_redpanda_publisher host.new_client config.redpanda_config.brokers)
        w,
    pools,
  )

  abbrev pub with_config :
      Result ConfigError (Unit {0}) × Config → Pools → World → Booted Struct × Pools
  with_config (err e, config) pools w = (exited (config_failed e), pools)
  with_config (ok _, config) pools w =
      with_pool config
        (wait_for_db host.driver config.database_config max_retries default_pool_options pools) w

  -- `main` up to `srv.Start`. `os.Exit` runs no deferred call, so that what is open stays open until
  -- the process has ended.
  unfoldable pub boot : Pools → World → Booted Struct × Pools
  unfolding load wait_for_db default_pool_options new_redpanda_publisher conn_str
      new_pg_listener_from_config new start get_env_or_default
  boot pools w = with_config (load host.environment (config_path host) zero_config) pools w
