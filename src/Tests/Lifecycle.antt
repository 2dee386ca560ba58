-- ===== src/Tests/Lifecycle.antt =====
-- Instances of the theorems about the start and the shutdown of the server.
use temporal_durable_event_p.Tests.Data.{network, codec, unmarshal_payload, world, conn}
use temporal_durable_event_p.Tests.Listener.{quiet}
use temporal_durable_event_p.Tests.Startup.{environment, config, driver, no_pools}
use temporal_durable_event_p.Base.{
  true, false, some, none, [], ◌∷◌, ◌≡◌, refl, inr, ◌⊎◌, String, ◌≢◌,
}
use temporal_durable_event_p.Base.Int.{pos}
use temporal_durable_event_p.Base.Exec.{ok}
use temporal_durable_event_p.Config.{load}
use temporal_durable_event_p.Postgres.{Pool, wait_for_db, default_pool_options}
use temporal_durable_event_p.Poller.Outbox.{returned, running, finished, crashed, run, run_rounds}
use temporal_durable_event_p.Poller.Outbox as Outbox
use temporal_durable_event_p.Poller.PgListener
use temporal_durable_event_p.Poller.System.{new_outbox_listener}
use temporal_durable_event_p.Server.Lifecycle.{
  Server, new, set_outbox_listener, start, shutdown, serving, stopped, waiting, at_top,
}
use temporal_durable_event_p.Server.Startup.{start-outbox, RunsOutbox, LacksOutbox}
use temporal_durable_event_p.Server.Shutdown.{shutdown_finishes}
use temporal_durable_event_p.Main.{Host, Booted, up, boot, config_path, zero_config, max_retries}
use temporal_durable_event_p.Main.Boot.{boot-shutdown}

abbrev server : Server String
server =
    set_outbox_listener (new_outbox_listener network codec unmarshal_payload "events" (pos 100))
      (new (pos 50051) "development" world)

start-outbox_example :
    let s' = (start true (quiet ∷ []) server).1 in
    ((start true (quiet ∷ []) server).0 ≡ returned (ok tt))
    × (s'.grpc ≡ serving)
    × (((network.exec server.world.dialled ≡ true)
          × RunsOutbox codec "events" network unmarshal_payload (pos 100) (quiet ∷ []) server s')
        ⊎ ((network.exec server.world.dialled ≡ false)
            × LacksOutbox codec "events" network unmarshal_payload (pos 100) server s'))
unfolding new
start-outbox_example =
    start-outbox codec "events" network unmarshal_payload (pos 100) (quiet ∷ []) server conn refl
      refl

abbrev running_server : Server String
running_server = record server { outbox_cancel = true; grpc = serving; loop = running }

shutdown_finishes_example :
    (s' : Server String) × (shutdown network false waiting quiet running_server ≡ some s')
    × (s'.loop ≡ finished)
    × (s'.world.stopped ≡ true)
    × (s'.grpc ≡ stopped)
    × (s'.world.pg.conn ≡ none)
unfolding new
shutdown_finishes_example =
    shutdown_finishes codec "events" network unmarshal_payload (pos 100) false waiting quiet
      running_server (refl, inr (refl, refl))

abbrev host : Host
host = record {
  environment = record environment { unmarshal = λ text c. (false, config) };
  config_flag = none;
  driver = driver;
  new_client = λ brokers. true;
  listens = λ port. true;
  rounds = [];
}

abbrev booted : Booted String
booted = (boot network codec unmarshal_payload host no_pools world).0

abbrev server_of : Booted String → Server String
server_of (up s) = s
server_of _ = server

abbrev booted_server : Server String
booted_server = server_of booted

goes_on : running ≢ crashed
goes_on = λ e. cc

boot-shutdown_example :
    let (accepted, config) = load host.environment (config_path host) zero_config in
    (accepted ≡ ok tt)
    × ((pool : Pool) × ((wait_for_db host.driver config.database_config max_retries
            default_pool_options no_pools).0
          ≡ ok pool))
    × (booted_server.grpc ≡ serving)
    × ((s' : Server String) × (shutdown network true at_top quiet booted_server ≡ some s')
        × (s'.loop ≡ finished)
        × (s'.world.stopped ≡ true)
        × (s'.grpc ≡ stopped)
        × (s'.world.pg.conn ≡ none))
unfolding boot Outbox.start PgListener.start run run_rounds
boot-shutdown_example =
    boot-shutdown network codec unmarshal_payload host no_pools world booted_server true at_top
      quiet refl goes_on
