-- ===== src/Lib.antt =====
-- The event pipeline: gRPC services for users, products, orders and events over PostgreSQL, and a
-- poller that carries the events of the table `events`, the outbox, to a Redpanda broker.
--
-- How the program works. A handler checks a request and calls the store; the store runs one SQL
-- statement. An inserted event fires a trigger that notifies the channel `events_notification`. The
-- outbox listener scans the backlog when it starts and after each reconnect, and otherwise waits for
-- notifications; each event that it gets is published, and marked completed, or failed if the
-- broker refused it.
--
-- Which file models what:
--   Base, Base/Exec        calls that change a state and return a value or an error
--   Pgtype                 the nullable values of pgx
--   Repository/Models      internal/repository/models.go
--   Repository/Db          db/migrations, and how a statement runs (internal/repository/db.go)
--   Repository/Users, Products, Orders, OrderItems, Events
--                          internal/repository/*.sql.go, a function per query
--   Repository/Store, Tx   internal/repository/store.go
--   Proto                  proto/*/v1
--   Handler                internal/handler: converter.go and the four *_handler.go
--   Publisher              internal/publisher/redpanda.go
--   Poller/Outbox          internal/poller/outbox.go, generic in its three interfaces
--   Poller/PgListener      internal/poller/pg_listener.go
--   Poller/System, World   the poller as cmd/server/main.go builds it, and the shared state
--   Server                 internal/server/server.go: all requests over one world
--   Server/Lifecycle       internal/server/server.go from New to Stop, and the shutdown of main
--   Repository/Migrations  RunMigrations of internal/repository/store.go
--   Config, Logger         shared/pkg/config.go, shared/logger/logger.go
--   Postgres, Postgres/Dsn db/postgres.go, and the connection string of cmd/server/main.go
--   Main                   cmd/server/main.go up to srv.Start
--   Client                 cmd/client/main.go: Script up to the clean-up, Events from there on
--   Pipeline/Spec          the abstract outbox and its steps
-- The other files hold proofs: Repository/Db/Ordering, Db/References, Events/Updates, Store/* and
-- Tx/Atomic on the statements, Handler/Statuses on the event status, Poller/Invariant, Outage and
-- Shutdown on the loop, Pipeline/* on the poller with the store and the broker,
-- Server/* on requests, alone and beside the poller, and on the server's start and end, Main/Boot on
-- both together, Repository/Migrations/* on the scripts, Postgres/* on the attempts to connect and
-- the connection strings, and Client/* on the client, alone and connected to the server. Tests holds
-- instances.
-- A definition has the name of the Go function or method in snake case.
--
-- State and time. `World` holds the database, the log of the broker, the connection of the
-- listener and the signals that stop it. Each statement, each produced record and each request on the
-- listener's connection has a number, by which `Network` and `Engine` say how it ends: answered,
-- refused, or carried out with its answer lost. So the theorems hold for every pattern of failures.
-- The `for` of `OutboxListener.run` is run for a list of rounds of any length; a round says what
-- other goroutines and servers do to the world while the loop waits and while it backs off. In
-- Server/Concurrent requests are also served before every call of the loop to the store, the broker
-- and the connection, so within a scan and between the publication of an event and its change of
-- status; requests are served one after the other, so that no statement of one falls between two of
-- another. At a shutdown the loop goes on from the place where it stands then: the top of its
-- `for`, the wait, or the backoff. The only fuel is the client's for its polling: 61 rounds are
-- enough, since each sleeps half a second of the 30 seconds that it waits. `WaitForDB` runs down
-- the number of its attempts.
--
-- Integers. The `int32` limits and quantities are signed numbers on which the code only compares.
-- Times are numbers of microseconds, the durations of the pool's options of nanoseconds, and the
-- client's clock counts milliseconds. A UUID is the number of its bytes.
--
-- Parameters. PostgreSQL's own functions (random UUIDs, clocks, casts to VARCHAR, DECIMAL and
-- JSONB, row locks), the broker, the connections, pgxpool, the file system, the environment,
-- yaml.Unmarshal, google/uuid, protojson, bcrypt and json.Unmarshal are arguments of the model.
--
-- Not modelled: logging other than the client's, the gRPC transport and its generated code, the
-- health service's answers, the parsing of flags, and the wait of main for its signal.
pub mod Base
pub mod Pgtype
pub mod Config
pub mod Logger
pub mod Postgres
pub mod Repository
pub mod Proto
pub mod Handler
pub mod World
pub mod Publisher
pub mod Poller
pub mod Pipeline
pub mod Server
pub mod Main
pub mod Client
mod Tests
