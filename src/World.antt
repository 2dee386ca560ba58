-- ===== src/World.antt =====
-- The state that the parts of the server share, and what answers them: the database, the broker
-- behind the publisher, the listener's connection, and the two signals that stop the poller.
use temporal_durable_event_p.Base.{ℕ, String, Bool, Option, List}
use temporal_durable_event_p.Repository.Db.{Db, Engine, Delivery}

-- A `kgo.Record`, as far as the publisher fills it.
pub record Record : Type 0 where
  pub topic : String
  pub key : String
  pub value : Option String

-- A `*pgx.Conn` of the listener: whether it has run `LISTEN`, and how many of the notifications of
-- `Db.notifications` are behind it.
pub record Conn : Type 0 where
  pub listening : Bool
  pub seen : ℕ

-- The fields of `PGListener` that change or matter: `conn` is none where the pointer is nil.
pub record PgListener : Type 0 where
  pub conn_str : String
  pub conn : Option Conn
  pub stop_closed : Bool

pub record World : Type 0 where
  pub db : Db
  -- the records that the broker holds, oldest first, and the requests sent to it
  pub log : List Record
  pub produced : ℕ
  pub pg : PgListener
  -- the requests that the listener's connections have made
  pub dialled : ℕ
  -- whether the outbox listener has a `cancel`, `ctx.Done()` of the context of `run`, and the
  -- listener's `stopCh`
  pub started : Bool
  pub cancelled : Bool
  pub stopped : Bool

-- The network and the servers on it. `n` numbers the requests of each kind.
pub record Network : Type 0 where
  pub engine : Engine
  -- `client.ProduceSync`
  pub produce : ℕ → Delivery
  -- `pgx.Connect`
  pub connect : ℕ → String → Bool
  -- whether an `Exec` on the listener's connection succeeds
  pub exec : ℕ → Bool
  -- whether the connection breaks while it waits
  pub breaks : ℕ → Bool
