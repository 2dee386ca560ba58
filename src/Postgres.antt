-- ===== src/Postgres.antt =====
-- db/postgres.go: the pool's options, `NewPool` and `WaitForDB`, and `CreatePool` of
-- internal/repository/store.go. pgxpool is the parameter `Driver`.
pub mod Dsn
pub mod Waiting
pub mod Reaching
use temporal_durable_event_p.Base.{
  ℕ, zero, suc, ◌*◌, String, Bool, Option, none, some, List, [], ◌∷◌, ◌==◌, if◌then◌else◌,
}
use temporal_durable_event_p.Base.Int.{ℤ, pos, negsuc}
use temporal_durable_event_p.Base.Exec.{Exec, Result, ok, err}
use temporal_durable_event_p.Config.{DatabaseConfig}
use temporal_durable_event_p.Postgres.Dsn.{dsn}

-- A `pgxpool.Config`, as far as the options write it. A duration is a number of nanoseconds.
pub record PoolConfig : Type 0 where
  pub max_conns : ℤ
  pub min_conns : ℤ
  pub max_conn_lifetime : ℕ
  pub max_conn_idle_time : ℕ
  pub health_check_period : ℕ

abbrev pub PoolOption : Type 0
PoolOption = PoolConfig → PoolConfig

unfoldable pub with_max_conns : ℤ → PoolOption
with_max_conns max_conns c = record c { max_conns = max_conns }

unfoldable pub with_min_conns : ℤ → PoolOption
with_min_conns min_conns c = record c { min_conns = min_conns }

unfoldable pub with_max_conn_lifetime : ℕ → PoolOption
with_max_conn_lifetime d c = record c { max_conn_lifetime = d }

unfoldable pub with_max_conn_idle_time : ℕ → PoolOption
with_max_conn_idle_time d c = record c { max_conn_idle_time = d }

unfoldable pub with_health_check_period : ℕ → PoolOption
with_health_check_period d c = record c { health_check_period = d }

abbrev pub second : ℕ
second = 1_000_000_000

abbrev pub minute : ℕ
minute = 60 * second

unfoldable pub default_pool_options : List PoolOption
unfolding with_max_conns with_min_conns with_max_conn_lifetime with_max_conn_idle_time
    with_health_check_period
default_pool_options =
    with_max_conns (pos 25)
    ∷ with_min_conns (pos 5)
    ∷ with_max_conn_lifetime (30 * minute)
    ∷ with_max_conn_idle_time (5 * minute)
    ∷ with_health_check_period minute
    ∷ []

unfoldable pub production_pool_options : List PoolOption
unfolding with_max_conns with_min_conns with_max_conn_lifetime with_max_conn_idle_time
    with_health_check_period
production_pool_options =
    with_max_conns (pos 100)
    ∷ with_min_conns (pos 10)
    ∷ with_max_conn_lifetime (30 * minute)
    ∷ with_max_conn_idle_time (5 * minute)
    ∷ with_health_check_period (30 * second)
    ∷ []

-- `for _, option := range options { option(poolConfig) }`
unfoldable pub apply_options : List PoolOption → PoolConfig → PoolConfig
apply_options [] c = c
apply_options (option ∷ options) c = apply_options options (option c)

-- A pool with its number.
pub record Pool : Type 0 where
  pub id : ℕ
  pub config : PoolConfig

pub data PoolError : Type 0 where
  bad_config not_created no_ping : PoolError

-- pgxpool and the clock: `n` numbers the pools that were made, and the waits. `done` says whether
-- the context ends before the wait does.
pub record Driver : Type 0 where
  pub parse_config : String → Option PoolConfig
  pub creates : ℕ → PoolConfig → Bool
  pub pings : ℕ → Bool
  pub done : ℕ → Bool

-- The calls of `NewWithConfig` so far, the pools that are open, and the waits.
pub record Pools : Type 0 where
  pub made : ℕ
  pub opened : List ℕ
  pub waits : ℕ

-- The errors of `WaitForDB`: the context's, or that of the last attempt, none where there was no
-- attempt.
pub data WaitError : Type 0 where
  context_canceled : WaitError
  no_connection : Option PoolError → WaitError

-- `pool.Close()`
abbrev pub close : ℕ → List ℕ → List ℕ
close id [] = []
close id (p ∷ ps) = let rest = close id ps in if p == id then rest else p ∷ rest

abbrev pub wait_tick : Pools → Pools
wait_tick s = record s { waits = suc s.waits }

module _ (driver : Driver) where
  abbrev pub ping_or_close : Pool → Exec Pools PoolError Pool
  ping_or_close pool s =
      if driver.pings pool.id
      then (ok pool, s)
      else (err no_ping, record s { opened = close pool.id s.opened })

  -- `pgxpool.NewWithConfig` and `pool.Ping`
  abbrev pub open_pool : PoolConfig → Exec Pools PoolError Pool
  open_pool config s =
      if driver.creates s.made config
      then ping_or_close (record { id = s.made; config = config })
          (record s { made = suc s.made; opened = s.made ∷ s.opened })
      else (err not_created, record s { made = suc s.made })

  abbrev pub open_parsed : List PoolOption → Option PoolConfig → Exec Pools PoolError Pool
  open_parsed options none s = (err bad_config, s)
  open_parsed options (some config) s = open_pool (apply_options options config) s

  -- `NewPool`
  unfoldable pub new_pool : DatabaseConfig → List PoolOption → Exec Pools PoolError Pool
  unfolding apply_options dsn
  new_pool cfg options s = open_parsed options (driver.parse_config (dsn cfg)) s

  -- `CreatePool`
  unfoldable pub create_pool : String → Exec Pools PoolError Pool
  unfolding apply_options
  create_pool conn_str s = open_parsed [] (driver.parse_config conn_str) s

  -- After an attempt, by the attempts that are left: the last one is followed by no wait.
  abbrev pub after_attempt :
      ℕ
      → (Option PoolError → Exec Pools WaitError Pool)
      → Result PoolError Pool × Pools
      → Result WaitError Pool × Pools
  after_attempt left rest (ok pool, s) = (ok pool, s)
  after_attempt zero rest (err e, s) = (err (no_connection (some e)), s)
  after_attempt (suc n) rest (err e, s) =
      if driver.done s.waits
      then (err context_canceled, wait_tick s)
      else rest (some e) (wait_tick s)

  -- The `for` of `WaitForDB`, by the attempts that are left.
  unfoldable pub attempts :
      DatabaseConfig → List PoolOption → ℕ → Option PoolError → Exec Pools WaitError Pool
  unfolding new_pool
  attempts cfg options zero last s = (err (no_connection last), s)
  attempts cfg options (suc left) last s =
      let rest = attempts cfg options left in after_attempt left rest (new_pool cfg options s)

  -- `WaitForDB`; a negative count makes no attempt.
  unfoldable pub wait_for_db : DatabaseConfig → ℤ → List PoolOption → Exec Pools WaitError Pool
  unfolding attempts
  wait_for_db cfg (pos n) options s = attempts cfg options n none s
  wait_for_db cfg (negsuc n) options s = attempts cfg options 0 none s
