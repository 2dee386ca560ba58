-- ===== src/Postgres/Reaching.antt =====
-- When an attempt of `WaitForDB` (db/postgres.go) succeeds.
use temporal_durable_event_p.Base.{
  ℕ, zero, suc, ◌+◌, ◌≤◌, ◌<◌, true, false, Option, none, some, List, ◌≡◌, refl, arith, Bool-cases,
  inl, inr, ◌==◌, ◌⊎◌,
}
use temporal_durable_event_p.Base.Int.{pos}
use temporal_durable_event_p.Base.Exec.{Exec, Result, ok, err}
use temporal_durable_event_p.Config.{DatabaseConfig}
use temporal_durable_event_p.Postgres.{
  PoolConfig, PoolOption, Pool, PoolError, Driver, Pools, WaitError, new_pool, attempts,
  wait_for_db, wait_tick, apply_options, after_attempt, no_ping, not_created,
}
use temporal_durable_event_p.Postgres.Dsn.{dsn}
use mathlib.Core.Path.{subst}

module _ (driver : Driver) where
  module _ (cfg : DatabaseConfig) (options : List PoolOption) (parsed : PoolConfig)
      (valid : driver.parse_config (dsn cfg) ≡ some parsed)
      (in_time : (k : ℕ) → driver.done k ≡ false) where
    abbrev pub config : PoolConfig
    config = apply_options options parsed

    -- The pool that is made as the `k`th answers.
    abbrev pub Reachable : ℕ → Type 0
    Reachable k = (driver.creates k config ≡ true) × (driver.pings k ≡ true)

    -- The next attempt returns the next pool, or fails although it made one.
    new_pool-cases :
        (s : Pools)
        → ((new_pool driver cfg options s).0 ≡ ok (record { id = s.made; config = config }))
          ⊎ ((e : PoolError) × ((new_pool driver cfg options s).0 ≡ err e)
              × ((new_pool driver cfg options s).1.made ≡ suc s.made)
              × (Reachable s.made → ⊥))
    unfolding new_pool
    new_pool-cases s = elim (Bool-cases (driver.creates s.made config)) [
      | inr failed ↦
          inr (not_created, rw (valid, failed) refl, rw (valid, failed) refl, λ r. cc (r.0))
      | inl created ↦ elim (Bool-cases (driver.pings s.made)) [
        | inl up ↦ inl (rw (valid, created, up) refl)
        | inr down ↦
            inr (
              no_ping,
              rw (valid, created, down) refl,
              rw (valid, created, down) refl,
              λ r. cc (r.1),
            )
      ]
    ]

    abbrev Found : ℕ → Result WaitError Pool → Type 0
    Found k r = (id : ℕ) × (id ≤ k) × (r ≡ ok (record { id = id; config = config }))

    after_attempt-ok :
        (n : ℕ) (rest : Option PoolError → Exec Pools WaitError Pool) (r : Result PoolError Pool)
        (s' : Pools) (pool : Pool)
        → r ≡ ok pool
        → (after_attempt driver n rest (r, s')).0 ≡ ok pool
    after_attempt-ok n rest r s' pool e = rw e refl

    after_attempt-err :
        (n : ℕ) (rest : Option PoolError → Exec Pools WaitError Pool) (r : Result PoolError Pool)
        (s' : Pools) (e : PoolError)
        → r ≡ err e
        → (after_attempt driver (suc n) rest (r, s')).0 ≡ (rest (some e) (wait_tick s')).0
    after_attempt-err n rest r s' e failed = rw (failed, in_time s'.waits) refl

    abbrev Finds : ℕ → Type 0
    Finds n =
        (last : Option PoolError) (s : Pools) (k : ℕ)
        → s.made ≤ k
        → k < s.made + n
        → Reachable k
        → Found k (attempts driver cfg options n last s).0

    -- An attempt for a pool that cannot be reached is followed by another one.
    retry :
        (n : ℕ) (s s' : Pools) (r : Result PoolError Pool) (e : PoolError) (k : ℕ)
        → Finds n
        → r ≡ err e
        → s'.made ≡ suc s.made
        → s.made < k
        → k < s.made + suc n
        → Reachable k
        → Found k (after_attempt driver n (attempts driver cfg options n) (r, s')).0
    retry zero s s' r e k rest failed one low high up = absurd (ground arith)
    retry (suc n) s s' r e k rest failed one low high up =
        rw (after_attempt-err n (attempts driver cfg options (suc n)) r s' e failed)
          (rest (some e) (wait_tick s') k (ground arith) (ground arith) up)

    passed : (made k : ℕ) → made ≤ k → (Reachable made → ⊥) → Reachable k → made < k
    passed made k low unreachable up = elim (Bool-cases (made == k)) [
      | inl same ↦
          let e : k ≡ made = ground (arith, same) in absurd (unreachable (subst Reachable e up))
      | inr other ↦ ground (arith, other)
    ]

    attempts-ok : (n : ℕ) → Finds n
    unfolding attempts
    attempts-ok zero last s k low high up = absurd (ground arith)
    attempts-ok (suc n) last s k low high up =
        let tried = new_pool driver cfg options s in
        elim (new_pool-cases s) [
          | inl opened ↦ (
            s.made,
            low,
            after_attempt-ok n (attempts driver cfg options n) tried.0 tried.1
                (record { id = s.made; config = config }) opened,
          )
          | inr (e, failed, one, unreachable) ↦
              retry n s tried.1 tried.0 e k (attempts-ok n) failed one
                (passed s.made k low unreachable up) high up
        ]

    -- If the configuration parses, the context does not end, and one of the next `n` pools can be made
    -- and answers the ping, then `WaitForDB` with `n` retries returns a pool, no later than that one,
    -- with the options applied.
    pub wait_for_db-ok :
        (n k : ℕ) (s : Pools)
        → s.made ≤ k
        → k < s.made + n
        → Reachable k
        → (id : ℕ) × (id ≤ k)
          × ((wait_for_db driver cfg (pos n) options s).0
              ≡ ok (record { id = id; config = config }))
    unfolding wait_for_db
    wait_for_db-ok n k s low high up = attempts-ok n none s k low high up
