-- ===== src/Postgres/Waiting.antt =====
-- The attempts of `WaitForDB` (db/postgres.go): how many there are, and which pools stay open.
use temporal_durable_event_p.Base.{
  ℕ, zero, suc, ◌+◌, ◌≤◌, ◌<◌, true, Option, none, some, List, [], ◌∷◌, ◌≡◌, refl, arith,
  Bool-cases, inl, inr, ◌-◌, sym, ◌∙◌,
}
use temporal_durable_event_p.Base.Int.{pos}
use temporal_durable_event_p.Base.Exec.{Exec, Result, ok, err}
use temporal_durable_event_p.Config.{DatabaseConfig}
use temporal_durable_event_p.Postgres.{
  PoolConfig, PoolOption, Pool, PoolError, Driver, Pools, WaitError, close, ping_or_close,
  open_pool, open_parsed, new_pool, attempts, wait_for_db, wait_tick, apply_options, after_attempt,
}
use temporal_durable_event_p.Postgres.Dsn.{dsn}

-- Every number is below a bound.
abbrev pub AreBelow : ℕ → List ℕ → Type 0
AreBelow n [] = Unit
AreBelow n (p ∷ ps) = (p < n) × AreBelow n ps

-- The pools that are open were made.
abbrev pub IsCounted : Pools → Type 0
IsCounted s = AreBelow s.made s.opened

AreBelow-suc : (n : ℕ) (ps : List ℕ) → AreBelow n ps → AreBelow (suc n) ps
AreBelow-suc n [] h = tt
AreBelow-suc n (p ∷ ps) h = (ground (arith, h.0), AreBelow-suc n ps h.1)

close_absent : (n : ℕ) (ps : List ℕ) → AreBelow n ps → close n ps ≡ ps
close_absent n [] h = refl
close_absent n (p ∷ ps) h = ground (arith, h.0, close_absent n ps h.1)

close_newest : (n : ℕ) (ps : List ℕ) → AreBelow n ps → close n (n ∷ ps) ≡ ps
close_newest n ps h = ground (arith, close_absent n ps h)

module _ (driver : Driver) where
  -- After an attempt: a pool that is returned answers, and is the only one that it opened; an attempt
  -- that fails leaves no pool open.
  abbrev pub Outcome : {E : Type 0} → Pools → Result E Pool → Pools → Type 0
  Outcome s (ok pool) s' =
      (s'.opened ≡ pool.id ∷ s.opened)
      × (driver.pings pool.id ≡ true)
      × (s.made ≤ pool.id)
      × (pool.id < s'.made)
  Outcome s (err _) s' = s'.opened ≡ s.opened

  -- How one attempt changes the pools.
  record Attempt (s : Pools) (r : Result PoolError Pool) (s' : Pools) : Type 0 where
    outcome : Outcome s r s'
    counted : IsCounted s'
    at_most_one : s'.made ≤ suc s.made
    never_fewer : s.made ≤ s'.made
    no_wait : s'.waits ≡ s.waits

  ping_or_close-Attempt :
      (config : PoolConfig) (s : Pools)
      → IsCounted s
      → (let tried =
            ping_or_close driver
              (record { id = s.made; config = config })
              (record s { made = suc s.made; opened = s.made ∷ s.opened }) in
          Attempt s tried.0 tried.1)
  ping_or_close-Attempt config s h = elim (Bool-cases (driver.pings s.made)) [
    | inl up ↦ rw up (record {
      outcome = (refl, up, ground arith, ground arith);
      counted = (ground arith, AreBelow-suc s.made s.opened h);
      at_most_one = ground arith;
      never_fewer = ground arith;
      no_wait = refl;
    })
    | inr down ↦ rw down (record {
      outcome = close_newest s.made s.opened h;
      counted = rw (close_newest s.made s.opened h) (AreBelow-suc s.made s.opened h);
      at_most_one = ground arith;
      never_fewer = ground arith;
      no_wait = refl;
    })
  ]

  open_pool-Attempt :
      (config : PoolConfig) (s : Pools)
      → IsCounted s
      → Attempt s (open_pool driver config s).0 (open_pool driver config s).1
  open_pool-Attempt config s h = elim (Bool-cases (driver.creates s.made config)) [
    | inl created ↦ rw created (ping_or_close-Attempt config s h)
    | inr failed ↦ rw failed (record {
      outcome = refl;
      counted = AreBelow-suc s.made s.opened h;
      at_most_one = ground arith;
      never_fewer = ground arith;
      no_wait = refl;
    })
  ]

  open_parsed-Attempt :
      (options : List PoolOption) (c : Option PoolConfig) (s : Pools)
      → IsCounted s
      → Attempt s (open_parsed driver options c s).0 (open_parsed driver options c s).1
  open_parsed-Attempt options none s h = record {
    outcome = refl;
    counted = h;
    at_most_one = ground arith;
    never_fewer = ground arith;
    no_wait = refl;
  }
  open_parsed-Attempt options (some config) s h =
      open_pool-Attempt (apply_options options config) s h

  new_pool-Attempt :
      (cfg : DatabaseConfig) (options : List PoolOption) (s : Pools)
      → IsCounted s
      → Attempt s (new_pool driver cfg options s).0 (new_pool driver cfg options s).1
  unfolding new_pool
  new_pool-Attempt cfg options s h = open_parsed-Attempt options (driver.parse_config (dsn cfg)) s h

  -- What some attempts may do.
  abbrev pub Waited : ℕ → Pools → Result WaitError Pool → Pools → Type 0
  Waited n s r s' =
      Outcome s r s'
      × IsCounted s'
      × (s'.made ≤ s.made + n)
      × (s.made ≤ s'.made)
      × (s'.waits ≤ s.waits + (n - 1))

  -- What holds after a failed attempt and a wait holds after the first of both.
  Outcome-later :
      (s s' s'' : Pools) (r : Result WaitError Pool)
      → s'.opened ≡ s.opened
      → s.made ≤ s'.made
      → Outcome (wait_tick s') r s''
      → Outcome s r s''
  Outcome-later s s' s'' (ok pool) same more (newest, up, later, made) =
      (rw (sym same) newest, up, ground arith, made)
  Outcome-later s s' s'' (err e) same more o = o ∙ same

  abbrev RestWaits : ℕ → (Option PoolError → Exec Pools WaitError Pool) → Type 0
  RestWaits n rest =
      (last : Option PoolError) (s : Pools)
      → IsCounted s
      → Waited n s (rest last s).0 (rest last s).1

  after_attempt-Waited :
      (n : ℕ) (rest : Option PoolError → Exec Pools WaitError Pool) (s s' : Pools)
      (r : Result PoolError Pool)
      → RestWaits n rest
      → Attempt s r s'
      → Waited
          (suc n)
          s
          (after_attempt driver n rest (r, s')).0
          (after_attempt driver n rest (r, s')).1
  after_attempt-Waited n rest s s' (ok pool) h a = (
    a.outcome,
    a.counted,
    ground (arith, a.at_most_one),
    a.never_fewer,
    ground (arith, a.no_wait),
  )
  after_attempt-Waited zero rest s s' (err e) h a = (
    a.outcome,
    a.counted,
    ground (arith, a.at_most_one),
    a.never_fewer,
    ground (arith, a.no_wait),
  )
  after_attempt-Waited (suc n) rest s s' (err e) h a = elim (Bool-cases (driver.done s'.waits)) [
    | inl over ↦ rw over (
      a.outcome,
      a.counted,
      ground (arith, a.at_most_one),
      a.never_fewer,
      ground (arith, a.no_wait),
    )
    | inr goes_on ↦ rw goes_on (
        let (o, c, most, fewest, waits) = h (some e) (wait_tick s') a.counted in
        (
          Outcome-later s s' (rest (some e) (wait_tick s')).1 (rest (some e) (wait_tick s')).0
              a.outcome a.never_fewer o,
          c,
          ground (arith, a.at_most_one),
          ground (arith, a.never_fewer),
          ground (arith, a.no_wait),
        ))
  ]

  attempts-Waited :
      (cfg : DatabaseConfig) (options : List PoolOption) (n : ℕ)
      → RestWaits n (attempts driver cfg options n)
  unfolding attempts
  attempts-Waited cfg options zero last s h = (refl, h, ground arith, ground arith, ground arith)
  attempts-Waited cfg options (suc n) last s h =
      let tried = new_pool driver cfg options s in
      after_attempt-Waited n (attempts driver cfg options n) s tried.1 tried.0
        (attempts-Waited cfg options n) (new_pool-Attempt cfg options s h)

  -- From open pools that were all made by `NewPool`, `WaitForDB` with `n` retries makes at most `n`
  -- pools and waits at most `n - 1` times. A pool that it returns is new, has answered the ping and
  -- is the only one that it leaves open; with an error it leaves none open.
  pub wait_for_db-Waited :
      (cfg : DatabaseConfig) (options : List PoolOption) (n : ℕ) (s : Pools)
      → IsCounted s
      → Waited n s
          (wait_for_db driver cfg (pos n) options s).0
          (wait_for_db driver cfg (pos n) options s).1
  unfolding wait_for_db
  wait_for_db-Waited cfg options n s h = attempts-Waited cfg options n none s h
