-- ===== src/Poller/PgListener.antt =====
-- internal/poller/pg_listener.go: `PGListener` over a connection that can be nil.
use temporal_durable_event_p.Base.{
  ℕ, zero, suc, String, Bool, true, false, Option, none, some, List, [], ◌∷◌, if◌then◌else◌, length,
}
use temporal_durable_event_p.Base.Exec.{Result, ok, err}
use temporal_durable_event_p.World.{World, Network, Conn, PgListener}
use temporal_durable_event_p.Poller.Outbox.{
  Call, returned, panicked, ListenerError, listener_failed,
}

-- `NewPGListener`, which leaves the configuration empty.
unfoldable pub new_pg_listener : Conn → PgListener
new_pg_listener conn = record { conn_str = ""; conn = some conn; stop_closed = false }

abbrev pub fresh_conn : Conn
fresh_conn = record { listening = false; seen = 0 }

-- `NewPGListenerFromConfig`, by whether `pgx.Connect` succeeds.
unfoldable pub new_pg_listener_from_config : Bool → String → Option PgListener
new_pg_listener_from_config connected conn_str =
    if connected
    then some (record { conn_str = conn_str; conn = some fresh_conn; stop_closed = false })
    else none

-- The notification that a connection would be handed next.
unfoldable pub next_notification : List String → ℕ → Option String
next_notification [] n = none
next_notification (t ∷ ts) zero = some t
next_notification (t ∷ ts) (suc n) = next_notification ts n

abbrev pub set_conn : Option Conn → World → World
set_conn conn w = record w { pg = record (w.pg) { conn = conn } }

-- One request on the listener's connection.
abbrev pub dial : World → World
dial w = record w { dialled = suc w.dialled }

module _ (network : Network) where
  -- `LISTEN`: from here on the connection is sent what is notified.
  abbrev pub listen : World → Result ListenerError (Unit {0}) × World
  listen w =
      if network.exec w.dialled
      then (
        ok tt,
        set_conn (some (record { listening = true; seen = length w.db.notifications })) (dial w),
      )
      else (err listener_failed, dial w)

  abbrev start_on : Option Conn → World → Call (Result ListenerError (Unit {0})) × World
  start_on none w = (panicked, w)
  start_on (some c) w = let (r, w') = listen w in (returned r, w')

  -- `Start`
  unfoldable pub start : World → Call (Result ListenerError (Unit {0})) × World
  start w = start_on w.pg.conn w

  -- `conn.WaitForNotification`. A wait that is still blocked at the end of a round gives none, as if
  -- the next round had gone on with it.
  abbrev receive : Conn → Option String → World → Result ListenerError (Option String) × World
  receive c none w = (ok none, w)
  receive c (some text) w = (ok (some text), set_conn (some (record c { seen = suc c.seen })) w)

  abbrev wait_on_conn : Conn → World → Result ListenerError (Option String) × World
  wait_on_conn c w =
      if network.breaks w.dialled
      then (err listener_failed, dial w)
      else if c.listening
      then receive c (next_notification w.db.notifications c.seen) (dial w)
      else (ok none, dial w)

  abbrev wait_on : Option Conn → World → Call (Result ListenerError (Option String)) × World
  wait_on none w = (panicked, w)
  wait_on (some c) w = let (r, w') = wait_on_conn c w in (returned r, w')

  -- `WaitForNotification`. Where both channels of its `select` are ready, the context's is taken.
  unfoldable pub wait_for_notification : World → Call (Result ListenerError (Option String)) × World
  unfolding next_notification
  wait_for_notification w =
      if w.cancelled
      then (returned (err listener_failed), w)
      else if w.pg.stop_closed
      then (returned (ok none), w)
      else wait_on w.pg.conn w

  -- `Stop`; `stopOnce` makes a second call do nothing.
  unfoldable pub stop : World → World
  stop w = record w { pg = record (w.pg) { stop_closed = true } }

  abbrev close_on : Option Conn → World → Result ListenerError (Unit {0}) × World
  close_on none w = (ok tt, w)
  close_on (some c) w = (
    if network.exec (suc w.dialled) then ok tt else err listener_failed,
    set_conn none (dial (dial w)),
  )

  -- `Close`: `UNLISTEN`, whose error is only logged, and the connection's `Close`. The pointer is nil
  -- afterwards, whether or not the server answered.
  unfoldable pub close : World → Result ListenerError (Unit {0}) × World
  close w = close_on w.pg.conn w

  -- `if l.conn != nil { l.conn.Close(…) }`, whose error is dropped.
  abbrev drop_conn : Option Conn → World → World
  drop_conn none w = w
  drop_conn (some c) w = dial w

  -- `Reconnect`: what `pgx.Connect` returns replaces the connection, nil if it failed.
  unfoldable pub reconnect : World → Result ListenerError (Unit {0}) × World
  reconnect w =
      let w' = drop_conn w.pg.conn w in
      if network.connect w'.dialled w'.pg.conn_str
      then listen (set_conn (some fresh_conn) (dial w'))
      else (err listener_failed, set_conn none (dial w'))
