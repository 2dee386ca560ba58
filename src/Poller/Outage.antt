-- ===== src/Poller/Outage.antt =====
-- The loop of internal/poller/outbox.go on the listener of internal/poller/pg_listener.go while the
-- database cannot be reached.
use temporal_durable_event_p.Base.{
  List, [], ◌∷◌, arith, ◌≡◌, String, false, Option, none, some, ℕ, true, refl, ◌∙◌,
}
use temporal_durable_event_p.Base.Int.{ℤ}
use temporal_durable_event_p.World.{World, Network, Conn}
use temporal_durable_event_p.Poller.PgListener
use temporal_durable_event_p.Poller.Outbox.{
  Round, run_round, run_rounds, crashed, Payload, OutboxListener, reconnect_and_scan, running,
}
use temporal_durable_event_p.Handler.Rpc.{Codec}
use temporal_durable_event_p.Poller.System.{new_outbox_listener}
use temporal_durable_event_p.Poller.Invariant.{run_rounds-running}

-- The rest of the system leaves the listener and the signals alone in a round.
pub record IsQuiet (round : Round World) : Type 0 where
  pub meanwhile_pg : (w : World) → (round.meanwhile w).pg ≡ w.pg
  pub meanwhile_cancelled : (w : World) → (round.meanwhile w).cancelled ≡ w.cancelled
  pub meanwhile_stopped : (w : World) → (round.meanwhile w).stopped ≡ w.stopped
  pub backoff_pg : (w : World) → (round.backoff w).pg ≡ w.pg
  pub backoff_cancelled : (w : World) → (round.backoff w).cancelled ≡ w.cancelled
  pub backoff_stopped : (w : World) → (round.backoff w).stopped ≡ w.stopped

-- Neither signal is set, and `PGListener.Stop` has not been called.
pub record IsLive (w : World) : Type 0 where
  pub not_cancelled : w.cancelled ≡ false
  pub not_stopped : w.stopped ≡ false
  pub not_closed : w.pg.stop_closed ≡ false

module _ {Struct : Type 0} (codec : Codec Struct) (prefix : String) (network : Network)
    (unmarshal_payload : String → Option Payload) (limit : ℤ) where
  abbrev l : OutboxListener World Struct
  l = new_outbox_listener network codec unmarshal_payload prefix limit

  -- With a nil connection the next wait panics.
  pub nil_conn_crashes :
      (round : Round World) (w : World)
      → IsQuiet round
      → IsLive w
      → w.pg.conn ≡ none
      → (run_round l round w).0 ≡ crashed
  unfolding run_round PgListener.wait_for_notification
  nil_conn_crashes round w q live nil =
      ground (arith, q.meanwhile_pg w, q.meanwhile_cancelled w, q.meanwhile_stopped w)

  -- A wait that breaks, with no new connection to be had, leaves the connection nil.
  pub broken_wait_nil :
      (round : Round World) (c : Conn) (w : World)
      → IsQuiet round
      → IsLive w
      → w.pg.conn ≡ some c
      → ((n : ℕ) → network.breaks n ≡ true)
      → ((n : ℕ) (s : String) → network.connect n s ≡ false)
      → ((run_round l round w).0 ≡ running)
        × IsLive (run_round l round w).1
        × ((run_round l round w).1.pg.conn ≡ none)
  unfolding run_round reconnect_and_scan PgListener.wait_for_notification PgListener.close
      PgListener.reconnect
  broken_wait_nil round c w q live up breaks down = grind (
    arith, q.meanwhile_pg, q.meanwhile_cancelled, q.meanwhile_stopped, q.backoff_pg,
    q.backoff_cancelled, q.backoff_stopped, breaks, down,
  )

  -- If the connection breaks and cannot be replaced, no signal is set and nothing else touches the
  -- listener or the signals, then the loop panics in its second round: `Close` and the failed
  -- `Reconnect` leave a nil connection, on which it waits again.
  pub outage-crashes :
      (r₁ r₂ : Round World) (rounds : List (Round World)) (c : Conn) (w : World)
      → IsQuiet r₁
      → IsQuiet r₂
      → IsLive w
      → w.pg.conn ≡ some c
      → ((n : ℕ) → network.breaks n ≡ true)
      → ((n : ℕ) (s : String) → network.connect n s ≡ false)
      → (run_rounds l (r₁ ∷ r₂ ∷ rounds) w).0 ≡ crashed
  unfolding run_rounds run_round
  outage-crashes r₁ r₂ rounds c w q₁ q₂ live up breaks down =
      let (going, live', nil) = broken_wait_nil r₁ c w q₁ live up breaks down in
      rw (going, nil_conn_crashes r₂ (run_round l r₁ w).1 q₂ live' nil)

  -- A connection that is open and has not run `LISTEN`.
  abbrev pub IsDeaf : World → Type 0
  IsDeaf w = (c : Conn) × (w.pg.conn ≡ some c) × (c.listening ≡ false)

  deaf_round :
      (round : Round World) (w : World)
      → IsQuiet round
      → IsLive w
      → IsDeaf w
      → ((n : ℕ) → network.breaks n ≡ false)
      → run_round l round w ≡ (running, PgListener.dial (round.meanwhile w))
  unfolding run_round PgListener.wait_for_notification
  deaf_round round w q live (c, up, deaf) sound = ground (
    arith,
    q.meanwhile_pg w,
    q.meanwhile_cancelled w,
    q.meanwhile_stopped w,
    sound (round.meanwhile w).dialled,
  )

  -- In every round the rest of the system is quiet and sends no record to the broker.
  abbrev pub RoundsQuiet : List (Round World) → Type 0
  RoundsQuiet [] = Unit
  RoundsQuiet (r ∷ rs) = IsQuiet r × ((w : World) → (r.meanwhile w).log ≡ w.log) × RoundsQuiet rs

  -- While a connection that has not run `LISTEN` does not break, no signal is set and nothing else
  -- touches the listener, the signals or the log, the loop goes on round after round and publishes
  -- nothing, whatever events are inserted meanwhile.
  pub deaf-publishes_nothing :
      (rounds : List (Round World)) (w : World)
      → RoundsQuiet rounds
      → IsLive w
      → IsDeaf w
      → ((n : ℕ) → network.breaks n ≡ false)
      → ((run_rounds l rounds w).0 ≡ running) × ((run_rounds l rounds w).1.log ≡ w.log)
  unfolding run_rounds
  deaf-publishes_nothing [] w q live deaf sound = (refl, refl)
  deaf-publishes_nothing (r ∷ rs) w q live deaf sound =
      let w' : World = PgListener.dial (r.meanwhile w) in
      let live' : IsLive w' =
        ground (arith, q.0.meanwhile_pg w, q.0.meanwhile_cancelled w, q.0.meanwhile_stopped w) in
      let deaf' : IsDeaf w' = (deaf.0, ground (arith, q.0.meanwhile_pg w), deaf.2) in
      let (going, same) = deaf-publishes_nothing rs w' q.2 live' deaf' sound in
      rw (run_rounds-running l r rs w w' (deaf_round r w q.0 live deaf sound)) (going, same ∙ q.1 w)
