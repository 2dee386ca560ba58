-- ===== src/Poller/Shutdown.antt =====
-- How the loop of internal/poller/outbox.go ends when it is told to.
use temporal_durable_event_p.Base.{List, ◌∷◌, arith, String, Option, ◌≡◌, false, true}
use temporal_durable_event_p.Base.Int.{ℤ}
use temporal_durable_event_p.World.{World, Network}
use temporal_durable_event_p.Poller.PgListener
use temporal_durable_event_p.Poller.Outbox as Outbox
use temporal_durable_event_p.Poller.Outbox.{
  Round, run_round, run_rounds, finished, Payload, OutboxListener,
}
use temporal_durable_event_p.Handler.Rpc.{Codec}
use temporal_durable_event_p.Poller.System.{new_outbox_listener}

module _ {Struct : Type 0} (codec : Codec Struct) (prefix : String) (network : Network)
    (unmarshal_payload : String → Option Payload) (limit : ℤ) where
  abbrev l : OutboxListener World Struct
  l = new_outbox_listener network codec unmarshal_payload prefix limit

  -- If `Stop` is called for the first time after `Start`, by the end of a wait, in whatever world the other
  -- goroutines have reached, the loop ends in that round: it neither goes on nor panics.
  pub stop_finishes :
      (round : Round World) (rounds : List (Round World)) (w v : World)
      → round.meanwhile w ≡ Outbox.stop l v
      → v.started ≡ true
      → v.stopped ≡ false
      → (run_rounds l (round ∷ rounds) w).0 ≡ finished
  unfolding run_rounds run_round Outbox.stop PgListener.wait_for_notification
  stop_finishes round rounds w v stops begun going = ground arith
