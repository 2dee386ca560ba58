-- ===== src/Tests/Listener.antt =====
-- Instances of the theorems about the listener's loop.
use temporal_durable_event_p.Tests.Data.{network, codec, unmarshal_payload, world, conn}
use temporal_durable_event_p.World.{World, Network}
use temporal_durable_event_p.Poller.Outage.{outage-crashes, deaf-publishes_nothing}
use temporal_durable_event_p.Poller.Shutdown.{stop_finishes}
use temporal_durable_event_p.Base.{true, some, false, ◌∷◌, [], ◌≡◌, arith, refl}
use temporal_durable_event_p.Poller.Outbox.{Round, run_rounds, Payload, finished, crashed, running}
use temporal_durable_event_p.Base.Int.{pos}
use temporal_durable_event_p.Poller.System.{new_outbox_listener}
use temporal_durable_event_p.Poller.Outbox as Outbox
use temporal_durable_event_p.Poller.Outbox.{listener_failed}

abbrev pub quiet : Round World
quiet = record { meanwhile = λ w. w; backoff = λ w. w }

abbrev unreachable : Network
unreachable = record network { breaks = λ _. true; connect = λ _ _. false }

outage-crashes_example :
    (run_rounds
      (new_outbox_listener unreachable codec unmarshal_payload "events" (pos 100))
      (quiet ∷ quiet ∷ [])
      world).0
    ≡ crashed
outage-crashes_example =
    outage-crashes codec "events" unreachable unmarshal_payload (pos 100) quiet quiet [] conn world
      (ground arith) (ground arith) (ground arith) refl (λ n. refl) (λ n s. refl)

abbrev deaf_world : World
deaf_world = record world {
  pg = record (world.pg) { conn = some (record conn { listening = false }) };
}

deaf-publishes_nothing_example :
    let r =
      run_rounds
        (new_outbox_listener network codec unmarshal_payload "events" (pos 100))
        (quiet ∷ quiet ∷ [])
        deaf_world in
    (r.0 ≡ running) × (r.1.log ≡ [])
deaf-publishes_nothing_example =
    deaf-publishes_nothing codec "events" network unmarshal_payload (pos 100) (quiet ∷ quiet ∷ [])
      deaf_world (ground arith, λ w. refl, (ground arith, λ w. refl, tt)) (ground arith)
      (record conn { listening = false }, refl, refl) (λ n. refl)

abbrev stopping : Round World
stopping = record {
  meanwhile = λ w. record w { cancelled = true; stopped = true };
  backoff = λ w. w;
}

stop_finishes_example :
    (run_rounds
      (new_outbox_listener network codec unmarshal_payload "events" (pos 100))
      (stopping ∷ [])
      world).0
    ≡ finished
unfolding Outbox.stop
stop_finishes_example =
    stop_finishes codec "events" network unmarshal_payload (pos 100) stopping [] world world refl
      refl refl
