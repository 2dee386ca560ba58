-- ===== src/Client/Events.antt =====
-- The event of cmd/client/main.go: its creation, the polling for its status, and the exit code.
use temporal_durable_event_p.Base.{
  ℕ, zero, suc, ◌+◌, String, Bool, Option, none, some, leb, if◌then◌else◌,
}
use temporal_durable_event_p.Base.Exec.{Result, ok, err}
use temporal_durable_event_p.Proto
use temporal_durable_event_p.Proto.{EventStatus}
use temporal_durable_event_p.Client.{
  RpcError, Connection, info, value, error, failure, polled, Console, Exit, code, panicked,
  format_event, say,
}
use temporal_durable_event_p.Client.Script.{before_events}

-- How the polling ends: at its deadline or with a completed event, with the last event seen; by
-- `os.Exit`; or by a panic.
pub data Ending (Struct : Type 0) : Type 0 where
  left_loop : Option (Proto.Event Struct) → Ending Struct
  exited : ℕ → Ending Struct
  crashed : Ending Struct

module _ {Struct S : Type 0} (conn : Connection Struct S) where
  -- `pollCtx.Err() != nil`
  abbrev pub is_expired : ℕ → Console S → Bool
  is_expired deadline c = leb deadline (conn.now c.server)

  -- `time.Sleep(500 * time.Millisecond)`
  abbrev pub pause : Console S → Console S
  pause c = record c { server = conn.sleep 500 c.server }

  abbrev pub Poll : Type 0
  Poll = Option (Proto.Event Struct) → Console S → Option (Ending Struct × Console S)

  -- By the status of the event.
  abbrev pub check_status : Poll → Proto.Event Struct → EventStatus → Poll
  check_status rest ev EventStatus.completed last c = some (
    left_loop (some ev),
    say
        (value "SUCCESS: Event published to Redpanda and status updated to COMPLETED"
          (format_event (some ev)))
        c,
  )
  check_status rest ev EventStatus.failed last c =
      some (exited 1, say (failure "FAILED: Event marked as failed" (format_event (some ev))) c)
  check_status rest ev _ last c = rest (some ev) (pause c)

  abbrev pub after_get :
      Poll
      → Option (Proto.Event Struct)
      → Result RpcError (Option (Proto.Event Struct))
      → Console S
      → Option (Ending Struct × Console S)
  after_get rest last (err e) c = rest last (pause (say (error "GetEvent failed" (some e)) c))
  after_get rest last (ok none) c = some (crashed, c)
  after_get rest last (ok (some ev)) c =
      check_status rest ev ev.status_v2 last (say (polled ev.status_v2) c)

  abbrev pub got : String → Console S → Result RpcError (Option (Proto.Event Struct)) × Console S
  got id c = let (r, s) = conn.get_event id c.server in (r, record c { server = s })

  -- The `for` that waits for the event, on fuel.
  unfoldable pub poll : ℕ → ℕ → String → Poll
  poll zero deadline id last c = none
  poll (suc fuel) deadline id last c =
      let rest = poll fuel deadline id in
      if is_expired deadline c
      then some (left_loop last, c)
      else after_get rest last (got id c).0 (got id c).1

  abbrev tell_both : String → String → Console S → Console S
  tell_both first second c = say (info second) (say (info first) c)

  -- After the loop.
  abbrev pub conclude : ℕ → Ending Struct × Console S → Exit × Console S
  conclude deadline (left_loop last, c) =
      if is_expired deadline c
      then (code 1, say (failure "Timeout waiting for event processing" (format_event last)) c)
      else (
        code 0,
        tell_both "=== Verify: Check topic in Redpanda Console ==="
            "Open http://localhost:8080 to verify topic 'temporal-pipeline.user.signup' has messages"
            c,
      )
  conclude deadline (exited n, c) = (code n, c)
  conclude deadline (crashed, c) = (panicked, c)

  abbrev pub conclude_some : ℕ → Option (Ending Struct × Console S) → Option (Exit × Console S)
  conclude_some deadline none = none
  conclude_some deadline (some (ending, c)) = some (conclude deadline (ending, c))

  -- From the waiting for the event on; 30 seconds are the deadline.
  unfoldable pub wait_for_event : ℕ → String → Console S → Option (Exit × Console S)
  unfolding poll format_event
  wait_for_event fuel id c =
      let deadline = conn.now c.server + 30_000 in
      conclude_some deadline (poll fuel deadline id none c)

  -- What is said before the loop, for the event as `formatEvent` prints it.
  abbrev pub say_created : String → Console S → Console S
  say_created text c =
      say
        (info
          "Waiting for outbox to process event (check Redpanda console at http://localhost:8080)...")
        (say (value "CreateEvent succeeded" text) c)

  -- A nil event is dereferenced for its id in the first pass of the loop.
  abbrev pub after_create :
      ℕ → Result RpcError (Option (Proto.Event Struct)) → Console S → Option (Exit × Console S)
  after_create fuel (err e) c = some (code 1, say (error "CreateEvent failed" (some e)) c)
  after_create fuel (ok none) c =
      some (panicked, say_created (format_event {Struct = Struct} none) c)
  after_create fuel (ok (some ev)) c =
      wait_for_event fuel ev.id (say_created (format_event (some ev)) c)

  -- `main` from the events on, for a payload that `structpb.NewStruct` has built.
  unfoldable pub create_event : ℕ → Struct → Console S → Option (Exit × Console S)
  unfolding wait_for_event
  create_event fuel payload c =
      let c' : Console S = say (info "=== CreateEvent (triggers outbox pattern) ===") c in
      let (r, s) =
        conn.create_event (record { event_type = "user.signup"; payload = some payload })
          c'.server in
      after_create fuel r (record c' { server = s })

  abbrev pub with_payload :
      ℕ → Option Struct → Result Exit (Unit {0}) × Console S → Option (Exit × Console S)
  with_payload fuel payload (err exit, c) = some (exit, c)
  with_payload fuel none (ok _, c) =
      some (code 0, say (error "Failed to create struct payload" none) c)
  with_payload fuel (some p) (ok _, c) = create_event fuel p c

  -- `main`; `connects` says whether `grpc.NewClient` succeeds, and a nil `payload` is the error of
  -- `structpb.NewStruct`.
  unfoldable pub main : ℕ → Bool → Option Struct → Console S → Option (Exit × Console S)
  unfolding before_events create_event
  main fuel connects payload c =
      if connects
      then with_payload fuel payload (before_events conn c)
      else some (code 1, say (error "failed to connect to gRPC server" none) c)
