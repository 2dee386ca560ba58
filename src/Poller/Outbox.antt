-- ===== src/Poller/Outbox.antt =====
-- internal/poller/outbox.go: `OutboxListener` over its three interfaces. `S` is the state that
-- the store, the publisher and the listener share.
use Prim.Native.String.{◌++◌}
use temporal_durable_event_p.Base.{
  ℕ, String, Bool, true, ◌||◌, Option, none, some, List, [], ◌∷◌, if◌then◌else◌,
}
use temporal_durable_event_p.Base.Int.{ℤ, pos, leb_ℤ}
use temporal_durable_event_p.Base.Exec.{Exec, Result, ok, err}
use temporal_durable_event_p.Repository.Models.{Event, event_status_completed}
use temporal_durable_event_p.Repository.Db.{DbError}
use temporal_durable_event_p.Repository.Events.{UpdateEventStatusParams}
use temporal_durable_event_p.Handler.Rpc.{Codec}
use temporal_durable_event_p.Handler.Converter.{pg_uuid_to_string}
use temporal_durable_event_p.Publisher.{PublisherError}

-- `interface EventStore`
pub record EventStore (S : Type 0) : Type 0 where
  pub poll_pending_events : ℤ → Exec S DbError (List Event)
  pub get_event_by_id : ℕ → Exec S DbError Event
  pub update_event_status_with_params : UpdateEventStatusParams → Exec S DbError Event
  pub mark_event_failed : Event → Exec S DbError Event

-- `interface Publisher`: a topic, a key and a value.
pub record Publisher (S : Type 0) : Type 0 where
  pub publish : String → String → Option String → Exec S PublisherError (Unit {0})

-- A call ends with its result, or it panics.
pub data Call (A : Type 0) : Type 0 where
  returned : A → Call A
  panicked : Call A

pub data ListenerError : Type 0 where
  listener_failed : ListenerError

-- `interface NotificationListener`; a nil notification is none, any other is its payload.
pub record NotificationListener (S : Type 0) : Type 0 where
  pub start : S → Call (Result ListenerError (Unit {0})) × S
  pub wait_for_notification : S → Call (Result ListenerError (Option String)) × S
  pub close : Exec S ListenerError (Unit {0})
  pub reconnect : Exec S ListenerError (Unit {0})

-- The context and the stop channel of a listener. `started` says that `cancel` is not nil, and
-- `begin` makes it.
pub record Signals (S : Type 0) : Type 0 where
  pub started : S → Bool
  pub begin : S → S
  pub cancelled : S → Bool
  pub stopped : S → Bool
  pub cancel : S → S
  pub close_stop : S → S

-- The struct that `handleNotification` unmarshals the payload into.
pub record Payload : Type 0 where
  pub id : String
  pub event_type : String
  pub status : String

-- How `run` stands after some rounds of its loop.
pub data Progress : Type 0 where
  running finished crashed : Progress

-- What other goroutines and servers do to the state in a round: until the wait returns, and in the
-- five seconds of the backoff.
pub record Round (S : Type 0) : Type 0 where
  pub meanwhile : S → S
  pub backoff : S → S

abbrev pub default_poll_limit : ℤ
default_poll_limit = pos 100

-- `NewOutboxListener`: the limit that the listener keeps.
abbrev pub poll_limit_or_default : ℤ → ℤ
poll_limit_or_default limit = if leb_ℤ limit (pos 0) then default_poll_limit else limit

-- `TopicForEventType` for a prefix
unfoldable pub topic_for_event_type : String → String → String
topic_for_event_type prefix event_type = prefix ++ ("." ++ event_type)

abbrev pub completed_params : Event → UpdateEventStatusParams
completed_params event = record {
  id = event.id;
  status = record { event_status = event_status_completed; valid = true };
}

-- A listener's fields, and the libraries that it calls: `unmarshal` is `json.Unmarshal`.
pub record OutboxListener (S : Type 0) (Struct : Type 0) : Type 0 where
  pub store : EventStore S
  pub listener : NotificationListener S
  pub publisher : Publisher S
  pub signals : Signals S
  pub topic_prefix : String
  pub poll_limit : ℤ
  pub codec : Codec Struct
  pub unmarshal_payload : String → Option Payload

module _ {S Struct : Type 0} (l : OutboxListener S Struct) where
  open l use {store, listener, publisher, signals, codec}

  -- After `Publish` has returned.
  abbrev pub settle : Event → Result PublisherError (Unit {0}) → S → S
  settle event (ok _) s = (store.update_event_status_with_params (completed_params event) s).1
  settle event (err _) s = (store.mark_event_failed event s).1

  -- `ProcessEvent`
  unfoldable pub process_event : Event → S → S
  unfolding topic_for_event_type pg_uuid_to_string
  process_event event s =
      let (r, s') =
        publisher.publish (topic_for_event_type l.topic_prefix event.event_type)
          (pg_uuid_to_string codec event.id) event.payload s in
      settle event r s'

  unfoldable pub process_events : List Event → S → S
  process_events [] s = s
  process_events (event ∷ events) s = process_events events (process_event event s)

  abbrev pub process_polled : Result DbError (List Event) → S → S
  process_polled (ok events) s = process_events events s
  process_polled (err _) s = s

  -- `scanBacklog`
  unfoldable pub scan_backlog : S → S
  scan_backlog s = let (r, s') = store.poll_pending_events l.poll_limit s in process_polled r s'

  abbrev pub process_found : Result DbError Event → S → S
  process_found (ok event) s = process_event event s
  process_found (err _) s = s

  abbrev pub fetch_and_process : Option ℕ → S → S
  fetch_and_process none s = s
  fetch_and_process (some id) s = let (r, s') = store.get_event_by_id id s in process_found r s'

  abbrev pub parse_id : Option Payload → Option ℕ
  parse_id none = none
  parse_id (some payload) = codec.uuid_parse payload.id

  -- `handleNotification`
  unfoldable pub handle_notification : String → S → S
  handle_notification text s = fetch_and_process (parse_id (l.unmarshal_payload text)) s

  abbrev pub scan_if_reconnected :
      Result ListenerError (Unit {0}) × S → Result ListenerError (Unit {0}) × S
  scan_if_reconnected (ok _, s) = (ok tt, scan_backlog s)
  scan_if_reconnected (err e, s) = (err e, s)

  -- `reconnectAndScan`; the error of `Close` is only logged.
  unfoldable pub reconnect_and_scan : Exec S ListenerError (Unit {0})
  reconnect_and_scan s = scan_if_reconnected (listener.reconnect (listener.close s).1)

  -- `ctx.Err() != nil || l.isStopped()`, and that one of the channels of a `select` is ready.
  abbrev pub is_done : S → Bool
  is_done s = signals.cancelled s || signals.stopped s

  abbrev pub after_backoff : S → Progress × S
  after_backoff s = (if is_done s then finished else running, s)

  abbrev pub after_reconnect : Round S → Result ListenerError (Unit {0}) × S → Progress × S
  after_reconnect round (ok _, s) = (running, s)
  after_reconnect round (err _, s) = after_backoff (round.backoff s)

  abbrev pub after_failure : Round S → S → Progress × S
  after_failure round s =
      if is_done s then (finished, s) else after_reconnect round (reconnect_and_scan s)

  abbrev pub after_wait : Round S → Call (Result ListenerError (Option String)) × S → Progress × S
  after_wait round (panicked, s) = (crashed, s)
  after_wait round (returned (ok none), s) = (running, s)
  after_wait round (returned (ok (some text)), s) = (running, handle_notification text s)
  after_wait round (returned (err _), s) = after_failure round s

  -- One pass of the `for` of `run`.
  unfoldable pub run_round : Round S → S → Progress × S
  run_round round s =
      if is_done s
      then (finished, (listener.close s).1)
      else after_wait round (listener.wait_for_notification (round.meanwhile s))

  -- The `for` of `run`, for the rounds given.
  unfoldable pub run_rounds : List (Round S) → S → Progress × S
  run_rounds [] s = (running, s)
  run_rounds (round ∷ rounds) s =
      let (p, s') = run_round round s in
      let rest = run_rounds rounds s' in
      elim p [ running ↦ rest | finished ↦ (finished, s') | crashed ↦ (crashed, s') ]

  -- `run`
  unfoldable pub run : List (Round S) → S → Progress × S
  run rounds s = run_rounds rounds (scan_backlog s)

  abbrev pub run_if_started :
      List (Round S)
      → Call (Result ListenerError (Unit {0})) × S
      → Call (Result ListenerError (Unit {0})) × (Progress × S)
  run_if_started rounds (panicked, s) = (panicked, (crashed, s))
  run_if_started rounds (returned (err e), s) = (returned (err e), (finished, s))
  run_if_started rounds (returned (ok _), s) = (returned (ok tt), run rounds (signals.begin s))

  -- `Start`, with the goroutine that it leaves running.
  unfoldable pub start :
      List (Round S) → S → Call (Result ListenerError (Unit {0})) × (Progress × S)
  start rounds s = run_if_started rounds (listener.start s)

  -- `Stop` up to its `wg.Wait`; `stopOnce` makes a second call do nothing.
  unfoldable pub stop : S → S
  stop s =
      if signals.stopped s
      then s
      else signals.close_stop (if signals.started s then signals.cancel s else s)
