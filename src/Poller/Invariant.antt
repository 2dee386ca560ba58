-- ===== src/Poller/Invariant.antt =====
-- An invariant of the outbox listener's loop (internal/poller/outbox.go) from the parts that the
-- loop is built from, whatever store, publisher and listener it runs on.
use temporal_durable_event_p.Base.{
  ℕ, String, List, [], ◌∷◌, none, some, arith, Option, inl, inr, Bool-cases, ◌≡◌,
}
use temporal_durable_event_p.Base.Int.{ℤ}
use temporal_durable_event_p.Base.Exec.{Result, ok, err}
use temporal_durable_event_p.Repository.Db.{DbError}
use temporal_durable_event_p.Repository.Models.{Event}
use temporal_durable_event_p.Poller.Outbox.{
  OutboxListener, Round, process_event, process_events, scan_backlog, process_found,
  fetch_and_process, parse_id, scan_if_reconnected, after_reconnect, after_failure, after_wait,
  ListenerError, handle_notification, reconnect_and_scan, run_round, run_rounds, run, is_done, Call,
  returned, panicked, running,
}

module _ {S Struct : Type 0} (l : OutboxListener S Struct) (P : S → Type 0) where
  open l use {store, listener}

  -- Every call that the loop makes keeps `P`.
  pub record CallsKeep : Type 0 where
    pub poll : (limit : ℤ) (s : S) → P s → P (store.poll_pending_events limit s).1
    pub get : (id : ℕ) (s : S) → P s → P (store.get_event_by_id id s).1
    pub process : (event : Event) (s : S) → P s → P (process_event l event s)
    pub wait : (s : S) → P s → P (listener.wait_for_notification s).1
    pub close : (s : S) → P s → P (listener.close s).1
    pub reconnect : (s : S) → P s → P (listener.reconnect s).1

  -- What the rest of the system does in a round keeps `P`.
  pub record RoundKeeps (round : Round S) : Type 0 where
    pub meanwhile : (s : S) → P s → P (round.meanwhile s)
    pub backoff : (s : S) → P s → P (round.backoff s)

  abbrev pub RoundsKeep : List (Round S) → Type 0
  RoundsKeep [] = Unit
  RoundsKeep (round ∷ rounds) = RoundKeeps round × RoundsKeep rounds

module _ {S Struct : Type 0} {l : OutboxListener S Struct} {P : S → Type 0}
    (k : CallsKeep l P) where
  pub process_events-keeps : (es : List Event) (s : S) → P s → P (process_events l es s)
  unfolding process_events
  process_events-keeps [] s h = h
  process_events-keeps (e ∷ es) s h =
      process_events-keeps es (process_event l e s) (k.process e s h)

  pub scan_backlog-keeps : (s : S) → P s → P (scan_backlog l s)
  unfolding scan_backlog
  scan_backlog-keeps s h = grind (arith, process_events-keeps, k.poll l.poll_limit s h)

  process_found-keeps : (r : Result DbError Event) (s : S) → P s → P (process_found l r s)
  process_found-keeps (ok event) s h = k.process event s h
  process_found-keeps (err _) s h = h

  fetch_and_process-keeps : (id : Option ℕ) (s : S) → P s → P (fetch_and_process l id s)
  fetch_and_process-keeps none s h = h
  fetch_and_process-keeps (some id) s h =
      let (r, s') = l.store.get_event_by_id id s in process_found-keeps r s' (k.get id s h)

  pub handle_notification-keeps : (text : String) (s : S) → P s → P (handle_notification l text s)
  unfolding handle_notification
  handle_notification-keeps text s h =
      fetch_and_process-keeps (parse_id l (l.unmarshal_payload text)) s h

  scan_if_reconnected-keeps :
      (r : Result ListenerError (Unit {0})) (s : S) → P s → P (scan_if_reconnected l (r, s)).1
  scan_if_reconnected-keeps (ok _) s h = scan_backlog-keeps s h
  scan_if_reconnected-keeps (err _) s h = h

  pub reconnect_and_scan-keeps : (s : S) → P s → P (reconnect_and_scan l s).1
  unfolding reconnect_and_scan
  reconnect_and_scan-keeps s h =
      let s' : S = (l.listener.close s).1 in
      let (r, t) = l.listener.reconnect s' in
      scan_if_reconnected-keeps r t (k.reconnect s' (k.close s h))

  module _ (round : Round S) (rk : RoundKeeps l P round) where
    after_reconnect-keeps :
        (r : Result ListenerError (Unit {0})) (s : S) → P s → P (after_reconnect l round (r, s)).1
    after_reconnect-keeps (ok _) s h = h
    after_reconnect-keeps (err _) s h = rk.backoff s h

    after_failure-keeps : (s : S) → P s → P (after_failure l round s).1
    after_failure-keeps s h = elim (Bool-cases (is_done l s)) [
      | inl done ↦ rw done h
      | inr _ ↦
          let (r, t) = reconnect_and_scan l s in
          ground (arith, after_reconnect-keeps r t (reconnect_and_scan-keeps s h))
    ]

    after_wait-keeps :
        (c : Call (Result ListenerError (Option String))) (s : S)
        → P s
        → P (after_wait l round (c, s)).1
    after_wait-keeps panicked s h = h
    after_wait-keeps (returned (ok none)) s h = h
    after_wait-keeps (returned (ok (some text))) s h = handle_notification-keeps text s h
    after_wait-keeps (returned (err _)) s h = after_failure-keeps s h

    pub run_round-keeps : (s : S) → P s → P (run_round l round s).1
    unfolding run_round
    run_round-keeps s h = elim (Bool-cases (is_done l s)) [
      | inl done ↦ rw done (k.close s h)
      | inr going ↦
          let s' : S = round.meanwhile s in
          let (c, t) = l.listener.wait_for_notification s' in
          rw going (after_wait-keeps c t (k.wait s' (rk.meanwhile s h)))
    ]

  pub run_rounds-keeps :
      (rounds : List (Round S)) (s : S) → RoundsKeep l P rounds → P s → P (run_rounds l rounds s).1
  unfolding run_rounds
  run_rounds-keeps [] s rs h = h
  run_rounds-keeps (round ∷ rounds) s rs h =
      let h' : P (run_round l round s).1 = run_round-keeps round rs.0 s h in
      let rest : P (run_rounds l rounds (run_round l round s).1).1 =
        run_rounds-keeps rounds (run_round l round s).1 rs.1 h' in
      ground (arith, h', rest)

  pub run-keeps :
      (rounds : List (Round S)) (s : S) → RoundsKeep l P rounds → P s → P (run l rounds s).1
  unfolding run
  run-keeps rounds s rs h = run_rounds-keeps rounds (scan_backlog l s) rs (scan_backlog-keeps s h)

-- A round after which the loop is running is followed by the other rounds.
pub run_rounds-running :
    {S Struct : Type 0} (l : OutboxListener S Struct) (round : Round S) (rounds : List (Round S))
    (s s' : S)
    → run_round l round s ≡ (running, s')
    → run_rounds l (round ∷ rounds) s ≡ run_rounds l rounds s'
unfolding run_rounds
run_rounds-running l round rounds s s' e = ground arith
