-- ===== src/Client/Polling.antt =====
-- How the client of cmd/client/main.go waits for its event.
use temporal_durable_event_p.Base.{
  ℕ, zero, suc, ◌+◌, ◌*◌, ◌≤◌, String, Bool, true, false, Option, none, some, ◌≡◌, refl, arith,
  Bool-cases, inl, inr,
}
use temporal_durable_event_p.Base.Exec.{Result, ok, err}
use temporal_durable_event_p.Proto
use temporal_durable_event_p.Proto.{EventStatus}
use temporal_durable_event_p.Client.{RpcError, Connection, Console, Exit, say, error, polled}
use temporal_durable_event_p.Client.Events.{
  Ending, is_expired, pause, Poll, check_status, after_get, got, poll, wait_for_event, main,
  create_event, after_create, with_payload,
}
use temporal_durable_event_p.Client.Script.{before_events}

module _ {Struct S : Type 0} (conn : Connection Struct S) where
  -- The clock does not go back in a call, and passes in a sleep.
  pub record IsTimed : Type 0 where
    pub in_call : (id : String) (s : S) → conn.now s ≤ conn.now (conn.get_event id s).1
    pub in_sleep : (ms : ℕ) (s : S) → conn.now s + ms ≤ conn.now (conn.sleep ms s)

  abbrev pub Polled : Type 0
  Polled = Option (Ending Struct × Console S)

  -- What holds of the three ways on from a status holds of `check_status`.
  pub check_status-elim :
      (P : Polled → Type 0) (rest : Poll conn) (ev : Proto.Event Struct) (status : EventStatus)
      (last : Option (Proto.Event Struct)) (c : Console S)
      → (status ≡ EventStatus.completed
          → P (check_status conn rest ev EventStatus.completed last c))
      → P (check_status conn rest ev EventStatus.failed last c)
      → P (rest (some ev) (pause conn c))
      → P (check_status conn rest ev status last c)
  check_status-elim P rest ev EventStatus.completed last c done failed on = done refl
  check_status-elim P rest ev EventStatus.failed last c done failed on = failed
  check_status-elim P rest ev EventStatus.unspecified last c done failed on = on
  check_status-elim P rest ev EventStatus.pending last c done failed on = on
  check_status-elim P rest ev EventStatus.processing last c done failed on = on
  check_status-elim P rest ev (EventStatus.unrecognized n) last c done failed on = on

  abbrev Returns : Option (Ending Struct × Console S) → Type 0
  Returns r = (e : Ending Struct × Console S) × (r ≡ some e)

  abbrev Ends : ℕ → ℕ → Poll conn → Type 0
  Ends n deadline rest =
      (last : Option (Proto.Event Struct)) (c : Console S)
      → deadline ≤ conn.now c.server + 500 * n
      → Returns (rest last c)

  after_get-Returns :
      (n deadline : ℕ) (rest : Poll conn) (last : Option (Proto.Event Struct))
      (r : Result RpcError (Option (Proto.Event Struct))) (c : Console S)
      → IsTimed
      → Ends n deadline rest
      → deadline ≤ conn.now c.server + 500 * suc n
      → Returns (after_get conn rest last r c)
  after_get-Returns n deadline rest last (err e) c t h b =
      h last (pause conn (say (error "GetEvent failed" (some e)) c))
        (ground (arith, t.in_sleep 500 c.server))
  after_get-Returns n deadline rest last (ok none) c t h b = (_, refl)
  after_get-Returns n deadline rest last (ok (some ev)) c t h b =
      let c' : Console S = say (polled ev.status_v2) c in
      check_status-elim Returns rest ev ev.status_v2 last c' (λ _. (_, refl)) (_, refl)
        (h (some ev) (pause conn c') (ground (arith, t.in_sleep 500 c.server)))

  poll-Returns :
      (n deadline : ℕ) (id : String) → IsTimed → Ends n deadline (poll conn (suc n) deadline id)
  unfolding poll
  poll-Returns zero deadline id t last c b = elim (Bool-cases (is_expired conn deadline c)) [
    | inl over ↦ rw over (_, refl)
    | inr early ↦ absurd (ground arith)
  ]
  poll-Returns (suc n) deadline id t last c b = elim (Bool-cases (is_expired conn deadline c)) [
    | inl over ↦ rw over (_, refl)
    | inr early ↦ rw early (
        after_get-Returns n deadline (poll conn (suc n) deadline id) last (got conn id c).0
          (got conn id c).1 t (poll-Returns n deadline id t)
          (ground (arith, t.in_call id c.server)))
  ]

  abbrev Exits : Option (Exit × Console S) → Type 0
  Exits r = (e : Exit × Console S) × (r ≡ some e)

  wait_for_event-Exits :
      (id : String) (c : Console S) → IsTimed → Exits (wait_for_event conn 61 id c)
  unfolding wait_for_event
  wait_for_event-Exits id c t =
      let deadline = conn.now c.server + 30_000 in
      let (e, returns) = poll-Returns 60 deadline id t none c (ground arith) in rw returns (_, refl)

  after_create-Exits :
      (r : Result RpcError (Option (Proto.Event Struct))) (c : Console S)
      → IsTimed
      → Exits (after_create conn 61 r c)
  after_create-Exits (err e) c t = (_, refl)
  after_create-Exits (ok none) c t = (_, refl)
  after_create-Exits (ok (some ev)) c t = wait_for_event-Exits ev.id _ t

  with_payload-Exits :
      (payload : Option Struct) (r : Result Exit (Unit {0})) (c : Console S)
      → IsTimed
      → Exits (with_payload conn 61 payload (r, c))
  unfolding create_event
  with_payload-Exits payload (err exit) c t = (_, refl)
  with_payload-Exits none (ok _) c t = (_, refl)
  with_payload-Exits (some p) (ok _) c t = after_create-Exits _ _ t

  -- If the clock does not go back in a call of `GetEvent` and a sleep takes its time, then the client
  -- comes to its end, with 61 rounds of polling at most.
  pub main_ends :
      (connects : Bool) (payload : Option Struct) (c : Console S)
      → IsTimed
      → (e : Exit) × (c' : Console S) × (main conn 61 connects payload c ≡ some (e, c'))
  unfolding main
  main_ends true payload c t =
      let (e, ends) =
        with_payload-Exits payload (before_events conn c).0 (before_events conn c).1 t in
      (e.0, e.1, ends)
  main_ends false payload c t = (_, _, refl)
