-- ===== src/Client/Success.antt =====
-- What the client of cmd/client/main.go has seen when it exits with code 0.
use temporal_durable_event_p.Base.{
  ℕ, zero, suc, ◌+◌, String, true, Option, none, some, ◌≡◌, refl, arith, Bool-cases, inl, inr, ◌⊎◌,
}
use temporal_durable_event_p.Base.Exec.{Result, ok, err}
use mathlib.Core.Path.{subst}
use temporal_durable_event_p.Proto
use temporal_durable_event_p.Proto.{EventStatus}
use temporal_durable_event_p.Client.{RpcError, Connection, Console, code}
use temporal_durable_event_p.Client.Events.{
  Ending, left_loop, exited, crashed, is_expired, Poll, after_get, got, poll, conclude,
  wait_for_event, create_event, after_create, conclude_some,
}
use temporal_durable_event_p.Client.Polling.{Polled, check_status-elim}

module _ {Struct S : Type 0} (conn : Connection Struct S) (Inv : S → Type 0) where
  -- What holds on the other side stays so while the client waits.
  pub record IsKept : Type 0 where
    pub in_create :
        (req : Proto.CreateEventRequest Struct) (s : S) → Inv s → Inv (conn.create_event req s).1
    pub in_call : (id : String) (s : S) → Inv s → Inv (conn.get_event id s).1
    pub in_sleep : (ms : ℕ) (s : S) → Inv s → Inv (conn.sleep ms s)

  -- A call of `GetEvent` has returned a completed event.
  abbrev pub SeenCompleted : String → S → Type 0
  SeenCompleted id s' =
      (s : S) × (ev : Proto.Event Struct) × Inv s
      × (conn.get_event id s ≡ (ok (some ev), s'))
      × (ev.status_v2 ≡ EventStatus.completed)

  module _ (deadline : ℕ) (id : String) where
    abbrev Good : Polled conn → Type 0
    Good none = Unit
    Good (some (left_loop last, c)) =
        (is_expired conn deadline c ≡ true) ⊎ SeenCompleted id c.server
    Good (some (exited n, c)) = n ≡ 1
    Good (some (crashed, c)) = Unit

    abbrev RestGood : Poll conn → Type 0
    RestGood rest =
        (last : Option (Proto.Event Struct)) (c : Console S) → Inv c.server → Good (rest last c)

    after_get-Good :
        (rest : Poll conn) (last : Option (Proto.Event Struct))
        (r : Result RpcError (Option (Proto.Event Struct))) (s : S) (c : Console S)
        → IsKept
        → RestGood rest
        → Inv s
        → conn.get_event id s ≡ (r, c.server)
        → Good (after_get conn rest last r c)
    after_get-Good rest last (err e) s c kept h inv e' = h last _ (
        kept.in_sleep 500 c.server (
          subst (λ (t : Result RpcError (Option (Proto.Event Struct)) × S). Inv t.1) e'
            (kept.in_call id s inv)))
    after_get-Good rest last (ok none) s c kept h inv e' = tt
    after_get-Good rest last (ok (some ev)) s c kept h inv e' =
        check_status-elim conn Good rest ev ev.status_v2 last _ (λ done. inr (s, ev, inv, e', done))
          refl
          (h (some ev) _ (
            kept.in_sleep 500 c.server (
              subst (λ (t : Result RpcError (Option (Proto.Event Struct)) × S). Inv t.1) e'
                (kept.in_call id s inv))))

    poll-Good : (fuel : ℕ) → IsKept → RestGood (poll conn fuel deadline id)
    unfolding poll
    poll-Good zero kept last c inv = tt
    poll-Good (suc fuel) kept last c inv = elim (Bool-cases (is_expired conn deadline c)) [
      | inl over ↦ rw over (inl over)
      | inr early ↦ rw early (
          after_get-Good (poll conn fuel deadline id) last (got conn id c).0 c.server
            (got conn id c).1 kept (poll-Good fuel kept) inv refl)
    ]

    conclude-SeenCompleted :
        (e : Ending Struct) (c c' : Console S)
        → Good (some (e, c))
        → conclude conn deadline (e, c) ≡ (code 0, c')
        → SeenCompleted id c'.server
    conclude-SeenCompleted (left_loop last) c c' (inl over) e = absurd (ground (arith, over))
    conclude-SeenCompleted (left_loop last) c c' (inr seen) e =
        elim (Bool-cases (is_expired conn deadline c)) [
          | inl over ↦ absurd (ground (arith, over))
          | inr early ↦
              let same : c.server ≡ c'.server = ground (arith, early) in
              subst (SeenCompleted id) same seen
        ]
    conclude-SeenCompleted (exited n) c c' g e = absurd (ground (arith, g))
    conclude-SeenCompleted crashed c c' g e = absurd (ground arith)

    conclude_some-SeenCompleted :
        (p : Polled conn) (c' : Console S)
        → Good p
        → conclude_some conn deadline p ≡ some (code 0, c')
        → SeenCompleted id c'.server
    conclude_some-SeenCompleted none c' g e = absurd cc
    conclude_some-SeenCompleted (some (ending, c)) c' g e =
        conclude-SeenCompleted ending c c' g (ground arith)

  wait_for_event-SeenCompleted :
      (fuel : ℕ) (id : String) (c c' : Console S)
      → IsKept
      → Inv c.server
      → wait_for_event conn fuel id c ≡ some (code 0, c')
      → SeenCompleted id c'.server
  unfolding wait_for_event
  wait_for_event-SeenCompleted fuel id c c' kept inv e =
      let deadline = conn.now c.server + 30_000 in
      conclude_some-SeenCompleted deadline id (poll conn fuel deadline id none c) c'
        (poll-Good deadline id fuel kept none c inv) e

  abbrev SeenCreated : Result RpcError (Option (Proto.Event Struct)) → S → Type 0
  SeenCreated r s' = (ev : Proto.Event Struct) × (r ≡ ok (some ev)) × SeenCompleted ev.id s'

  after_create-SeenCreated :
      (fuel : ℕ) (r : Result RpcError (Option (Proto.Event Struct))) (c c' : Console S)
      → IsKept
      → Inv c.server
      → after_create conn fuel r c ≡ some (code 0, c')
      → SeenCreated r c'.server
  after_create-SeenCreated fuel (err _) c c' kept inv e = absurd (ground arith)
  after_create-SeenCreated fuel (ok none) c c' kept inv e = absurd (ground arith)
  after_create-SeenCreated fuel (ok (some ev)) c c' kept inv e =
      (ev, refl, wait_for_event-SeenCompleted fuel ev.id _ c' kept inv e)

  -- If the client, from the creation of its event on, ends with code 0, then `CreateEvent` returned
  -- an event, and the last call of the program was a `GetEvent` that returned the event with this
  -- id as completed, in a state in which every invariant holds that the calls and the pauses keep.
  pub create_event-SeenCompleted :
      (fuel : ℕ) (payload : Struct) (c c' : Console S)
      → IsKept
      → Inv c.server
      → create_event conn fuel payload c ≡ some (code 0, c')
      → let req : Proto.CreateEventRequest Struct = record {
        event_type = "user.signup";
        payload = some payload;
      } in
        (ev : Proto.Event Struct) × ((conn.create_event req c.server).0 ≡ ok (some ev))
        × SeenCompleted ev.id c'.server
  unfolding create_event
  create_event-SeenCompleted fuel payload c c' kept inv e =
      after_create-SeenCreated fuel _ _ c' kept (kept.in_create _ c.server inv) e
