-- ===== src/Client/Published.antt =====
-- The client of cmd/client/main.go on the server: internal/handler, internal/repository and the
-- outbox listener on the other side of its connection.
use temporal_durable_event_p.Base.{
  ℕ, String, true, Option, none, some, List, [], ◌∷◌, ◌≡◌, refl, arith, Bool-cases, Option-cases,
  inl, inr, ◌==◌, sym, ◌∙◌, ◌⊎◌, false, map,
}
use mathlib.Core.Path.{subst}
use temporal_durable_event_p.Base.Exec.{ok, Result}
use temporal_durable_event_p.Handler.Events
use temporal_durable_event_p.Handler.Rpc.{Codec}
use temporal_durable_event_p.Handler.Converter.{event_to_proto, null_status_to_proto}
use temporal_durable_event_p.Pipeline.Delivered.{IsDelivered, RowsDelivered, is_published}
use temporal_durable_event_p.Proto
use temporal_durable_event_p.Proto.{EventStatus}
use temporal_durable_event_p.Repository.Db.{EventRow, StatusEnum, find_row, scan_uuid}
use temporal_durable_event_p.Repository.Events as EventTable
use temporal_durable_event_p.Repository.Events.{scan_event, scan_status}
use temporal_durable_event_p.Repository.Store
use temporal_durable_event_p.Server.{event_store}
use temporal_durable_event_p.Server.{serve, serve_all, Request}
use temporal_durable_event_p.Server.Keeps.{completes}
use temporal_durable_event_p.Server.Outbox.{serve-IsDelivered}
use temporal_durable_event_p.Server.Interleaving.{
  Traffic, TrafficLeavesCompletion, NoneCompletes, round_of, run_rounds-IsDelivered,
}
use temporal_durable_event_p.Poller.Outbox.{run_rounds, Payload}
use temporal_durable_event_p.Poller.System.{new_outbox_listener}
use temporal_durable_event_p.Base.Int.{ℤ}
use temporal_durable_event_p.World.{World, Network}
use temporal_durable_event_p.Client.{Connection, Console, code}
use temporal_durable_event_p.Client.Events.{create_event}
use temporal_durable_event_p.Client.Success.{IsKept, create_event-SeenCompleted}

module _ {Struct : Type 0} (codec : Codec Struct) (network : Network) where
  RowsDelivered-find :
      (k : ℕ) (row : EventRow) (log : List _) (rows : List EventRow)
      → RowsDelivered codec log rows
      → find_row (λ (r : EventRow). r.id) (scan_uuid k) rows ≡ some row
      → row.status ≡ some StatusEnum.completed
      → is_published codec k log ≡ true
  RowsDelivered-find k row log [] h e done = absurd cc
  RowsDelivered-find k row log (r ∷ rows) h e done = elim (Bool-cases (r.id == k)) [
    | inl same ↦
        let is : r ≡ row = ground arith in
        let id : r.id ≡ k = ground arith in
        subst (λ n. is_published codec n log ≡ true) id (h.0 (rw is done))
    | inr other ↦ RowsDelivered-find k row log rows h.1 (ground (arith, other)) done
  ]

  completed-status :
      (s : Option StatusEnum)
      → null_status_to_proto codec (scan_status s) ≡ EventStatus.completed
      → s ≡ some StatusEnum.completed
  unfolding null_status_to_proto
  completed-status none e = absurd cc
  completed-status (some StatusEnum.pending) e = absurd cc
  completed-status (some StatusEnum.processing) e = absurd cc
  completed-status (some StatusEnum.completed) e = refl
  completed-status (some StatusEnum.failed) e = absurd cc

  converted-status :
      (row : EventRow) (ev : Proto.Event Struct)
      → event_to_proto codec (scan_event row) ≡ ok ev
      → ev.status_v2 ≡ null_status_to_proto codec (scan_status row.status)
  unfolding event_to_proto scan_event
  converted-status row ev e = ground arith

  -- What `GetEvent` returns as completed is in the log of the broker, under its key.
  get_event-is_published :
      (id : String) (ev : Proto.Event Struct) (w w' : World)
      → IsDelivered codec w
      → Events.get_event codec (event_store network) id w ≡ (ok ev, w')
      → ev.status_v2 ≡ EventStatus.completed
      → (k : ℕ) × (codec.uuid_parse id ≡ some k) × (is_published codec k w'.log ≡ true)
  unfolding Events.get_event Store.get_event_by_id EventTable.get_event_by_id
  get_event-is_published id ev w w' h e done = elim (Option-cases (codec.uuid_parse id)) [
    | inl bad ↦ absurd (ground arith)
    | inr (k, parsed) ↦
        elim (Option-cases (find_row (λ (r : EventRow). r.id) (scan_uuid k) w.db.events)) [
          | inl gone ↦ absurd (ground arith)
          | inr (row, found) ↦
              let good : event_to_proto codec (scan_event row) ≡ ok ev = ground arith in
              let status : row.status ≡ some StatusEnum.completed =
                completed-status row.status (sym (converted-status row ev good) ∙ done) in
              let same : w.log ≡ w'.log = ground arith in
              (
                k,
                parsed,
                subst (λ log. is_published codec k log ≡ true) same
                    (RowsDelivered-find k row w.log w.db.events h found status),
              )
        ]
  ]

  module _ (hash : String → World → Result (Unit {0}) String)
      (unmarshal_payload : String → Option Payload) (prefix : String) (limit : ℤ) where
    -- The connection leads to the server. A call is lost on its way, or the server's handler serves
    -- it; an event that `GetEvent` hands to the client is the server's answer. While the client
    -- sleeps other requests are served, and the loop of the outbox listener, which is behind its first
    -- scan, goes on by some rounds; no request marks an event completed. A loop that has ended or that
    -- goes on waiting makes no round.
    pub record IsServed (conn : Connection Struct World) : Type 0 where
      pub create :
          (req : Proto.CreateEventRequest Struct) (w : World)
          → ((conn.create_event req w).1 ≡ w)
            ⊎ ((conn.create_event req w).1
                ≡ (serve network codec hash (Request.create_event req) w).1)
      pub get :
          (id : String) (w : World)
          → ((conn.get_event id w).1 ≡ w)
            ⊎ ((conn.get_event id w).1 ≡ (serve network codec hash (Request.get_event id) w).1)
      pub answer :
          (id : String) (ev : Proto.Event Struct) (w w' : World)
          → conn.get_event id w ≡ (ok (some ev), w')
          → Events.get_event codec (event_store network) id w ≡ (ok ev, w')
      pub pause :
          (ms : ℕ) (w : World)
          → (rs : List (Request Struct)) × NoneCompletes rs
            × (ts : List (Traffic Struct)) × TrafficLeavesCompletion ts
            × (conn.sleep ms w
                ≡ (run_rounds
                    (new_outbox_listener network codec unmarshal_payload prefix limit)
                    (map (round_of network codec hash) ts)
                    (serve_all network codec hash rs w)).1)

    served-IsDelivered :
        (req : Request Struct) (w w' : World)
        → completes req ≡ false
        → (w' ≡ w) ⊎ (w' ≡ (serve network codec hash req w).1)
        → IsDelivered codec w
        → IsDelivered codec w'
    served-IsDelivered req w w' n (inl lost) h = rw lost h
    served-IsDelivered req w w' n (inr done) h =
        rw done (serve-IsDelivered codec network hash req w n h)

    IsServed-IsKept :
        (conn : Connection Struct World) → IsServed conn → IsKept conn (IsDelivered codec)
    IsServed-IsKept conn s = record {
      in_create = λ req w h.
          served-IsDelivered (Request.create_event req) w (conn.create_event req w).1 refl
            (s.create req w) h;
      in_call = λ id w h.
          served-IsDelivered (Request.get_event id) w (conn.get_event id w).1 refl (s.get id w) h;
      in_sleep = λ ms w h.
          let (rs, served, ts, n, e) = s.pause ms w in
          rw e (
            run_rounds-IsDelivered network codec hash unmarshal_payload prefix limit rs ts w served
              n h);
    }

    -- If the calls of the client and of others are served while the loop of the outbox listener goes on
    -- behind its first scan, every completed event has been published at the start and no request of
    -- others marks an event completed, then where the client ends with code 0, from the creation of
    -- its event on, the broker's log holds a record with the key of the event that `CreateEvent`
    -- returned to it, however the database, the broker and the connections answer.
    pub client-is_published :
        (conn : Connection Struct World) (fuel : ℕ) (payload : Struct) (c c' : Console World)
        → IsServed conn
        → IsDelivered codec c.server
        → create_event conn fuel payload c ≡ some (code 0, c')
        → let req : Proto.CreateEventRequest Struct = record {
          event_type = "user.signup";
          payload = some payload;
        } in
          (ev : Proto.Event Struct) × ((conn.create_event req c.server).0 ≡ ok (some ev))
          × ((k : ℕ) × (codec.uuid_parse ev.id ≡ some k)
              × (is_published codec k c'.server.log ≡ true))
    client-is_published conn fuel payload c c' served h e =
        let (ev, created, (s, seen, inv, got, done)) =
          create_event-SeenCompleted conn (IsDelivered codec) fuel payload c c'
            (IsServed-IsKept conn served) h e in
        (
          ev,
          created,
          get_event-is_published ev.id seen s c'.server inv
              (served.answer ev.id seen s c'.server got) done,
        )
