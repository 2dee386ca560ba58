-- ===== src/Tests/Client.antt =====
-- Instances of the theorems about the client.
use temporal_durable_event_p.Tests.Data.{network, codec, hash, unmarshal_payload, world}
use temporal_durable_event_p.Base.{
  ℕ, ◌+◌, true, Option, some, none, [], ◌≡◌, refl, arith, inr, String, ◌∷◌, map,
}
use temporal_durable_event_p.Base.Int.{pos}
use temporal_durable_event_p.Base.Exec.{Exec, Result, ok, err}
use temporal_durable_event_p.World.{World}
use temporal_durable_event_p.Handler.Events
use temporal_durable_event_p.Handler.Rpc.{Status}
use temporal_durable_event_p.Server.{event_store, serve, serve_all}
use temporal_durable_event_p.Server.Interleaving.{Traffic, round_of}
use temporal_durable_event_p.Poller.PgListener
use temporal_durable_event_p.Pipeline.Delivered.{is_published}
use temporal_durable_event_p.Poller.Outbox.{
  run_rounds, run_round, process_event, handle_notification,
}
use temporal_durable_event_p.Repository.Store
use temporal_durable_event_p.Repository.Events as EventTable
use temporal_durable_event_p.Publisher
use temporal_durable_event_p.Handler.Converter.{event_to_proto}
use temporal_durable_event_p.Poller.System.{new_outbox_listener}
use temporal_durable_event_p.Proto
use temporal_durable_event_p.Client.{Connection, Console, RpcError, no_answer, status, Exit, code}
use temporal_durable_event_p.Client.Script.{before_events}
use temporal_durable_event_p.Client.Events.{main, create_event}
use temporal_durable_event_p.Client.Polling.{main_ends}
use temporal_durable_event_p.Client.Continues.{before_events-ok}
use temporal_durable_event_p.Client.Published.{client-is_published, IsServed}

-- A connection on which nothing answers.
abbrev dead : {S : Type 0} → (S → ℕ) → (ℕ → S → S) → Connection String S
dead now sleep = record {
  create_user = λ req s. (err no_answer, s);
  list_users = λ s. (err no_answer, s);
  get_user = λ id s. (err no_answer, s);
  get_user_by_email = λ email s. (err no_answer, s);
  update_user = λ req s. (err no_answer, s);
  delete_user = λ id s. (err no_answer, s);
  create_product = λ req s. (err no_answer, s);
  list_products = λ s. (err no_answer, s);
  get_product = λ id s. (err no_answer, s);
  update_product = λ req s. (err no_answer, s);
  delete_product = λ id s. (err no_answer, s);
  create_order = λ req s. (err no_answer, s);
  get_order = λ id s. (err no_answer, s);
  list_orders_by_user = λ id s. (err no_answer, s);
  update_order_status = λ req s. (err no_answer, s);
  delete_order = λ id s. (err no_answer, s);
  create_order_item = λ req s. (err no_answer, s);
  get_order_items = λ id s. (err no_answer, s);
  delete_order_item = λ id s. (err no_answer, s);
  create_event = λ req s. (err no_answer, s);
  get_event = λ id s. (err no_answer, s);
  now = now;
  sleep = sleep;
}

-- The event that is created stays pending.
abbrev pending_event : Proto.Event String
pending_event = record {
  id = "|";
  event_type = "user.signup";
  payload = none;
  status = "";
  status_v2 = Proto.EventStatus.pending;
  created_at = none;
  updated_at = none;
  processed_at = none;
}

-- The other side is a clock.
abbrev stuck : Connection String ℕ
stuck = record (dead (λ t. t) (λ ms t. t + ms)) {
  create_event = λ req t. (ok (some pending_event), t);
  get_event = λ id t. (ok (some pending_event), t);
}

abbrev console : Console ℕ
console = record { server = 0; lines = [] }

main_ends_example :
    (e : Exit) × (c' : Console ℕ) × (main stuck 61 true (some "{}") console ≡ some (e, c'))
main_ends_example =
    main_ends stuck true (some "{}") console
      (record { in_call = λ id s. omega arith; in_sleep = λ ms s. omega arith })

before_events-ok_example : (before_events stuck console).0 ≡ ok tt
before_events-ok_example = before_events-ok stuck console (λ req s e. cc)

-- A handler's answer, as it arrives.
abbrev arrived : {A : Type 0} → Result Status A × World → Result RpcError (Option A) × World
arrived (ok a, w) = (ok (some a), w)
arrived (err e, w) = (err (status e), w)

abbrev rpc : {A : Type 0} → Exec World Status A → Exec World RpcError (Option A)
rpc call w = arrived (call w)

arrived-ok :
    {A : Type 0} (t : Result Status A × World) (a : A) (w : World)
    → arrived t ≡ (ok (some a), w)
    → t ≡ (ok a, w)
arrived-ok (ok b, v) a w e = ground arith
arrived-ok (err s, v) a w e = absurd (ground arith)

arrived-world : {A : Type 0} (t : Result Status A × World) → (arrived t).1 ≡ t.1
arrived-world (ok b, v) = refl
arrived-world (err s, v) = refl

abbrev quiet_traffic : Traffic String
quiet_traffic = record { while_waiting = []; while_backing_off = [] }

-- The server, on which the loop of the outbox listener waits, and makes one round in every pause of
-- the client.
abbrev live : Connection String World
live =
    record (dead (λ w. 0)
      (λ ms w.
        (run_rounds (new_outbox_listener network codec unmarshal_payload "events" (pos 100))
          (map (round_of network codec hash) (quiet_traffic ∷ [])) w).1)) {
            create_event = λ req. rpc (Events.create_event codec (event_store network) req);
            get_event = λ id. rpc (Events.get_event codec (event_store network) id);
          }

abbrev client : Console World
client = record { server = record world { db = record (world.db) { events = [] } }; lines = [] }

abbrev ended : Console World
ended = elim (create_event live 3 "{}" client) [ none ↦ client | some (e, c) ↦ c ]

live-IsServed : IsServed codec network hash unmarshal_payload "events" (pos 100) live
unfolding serve serve_all
live-IsServed = record {
  create = λ req w. inr (arrived-world (Events.create_event codec (event_store network) req w));
  get = λ id w. inr (arrived-world (Events.get_event codec (event_store network) id w));
  answer = λ id ev w w' e. arrived-ok (Events.get_event codec (event_store network) id w) ev w' e;
  pause = λ ms w. ([], tt, quiet_traffic ∷ [], (tt, tt, tt), refl);
}

client_run : create_event live 3 "{}" client ≡ some (code 0, ended)
unfolding create_event Events.create_event Store.create_event EventTable.create_event
    EventTable.insert_event event_to_proto Events.get_event Store.get_event_by_id
    EventTable.get_event_by_id run_rounds run_round serve_all PgListener.wait_for_notification
    handle_notification process_event Publisher.publish Store.update_event_status_with_params
    EventTable.update_event_status
client_run = refl

client-is_published_example :
    let req : Proto.CreateEventRequest String = record {
      event_type = "user.signup";
      payload = some "{}";
    } in
    (ev : Proto.Event String) × ((live.create_event req client.server).0 ≡ ok (some ev))
    × ((k : ℕ) × (codec.uuid_parse ev.id ≡ some k) × (is_published codec k ended.server.log ≡ true))
client-is_published_example =
    client-is_published codec network hash unmarshal_payload "events" (pos 100) live 3 "{}" client
      ended live-IsServed tt client_run
