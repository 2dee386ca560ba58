-- ===== src/Poller/System.antt =====
-- The poller as cmd/server/main.go puts it together: the store, the Redpanda publisher and the
-- PostgreSQL listener over one world.
use temporal_durable_event_p.Base.{String, true, Option}
use temporal_durable_event_p.Base.Int.{ℤ}
use temporal_durable_event_p.Base.Exec.{Exec}
use temporal_durable_event_p.Repository.Db.{Db, DbError}
use temporal_durable_event_p.Repository.Store
use temporal_durable_event_p.World.{World, Network}
use temporal_durable_event_p.Handler.Rpc.{Codec}
use temporal_durable_event_p.Publisher
use temporal_durable_event_p.Poller.PgListener
use temporal_durable_event_p.Poller.Outbox.{
  EventStore, NotificationListener, Payload, OutboxListener, Signals, poll_limit_or_default,
}
use temporal_durable_event_p.Poller.Outbox as Outbox

-- A call of the store, on the world that holds its database.
abbrev pub on_db : {A : Type 0} → Exec Db DbError A → Exec World DbError A
on_db call w = let (r, db) = call w.db in (r, record w { db = db })

abbrev pub signals : Signals World
signals = record {
  started = λ w. w.started;
  begin = λ w. record w { started = true };
  cancelled = λ w. w.cancelled;
  stopped = λ w. w.stopped;
  cancel = λ w. record w { cancelled = true };
  close_stop = λ w. record w { stopped = true };
}

module _ (network : Network) where
  abbrev pub event_store : EventStore World
  event_store = record {
    poll_pending_events = λ limit. on_db (Store.poll_pending_events network.engine limit);
    get_event_by_id = λ id. on_db (Store.get_event_by_id network.engine id);
    update_event_status_with_params =
        λ params. on_db (Store.update_event_status_with_params network.engine params);
    mark_event_failed = λ event. on_db (Store.mark_event_failed network.engine event);
  }

  abbrev pub publisher : Outbox.Publisher World
  publisher = record { publish = Publisher.publish network }

  abbrev pub pg_listener : NotificationListener World
  pg_listener = record {
    start = PgListener.start network;
    wait_for_notification = PgListener.wait_for_notification network;
    close = PgListener.close network;
    reconnect = PgListener.reconnect network;
  }

  -- `NewOutboxListener` as `main` calls it.
  abbrev pub new_outbox_listener :
      {Struct : Type 0}
      → Codec Struct
      → (String → Option Payload)
      → String
      → ℤ
      → OutboxListener World Struct
  new_outbox_listener codec unmarshal_payload topic_prefix poll_limit = record {
    store = event_store;
    listener = pg_listener;
    publisher = publisher;
    signals = signals;
    topic_prefix = topic_prefix;
    poll_limit = poll_limit_or_default poll_limit;
    codec = codec;
    unmarshal_payload = unmarshal_payload;
  }
