-- ===== src/Server/StatusRoundTrip.antt =====
-- `UpdateEventStatus` and then `GetEvent` (internal/handler/event_handler.go).
use temporal_durable_event_p.Base.{
  ℕ, String, some, arith, ◌≡◌, false, refl, inl, inr, Option-cases, is_empty,
}
use temporal_durable_event_p.Base.Exec.{ok}
use temporal_durable_event_p.Handler.Events
use temporal_durable_event_p.Handler.Events.{is_unspecified}
use temporal_durable_event_p.Handler.Rpc.{Codec}
use temporal_durable_event_p.Handler.Converter.{event_to_proto, event_status_from_proto}
use temporal_durable_event_p.Proto
use temporal_durable_event_p.Repository.Store
use temporal_durable_event_p.Repository.Store.{to_pg_uuid}
use temporal_durable_event_p.Repository.Events as EventTable
use temporal_durable_event_p.Repository.Events.{
  scan_event, set_status, update_status_rows, status_text,
}
use temporal_durable_event_p.Repository.Events.Updates.{
  valid_status, update_event_status-found, update_event_status-missing,
}
use temporal_durable_event_p.Repository.Db.{
  Engine, Db, EventRow, StatusEnum, tick, find_row, scan_uuid, answered,
}
use temporal_durable_event_p.Server.{event_store}
use temporal_durable_event_p.Server.RoundTrip.{get_event-found}
use temporal_durable_event_p.Server.EndToEnd.{find_row-set_status}
use temporal_durable_event_p.World.{World, Network}

store_update :
    (engine : Engine) (k : ℕ) (s : StatusEnum) (db : Db)
    → Store.update_event_status engine k (status_text s) db
      ≡ EventTable.update_event_status engine
          (record { id = to_pg_uuid k; status = valid_status s })
          db
unfolding Store.update_event_status
store_update engine k StatusEnum.pending db = refl
store_update engine k StatusEnum.processing db = refl
store_update engine k StatusEnum.completed db = refl
store_update engine k StatusEnum.failed db = refl

status_text-filled : (s : StatusEnum) → is_empty (status_text s) ≡ false
status_text-filled StatusEnum.pending = refl
status_text-filled StatusEnum.processing = refl
status_text-filled StatusEnum.completed = refl
status_text-filled StatusEnum.failed = refl

module _ {Struct : Type 0} (codec : Codec Struct) (network : Network) where
  open network use {engine}

  abbrev after : Proto.UpdateEventStatusRequest → World → World
  after req w = (Events.update_event_status codec (event_store network) req w).1

  known_status :
      (req : Proto.UpdateEventStatusRequest) (s : StatusEnum) (k : ℕ) (ev : Proto.Event Struct)
      (w : World)
      → codec.uuid_parse req.id ≡ some k
      → is_unspecified req.status_v2 ≡ false
      → event_status_from_proto req.status_v2 ≡ status_text s
      → engine.delivery w.db.statements ≡ answered
      → engine.delivery (after req w).db.statements ≡ answered
      → (Events.update_event_status codec (event_store network) req w).0 ≡ ok ev
      → (Events.get_event codec (event_store network) req.id (after req w)).0 ≡ ok ev
  unfolding Events.update_event_status
  known_status req s k ev w parsed named text up up' h =
      elim (Option-cases (find_row (λ (r : EventRow). r.id) (scan_uuid k) w.db.events)) [
        | inl gone ↦ absurd (
            ground (
              arith,
              status_text-filled s,
              store_update engine k s w.db,
              update_event_status-missing engine (scan_uuid k) s w.db up gone,
            ))
        | inr (row, found) ↦
            let row' : EventRow = set_status engine w.db.statements (some s) row in
            let same : after req w ≡ record w {
              db =
                  update_status_rows engine (scan_uuid k)
                    (set_status engine w.db.statements (some s)) (tick w.db);
            } =
              ground (
                arith,
                status_text-filled s,
                store_update engine k s w.db,
                update_event_status-found engine (scan_uuid k) s w.db up row found,
              ) in
            let good : event_to_proto codec (scan_event row') ≡ ok ev = ground (
              arith,
              status_text-filled s,
              store_update engine k s w.db,
              update_event_status-found engine (scan_uuid k) s w.db up row found,
            ) in
            get_event-found codec network req.id k row' ev (after req w) parsed up'
              (rw same
                (find_row-set_status engine w.db.statements k (some s) row w.db.events found))
              good
      ]

  update_event_status-by_status :
      (id : String) (p : Proto.EventStatus) (k : ℕ) (ev : Proto.Event Struct) (w : World)
      → let req : Proto.UpdateEventStatusRequest = record { id = id; status_v2 = p } in
        codec.uuid_parse id ≡ some k
        → engine.delivery w.db.statements ≡ answered
        → engine.delivery (after req w).db.statements ≡ answered
        → (Events.update_event_status codec (event_store network) req w).0 ≡ ok ev
        → (Events.get_event codec (event_store network) id (after req w)).0 ≡ ok ev
  unfolding Events.update_event_status event_status_from_proto
  update_event_status-by_status id Proto.EventStatus.unspecified k ev w parsed up up' h =
      absurd (ground arith)
  update_event_status-by_status id (Proto.EventStatus.unrecognized n) k ev w parsed up up' h =
      absurd (ground arith)
  update_event_status-by_status id Proto.EventStatus.pending k ev w parsed up up' h =
      known_status (record { id = id; status_v2 = Proto.EventStatus.pending }) StatusEnum.pending k
        ev w parsed refl refl up up' h
  update_event_status-by_status id Proto.EventStatus.processing k ev w parsed up up' h =
      known_status (record { id = id; status_v2 = Proto.EventStatus.processing })
        StatusEnum.processing k ev w parsed refl refl up up' h
  update_event_status-by_status id Proto.EventStatus.completed k ev w parsed up up' h =
      known_status (record { id = id; status_v2 = Proto.EventStatus.completed })
        StatusEnum.completed k ev w parsed refl refl up up' h
  update_event_status-by_status id Proto.EventStatus.failed k ev w parsed up up' h =
      known_status (record { id = id; status_v2 = Proto.EventStatus.failed }) StatusEnum.failed k ev
        w parsed refl refl up up' h

  -- If `UpdateEventStatus` succeeds, and its statement and the next query are answered, then
  -- `GetEvent` with the same id gives the event that was returned.
  pub update_event_status-get_event :
      (req : Proto.UpdateEventStatusRequest) (ev : Proto.Event Struct) (w : World)
      → engine.delivery w.db.statements ≡ answered
      → engine.delivery (after req w).db.statements ≡ answered
      → (Events.update_event_status codec (event_store network) req w).0 ≡ ok ev
      → (Events.get_event codec (event_store network) req.id (after req w)).0 ≡ ok ev
  unfolding Events.update_event_status
  update_event_status-get_event req ev w up up' h = elim (Option-cases (codec.uuid_parse req.id)) [
    | inl bad ↦ absurd (ground arith)
    | inr (k, parsed) ↦ update_event_status-by_status req.id req.status_v2 k ev w parsed up up' h
  ]
