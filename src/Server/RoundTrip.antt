-- ===== src/Server/RoundTrip.antt =====
-- `CreateEvent` and then `GetEvent` (internal/handler/event_handler.go).
use temporal_durable_event_p.Base.{
  ℕ, String, Option, none, some, arith, ◌≡◌, false, refl, inl, inr, Option-cases, sym, Bool-cases,
  is_empty,
}
use temporal_durable_event_p.Base.Exec.{ok, Result-cases}
use temporal_durable_event_p.Handler.Events
use temporal_durable_event_p.Handler.Rpc.{Codec}
use temporal_durable_event_p.Handler.Converter.{event_to_proto}
use temporal_durable_event_p.Proto
use temporal_durable_event_p.Repository.Models
use temporal_durable_event_p.Repository.Store
use temporal_durable_event_p.Repository.Events as EventTable
use temporal_durable_event_p.Repository.Events.{
  scan_event, insert_event_row, CreateEventParams, new_event,
}
use temporal_durable_event_p.Repository.Events.Updates.{create_event-ok, find_row-append}
use temporal_durable_event_p.Repository.Db.{
  EventRow, StatusEnum, tick, has_id, answered, find_row, scan_uuid,
}
use temporal_durable_event_p.Server.{event_store}
use temporal_durable_event_p.World.{World, Network}
use temporal_durable_event_p.Proto.{Event}

module _ {Struct : Type 0} (codec : Codec Struct) (network : Network) where
  open network use {engine}

  -- What a call of `CreateEvent` that succeeds has done.
  pub record IsCreated (ev : Proto.Event Struct) (w' w : World) (row : EventRow) : Type 0 where
    pub new : has_id (λ (e : EventRow). e.id) row.id w.db.events ≡ false
    pub is_pending : row.status ≡ some StatusEnum.pending
    pub is_converted : event_to_proto codec (scan_event row) ≡ ok ev
    pub is_stored : w' ≡ record w { db = insert_event_row engine row (tick w.db) }

  stored-IsCreated :
      (event_type : String) (payload : Option String) (ev : Proto.Event Struct) (e : Models.Event)
      (w : World)
      → (Store.create_event engine event_type payload w.db).0 ≡ ok e
      → event_to_proto codec e ≡ ok ev
      → (row : EventRow) × IsCreated ev
          (record w { db = (Store.create_event engine event_type payload w.db).1 })
          w
          row
  unfolding Store.create_event
  stored-IsCreated event_type payload ev e w h c =
      let (t, p, new, same, stored) =
        create_event-ok engine (record { event_type = event_type; payload = payload }) w.db e h in
      (
        new_event engine w.db.statements t p,
        record {
          new = new;
          is_pending = refl;
          is_converted = rw (sym same) c;
          is_stored = rw stored refl;
        },
      )

  -- The call from the store on, for the payload that was marshalled.
  insert-IsCreated :
      (req : Proto.CreateEventRequest Struct) (payload : Option String) (ev : Proto.Event Struct)
      (w : World)
      → is_empty req.event_type ≡ false
      → Events.marshal_payload codec (event_store network) req.payload w ≡ (ok payload, w)
      → (Events.create_event codec (event_store network) req w).0 ≡ ok ev
      → (row : EventRow) × IsCreated ev
          (Events.create_event codec (event_store network) req w).1
          w
          row
  unfolding Events.create_event
  insert-IsCreated req payload ev w typed marshalled h =
      elim (Result-cases (Store.create_event engine req.event_type payload w.db).0) [
        | inl (e, failed) ↦ absurd (ground arith)
        | inr (e, stored) ↦ elim (Result-cases (event_to_proto codec e)) [
          | inl (text, bad) ↦ absurd (ground arith)
          | inr (ev', good) ↦
              let made : (row : EventRow) × IsCreated ev
                    (record w { db = (Store.create_event engine req.event_type payload w.db).1 }) w
                    row =
                stored-IsCreated req.event_type payload ev e w stored (ground arith) in
              let same : (Events.create_event codec (event_store network) req w).1
                  ≡ record w { db = (Store.create_event engine req.event_type payload w.db).1 } =
                ground arith in
              (made.0, rw same made.1)
        ]
      ]

  pub create_event-IsCreated :
      (req : Proto.CreateEventRequest Struct) (ev : Proto.Event Struct) (w : World)
      → (Events.create_event codec (event_store network) req w).0 ≡ ok ev
      → (row : EventRow) × IsCreated ev
          (Events.create_event codec (event_store network) req w).1
          w
          row
  unfolding Events.create_event
  create_event-IsCreated req ev w h = elim (Bool-cases (is_empty req.event_type)) [
    | inl empty ↦ absurd (ground arith)
    | inr typed ↦ elim (Option-cases req.payload) [
      | inl missing ↦ insert-IsCreated req none ev w typed (ground arith) h
      | inr (p, given) ↦ elim (Option-cases (codec.marshal p)) [
        | inl bad ↦ absurd (ground arith)
        | inr (text, good) ↦ insert-IsCreated req (some text) ev w typed (ground arith) h
      ]
    ]
  ]

  pub converted-id :
      (row : EventRow) (ev : Proto.Event Struct)
      → event_to_proto codec (scan_event row) ≡ ok ev
      → (ev.id ≡ codec.uuid_text row.id) × (ev.event_type ≡ row.event_type)
  unfolding event_to_proto scan_event
  converted-id row ev c = ground arith

  pub get_event-found :
      (text : String) (k : ℕ) (row : EventRow) (ev : Proto.Event Struct) (w : World)
      → codec.uuid_parse text ≡ some k
      → engine.delivery w.db.statements ≡ answered
      → find_row (λ (e : EventRow). e.id) (scan_uuid k) w.db.events ≡ some row
      → event_to_proto codec (scan_event row) ≡ ok ev
      → (Events.get_event codec (event_store network) text w).0 ≡ ok ev
  unfolding Events.get_event Store.get_event_by_id EventTable.get_event_by_id
  get_event-found text k row ev w parsed up found good = ground arith

  -- If `CreateEvent` succeeds and the next query is answered, then `GetEvent` with the id that was
  -- returned gives the same event, for a library that parses the ids that it prints.
  pub create_event-get_event :
      (req : Proto.CreateEventRequest Struct) (ev : Proto.Event Struct) (w : World)
      → ((k : ℕ) → codec.uuid_parse (codec.uuid_text k) ≡ some k)
      → (Events.create_event codec (event_store network) req w).0 ≡ ok ev
      → engine.delivery (Events.create_event codec (event_store network) req w).1.db.statements
        ≡ answered
      → (Events.get_event codec
          (event_store network)
          ev.id
          (Events.create_event codec (event_store network) req w).1).0
        ≡ ok ev
  create_event-get_event req ev w parses h up =
      let (row, made) = create_event-IsCreated req ev w h in
      let same : ev.id ≡ codec.uuid_text row.id = (converted-id row ev made.is_converted).0 in
      get_event-found ev.id row.id row ev (Events.create_event codec (event_store network) req w).1
        (rw same (parses row.id)) up (rw made.is_stored (find_row-append row w.db.events made.new))
        made.is_converted
