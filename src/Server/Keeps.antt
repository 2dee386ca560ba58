-- ===== src/Server/Keeps.antt =====
-- A property of the world that every request to the services (internal/handler) keeps, from the two
-- requests that write the outbox.
use temporal_durable_event_p.Base.{
  String, arith, Bool, Option, ℕ, inl, true, inr, ◌≢◌, false, ◌≡◌, Option-cases, refl,
}
use temporal_durable_event_p.Base.Exec.{Result}
use temporal_durable_event_p.Handler.Events
use temporal_durable_event_p.Repository.Store
use temporal_durable_event_p.Server
use temporal_durable_event_p.Server.Delivered
use temporal_durable_event_p.Server.Delivered.{SameOutbox}
use temporal_durable_event_p.Poller.System.{on_db}
use temporal_durable_event_p.Proto
use temporal_durable_event_p.World.{World, Network}
use temporal_durable_event_p.Server.{Request, serve}
use temporal_durable_event_p.Handler.Rpc.{Codec}
use temporal_durable_event_p.Repository.Db.{StatusEnum}
use temporal_durable_event_p.Repository.Events.{status_text}
use temporal_durable_event_p.Handler.Converter.{event_status_from_proto}
use temporal_durable_event_p.Proto.{EventStatus}

-- The one request that can mark an event completed without the broker.
abbrev pub completes : {Struct : Type 0} → Request Struct → Bool
completes (Request.update_event_status req) = elim req.status_v2 [
  | Proto.EventStatus.completed ↦ true
  | _ ↦ false
]
completes _ = false

module _ {Struct : Type 0} (codec : Codec Struct) (network : Network)
    (hash : String → World → Result (Unit {0}) String) (P : World → Type 0) where
  open network use {engine}

  -- What the requests do to the outbox keeps `P`: nothing, an insertion by the store, or a change of
  -- status other than a completion.
  pub record OutboxKeeps : Type 0 where
    pub same : (w' w : World) → SameOutbox network codec hash w' w → P w → P w'
    pub insert :
        (event_type : String) (payload : Option String) (w : World)
        → P w
        → P (on_db (Store.create_event engine event_type payload) w).1
    pub set :
        (id : ℕ) (s : StatusEnum) (w : World)
        → s ≢ StatusEnum.completed
        → P w
        → P (on_db (Store.update_event_status engine id (status_text s)) w).1

  create_event-keeps :
      (req : Proto.CreateEventRequest Struct) (w : World)
      → OutboxKeeps
      → P w
      → P (Events.create_event codec (Server.event_store network) req w).1
  unfolding Events.create_event
  create_event-keeps req w k h = grind (arith, k.insert)

  update_to-keeps :
      (id : String) (s : EventStatus) (w : World)
      → s ≢ EventStatus.completed
      → OutboxKeeps
      → P w
      → P
          (Events.update_event_status codec
            (Server.event_store network)
            (record { id = id; status_v2 = s })
            w).1
  unfolding Events.update_event_status event_status_from_proto
  update_to-keeps id EventStatus.completed w n k' h = absurd (n refl)
  update_to-keeps id EventStatus.unspecified w n k' h = ground arith
  update_to-keeps id (EventStatus.unrecognized k) w n k' h = ground arith
  update_to-keeps id EventStatus.pending w n k' h = elim (Option-cases (codec.uuid_parse id)) [
    | inl bad ↦ ground arith
    | inr (k, good) ↦ ground (arith, k'.set k StatusEnum.pending w (λ e. cc) h)
  ]
  update_to-keeps id EventStatus.processing w n k' h = elim (Option-cases (codec.uuid_parse id)) [
    | inl bad ↦ ground arith
    | inr (k, good) ↦ ground (arith, k'.set k StatusEnum.processing w (λ e. cc) h)
  ]
  update_to-keeps id EventStatus.failed w n k' h = elim (Option-cases (codec.uuid_parse id)) [
    | inl bad ↦ ground arith
    | inr (k, good) ↦ ground (arith, k'.set k StatusEnum.failed w (λ e. cc) h)
  ]

  update_event_status-keeps :
      (req : Proto.UpdateEventStatusRequest) (w : World)
      → completes {Struct = Struct} (Request.update_event_status req) ≡ false
      → OutboxKeeps
      → P w
      → P (Events.update_event_status codec (Server.event_store network) req w).1
  update_event_status-keeps req w n k' h =
      update_to-keeps req.id req.status_v2 w (λ e. ground arith) k' h

  -- Every request that does not mark an event completed keeps `P`.
  pub serve-keeps :
      (req : Request Struct) (w : World)
      → OutboxKeeps
      → completes req ≡ false
      → P w
      → P (serve network codec hash req w).1
  unfolding serve
  serve-keeps (Request.create_event req) w k n h = create_event-keeps req w k h
  serve-keeps (Request.update_event_status req) w k n h = update_event_status-keeps req w n k h
  serve-keeps (Request.create_user x) w k n h =
      k.same (serve network codec hash (Request.create_user x) w).1 w
        (Delivered.create_user-SameOutbox network codec hash x w) h
  serve-keeps (Request.get_user x) w k n h =
      k.same (serve network codec hash (Request.get_user x) w).1 w
        (Delivered.get_user-SameOutbox network codec hash x w) h
  serve-keeps (Request.get_user_by_email x) w k n h =
      k.same (serve network codec hash (Request.get_user_by_email x) w).1 w
        (Delivered.get_user_by_email-SameOutbox network codec hash x w) h
  serve-keeps Request.list_users w k n h =
      k.same (serve network codec hash Request.list_users w).1 w
        (Delivered.list_users-SameOutbox network codec hash w) h
  serve-keeps (Request.update_user x) w k n h =
      k.same (serve network codec hash (Request.update_user x) w).1 w
        (Delivered.update_user-SameOutbox network codec hash x w) h
  serve-keeps (Request.delete_user x) w k n h =
      k.same (serve network codec hash (Request.delete_user x) w).1 w
        (Delivered.delete_user-SameOutbox network codec hash x w) h
  serve-keeps (Request.create_product x) w k n h =
      k.same (serve network codec hash (Request.create_product x) w).1 w
        (Delivered.create_product-SameOutbox network codec hash x w) h
  serve-keeps (Request.get_product x) w k n h =
      k.same (serve network codec hash (Request.get_product x) w).1 w
        (Delivered.get_product-SameOutbox network codec hash x w) h
  serve-keeps Request.list_products w k n h =
      k.same (serve network codec hash Request.list_products w).1 w
        (Delivered.list_products-SameOutbox network codec hash w) h
  serve-keeps (Request.update_product x) w k n h =
      k.same (serve network codec hash (Request.update_product x) w).1 w
        (Delivered.update_product-SameOutbox network codec hash x w) h
  serve-keeps (Request.delete_product x) w k n h =
      k.same (serve network codec hash (Request.delete_product x) w).1 w
        (Delivered.delete_product-SameOutbox network codec hash x w) h
  serve-keeps (Request.create_order x) w k n h =
      k.same (serve network codec hash (Request.create_order x) w).1 w
        (Delivered.create_order-SameOutbox network codec hash x w) h
  serve-keeps (Request.get_order x) w k n h =
      k.same (serve network codec hash (Request.get_order x) w).1 w
        (Delivered.get_order-SameOutbox network codec hash x w) h
  serve-keeps (Request.list_orders_by_user x) w k n h =
      k.same (serve network codec hash (Request.list_orders_by_user x) w).1 w
        (Delivered.list_orders_by_user-SameOutbox network codec hash x w) h
  serve-keeps (Request.update_order_status x) w k n h =
      k.same (serve network codec hash (Request.update_order_status x) w).1 w
        (Delivered.update_order_status-SameOutbox network codec hash x w) h
  serve-keeps (Request.delete_order x) w k n h =
      k.same (serve network codec hash (Request.delete_order x) w).1 w
        (Delivered.delete_order-SameOutbox network codec hash x w) h
  serve-keeps (Request.create_order_item x) w k n h =
      k.same (serve network codec hash (Request.create_order_item x) w).1 w
        (Delivered.create_order_item-SameOutbox network codec hash x w) h
  serve-keeps (Request.get_order_items x) w k n h =
      k.same (serve network codec hash (Request.get_order_items x) w).1 w
        (Delivered.get_order_items-SameOutbox network codec hash x w) h
  serve-keeps (Request.update_order_item_quantity x) w k n h =
      k.same (serve network codec hash (Request.update_order_item_quantity x) w).1 w
        (Delivered.update_order_item_quantity-SameOutbox network codec hash x w) h
  serve-keeps (Request.delete_order_item x) w k n h =
      k.same (serve network codec hash (Request.delete_order_item x) w).1 w
        (Delivered.delete_order_item-SameOutbox network codec hash x w) h
  serve-keeps (Request.get_event x) w k n h =
      k.same (serve network codec hash (Request.get_event x) w).1 w
        (Delivered.get_event-SameOutbox network codec hash x w) h
  serve-keeps (Request.poll_pending_events x) w k n h =
      k.same (serve network codec hash (Request.poll_pending_events x) w).1 w
        (Delivered.poll_pending_events-SameOutbox network codec hash x w) h
  serve-keeps (Request.list_events x) w k n h =
      k.same (serve network codec hash (Request.list_events x) w).1 w
        (Delivered.list_events-SameOutbox network codec hash x w) h
