-- ===== src/Server/Rejected.antt =====
-- Requests that internal/handler refuses as invalid.
use temporal_durable_event_p.Base.{String, arith, ◌≡◌, ◌≢◌, some, Option, List, [], ◌∷◌}
use temporal_durable_event_p.Base.Exec.{Result, err}
use temporal_durable_event_p.Handler.Events
use temporal_durable_event_p.Handler.Users
use temporal_durable_event_p.Handler.Products
use temporal_durable_event_p.Handler.Orders
use temporal_durable_event_p.Handler.Rpc.{Codec, Status, invalid}
use temporal_durable_event_p.Proto
use temporal_durable_event_p.Base.Int.{ℤ}
use temporal_durable_event_p.Server.{Request, serve, event_store}
use temporal_durable_event_p.Repository.Models
use temporal_durable_event_p.World.{World, Network}

module _ {Struct : Type 0} (network : Network) (codec : Codec Struct)
    (hash : String → World → Result (Unit {0}) String) where
  convert_all-failed :
      (es : List Models.Event) (message : String)
      → Events.convert_all codec (event_store network) es ≢ err (invalid message)
  unfolding Events.convert_all
  convert_all-failed [] message = λ e. cc
  convert_all-failed (e ∷ es) message =
      let rest : Events.convert_all codec (event_store network) es ≢ err (invalid message) =
        convert_all-failed es message in
      ground (arith, rest)

  -- An answer InvalidArgument comes with the world as it was.
  abbrev IsClean : Option Status × World → World → Type 0
  IsClean r w = (message : String) → r.0 ≡ some (invalid message) → r.1 ≡ w

  create_event-IsClean :
      (req : Proto.CreateEventRequest Struct) (w : World)
      → IsClean (serve network codec hash (Request.create_event req) w) w
  unfolding serve Events.create_event
  create_event-IsClean req w message h = ground arith

  get_event-IsClean :
      (id : String) (w : World) → IsClean (serve network codec hash (Request.get_event id) w) w
  unfolding serve Events.get_event
  get_event-IsClean id w message h = ground arith

  poll_pending_events-IsClean :
      (limit : ℤ) (w : World)
      → IsClean (serve network codec hash (Request.poll_pending_events limit) w) w
  unfolding serve Events.poll_pending_events
  poll_pending_events-IsClean limit w message h = grind (arith, convert_all-failed)

  update_event_status-IsClean :
      (req : Proto.UpdateEventStatusRequest) (w : World)
      → IsClean (serve network codec hash (Request.update_event_status req) w) w
  unfolding serve Events.update_event_status
  update_event_status-IsClean req w message h = ground arith

  list_events-IsClean :
      (req : Proto.ListEventsRequest) (w : World)
      → IsClean (serve network codec hash (Request.list_events req) w) w
  unfolding serve Events.list_events
  list_events-IsClean req w message h = grind (arith, convert_all-failed)

  create_user-IsClean :
      (req : Proto.CreateUserRequest) (w : World)
      → IsClean (serve network codec hash (Request.create_user req) w) w
  unfolding serve Users.create_user
  create_user-IsClean req w message h = ground arith

  get_user-IsClean :
      (id : String) (w : World) → IsClean (serve network codec hash (Request.get_user id) w) w
  unfolding serve Users.get_user
  get_user-IsClean id w message h = ground arith

  get_user_by_email-IsClean :
      (email : String) (w : World)
      → IsClean (serve network codec hash (Request.get_user_by_email email) w) w
  unfolding serve Users.get_user_by_email
  get_user_by_email-IsClean email w message h = ground arith

  list_users-IsClean : (w : World) → IsClean (serve network codec hash Request.list_users w) w
  unfolding serve Users.list_users
  list_users-IsClean w message h = ground arith

  update_user-IsClean :
      (req : Proto.UpdateUserRequest) (w : World)
      → IsClean (serve network codec hash (Request.update_user req) w) w
  unfolding serve Users.update_user
  update_user-IsClean req w message h = ground arith

  delete_user-IsClean :
      (id : String) (w : World) → IsClean (serve network codec hash (Request.delete_user id) w) w
  unfolding serve Users.delete_user
  delete_user-IsClean id w message h = ground arith

  create_product-IsClean :
      (req : Proto.CreateProductRequest) (w : World)
      → IsClean (serve network codec hash (Request.create_product req) w) w
  unfolding serve Products.create_product
  create_product-IsClean req w message h = ground arith

  get_product-IsClean :
      (id : String) (w : World) → IsClean (serve network codec hash (Request.get_product id) w) w
  unfolding serve Products.get_product
  get_product-IsClean id w message h = ground arith

  list_products-IsClean : (w : World) → IsClean (serve network codec hash Request.list_products w) w
  unfolding serve Products.list_products
  list_products-IsClean w message h = ground arith

  update_product-IsClean :
      (req : Proto.UpdateProductRequest) (w : World)
      → IsClean (serve network codec hash (Request.update_product req) w) w
  unfolding serve Products.update_product
  update_product-IsClean req w message h = ground arith

  delete_product-IsClean :
      (id : String) (w : World) → IsClean (serve network codec hash (Request.delete_product id) w) w
  unfolding serve Products.delete_product
  delete_product-IsClean id w message h = ground arith

  create_order-IsClean :
      (req : Proto.CreateOrderRequest) (w : World)
      → IsClean (serve network codec hash (Request.create_order req) w) w
  unfolding serve Orders.create_order
  create_order-IsClean req w message h = ground arith

  get_order-IsClean :
      (id : String) (w : World) → IsClean (serve network codec hash (Request.get_order id) w) w
  unfolding serve Orders.get_order
  get_order-IsClean id w message h = ground arith

  list_orders_by_user-IsClean :
      (id : String) (w : World)
      → IsClean (serve network codec hash (Request.list_orders_by_user id) w) w
  unfolding serve Orders.list_orders_by_user
  list_orders_by_user-IsClean id w message h = ground arith

  update_order_status-IsClean :
      (req : Proto.UpdateOrderStatusRequest) (w : World)
      → IsClean (serve network codec hash (Request.update_order_status req) w) w
  unfolding serve Orders.update_order_status
  update_order_status-IsClean req w message h = ground arith

  delete_order-IsClean :
      (id : String) (w : World) → IsClean (serve network codec hash (Request.delete_order id) w) w
  unfolding serve Orders.delete_order
  delete_order-IsClean id w message h = ground arith

  create_order_item-IsClean :
      (req : Proto.CreateOrderItemRequest) (w : World)
      → IsClean (serve network codec hash (Request.create_order_item req) w) w
  unfolding serve Orders.create_order_item
  create_order_item-IsClean req w message h = ground arith

  get_order_items-IsClean :
      (id : String) (w : World)
      → IsClean (serve network codec hash (Request.get_order_items id) w) w
  unfolding serve Orders.get_order_items
  get_order_items-IsClean id w message h = ground arith

  update_order_item_quantity-IsClean :
      (req : Proto.UpdateOrderItemQuantityRequest) (w : World)
      → IsClean (serve network codec hash (Request.update_order_item_quantity req) w) w
  unfolding serve Orders.update_order_item_quantity
  update_order_item_quantity-IsClean req w message h = ground arith

  delete_order_item-IsClean :
      (id : String) (w : World)
      → IsClean (serve network codec hash (Request.delete_order_item id) w) w
  unfolding serve Orders.delete_order_item
  delete_order_item-IsClean id w message h = ground arith

  -- A request of any kind that is answered with InvalidArgument has changed nothing and has sent
  -- nothing to the database.
  pub serve-invalid :
      (req : Request Struct) (message : String) (w : World)
      → (serve network codec hash req w).0 ≡ some (invalid message)
      → (serve network codec hash req w).1 ≡ w
  serve-invalid (Request.create_event req) message w h = create_event-IsClean req w message h
  serve-invalid (Request.get_event id) message w h = get_event-IsClean id w message h
  serve-invalid (Request.poll_pending_events limit) message w h =
      poll_pending_events-IsClean limit w message h
  serve-invalid (Request.update_event_status req) message w h =
      update_event_status-IsClean req w message h
  serve-invalid (Request.list_events req) message w h = list_events-IsClean req w message h
  serve-invalid (Request.create_user req) message w h = create_user-IsClean req w message h
  serve-invalid (Request.get_user id) message w h = get_user-IsClean id w message h
  serve-invalid (Request.get_user_by_email email) message w h =
      get_user_by_email-IsClean email w message h
  serve-invalid Request.list_users message w h = list_users-IsClean w message h
  serve-invalid (Request.update_user req) message w h = update_user-IsClean req w message h
  serve-invalid (Request.delete_user id) message w h = delete_user-IsClean id w message h
  serve-invalid (Request.create_product req) message w h = create_product-IsClean req w message h
  serve-invalid (Request.get_product id) message w h = get_product-IsClean id w message h
  serve-invalid Request.list_products message w h = list_products-IsClean w message h
  serve-invalid (Request.update_product req) message w h = update_product-IsClean req w message h
  serve-invalid (Request.delete_product id) message w h = delete_product-IsClean id w message h
  serve-invalid (Request.create_order req) message w h = create_order-IsClean req w message h
  serve-invalid (Request.get_order id) message w h = get_order-IsClean id w message h
  serve-invalid (Request.list_orders_by_user id) message w h =
      list_orders_by_user-IsClean id w message h
  serve-invalid (Request.update_order_status req) message w h =
      update_order_status-IsClean req w message h
  serve-invalid (Request.delete_order id) message w h = delete_order-IsClean id w message h
  serve-invalid (Request.create_order_item req) message w h =
      create_order_item-IsClean req w message h
  serve-invalid (Request.get_order_items id) message w h = get_order_items-IsClean id w message h
  serve-invalid (Request.update_order_item_quantity req) message w h =
      update_order_item_quantity-IsClean req w message h
  serve-invalid (Request.delete_order_item id) message w h =
      delete_order_item-IsClean id w message h
