-- ===== src/Server/Consistent.antt =====
-- All requests to the services (internal/handler over internal/repository) and the foreign keys.
use temporal_durable_event_p.Base.{String, arith}
use temporal_durable_event_p.Base.Int.{ℤ}
use temporal_durable_event_p.Base.Exec.{Result}
use temporal_durable_event_p.Handler.Events
use temporal_durable_event_p.Handler.Users
use temporal_durable_event_p.Handler.Products
use temporal_durable_event_p.Handler.Orders
use temporal_durable_event_p.Handler.Rpc.{Codec}
use temporal_durable_event_p.Proto
use temporal_durable_event_p.Repository.Db.References.{IsConsistent}
use temporal_durable_event_p.Repository.Store.Consistent
use temporal_durable_event_p.Server.{Request, serve}
use temporal_durable_event_p.World.{World, Network}

module _ {Struct : Type 0} (network : Network) (codec : Codec Struct)
    (hash : String → World → Result (Unit {0}) String) where
  create_event-IsConsistent :
      (req : Proto.CreateEventRequest Struct) (w : World)
      → IsConsistent w.db
      → IsConsistent (serve network codec hash (Request.create_event req) w).1.db
  unfolding serve Events.create_event
  create_event-IsConsistent req w h = grind (arith, Consistent.create_event-IsConsistent)

  get_event-IsConsistent :
      (id : String) (w : World)
      → IsConsistent w.db
      → IsConsistent (serve network codec hash (Request.get_event id) w).1.db
  unfolding serve Events.get_event
  get_event-IsConsistent id w h = grind (arith, Consistent.get_event_by_id-IsConsistent)

  poll_pending_events-IsConsistent :
      (limit : ℤ) (w : World)
      → IsConsistent w.db
      → IsConsistent (serve network codec hash (Request.poll_pending_events limit) w).1.db
  unfolding serve Events.poll_pending_events
  poll_pending_events-IsConsistent limit w h =
      grind (arith, Consistent.poll_pending_events-IsConsistent)

  update_event_status-IsConsistent :
      (req : Proto.UpdateEventStatusRequest) (w : World)
      → IsConsistent w.db
      → IsConsistent (serve network codec hash (Request.update_event_status req) w).1.db
  unfolding serve Events.update_event_status
  update_event_status-IsConsistent req w h =
      grind (arith, Consistent.update_event_status-IsConsistent)

  list_events-IsConsistent :
      (req : Proto.ListEventsRequest) (w : World)
      → IsConsistent w.db
      → IsConsistent (serve network codec hash (Request.list_events req) w).1.db
  unfolding serve Events.list_events
  list_events-IsConsistent req w h = grind (arith, Consistent.list_events-IsConsistent)

  create_user-IsConsistent :
      (req : Proto.CreateUserRequest) (w : World)
      → IsConsistent w.db
      → IsConsistent (serve network codec hash (Request.create_user req) w).1.db
  unfolding serve Users.create_user
  create_user-IsConsistent req w h = grind (arith, Consistent.create_user-IsConsistent)

  get_user-IsConsistent :
      (id : String) (w : World)
      → IsConsistent w.db
      → IsConsistent (serve network codec hash (Request.get_user id) w).1.db
  unfolding serve Users.get_user
  get_user-IsConsistent id w h = grind (arith, Consistent.get_user_by_id-IsConsistent)

  get_user_by_email-IsConsistent :
      (email : String) (w : World)
      → IsConsistent w.db
      → IsConsistent (serve network codec hash (Request.get_user_by_email email) w).1.db
  unfolding serve Users.get_user_by_email
  get_user_by_email-IsConsistent email w h =
      grind (arith, Consistent.get_user_by_email-IsConsistent)

  list_users-IsConsistent :
      (w : World)
      → IsConsistent w.db
      → IsConsistent (serve network codec hash Request.list_users w).1.db
  unfolding serve Users.list_users
  list_users-IsConsistent w h = grind (arith, Consistent.list_users-IsConsistent)

  update_user-IsConsistent :
      (req : Proto.UpdateUserRequest) (w : World)
      → IsConsistent w.db
      → IsConsistent (serve network codec hash (Request.update_user req) w).1.db
  unfolding serve Users.update_user
  update_user-IsConsistent req w h = grind (arith, Consistent.update_user-IsConsistent)

  delete_user-IsConsistent :
      (id : String) (w : World)
      → IsConsistent w.db
      → IsConsistent (serve network codec hash (Request.delete_user id) w).1.db
  unfolding serve Users.delete_user
  delete_user-IsConsistent id w h = grind (arith, Consistent.delete_user-IsConsistent)

  create_product-IsConsistent :
      (req : Proto.CreateProductRequest) (w : World)
      → IsConsistent w.db
      → IsConsistent (serve network codec hash (Request.create_product req) w).1.db
  unfolding serve Products.create_product
  create_product-IsConsistent req w h = grind (arith, Consistent.create_product-IsConsistent)

  get_product-IsConsistent :
      (id : String) (w : World)
      → IsConsistent w.db
      → IsConsistent (serve network codec hash (Request.get_product id) w).1.db
  unfolding serve Products.get_product
  get_product-IsConsistent id w h = grind (arith, Consistent.get_product_by_id-IsConsistent)

  list_products-IsConsistent :
      (w : World)
      → IsConsistent w.db
      → IsConsistent (serve network codec hash Request.list_products w).1.db
  unfolding serve Products.list_products
  list_products-IsConsistent w h = grind (arith, Consistent.list_products-IsConsistent)

  update_product-IsConsistent :
      (req : Proto.UpdateProductRequest) (w : World)
      → IsConsistent w.db
      → IsConsistent (serve network codec hash (Request.update_product req) w).1.db
  unfolding serve Products.update_product
  update_product-IsConsistent req w h = grind (arith, Consistent.update_product-IsConsistent)

  delete_product-IsConsistent :
      (id : String) (w : World)
      → IsConsistent w.db
      → IsConsistent (serve network codec hash (Request.delete_product id) w).1.db
  unfolding serve Products.delete_product
  delete_product-IsConsistent id w h = grind (arith, Consistent.delete_product-IsConsistent)

  create_order-IsConsistent :
      (req : Proto.CreateOrderRequest) (w : World)
      → IsConsistent w.db
      → IsConsistent (serve network codec hash (Request.create_order req) w).1.db
  unfolding serve Orders.create_order
  create_order-IsConsistent req w h = grind (arith, Consistent.create_order-IsConsistent)

  get_order-IsConsistent :
      (id : String) (w : World)
      → IsConsistent w.db
      → IsConsistent (serve network codec hash (Request.get_order id) w).1.db
  unfolding serve Orders.get_order
  get_order-IsConsistent id w h = grind (arith, Consistent.get_order_by_id-IsConsistent)

  list_orders_by_user-IsConsistent :
      (id : String) (w : World)
      → IsConsistent w.db
      → IsConsistent (serve network codec hash (Request.list_orders_by_user id) w).1.db
  unfolding serve Orders.list_orders_by_user
  list_orders_by_user-IsConsistent id w h =
      grind (arith, Consistent.list_orders_by_user-IsConsistent)

  update_order_status-IsConsistent :
      (req : Proto.UpdateOrderStatusRequest) (w : World)
      → IsConsistent w.db
      → IsConsistent (serve network codec hash (Request.update_order_status req) w).1.db
  unfolding serve Orders.update_order_status
  update_order_status-IsConsistent req w h =
      grind (arith, Consistent.update_order_status-IsConsistent)

  delete_order-IsConsistent :
      (id : String) (w : World)
      → IsConsistent w.db
      → IsConsistent (serve network codec hash (Request.delete_order id) w).1.db
  unfolding serve Orders.delete_order
  delete_order-IsConsistent id w h = grind (arith, Consistent.delete_order-IsConsistent)

  create_order_item-IsConsistent :
      (req : Proto.CreateOrderItemRequest) (w : World)
      → IsConsistent w.db
      → IsConsistent (serve network codec hash (Request.create_order_item req) w).1.db
  unfolding serve Orders.create_order_item
  create_order_item-IsConsistent req w h = grind (arith, Consistent.create_order_item-IsConsistent)

  get_order_items-IsConsistent :
      (id : String) (w : World)
      → IsConsistent w.db
      → IsConsistent (serve network codec hash (Request.get_order_items id) w).1.db
  unfolding serve Orders.get_order_items
  get_order_items-IsConsistent id w h =
      grind (arith, Consistent.get_order_items_by_order_id-IsConsistent)

  update_order_item_quantity-IsConsistent :
      (req : Proto.UpdateOrderItemQuantityRequest) (w : World)
      → IsConsistent w.db
      → IsConsistent (serve network codec hash (Request.update_order_item_quantity req) w).1.db
  unfolding serve Orders.update_order_item_quantity
  update_order_item_quantity-IsConsistent req w h =
      grind (arith, Consistent.update_order_item_quantity-IsConsistent)

  delete_order_item-IsConsistent :
      (id : String) (w : World)
      → IsConsistent w.db
      → IsConsistent (serve network codec hash (Request.delete_order_item id) w).1.db
  unfolding serve Orders.delete_order_item
  delete_order_item-IsConsistent id w h = grind (arith, Consistent.delete_order_item-IsConsistent)

  -- A request of any kind keeps the foreign keys: each order has its user, and each order item its
  -- order and its product, if that held before, whatever the database answers.
  pub serve-IsConsistent :
      (req : Request Struct) (w : World)
      → IsConsistent w.db
      → IsConsistent (serve network codec hash req w).1.db
  serve-IsConsistent (Request.create_event req) w h = create_event-IsConsistent req w h
  serve-IsConsistent (Request.get_event id) w h = get_event-IsConsistent id w h
  serve-IsConsistent (Request.poll_pending_events limit) w h =
      poll_pending_events-IsConsistent limit w h
  serve-IsConsistent (Request.update_event_status req) w h =
      update_event_status-IsConsistent req w h
  serve-IsConsistent (Request.list_events req) w h = list_events-IsConsistent req w h
  serve-IsConsistent (Request.create_user req) w h = create_user-IsConsistent req w h
  serve-IsConsistent (Request.get_user id) w h = get_user-IsConsistent id w h
  serve-IsConsistent (Request.get_user_by_email email) w h =
      get_user_by_email-IsConsistent email w h
  serve-IsConsistent Request.list_users w h = list_users-IsConsistent w h
  serve-IsConsistent (Request.update_user req) w h = update_user-IsConsistent req w h
  serve-IsConsistent (Request.delete_user id) w h = delete_user-IsConsistent id w h
  serve-IsConsistent (Request.create_product req) w h = create_product-IsConsistent req w h
  serve-IsConsistent (Request.get_product id) w h = get_product-IsConsistent id w h
  serve-IsConsistent Request.list_products w h = list_products-IsConsistent w h
  serve-IsConsistent (Request.update_product req) w h = update_product-IsConsistent req w h
  serve-IsConsistent (Request.delete_product id) w h = delete_product-IsConsistent id w h
  serve-IsConsistent (Request.create_order req) w h = create_order-IsConsistent req w h
  serve-IsConsistent (Request.get_order id) w h = get_order-IsConsistent id w h
  serve-IsConsistent (Request.list_orders_by_user id) w h = list_orders_by_user-IsConsistent id w h
  serve-IsConsistent (Request.update_order_status req) w h =
      update_order_status-IsConsistent req w h
  serve-IsConsistent (Request.delete_order id) w h = delete_order-IsConsistent id w h
  serve-IsConsistent (Request.create_order_item req) w h = create_order_item-IsConsistent req w h
  serve-IsConsistent (Request.get_order_items id) w h = get_order_items-IsConsistent id w h
  serve-IsConsistent (Request.update_order_item_quantity req) w h =
      update_order_item_quantity-IsConsistent req w h
  serve-IsConsistent (Request.delete_order_item id) w h = delete_order_item-IsConsistent id w h
