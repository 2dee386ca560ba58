-- ===== src/Server/Delivered.antt =====
-- What the requests to the services (internal/handler over internal/repository) do to the outbox.
use temporal_durable_event_p.Handler.Events
use temporal_durable_event_p.Handler.Users
use temporal_durable_event_p.Handler.Products
use temporal_durable_event_p.Handler.Orders
use temporal_durable_event_p.Repository.Store.EventsKept
use temporal_durable_event_p.Repository.Store.EventsKept.{SameEvents}
use temporal_durable_event_p.Proto
use temporal_durable_event_p.Base.{String, arith, ◌≡◌}
use temporal_durable_event_p.Base.Int.{ℤ}
use temporal_durable_event_p.Base.Exec.{Result}
use temporal_durable_event_p.World.{World, Network}
use temporal_durable_event_p.Handler.Rpc.{Codec}
use temporal_durable_event_p.Server.{serve, Request}

module _ {Struct : Type 0} (network : Network) (codec : Codec Struct)
    (hash : String → World → Result (Unit {0}) String) where
  open network use {engine}

  -- The broker's log, the events and what was notified are the same in two worlds.
  abbrev pub SameOutbox : World → World → Type 0
  SameOutbox w' w = (w'.log ≡ w.log) × SameEvents w'.db w.db

  pub create_user-SameOutbox :
      (req : Proto.CreateUserRequest) (w : World)
      → SameOutbox (serve network codec hash (Request.create_user req) w).1 w
  unfolding serve Users.create_user
  create_user-SameOutbox req w = grind (arith, EventsKept.create_user-SameEvents)

  pub get_user-SameOutbox :
      (id : String) (w : World) → SameOutbox (serve network codec hash (Request.get_user id) w).1 w
  unfolding serve Users.get_user
  get_user-SameOutbox id w = grind (arith, EventsKept.get_user_by_id-SameEvents)

  pub get_user_by_email-SameOutbox :
      (email : String) (w : World)
      → SameOutbox (serve network codec hash (Request.get_user_by_email email) w).1 w
  unfolding serve Users.get_user_by_email
  get_user_by_email-SameOutbox email w = grind (arith, EventsKept.get_user_by_email-SameEvents)

  pub list_users-SameOutbox :
      (w : World) → SameOutbox (serve network codec hash Request.list_users w).1 w
  unfolding serve Users.list_users
  list_users-SameOutbox w = grind (arith, EventsKept.list_users-SameEvents)

  pub update_user-SameOutbox :
      (req : Proto.UpdateUserRequest) (w : World)
      → SameOutbox (serve network codec hash (Request.update_user req) w).1 w
  unfolding serve Users.update_user
  update_user-SameOutbox req w = grind (arith, EventsKept.update_user-SameEvents)

  pub delete_user-SameOutbox :
      (id : String) (w : World)
      → SameOutbox (serve network codec hash (Request.delete_user id) w).1 w
  unfolding serve Users.delete_user
  delete_user-SameOutbox id w = grind (arith, EventsKept.delete_user-SameEvents)

  pub create_product-SameOutbox :
      (req : Proto.CreateProductRequest) (w : World)
      → SameOutbox (serve network codec hash (Request.create_product req) w).1 w
  unfolding serve Products.create_product
  create_product-SameOutbox req w = grind (arith, EventsKept.create_product-SameEvents)

  pub get_product-SameOutbox :
      (id : String) (w : World)
      → SameOutbox (serve network codec hash (Request.get_product id) w).1 w
  unfolding serve Products.get_product
  get_product-SameOutbox id w = grind (arith, EventsKept.get_product_by_id-SameEvents)

  pub list_products-SameOutbox :
      (w : World) → SameOutbox (serve network codec hash Request.list_products w).1 w
  unfolding serve Products.list_products
  list_products-SameOutbox w = grind (arith, EventsKept.list_products-SameEvents)

  pub update_product-SameOutbox :
      (req : Proto.UpdateProductRequest) (w : World)
      → SameOutbox (serve network codec hash (Request.update_product req) w).1 w
  unfolding serve Products.update_product
  update_product-SameOutbox req w = grind (arith, EventsKept.update_product-SameEvents)

  pub delete_product-SameOutbox :
      (id : String) (w : World)
      → SameOutbox (serve network codec hash (Request.delete_product id) w).1 w
  unfolding serve Products.delete_product
  delete_product-SameOutbox id w = grind (arith, EventsKept.delete_product-SameEvents)

  pub create_order-SameOutbox :
      (req : Proto.CreateOrderRequest) (w : World)
      → SameOutbox (serve network codec hash (Request.create_order req) w).1 w
  unfolding serve Orders.create_order
  create_order-SameOutbox req w = grind (arith, EventsKept.create_order-SameEvents)

  pub get_order-SameOutbox :
      (id : String) (w : World) → SameOutbox (serve network codec hash (Request.get_order id) w).1 w
  unfolding serve Orders.get_order
  get_order-SameOutbox id w = grind (arith, EventsKept.get_order_by_id-SameEvents)

  pub list_orders_by_user-SameOutbox :
      (id : String) (w : World)
      → SameOutbox (serve network codec hash (Request.list_orders_by_user id) w).1 w
  unfolding serve Orders.list_orders_by_user
  list_orders_by_user-SameOutbox id w = grind (arith, EventsKept.list_orders_by_user-SameEvents)

  pub update_order_status-SameOutbox :
      (req : Proto.UpdateOrderStatusRequest) (w : World)
      → SameOutbox (serve network codec hash (Request.update_order_status req) w).1 w
  unfolding serve Orders.update_order_status
  update_order_status-SameOutbox req w = grind (arith, EventsKept.update_order_status-SameEvents)

  pub delete_order-SameOutbox :
      (id : String) (w : World)
      → SameOutbox (serve network codec hash (Request.delete_order id) w).1 w
  unfolding serve Orders.delete_order
  delete_order-SameOutbox id w = grind (arith, EventsKept.delete_order-SameEvents)

  pub create_order_item-SameOutbox :
      (req : Proto.CreateOrderItemRequest) (w : World)
      → SameOutbox (serve network codec hash (Request.create_order_item req) w).1 w
  unfolding serve Orders.create_order_item
  create_order_item-SameOutbox req w = grind (arith, EventsKept.create_order_item-SameEvents)

  pub get_order_items-SameOutbox :
      (id : String) (w : World)
      → SameOutbox (serve network codec hash (Request.get_order_items id) w).1 w
  unfolding serve Orders.get_order_items
  get_order_items-SameOutbox id w = grind (arith, EventsKept.get_order_items_by_order_id-SameEvents)

  pub update_order_item_quantity-SameOutbox :
      (req : Proto.UpdateOrderItemQuantityRequest) (w : World)
      → SameOutbox (serve network codec hash (Request.update_order_item_quantity req) w).1 w
  unfolding serve Orders.update_order_item_quantity
  update_order_item_quantity-SameOutbox req w =
      grind (arith, EventsKept.update_order_item_quantity-SameEvents)

  pub delete_order_item-SameOutbox :
      (id : String) (w : World)
      → SameOutbox (serve network codec hash (Request.delete_order_item id) w).1 w
  unfolding serve Orders.delete_order_item
  delete_order_item-SameOutbox id w = grind (arith, EventsKept.delete_order_item-SameEvents)

  pub get_event-SameOutbox :
      (id : String) (w : World) → SameOutbox (serve network codec hash (Request.get_event id) w).1 w
  unfolding serve Events.get_event
  get_event-SameOutbox id w = grind (arith, EventsKept.get_event_by_id-SameEvents)

  pub poll_pending_events-SameOutbox :
      (limit : ℤ) (w : World)
      → SameOutbox (serve network codec hash (Request.poll_pending_events limit) w).1 w
  unfolding serve Events.poll_pending_events
  poll_pending_events-SameOutbox limit w = grind (arith, EventsKept.poll_pending_events-SameEvents)

  pub list_events-SameOutbox :
      (req : Proto.ListEventsRequest) (w : World)
      → SameOutbox (serve network codec hash (Request.list_events req) w).1 w
  unfolding serve Events.list_events
  list_events-SameOutbox req w = grind (arith, EventsKept.list_events-SameEvents)
