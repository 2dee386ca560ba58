-- ===== src/Server.antt =====
-- internal/server/server.go: the four services over one store, registered on one gRPC server.
pub mod Delivered
pub mod Keeps
pub mod Outbox
pub mod Refined
pub mod Interleaving
pub mod Concurrent
pub mod StatusRoundTrip
pub mod Consistent
pub mod EndToEnd
pub mod RoundTrip
pub mod Rejected
pub mod Limits
pub mod Lifecycle
pub mod Startup
pub mod Shutdown
use temporal_durable_event_p.Handler.Rpc.{
  Codec, EventStore, UserStore, ProductStore, OrderStore, Status,
}
use temporal_durable_event_p.Handler.Events
use temporal_durable_event_p.Handler.Users
use temporal_durable_event_p.Handler.Products
use temporal_durable_event_p.Handler.Orders
use temporal_durable_event_p.Repository.Store
use temporal_durable_event_p.Poller.System.{on_db}
use temporal_durable_event_p.Proto
use temporal_durable_event_p.Base.{String, List, [], ◌∷◌, Option, none, some}
use temporal_durable_event_p.Base.Int.{ℤ}
use temporal_durable_event_p.Base.Exec.{Exec, Result, ok, err}
use temporal_durable_event_p.World.{World, Network}

module _ (network : Network) where
  open network use {engine}

  abbrev pub event_store : EventStore World
  event_store = record {
    create_event = λ event_type payload. on_db (Store.create_event engine event_type payload);
    get_event_by_id = λ id. on_db (Store.get_event_by_id engine id);
    poll_pending_events = λ limit. on_db (Store.poll_pending_events engine limit);
    update_event_status = λ id status. on_db (Store.update_event_status engine id status);
    list_events = λ limit offset. on_db (Store.list_events engine limit offset);
  }

  abbrev pub user_store : UserStore World
  user_store = record {
    create_user = λ username email password_hash.
        on_db (Store.create_user engine username email password_hash);
    get_user_by_id = λ id. on_db (Store.get_user_by_id engine id);
    get_user_by_email = λ email. on_db (Store.get_user_by_email engine email);
    list_users = on_db (Store.list_users engine);
    update_user = λ id username email. on_db (Store.update_user engine id username email);
    delete_user = λ id. on_db (Store.delete_user engine id);
  }

  abbrev pub product_store : ProductStore World
  product_store = record {
    create_product = λ name description price stock_quantity.
        on_db (Store.create_product engine name description price stock_quantity);
    get_product_by_id = λ id. on_db (Store.get_product_by_id engine id);
    list_products = on_db (Store.list_products engine);
    update_product = λ id name description price stock_quantity.
        on_db (Store.update_product engine id name description price stock_quantity);
    delete_product = λ id. on_db (Store.delete_product engine id);
  }

  abbrev pub order_store : OrderStore World
  order_store = record {
    create_order = λ user_id total_amount. on_db (Store.create_order engine user_id total_amount);
    get_order_by_id = λ id. on_db (Store.get_order_by_id engine id);
    list_orders_by_user = λ user_id. on_db (Store.list_orders_by_user engine user_id);
    update_order_status = λ id status. on_db (Store.update_order_status engine id status);
    delete_order = λ id. on_db (Store.delete_order engine id);
    create_order_item = λ order_id product_id quantity unit_price.
        on_db (Store.create_order_item engine order_id product_id quantity unit_price);
    get_order_items_by_order_id = λ id. on_db (Store.get_order_items_by_order_id engine id);
    update_order_item_quantity =
        λ id quantity. on_db (Store.update_order_item_quantity engine id quantity);
    delete_order_item = λ id. on_db (Store.delete_order_item engine id);
  }

-- A request to one of the registered services.
pub data Request (Struct : Type 0) : Type 0 where
  create_event : Proto.CreateEventRequest Struct → Request Struct
  get_event : String → Request Struct
  poll_pending_events : ℤ → Request Struct
  update_event_status : Proto.UpdateEventStatusRequest → Request Struct
  list_events : Proto.ListEventsRequest → Request Struct
  create_user : Proto.CreateUserRequest → Request Struct
  get_user : String → Request Struct
  get_user_by_email : String → Request Struct
  list_users : Request Struct
  update_user : Proto.UpdateUserRequest → Request Struct
  delete_user : String → Request Struct
  create_product : Proto.CreateProductRequest → Request Struct
  get_product : String → Request Struct
  list_products : Request Struct
  update_product : Proto.UpdateProductRequest → Request Struct
  delete_product : String → Request Struct
  create_order : Proto.CreateOrderRequest → Request Struct
  get_order : String → Request Struct
  list_orders_by_user : String → Request Struct
  update_order_status : Proto.UpdateOrderStatusRequest → Request Struct
  delete_order : String → Request Struct
  create_order_item : Proto.CreateOrderItemRequest → Request Struct
  get_order_items : String → Request Struct
  update_order_item_quantity : Proto.UpdateOrderItemQuantityRequest → Request Struct
  delete_order_item : String → Request Struct

-- `hash` is bcrypt, which may draw its salt from anything and changes nothing.
module _ {Struct : Type 0} (network : Network) (codec : Codec Struct)
    (hash : String → World → Result (Unit {0}) String) where
  abbrev pub hasher : String → Exec World (Unit {0}) String
  hasher password w = (hash password w, w)

  -- The error status of a reply, none where the request succeeded.
  abbrev pub error_of : {A : Type 0} → Result Status A → Option Status
  error_of (ok _) = none
  error_of (err status) = some status

  abbrev pub outcome : {A : Type 0} → Result Status A × World → Option Status × World
  outcome (r, w) = (error_of r, w)

  -- One request, by the handler that is registered for it.
  unfoldable pub serve : Request Struct → World → Option Status × World
  serve (Request.create_event req) w =
      outcome (Events.create_event codec (event_store network) req w)
  serve (Request.get_event id) w = outcome (Events.get_event codec (event_store network) id w)
  serve (Request.poll_pending_events limit) w =
      outcome (Events.poll_pending_events codec (event_store network) limit w)
  serve (Request.update_event_status req) w =
      outcome (Events.update_event_status codec (event_store network) req w)
  serve (Request.list_events req) w = outcome (Events.list_events codec (event_store network) req w)
  serve (Request.create_user req) w =
      outcome (Users.create_user codec hasher (user_store network) req w)
  serve (Request.get_user id) w = outcome (Users.get_user codec hasher (user_store network) id w)
  serve (Request.get_user_by_email email) w =
      outcome (Users.get_user_by_email codec hasher (user_store network) email w)
  serve Request.list_users w = outcome (Users.list_users codec hasher (user_store network) w)
  serve (Request.update_user req) w =
      outcome (Users.update_user codec hasher (user_store network) req w)
  serve (Request.delete_user id) w =
      outcome (Users.delete_user codec hasher (user_store network) id w)
  serve (Request.create_product req) w =
      outcome (Products.create_product codec (product_store network) req w)
  serve (Request.get_product id) w =
      outcome (Products.get_product codec (product_store network) id w)
  serve Request.list_products w = outcome (Products.list_products codec (product_store network) w)
  serve (Request.update_product req) w =
      outcome (Products.update_product codec (product_store network) req w)
  serve (Request.delete_product id) w =
      outcome (Products.delete_product codec (product_store network) id w)
  serve (Request.create_order req) w =
      outcome (Orders.create_order codec (order_store network) req w)
  serve (Request.get_order id) w = outcome (Orders.get_order codec (order_store network) id w)
  serve (Request.list_orders_by_user id) w =
      outcome (Orders.list_orders_by_user codec (order_store network) id w)
  serve (Request.update_order_status req) w =
      outcome (Orders.update_order_status codec (order_store network) req w)
  serve (Request.delete_order id) w = outcome (Orders.delete_order codec (order_store network) id w)
  serve (Request.create_order_item req) w =
      outcome (Orders.create_order_item codec (order_store network) req w)
  serve (Request.get_order_items id) w =
      outcome (Orders.get_order_items codec (order_store network) id w)
  serve (Request.update_order_item_quantity req) w =
      outcome (Orders.update_order_item_quantity codec (order_store network) req w)
  serve (Request.delete_order_item id) w =
      outcome (Orders.delete_order_item codec (order_store network) id w)

  unfoldable pub serve_all : List (Request Struct) → World → World
  unfolding serve
  serve_all [] w = w
  serve_all (r ∷ rs) w = serve_all rs (serve r w).1
