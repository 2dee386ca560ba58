-- ===== src/Repository/Store.antt =====
-- internal/repository/store.go: the methods of `Store`, which the handlers and the poller call.
pub mod EventsKept
pub mod Tables
pub mod Consistent
use temporal_durable_event_p.Base.{ℕ, String, Bool, not, ◌||◌, Option, List, str_eq, true}
use temporal_durable_event_p.Base.Int.{ℤ}
use temporal_durable_event_p.Base.Exec.{Exec, or_raise, ◌>>=◌, ◌>>◌, raise_if}
use temporal_durable_event_p.Pgtype.{Uuid, Text, Int4, Numeric}
use temporal_durable_event_p.Repository.Models.{
  EventStatus, Event, Order, OrderItem, Product, User, event_status_pending,
  event_status_processing, event_status_completed, event_status_failed,
}
use temporal_durable_event_p.Repository.Db.{
  Engine, Db, DbError, invalid_numeric, invalid_id, invalid_status,
}
use temporal_durable_event_p.Repository.Users
use temporal_durable_event_p.Repository.Users.{
  CreateUserRow, GetUserByIdRow, ListUsersRow, UpdateUserRow,
}
use temporal_durable_event_p.Repository.Products
use temporal_durable_event_p.Repository.Orders
use temporal_durable_event_p.Repository.OrderItems
use temporal_durable_event_p.Repository.Events
use temporal_durable_event_p.Repository.Events.{UpdateEventStatusParams}

-- `toPgUUID`
abbrev pub to_pg_uuid : ℕ → Uuid
to_pg_uuid id = record { bytes = id; valid = true }

-- The cases of the `switch` in `Store.UpdateEventStatus`.
abbrev pub is_event_status : EventStatus → Bool
is_event_status s =
    str_eq s event_status_pending
    || str_eq s event_status_processing
    || str_eq s event_status_completed
    || str_eq s event_status_failed

module _ (engine : Engine) where
  -- `toPgNumeric`
  abbrev pub to_pg_numeric : String → Exec Db DbError Numeric
  to_pg_numeric s = or_raise (engine.scan_numeric s) invalid_numeric

  unfoldable pub create_user : String → String → String → Exec Db DbError CreateUserRow
  create_user username email password_hash =
      Users.create_user engine
        (record { username = username; email = email; password_hash = password_hash })

  unfoldable pub get_user_by_id : ℕ → Exec Db DbError GetUserByIdRow
  get_user_by_id id = Users.get_user_by_id engine (to_pg_uuid id)

  unfoldable pub get_user_by_email : String → Exec Db DbError User
  get_user_by_email email = Users.get_user_by_email engine email

  unfoldable pub list_users : Exec Db DbError (List ListUsersRow)
  list_users = Users.list_users engine

  unfoldable pub update_user : ℕ → String → String → Exec Db DbError UpdateUserRow
  update_user id username email =
      Users.update_user engine (record { id = to_pg_uuid id; username = username; email = email })

  unfoldable pub delete_user : ℕ → Exec Db DbError (Unit {0})
  delete_user id = Users.delete_user engine (to_pg_uuid id)

  unfoldable pub create_product : String → Text → String → Int4 → Exec Db DbError Product
  create_product name description price stock_quantity = do
    numeric_price ← to_pg_numeric price
    Products.create_product engine (record {
      name = name;
      description = description;
      price = numeric_price;
      stock_quantity = stock_quantity;
    })

  unfoldable pub get_product_by_id : ℕ → Exec Db DbError Product
  get_product_by_id id = Products.get_product_by_id engine (to_pg_uuid id)

  unfoldable pub list_products : Exec Db DbError (List Product)
  list_products = Products.list_products engine

  unfoldable pub update_product : ℕ → String → Text → String → Int4 → Exec Db DbError Product
  update_product id name description price stock_quantity = do
    numeric_price ← to_pg_numeric price
    Products.update_product engine (record {
      id = to_pg_uuid id;
      name = name;
      description = description;
      price = numeric_price;
      stock_quantity = stock_quantity;
    })

  unfoldable pub delete_product : ℕ → Exec Db DbError (Unit {0})
  delete_product id = Products.delete_product engine (to_pg_uuid id)

  unfoldable pub create_order : ℕ → String → Exec Db DbError Order
  create_order user_id total_amount = do
    numeric_total ← to_pg_numeric total_amount
    Orders.create_order engine
        (record { user_id = to_pg_uuid user_id; total_amount = numeric_total })

  unfoldable pub get_order_by_id : ℕ → Exec Db DbError Order
  get_order_by_id id = Orders.get_order_by_id engine (to_pg_uuid id)

  unfoldable pub list_orders_by_user : ℕ → Exec Db DbError (List Order)
  list_orders_by_user user_id = Orders.list_orders_by_user engine (to_pg_uuid user_id)

  unfoldable pub update_order_status : ℕ → Text → Exec Db DbError Order
  update_order_status id status =
      Orders.update_order_status engine (record { id = to_pg_uuid id; status = status })

  unfoldable pub delete_order : ℕ → Exec Db DbError ℕ
  delete_order id = Orders.delete_order engine (to_pg_uuid id)

  unfoldable pub create_order_item : ℕ → ℕ → ℤ → String → Exec Db DbError OrderItem
  create_order_item order_id product_id quantity unit_price = do
    numeric_price ← to_pg_numeric unit_price
    OrderItems.create_order_item engine (record {
      order_id = to_pg_uuid order_id;
      product_id = to_pg_uuid product_id;
      quantity = quantity;
      unit_price = numeric_price;
    })

  unfoldable pub get_order_items_by_order_id : ℕ → Exec Db DbError (List OrderItem)
  get_order_items_by_order_id order_id =
      OrderItems.get_order_items_by_order_id engine (to_pg_uuid order_id)

  unfoldable pub update_order_item_quantity : ℕ → ℤ → Exec Db DbError OrderItem
  update_order_item_quantity id quantity =
      OrderItems.update_order_item_quantity engine
        (record { id = to_pg_uuid id; quantity = quantity })

  unfoldable pub delete_order_item : ℕ → Exec Db DbError ℕ
  delete_order_item id = OrderItems.delete_order_item engine (to_pg_uuid id)

  unfoldable pub create_event : String → Option String → Exec Db DbError Event
  create_event event_type payload =
      Events.create_event engine (record { event_type = event_type; payload = payload })

  unfoldable pub get_event_by_id : ℕ → Exec Db DbError Event
  get_event_by_id id = Events.get_event_by_id engine (to_pg_uuid id)

  -- `uuid.Parse` is a parameter.
  unfoldable pub get_event_by_id_string : (String → Option ℕ) → String → Exec Db DbError Event
  get_event_by_id_string parse id = do
    uid ← or_raise (parse id) invalid_id
    Events.get_event_by_id engine (to_pg_uuid uid)

  unfoldable pub mark_event_failed : Event → Exec Db DbError Event
  mark_event_failed event = Events.update_event_status engine (record {
    id = event.id;
    status = record { event_status = event_status_failed; valid = true };
  })

  unfoldable pub poll_pending_events : ℤ → Exec Db DbError (List Event)
  poll_pending_events limit = Events.poll_pending_events engine limit

  unfoldable pub update_event_status : ℕ → EventStatus → Exec Db DbError Event
  update_event_status id status = do
    raise_if (not (is_event_status status)) invalid_status
    Events.update_event_status engine
        (record { id = to_pg_uuid id; status = record { event_status = status; valid = true } })

  unfoldable pub update_event_status_with_params : UpdateEventStatusParams → Exec Db DbError Event
  update_event_status_with_params params = Events.update_event_status engine params

  unfoldable pub list_events : ℤ → ℤ → Exec Db DbError (List Event)
  list_events limit offset = Events.list_events engine (record { limit = limit; offset = offset })
