-- ===== src/Repository/Store/EventsKept.antt =====
-- Which methods of `Store` (internal/repository/store.go) leave the table `events` and what was
-- notified as they are.
use temporal_durable_event_p.Base.{ℕ, String, ◌≡◌, arith}
use temporal_durable_event_p.Base.Int.{ℤ}
use temporal_durable_event_p.Pgtype.{Text, Int4}
use temporal_durable_event_p.Repository.Db.{Engine, Db}
use temporal_durable_event_p.Repository.Store
use temporal_durable_event_p.Repository.Users
use temporal_durable_event_p.Repository.Products
use temporal_durable_event_p.Repository.Orders
use temporal_durable_event_p.Repository.OrderItems
use temporal_durable_event_p.Repository.Events

-- The events and notifications of two databases are the same.
abbrev pub SameEvents : Db → Db → Type 0
SameEvents db' db = (db'.events ≡ db.events) × (db'.notifications ≡ db.notifications)

module _ (engine : Engine) where
  pub create_user-SameEvents :
      (a b c : String) (db : Db) → SameEvents (Store.create_user engine a b c db).1 db
  unfolding Store.create_user Users.create_user
  create_user-SameEvents a b c db = ground arith

  pub get_user_by_id-SameEvents :
      (id : ℕ) (db : Db) → SameEvents (Store.get_user_by_id engine id db).1 db
  unfolding Store.get_user_by_id Users.get_user_by_id
  get_user_by_id-SameEvents id db = ground arith

  pub get_user_by_email-SameEvents :
      (email : String) (db : Db) → SameEvents (Store.get_user_by_email engine email db).1 db
  unfolding Store.get_user_by_email Users.get_user_by_email
  get_user_by_email-SameEvents email db = ground arith

  pub list_users-SameEvents : (db : Db) → SameEvents (Store.list_users engine db).1 db
  unfolding Store.list_users Users.list_users
  list_users-SameEvents db = ground arith

  pub update_user-SameEvents :
      (id : ℕ) (a b : String) (db : Db) → SameEvents (Store.update_user engine id a b db).1 db
  unfolding Store.update_user Users.update_user
  update_user-SameEvents id a b db = ground arith

  pub delete_user-SameEvents : (id : ℕ) (db : Db) → SameEvents (Store.delete_user engine id db).1 db
  unfolding Store.delete_user Users.delete_user
  delete_user-SameEvents id db = ground arith

  pub create_product-SameEvents :
      (name : String) (d : Text) (price : String) (q : Int4) (db : Db)
      → SameEvents (Store.create_product engine name d price q db).1 db
  unfolding Store.create_product Products.create_product
  create_product-SameEvents name d price q db = ground arith

  pub get_product_by_id-SameEvents :
      (id : ℕ) (db : Db) → SameEvents (Store.get_product_by_id engine id db).1 db
  unfolding Store.get_product_by_id Products.get_product_by_id
  get_product_by_id-SameEvents id db = ground arith

  pub list_products-SameEvents : (db : Db) → SameEvents (Store.list_products engine db).1 db
  unfolding Store.list_products Products.list_products
  list_products-SameEvents db = ground arith

  pub update_product-SameEvents :
      (id : ℕ) (name : String) (d : Text) (price : String) (q : Int4) (db : Db)
      → SameEvents (Store.update_product engine id name d price q db).1 db
  unfolding Store.update_product Products.update_product
  update_product-SameEvents id name d price q db = ground arith

  pub delete_product-SameEvents :
      (id : ℕ) (db : Db) → SameEvents (Store.delete_product engine id db).1 db
  unfolding Store.delete_product Products.delete_product
  delete_product-SameEvents id db = ground arith

  pub create_order-SameEvents :
      (user_id : ℕ) (total : String) (db : Db)
      → SameEvents (Store.create_order engine user_id total db).1 db
  unfolding Store.create_order Orders.create_order
  create_order-SameEvents user_id total db = ground arith

  pub get_order_by_id-SameEvents :
      (id : ℕ) (db : Db) → SameEvents (Store.get_order_by_id engine id db).1 db
  unfolding Store.get_order_by_id Orders.get_order_by_id
  get_order_by_id-SameEvents id db = ground arith

  pub list_orders_by_user-SameEvents :
      (user_id : ℕ) (db : Db) → SameEvents (Store.list_orders_by_user engine user_id db).1 db
  unfolding Store.list_orders_by_user Orders.list_orders_by_user
  list_orders_by_user-SameEvents user_id db = ground arith

  pub update_order_status-SameEvents :
      (id : ℕ) (s : Text) (db : Db) → SameEvents (Store.update_order_status engine id s db).1 db
  unfolding Store.update_order_status Orders.update_order_status
  update_order_status-SameEvents id s db = ground arith

  pub delete_order-SameEvents :
      (id : ℕ) (db : Db) → SameEvents (Store.delete_order engine id db).1 db
  unfolding Store.delete_order Orders.delete_order
  delete_order-SameEvents id db = ground arith

  pub create_order_item-SameEvents :
      (order_id product_id : ℕ) (q : ℤ) (price : String) (db : Db)
      → SameEvents (Store.create_order_item engine order_id product_id q price db).1 db
  unfolding Store.create_order_item OrderItems.create_order_item
  create_order_item-SameEvents order_id product_id q price db = ground arith

  pub get_order_items_by_order_id-SameEvents :
      (order_id : ℕ) (db : Db)
      → SameEvents (Store.get_order_items_by_order_id engine order_id db).1 db
  unfolding Store.get_order_items_by_order_id OrderItems.get_order_items_by_order_id
  get_order_items_by_order_id-SameEvents order_id db = ground arith

  pub update_order_item_quantity-SameEvents :
      (id : ℕ) (q : ℤ) (db : Db) → SameEvents (Store.update_order_item_quantity engine id q db).1 db
  unfolding Store.update_order_item_quantity OrderItems.update_order_item_quantity
  update_order_item_quantity-SameEvents id q db = ground arith

  pub delete_order_item-SameEvents :
      (id : ℕ) (db : Db) → SameEvents (Store.delete_order_item engine id db).1 db
  unfolding Store.delete_order_item OrderItems.delete_order_item
  delete_order_item-SameEvents id db = ground arith

  pub get_event_by_id-SameEvents :
      (id : ℕ) (db : Db) → SameEvents (Store.get_event_by_id engine id db).1 db
  unfolding Store.get_event_by_id Events.get_event_by_id
  get_event_by_id-SameEvents id db = ground arith

  pub poll_pending_events-SameEvents :
      (limit : ℤ) (db : Db) → SameEvents (Store.poll_pending_events engine limit db).1 db
  unfolding Store.poll_pending_events Events.poll_pending_events
  poll_pending_events-SameEvents limit db = ground arith

  pub list_events-SameEvents :
      (limit offset : ℤ) (db : Db) → SameEvents (Store.list_events engine limit offset db).1 db
  unfolding Store.list_events Events.list_events
  list_events-SameEvents limit offset db = ground arith
