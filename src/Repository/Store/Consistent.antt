-- ===== src/Repository/Store/Consistent.antt =====
-- The methods of `Store` (internal/repository/store.go) and the foreign keys of db/migrations.
use temporal_durable_event_p.Base.{
  ℕ, String, Option, none, some, Option-cases, inl, inr, not, arith, true,
}
use temporal_durable_event_p.Base.Int.{ℤ}
use temporal_durable_event_p.Pgtype.{Text, Int4}
use temporal_durable_event_p.Repository.Models.{EventStatus}
use temporal_durable_event_p.Repository.Db.{
  Engine, Db, OrderRow, OrderItemRow, equals, tick, text_param, int4_param,
}
use temporal_durable_event_p.Repository.Events.Updates.{create_event-cases}
use temporal_durable_event_p.Repository.Db.References.{IsConsistent}
use temporal_durable_event_p.Repository.Store
use temporal_durable_event_p.Repository.Store.Tables
use temporal_durable_event_p.Repository.Users
use temporal_durable_event_p.Repository.Products
use temporal_durable_event_p.Repository.Orders
use temporal_durable_event_p.Repository.OrderItems
use temporal_durable_event_p.Repository.Events

module _ (engine : Engine) where
  pub create_user-IsConsistent :
      (a b c : String) (db : Db)
      → IsConsistent db
      → IsConsistent (Store.create_user engine a b c db).1
  unfolding Store.create_user Users.create_user
  create_user-IsConsistent a b c db h =
      grind (arith, Tables.tick-IsConsistent, Tables.append_user-IsConsistent)

  pub get_user_by_id-IsConsistent :
      (id : ℕ) (db : Db) → IsConsistent db → IsConsistent (Store.get_user_by_id engine id db).1
  unfolding Store.get_user_by_id Users.get_user_by_id
  get_user_by_id-IsConsistent id db h = grind (arith, Tables.tick-IsConsistent)

  pub get_user_by_email-IsConsistent :
      (email : String) (db : Db)
      → IsConsistent db
      → IsConsistent (Store.get_user_by_email engine email db).1
  unfolding Store.get_user_by_email Users.get_user_by_email
  get_user_by_email-IsConsistent email db h = grind (arith, Tables.tick-IsConsistent)

  pub list_users-IsConsistent :
      (db : Db) → IsConsistent db → IsConsistent (Store.list_users engine db).1
  unfolding Store.list_users Users.list_users
  list_users-IsConsistent db h = grind (arith, Tables.tick-IsConsistent)

  pub update_user-IsConsistent :
      (id : ℕ) (a b : String) (db : Db)
      → IsConsistent db
      → IsConsistent (Store.update_user engine id a b db).1
  unfolding Store.update_user Users.update_user
  update_user-IsConsistent id a b db h =
      let k : IsConsistent (tick db) = Tables.tick-IsConsistent db h in
      elim (Option-cases (engine.varchar 50 a)) [
        | inl x_none ↦ ground (arith, k)
        | inr (x, x_some) ↦ elim (Option-cases (engine.varchar 100 b)) [
          | inl y_none ↦ ground (arith, k)
          | inr (y, y_some) ↦ ground (
            arith,
            k,
            Tables.rename_user-IsConsistent engine (Store.to_pg_uuid id) db.statements x y (tick db)
                k,
          )
        ]
      ]

  pub delete_user-IsConsistent :
      (id : ℕ) (db : Db) → IsConsistent db → IsConsistent (Store.delete_user engine id db).1
  unfolding Store.delete_user Users.delete_user
  delete_user-IsConsistent id db h =
      let k : IsConsistent (tick db) = Tables.tick-IsConsistent db h in
      ground (arith, k, Tables.delete_users-IsConsistent (Store.to_pg_uuid id) (tick db) k)

  pub create_product-IsConsistent :
      (name : String) (d : Text) (price : String) (q : Int4) (db : Db)
      → IsConsistent db
      → IsConsistent (Store.create_product engine name d price q db).1
  unfolding Store.create_product Products.create_product
  create_product-IsConsistent name d price q db h =
      grind (arith, Tables.tick-IsConsistent, Tables.append_product-IsConsistent)

  pub get_product_by_id-IsConsistent :
      (id : ℕ) (db : Db) → IsConsistent db → IsConsistent (Store.get_product_by_id engine id db).1
  unfolding Store.get_product_by_id Products.get_product_by_id
  get_product_by_id-IsConsistent id db h = grind (arith, Tables.tick-IsConsistent)

  pub list_products-IsConsistent :
      (db : Db) → IsConsistent db → IsConsistent (Store.list_products engine db).1
  unfolding Store.list_products Products.list_products
  list_products-IsConsistent db h = grind (arith, Tables.tick-IsConsistent)

  pub update_product-IsConsistent :
      (id : ℕ) (name : String) (d : Text) (price : String) (q : Int4) (db : Db)
      → IsConsistent db
      → IsConsistent (Store.update_product engine id name d price q db).1
  unfolding Store.update_product Products.update_product
  update_product-IsConsistent id name d price q db h =
      let k : IsConsistent (tick db) = Tables.tick-IsConsistent db h in
      elim (Option-cases (engine.scan_numeric price)) [
        | inl m_none ↦ ground (arith, k)
        | inr (m, m_some) ↦ elim (Option-cases (engine.varchar 100 name)) [
          | inl x_none ↦ ground (arith, k)
          | inr (x, x_some) ↦ elim (Option-cases (engine.decimal m)) [
            | inl y_none ↦ ground (arith, k)
            | inr (y, y_some) ↦ ground (
              arith,
              k,
              Tables.set_product-IsConsistent engine (Store.to_pg_uuid id) db.statements x
                  (text_param d) y (int4_param q) (tick db) k,
            )
          ]
        ]
      ]

  pub delete_product-IsConsistent :
      (id : ℕ) (db : Db) → IsConsistent db → IsConsistent (Store.delete_product engine id db).1
  unfolding Store.delete_product Products.delete_product
  delete_product-IsConsistent id db h =
      let k : IsConsistent (tick db) = Tables.tick-IsConsistent db h in
      ground (arith, k, Tables.delete_products-IsConsistent (Store.to_pg_uuid id) (tick db) k)

  pub create_order-IsConsistent :
      (user_id : ℕ) (total : String) (db : Db)
      → IsConsistent db
      → IsConsistent (Store.create_order engine user_id total db).1
  unfolding Store.create_order Orders.create_order
  create_order-IsConsistent user_id total db h =
      grind (arith, Tables.tick-IsConsistent, Tables.append_order-IsConsistent)

  pub get_order_by_id-IsConsistent :
      (id : ℕ) (db : Db) → IsConsistent db → IsConsistent (Store.get_order_by_id engine id db).1
  unfolding Store.get_order_by_id Orders.get_order_by_id
  get_order_by_id-IsConsistent id db h = grind (arith, Tables.tick-IsConsistent)

  pub list_orders_by_user-IsConsistent :
      (user_id : ℕ) (db : Db)
      → IsConsistent db
      → IsConsistent (Store.list_orders_by_user engine user_id db).1
  unfolding Store.list_orders_by_user Orders.list_orders_by_user
  list_orders_by_user-IsConsistent user_id db h = grind (arith, Tables.tick-IsConsistent)

  pub update_order_status-IsConsistent :
      (id : ℕ) (s : Text) (db : Db)
      → IsConsistent db
      → IsConsistent (Store.update_order_status engine id s db).1
  unfolding Store.update_order_status Orders.update_order_status
  update_order_status-IsConsistent id s db h =
      let k : IsConsistent (tick db) = Tables.tick-IsConsistent db h in
      elim (Option-cases (text_param s)) [
        | inl null ↦ ground (
          arith,
          k,
          Tables.set_order_status-IsConsistent engine (Store.to_pg_uuid id) none (tick db) k,
        )
        | inr (t, given) ↦ elim (Option-cases (engine.varchar 20 t)) [
          | inl x_none ↦ ground (arith, k)
          | inr (x, x_some) ↦ ground (
            arith,
            k,
            Tables.set_order_status-IsConsistent engine (Store.to_pg_uuid id) (some x) (tick db) k,
          )
        ]
      ]

  pub delete_order-IsConsistent :
      (id : ℕ) (db : Db) → IsConsistent db → IsConsistent (Store.delete_order engine id db).1
  unfolding Store.delete_order Orders.delete_order
  delete_order-IsConsistent id db h =
      let k : IsConsistent (tick db) = Tables.tick-IsConsistent db h in
      ground (
        arith,
        k,
        Tables.delete_orders-IsConsistent (λ (r : OrderRow). equals (Store.to_pg_uuid id) r.id)
            (tick db) k,
      )

  pub create_order_item-IsConsistent :
      (order_id product_id : ℕ) (q : ℤ) (price : String) (db : Db)
      → IsConsistent db
      → IsConsistent (Store.create_order_item engine order_id product_id q price db).1
  unfolding Store.create_order_item OrderItems.create_order_item
  create_order_item-IsConsistent order_id product_id q price db h =
      grind (arith, Tables.tick-IsConsistent, Tables.append_order_item-IsConsistent)

  pub get_order_items_by_order_id-IsConsistent :
      (order_id : ℕ) (db : Db)
      → IsConsistent db
      → IsConsistent (Store.get_order_items_by_order_id engine order_id db).1
  unfolding Store.get_order_items_by_order_id OrderItems.get_order_items_by_order_id
  get_order_items_by_order_id-IsConsistent order_id db h = grind (arith, Tables.tick-IsConsistent)

  pub update_order_item_quantity-IsConsistent :
      (id : ℕ) (q : ℤ) (db : Db)
      → IsConsistent db
      → IsConsistent (Store.update_order_item_quantity engine id q db).1
  unfolding Store.update_order_item_quantity OrderItems.update_order_item_quantity
  update_order_item_quantity-IsConsistent id q db h =
      let k : IsConsistent (tick db) = Tables.tick-IsConsistent db h in
      ground (arith, k, Tables.set_quantity-IsConsistent engine (Store.to_pg_uuid id) q (tick db) k)

  pub delete_order_item-IsConsistent :
      (id : ℕ) (db : Db) → IsConsistent db → IsConsistent (Store.delete_order_item engine id db).1
  unfolding Store.delete_order_item OrderItems.delete_order_item
  delete_order_item-IsConsistent id db h =
      let k : IsConsistent (tick db) = Tables.tick-IsConsistent db h in
      ground (
        arith,
        k,
        Tables.keep_order_items-IsConsistent
            (λ (r : OrderItemRow). not (equals (Store.to_pg_uuid id) r.id)) (tick db) k,
      )

  pub get_event_by_id-IsConsistent :
      (id : ℕ) (db : Db) → IsConsistent db → IsConsistent (Store.get_event_by_id engine id db).1
  unfolding Store.get_event_by_id Events.get_event_by_id
  get_event_by_id-IsConsistent id db h = grind (arith, Tables.tick-IsConsistent)

  pub poll_pending_events-IsConsistent :
      (limit : ℤ) (db : Db)
      → IsConsistent db
      → IsConsistent (Store.poll_pending_events engine limit db).1
  unfolding Store.poll_pending_events Events.poll_pending_events
  poll_pending_events-IsConsistent limit db h = grind (arith, Tables.tick-IsConsistent)

  pub list_events-IsConsistent :
      (limit offset : ℤ) (db : Db)
      → IsConsistent db
      → IsConsistent (Store.list_events engine limit offset db).1
  unfolding Store.list_events Events.list_events
  list_events-IsConsistent limit offset db h = grind (arith, Tables.tick-IsConsistent)

  pub create_event-IsConsistent :
      (event_type : String) (payload : Option String) (db : Db)
      → IsConsistent db
      → IsConsistent (Store.create_event engine event_type payload db).1
  unfolding Store.create_event
  create_event-IsConsistent event_type payload db h =
      let k : IsConsistent (tick db) = Tables.tick-IsConsistent db h in
      elim (create_event-cases engine (record { event_type = event_type; payload = payload }) db) [
        | inl same ↦ rw same k
        | inr (t, p, new, stored) ↦ rw stored (
            Tables.insert_event_row-IsConsistent engine (Events.new_event engine db.statements t p)
              (tick db) k)
      ]

  pub update_event_status-IsConsistent :
      (id : ℕ) (status : EventStatus) (db : Db)
      → IsConsistent db
      → IsConsistent (Store.update_event_status engine id status db).1
  unfolding Store.update_event_status Events.update_event_status
  update_event_status-IsConsistent id status db h =
      let k : IsConsistent (tick db) = Tables.tick-IsConsistent db h in
      elim (Option-cases (Events.status_param (record { event_status = status; valid = true }))) [
        | inl e_none ↦ ground (arith, k)
        | inr (e, e_some) ↦ ground (
          arith,
          k,
          Tables.update_status_rows-IsConsistent engine (Store.to_pg_uuid id)
              (Events.set_status engine db.statements e) (tick db) k,
        )
      ]
