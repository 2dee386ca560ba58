-- ===== src/Repository/OrderItems.antt =====
-- internal/repository/order_items.sql.go: the statements on the table `order_items`.
use temporal_durable_event_p.Base.{
  ℕ, not, List, [], ◌∷◌, ◌++◌, map, keep, count, ◌&&◌, if◌then◌else◌,
}
use temporal_durable_event_p.Base.Int.{ℤ}
use temporal_durable_event_p.Base.Exec.{Exec, ok, err, or_raise, ◌>>=◌}
use temporal_durable_event_p.Pgtype.{Uuid, Numeric}
use temporal_durable_event_p.Repository.Models.{OrderItem}
use temporal_durable_event_p.Repository.Db.{
  Engine, Db, DbError, no_rows, unique_violation, foreign_key_violation, not_null_violation,
  OrderRow, ProductRow, OrderItemRow, statement, equals, update_rows, find_row, has_id, uuid_param,
  decimal_param, scan_uuid,
}

unfoldable pub scan_order_item : OrderItemRow → OrderItem
scan_order_item r = record {
  id = scan_uuid r.id;
  order_id = scan_uuid r.order_id;
  product_id = scan_uuid r.product_id;
  quantity = r.quantity;
  unit_price = r.unit_price;
}

pub record CreateOrderItemParams : Type 0 where
  pub order_id : Uuid
  pub product_id : Uuid
  pub quantity : ℤ
  pub unit_price : Numeric

pub record UpdateOrderItemQuantityParams : Type 0 where
  pub id : Uuid
  pub quantity : ℤ

module _ (engine : Engine) where
  abbrev pub new_order_item : ℕ → ℕ → ℕ → ℤ → Numeric → OrderItemRow
  new_order_item n order_id product_id quantity unit_price = record {
    id = engine.gen_random_uuid n;
    order_id = order_id;
    product_id = product_id;
    quantity = quantity;
    unit_price = unit_price;
  }

  unfoldable pub insert_order_item : CreateOrderItemParams → ℕ → Exec Db DbError OrderItem
  unfolding scan_order_item
  insert_order_item arg n = do
    order_id ← or_raise (uuid_param arg.order_id) not_null_violation
    product_id ← or_raise (uuid_param arg.product_id) not_null_violation
    unit_price ← decimal_param engine arg.unit_price
    let row = new_order_item n order_id product_id arg.quantity unit_price
    λ db.
        if has_id (λ (r : OrderItemRow). r.id) row.id db.order_items
        then (err unique_violation, db)
        else if has_id (λ (r : OrderRow). r.id) order_id db.orders
            && has_id (λ (r : ProductRow). r.id) product_id db.products
        then (ok (scan_order_item row), record db { order_items = db.order_items ++ row ∷ [] })
        else (err foreign_key_violation, db)

  unfoldable pub create_order_item : CreateOrderItemParams → Exec Db DbError OrderItem
  unfolding statement insert_order_item
  create_order_item arg = statement engine (insert_order_item arg)

  -- The value is the command tag's number of rows.
  unfoldable pub delete_order_item : Uuid → Exec Db DbError ℕ
  unfolding statement
  delete_order_item id = statement engine λ n db. (
    ok (count (λ (r : OrderItemRow). equals id r.id) db.order_items),
    record db { order_items = keep (λ r. not (equals id r.id)) db.order_items },
  )

  unfoldable pub get_order_items_by_order_id : Uuid → Exec Db DbError (List OrderItem)
  unfolding statement scan_order_item
  get_order_items_by_order_id order_id = statement engine λ n db. (
    ok (
        map scan_order_item
          (keep (λ (r : OrderItemRow). equals order_id r.order_id) db.order_items)),
    db,
  )

  abbrev pub set_quantity : ℤ → OrderItemRow → OrderItemRow
  set_quantity quantity r = record r { quantity = quantity }

  unfoldable pub update_order_item_quantity :
      UpdateOrderItemQuantityParams → Exec Db DbError OrderItem
  unfolding statement scan_order_item update_rows
  update_order_item_quantity arg = statement engine λ n. do
    row ← λ db. or_raise (find_row (λ (r : OrderItemRow). r.id) arg.id db.order_items) no_rows db
    λ db. (
      ok (scan_order_item (set_quantity arg.quantity row)),
      record db {
        order_items =
            update_rows (λ (r : OrderItemRow). r.id) arg.id (set_quantity arg.quantity)
              db.order_items;
      },
    )
