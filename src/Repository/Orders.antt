-- ===== src/Repository/Orders.antt =====
-- internal/repository/orders.sql.go: the statements on the table `orders`.
use temporal_durable_event_p.Base.{
  ℕ, String, Option, none, some, List, [], ◌∷◌, ◌++◌, map, keep, count, if◌then◌else◌,
}
use temporal_durable_event_p.Base.Exec.{Exec, ok, err, pure, or_raise, ◌>>=◌, map_ok}
use temporal_durable_event_p.Pgtype.{Uuid, Text, Numeric}
use temporal_durable_event_p.Repository.Models.{Order}
use temporal_durable_event_p.Repository.Db.{
  Engine, Db, DbError, no_rows, unique_violation, foreign_key_violation, not_null_violation,
  string_too_long, UserRow, OrderRow, statement, equals, update_rows, find_row, has_id, order_desc,
  uuid_param, text_param, decimal_param, scan_uuid, scan_timestamp, scan_text,
}
use temporal_durable_event_p.Repository.Users.{delete_orders}

unfoldable pub scan_order : OrderRow → Order
scan_order r = record {
  id = scan_uuid r.id;
  user_id = scan_uuid r.user_id;
  order_date = scan_timestamp (some r.order_date);
  status = scan_text r.status;
  total_amount = r.total_amount;
}

pub record CreateOrderParams : Type 0 where
  pub user_id : Uuid
  pub total_amount : Numeric

pub record UpdateOrderStatusParams : Type 0 where
  pub id : Uuid
  pub status : Text

-- `$2` of `updateOrderStatus` for the column `VARCHAR(20)`, which may be NULL.
abbrev pub order_status_param : {S : Type 0} → Engine → Text → Exec S DbError (Option String)
order_status_param engine t = elim (text_param t) [
  | none ↦ pure none
  | some s ↦ map_ok some (or_raise (engine.varchar 20 s) string_too_long)
]

module _ (engine : Engine) where
  abbrev pub new_order : ℕ → ℕ → Numeric → OrderRow
  new_order n user_id total_amount = record {
    id = engine.gen_random_uuid n;
    user_id = user_id;
    order_date = engine.current_timestamp n;
    status = some "pending";
    total_amount = total_amount;
  }

  unfoldable pub insert_order : CreateOrderParams → ℕ → Exec Db DbError Order
  unfolding scan_order
  insert_order arg n = do
    user_id ← or_raise (uuid_param arg.user_id) not_null_violation
    total_amount ← decimal_param engine arg.total_amount
    let row = new_order n user_id total_amount
    λ db.
        if has_id (λ (r : OrderRow). r.id) row.id db.orders
        then (err unique_violation, db)
        else if has_id (λ (r : UserRow). r.id) user_id db.users
        then (ok (scan_order row), record db { orders = db.orders ++ row ∷ [] })
        else (err foreign_key_violation, db)

  unfoldable pub create_order : CreateOrderParams → Exec Db DbError Order
  unfolding statement insert_order
  create_order arg = statement engine (insert_order arg)

  -- The value is the command tag's number of rows.
  unfoldable pub delete_order : Uuid → Exec Db DbError ℕ
  unfolding statement
  delete_order id = statement engine λ n db. (
    ok (count (λ (r : OrderRow). equals id r.id) db.orders),
    delete_orders (λ (r : OrderRow). equals id r.id) db,
  )

  unfoldable pub get_order_by_id : Uuid → Exec Db DbError Order
  unfolding statement scan_order
  get_order_by_id id = statement engine λ n db.
      map_ok scan_order (or_raise (find_row (λ (r : OrderRow). r.id) id db.orders) no_rows) db

  unfoldable pub list_orders_by_user : Uuid → Exec Db DbError (List Order)
  unfolding statement scan_order order_desc
  list_orders_by_user user_id = statement engine λ n db.
      let rows = keep (λ (r : OrderRow). equals user_id r.user_id) db.orders in
      (ok (map scan_order (order_desc (λ (r : OrderRow). r.order_date) rows)), db)

  abbrev pub set_order_status : Option String → OrderRow → OrderRow
  set_order_status status r = record r { status = status }

  unfoldable pub update_order_status : UpdateOrderStatusParams → Exec Db DbError Order
  unfolding statement scan_order update_rows
  update_order_status arg = statement engine λ n. do
    status ← order_status_param engine arg.status
    row ← λ db. or_raise (find_row (λ (r : OrderRow). r.id) arg.id db.orders) no_rows db
    λ db. (
      ok (scan_order (set_order_status status row)),
      record db {
        orders = update_rows (λ (r : OrderRow). r.id) arg.id (set_order_status status) db.orders;
      },
    )
