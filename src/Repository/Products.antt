-- ===== src/Repository/Products.antt =====
-- internal/repository/products.sql.go: the statements on the table `products`.
use temporal_durable_event_p.Base.{
  ℕ, String, not, Option, some, List, [], ◌∷◌, ◌++◌, map, keep, any, ◌&&◌, ◌==◌, if◌then◌else◌,
}
use temporal_durable_event_p.Base.Int.{ℤ}
use temporal_durable_event_p.Base.Exec.{Exec, ok, err, or_raise, ◌>>=◌, map_ok}
use temporal_durable_event_p.Pgtype.{Uuid, Text, Int4, Numeric}
use temporal_durable_event_p.Repository.Models.{Product}
use temporal_durable_event_p.Repository.Db.{
  Engine, Db, DbError, no_rows, unique_violation, string_too_long, ProductRow, OrderItemRow,
  statement, equals, update_rows, find_row, has_id, order_desc, text_param, int4_param,
  decimal_param, scan_uuid, scan_timestamp, scan_text, scan_int4,
}

unfoldable pub scan_product : ProductRow → Product
scan_product r = record {
  id = scan_uuid r.id;
  name = r.name;
  description = scan_text r.description;
  price = r.price;
  stock_quantity = scan_int4 r.stock_quantity;
  created_at = scan_timestamp (some r.created_at);
  updated_at = scan_timestamp (some r.updated_at);
}

pub record CreateProductParams : Type 0 where
  pub name : String
  pub description : Text
  pub price : Numeric
  pub stock_quantity : Int4

pub record UpdateProductParams : Type 0 where
  pub id : Uuid
  pub name : String
  pub description : Text
  pub price : Numeric
  pub stock_quantity : Int4

-- `ON DELETE CASCADE` from products to the order items that name them.
abbrev pub delete_products : Uuid → Db → Db
delete_products id db = record db {
  products = keep (λ (r : ProductRow). not (equals id r.id)) db.products;
  order_items =
      keep
        (λ (i : OrderItemRow).
          not (any (λ (r : ProductRow). equals id r.id && (r.id == i.product_id)) db.products))
        db.order_items;
}

module _ (engine : Engine) where
  abbrev pub new_product : ℕ → String → Option String → Numeric → Option ℤ → ProductRow
  new_product n name description price stock_quantity = record {
    id = engine.gen_random_uuid n;
    name = name;
    description = description;
    price = price;
    stock_quantity = stock_quantity;
    created_at = engine.current_timestamp n;
    updated_at = engine.current_timestamp n;
  }

  unfoldable pub insert_product : CreateProductParams → ℕ → Exec Db DbError Product
  unfolding scan_product
  insert_product arg n = do
    name ← or_raise (engine.varchar 100 arg.name) string_too_long
    price ← decimal_param engine arg.price
    let row = new_product n name (text_param arg.description) price (int4_param arg.stock_quantity)
    λ db.
        if has_id (λ (r : ProductRow). r.id) row.id db.products
        then (err unique_violation, db)
        else (ok (scan_product row), record db { products = db.products ++ row ∷ [] })

  unfoldable pub create_product : CreateProductParams → Exec Db DbError Product
  unfolding statement insert_product
  create_product arg = statement engine (insert_product arg)

  unfoldable pub delete_product : Uuid → Exec Db DbError (Unit {0})
  unfolding statement
  delete_product id = statement engine λ n db. (ok tt, delete_products id db)

  unfoldable pub get_product_by_id : Uuid → Exec Db DbError Product
  unfolding statement scan_product
  get_product_by_id id = statement engine λ n db.
      map_ok scan_product (or_raise (find_row (λ (r : ProductRow). r.id) id db.products) no_rows) db

  unfoldable pub list_products : Exec Db DbError (List Product)
  unfolding statement scan_product order_desc
  list_products = statement engine λ n db.
      (ok (map scan_product (order_desc (λ (r : ProductRow). r.created_at) db.products)), db)

  -- Every column of the `SET` list is written, a NULL too.
  abbrev pub set_product : ℕ → String → Option String → Numeric → Option ℤ → ProductRow → ProductRow
  set_product n name description price stock_quantity r = record r {
    name = name;
    description = description;
    price = price;
    stock_quantity = stock_quantity;
    updated_at = engine.current_timestamp n;
  }

  unfoldable pub update_product : UpdateProductParams → Exec Db DbError Product
  unfolding statement scan_product update_rows
  update_product arg = statement engine λ n. do
    name ← or_raise (engine.varchar 100 arg.name) string_too_long
    price ← decimal_param engine arg.price
    row ← λ db. or_raise (find_row (λ (r : ProductRow). r.id) arg.id db.products) no_rows db
    let change =
        set_product n name (text_param arg.description) price (int4_param arg.stock_quantity)
    λ db. (
      ok (scan_product (change row)),
      record db { products = update_rows (λ (r : ProductRow). r.id) arg.id change db.products },
    )
