-- ===== src/Repository/Store/Tables.antt =====
-- The changes that the statements of internal/repository make to the tables, and the foreign keys.
use temporal_durable_event_p.Base.{
  ℕ, String, [], ◌∷◌, ◌++◌, Bool, true, ◌≡◌, keep, refl, Option, ◌∙◌,
}
use temporal_durable_event_p.Repository.Db.{
  Engine, Db, UserRow, ProductRow, OrderRow, OrderItemRow, has_id, update_rows, tick, EventRow,
  equals,
}
use temporal_durable_event_p.Repository.Db.References.{
  IsConsistent, has_id-append, has_id-update, All-append, All-update, All-kept, cascade,
}
use temporal_durable_event_p.Repository.Db.Ordering.{All-map}
use temporal_durable_event_p.Repository.Users
use temporal_durable_event_p.Repository.Events
use temporal_durable_event_p.Repository.OrderItems
use temporal_durable_event_p.Repository.Orders
use temporal_durable_event_p.Repository.Products
use temporal_durable_event_p.Repository.Users.{takes_name}
use temporal_durable_event_p.Pgtype.{Uuid, Numeric}
use temporal_durable_event_p.Base.Int.{ℤ}

-- The tables with foreign keys are the same.
pub IsConsistent-same :
    (db' db : Db)
    → db'.users ≡ db.users
    → db'.products ≡ db.products
    → db'.orders ≡ db.orders
    → db'.order_items ≡ db.order_items
    → IsConsistent db
    → IsConsistent db'
unfolding IsConsistent
IsConsistent-same db' db u p o i h = record {
  users = rw (u, o) h.users;
  orders = rw (o, i) h.orders;
  products = rw (p, i) h.products;
}

pub tick-IsConsistent : (db : Db) → IsConsistent db → IsConsistent (tick db)
tick-IsConsistent db h = IsConsistent-same (tick db) db refl refl refl refl h

pub append_user-IsConsistent :
    (row : UserRow) (db : Db)
    → IsConsistent db
    → IsConsistent (record db { users = db.users ++ row ∷ [] })
unfolding IsConsistent
append_user-IsConsistent row db h = record {
  users =
      All-map db.orders (λ o k. has_id-append (λ (r : UserRow). r.id) o.user_id db.users row k)
        h.users;
  orders = h.orders;
  products = h.products;
}

pub append_product-IsConsistent :
    (row : ProductRow) (db : Db)
    → IsConsistent db
    → IsConsistent (record db { products = db.products ++ row ∷ [] })
unfolding IsConsistent
append_product-IsConsistent row db h = record {
  users = h.users;
  orders = h.orders;
  products =
      All-map db.order_items
        (λ i k. has_id-append (λ (r : ProductRow). r.id) i.product_id db.products row k) h.products;
}

pub append_order-IsConsistent :
    (row : OrderRow) (db : Db)
    → has_id (λ (r : UserRow). r.id) row.user_id db.users ≡ true
    → IsConsistent db
    → IsConsistent (record db { orders = db.orders ++ row ∷ [] })
unfolding IsConsistent
append_order-IsConsistent row db known h = record {
  users = All-append _ db.orders row h.users known;
  orders =
      All-map db.order_items
        (λ i k. has_id-append (λ (r : OrderRow). r.id) i.order_id db.orders row k) h.orders;
  products = h.products;
}

pub append_order_item-IsConsistent :
    (row : OrderItemRow) (db : Db)
    → has_id (λ (r : OrderRow). r.id) row.order_id db.orders ≡ true
    → has_id (λ (r : ProductRow). r.id) row.product_id db.products ≡ true
    → IsConsistent db
    → IsConsistent (record db { order_items = db.order_items ++ row ∷ [] })
unfolding IsConsistent
append_order_item-IsConsistent row db order product h = record {
  users = h.users;
  orders = All-append _ db.order_items row h.orders order;
  products = All-append _ db.order_items row h.products product;
}

pub rename_user-IsConsistent :
    (engine : Engine) (u : Uuid) (n : ℕ) (a b : String) (db : Db)
    → IsConsistent db
    → IsConsistent (record db {
      users = update_rows (λ (r : UserRow). r.id) u (Users.rename_user engine n a b) db.users;
    })
unfolding IsConsistent
rename_user-IsConsistent engine u n a b db h = record {
  users =
      All-map db.orders
        (λ o k.
          has_id-update (λ (r : UserRow). r.id) o.user_id u (Users.rename_user engine n a b)
            db.users (λ r. refl)
          ∙ k)
        h.users;
  orders = h.orders;
  products = h.products;
}

pub set_product-IsConsistent :
    (engine : Engine) (u : Uuid) (n : ℕ) (a : String) (b : Option String) (c : Numeric)
    (d : Option ℤ) (db : Db)
    → IsConsistent db
    → IsConsistent (record db {
      products =
          update_rows
            (λ (r : ProductRow). r.id)
            u
            (Products.set_product engine n a b c d)
            db.products;
    })
unfolding IsConsistent
set_product-IsConsistent engine u n a b c d db h = record {
  users = h.users;
  orders = h.orders;
  products =
      All-map db.order_items
        (λ i k.
          has_id-update (λ (r : ProductRow). r.id) i.product_id u
            (Products.set_product engine n a b c d) db.products (λ r. refl)
          ∙ k)
        h.products;
}

pub set_order_status-IsConsistent :
    (engine : Engine) (u : Uuid) (s : Option String) (db : Db)
    → IsConsistent db
    → IsConsistent (record db {
      orders = update_rows (λ (r : OrderRow). r.id) u (Orders.set_order_status engine s) db.orders;
    })
unfolding IsConsistent
set_order_status-IsConsistent engine u s db h = record {
  users =
      All-update _ (λ (r : OrderRow). r.id) u (Orders.set_order_status engine s) db.orders
        (λ o k. k) h.users;
  orders =
      All-map db.order_items
        (λ i k.
          has_id-update (λ (r : OrderRow). r.id) i.order_id u (Orders.set_order_status engine s)
            db.orders (λ r. refl)
          ∙ k)
        h.orders;
  products = h.products;
}

pub set_quantity-IsConsistent :
    (engine : Engine) (u : Uuid) (q : ℤ) (db : Db)
    → IsConsistent db
    → IsConsistent (record db {
      order_items =
          update_rows
            (λ (r : OrderItemRow). r.id)
            u
            (OrderItems.set_quantity engine q)
            db.order_items;
    })
unfolding IsConsistent
set_quantity-IsConsistent engine u q db h = record {
  users = h.users;
  orders =
      All-update _ (λ (r : OrderItemRow). r.id) u (OrderItems.set_quantity engine q) db.order_items
        (λ i k. k) h.orders;
  products =
      All-update _ (λ (r : OrderItemRow). r.id) u (OrderItems.set_quantity engine q) db.order_items
        (λ i k. k) h.products;
}

pub delete_orders-IsConsistent :
    (gone : OrderRow → Bool) (db : Db)
    → IsConsistent db
    → IsConsistent (Users.delete_orders gone db)
unfolding IsConsistent
delete_orders-IsConsistent gone db h = record {
  users = All-kept _ _ db.orders h.users;
  orders =
      cascade (λ (r : OrderRow). r.id) (λ (i : OrderItemRow). i.order_id) gone db.orders
        db.order_items h.orders;
  products = All-kept _ _ db.order_items h.products;
}

pub delete_users-IsConsistent :
    (u : Uuid) (db : Db) → IsConsistent db → IsConsistent (Users.delete_users u db)
unfolding IsConsistent
delete_users-IsConsistent u db h = record {
  users =
      cascade (λ (r : UserRow). r.id) (λ (o : OrderRow). o.user_id) (λ r. equals u r.id) db.users
        db.orders h.users;
  orders =
      cascade (λ (r : OrderRow). r.id) (λ (i : OrderItemRow). i.order_id) _ db.orders db.order_items
        h.orders;
  products = All-kept _ _ db.order_items h.products;
}

pub delete_products-IsConsistent :
    (u : Uuid) (db : Db) → IsConsistent db → IsConsistent (Products.delete_products u db)
unfolding IsConsistent
delete_products-IsConsistent u db h = record {
  users = h.users;
  orders = All-kept _ _ db.order_items h.orders;
  products =
      cascade (λ (r : ProductRow). r.id) (λ (i : OrderItemRow). i.product_id) (λ r. equals u r.id)
        db.products db.order_items h.products;
}

pub keep_order_items-IsConsistent :
    (p : OrderItemRow → Bool) (db : Db)
    → IsConsistent db
    → IsConsistent (record db { order_items = keep p db.order_items })
unfolding IsConsistent
keep_order_items-IsConsistent p db h = record {
  users = h.users;
  orders = All-kept _ p db.order_items h.orders;
  products = All-kept _ p db.order_items h.products;
}

pub insert_event_row-IsConsistent :
    (engine : Engine) (row : EventRow) (db : Db)
    → IsConsistent db
    → IsConsistent (Events.insert_event_row engine row db)
insert_event_row-IsConsistent engine row db h =
    IsConsistent-same (Events.insert_event_row engine row db) db refl refl refl refl h

pub update_status_rows-IsConsistent :
    (engine : Engine) (u : Uuid) (f : EventRow → EventRow) (db : Db)
    → IsConsistent db
    → IsConsistent (Events.update_status_rows engine u f db)
update_status_rows-IsConsistent engine u f db h =
    IsConsistent-same (Events.update_status_rows engine u f db) db refl refl refl refl h
