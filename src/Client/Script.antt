-- ===== src/Client/Script.antt =====
-- The script of cmd/client/main.go up to its clean-up: the users, the products and the orders.
use temporal_durable_event_p.Base.{String, Option, none, some, List, [], ◌∷◌}
use temporal_durable_event_p.Base.Int.{pos}
use temporal_durable_event_p.Base.Exec.{Exec, Result, ok, err, pure, raise, ◌>>=◌, ◌>>◌}
use temporal_durable_event_p.Proto
use temporal_durable_event_p.Client.{
  RpcError, Connection, info, value, error, Console, Exit, panicked, format_user, format_product,
  format_order, format_order_item, tell, call, report, report_list, report_done, found, when_some,
  when_given,
}

module _ {Struct S : Type 0} (conn : Connection Struct S) where
  abbrev Step : Type 0 → Type 0
  Step A = Exec (Console S) Exit A

  abbrev error_of : {A : Type 0} → Result RpcError A → Option RpcError
  error_of (ok _) = none
  error_of (err e) = some e

  -- After `UpdateUser`: where it fails, the error that is printed is the one of `ListUsers`, which
  -- the variable still holds.
  abbrev pub report_update : Option RpcError → Result RpcError (Option Proto.User) → Step (Unit {0})
  report_update e (err _) = tell (error "UpdateUser failed" e)
  report_update e (ok u) = tell (value "UpdateUser succeeded" (format_user u))

  unfoldable pub users : Step (Option Proto.User)
  unfolding format_user
  users = do
    tell (info "=== CreateUser ===")
    created ← call (
        conn.create_user (record {
          username = "testuser";
          email = "testuser@example.com";
          password = "securepassword123";
        }))
    report "CreateUser" format_user created
    tell (info "=== ListUsers ===")
    listed ← call conn.list_users
    report_list "ListUsers" "user" format_user listed
    tell (info "=== GetUser ===")
    let user = found created
    when_some user (λ u. call (conn.get_user u.id) >>= report "GetUser" format_user)
    tell (info "=== GetUserByEmail ===")
    by_email ← call (conn.get_user_by_email "testuser@example.com")
    report "GetUserByEmail" format_user by_email
    tell (info "=== UpdateUser ===")
    when_some user (λ u.
        call (
          conn.update_user
            (record { id = u.id; username = "updateduser"; email = "updated@example.com" }))
        >>= report_update (error_of listed))
    pure user

  unfoldable pub products : Step (Option Proto.Product)
  unfolding format_product
  products = do
    tell (info "=== CreateProduct ===")
    created ← call (
        conn.create_product (record {
          name = "Test Product";
          description = "A test product for gRPC testing";
          price = "29.99";
          stock_quantity = pos 100;
        }))
    report "CreateProduct" format_product created
    tell (info "=== ListProducts ===")
    listed ← call conn.list_products
    report_list "ListProducts" "product" format_product listed
    tell (info "=== GetProduct ===")
    let product = found created
    when_some product (λ p. call (conn.get_product p.id) >>= report "GetProduct" format_product)
    tell (info "=== UpdateProduct ===")
    when_some product (λ p.
        call (
          conn.update_product (record {
            id = p.id;
            name = "Updated Product";
            description = "An updated product description";
            price = "49.99";
            stock_quantity = pos 200;
          }))
        >>= report "UpdateProduct" format_product)
    pure product

  -- `orderID = orderCreateResp.Order.Id`, which a nil order makes panic.
  abbrev pub order_id : Result RpcError (Option Proto.Order) → Step String
  order_id (err e) = tell (error "CreateOrder failed" (some e)) >> pure ""
  order_id (ok none) = raise panicked
  order_id (ok (some o)) = tell (value "CreateOrder succeeded" (format_order (some o))) >> pure o.id

  abbrev pub create_order : Option Proto.User → Step String
  create_order none = pure ""
  create_order (some u) =
      call (conn.create_order (record { user_id = u.id; total_amount = "59.98" })) >>= order_id

  unfoldable pub orders : Option Proto.User → Option Proto.Product → Step String
  unfolding format_order format_order_item
  orders user product = do
    tell (info "=== CreateOrder ===")
    id ← create_order user
    tell (info "=== CreateOrderItem ===")
    when_given id (λ id. when_some product (λ p.
        call (
          conn.create_order_item
            (record { order_id = id; product_id = p.id; quantity = pos 2; unit_price = "29.99" }))
        >>= report "CreateOrderItem" format_order_item))
    tell (info "=== GetOrder ===")
    when_given id (λ id. call (conn.get_order id) >>= report "GetOrder" format_order)
    tell (info "=== GetOrderItems ===")
    when_given id (λ id.
        call (conn.get_order_items id)
        >>= report_list "GetOrderItems" "order item" format_order_item)
    tell (info "=== ListOrdersByUser ===")
    when_some user (λ u.
        call (conn.list_orders_by_user u.id)
        >>= report_list "ListOrdersByUser" "order" format_order)
    tell (info "=== UpdateOrderStatus ===")
    when_given id (λ id.
        call (conn.update_order_status (record { id = id; status = "completed" }))
        >>= report "UpdateOrderStatus" format_order)
    pure id

  -- The first of the order's items is deleted.
  abbrev pub delete_first : Result RpcError (List Proto.OrderItem) → Step (Unit {0})
  delete_first (err e) = tell (error "GetOrderItems for delete failed" (some e))
  delete_first (ok []) = pure tt
  delete_first (ok (item ∷ _)) =
      call (conn.delete_order_item item.id) >>= report_done "DeleteOrderItem"

  unfoldable pub clean_up : Option Proto.User → Option Proto.Product → String → Step (Unit {0})
  clean_up user product id = do
    tell (info "=== DeleteOrderItem ===")
    when_given id (λ id. call (conn.get_order_items id) >>= delete_first)
    tell (info "=== DeleteOrder ===")
    when_given id (λ id. call (conn.delete_order id) >>= report_done "DeleteOrder")
    tell (info "=== DeleteProduct ===")
    when_some product (λ p. call (conn.delete_product p.id) >>= report_done "DeleteProduct")
    tell (info "=== DeleteUser ===")
    when_some user (λ u. call (conn.delete_user u.id) >>= report_done "DeleteUser")

  -- `main` up to the events.
  unfoldable pub before_events : Step (Unit {0})
  unfolding users products orders clean_up
  before_events = do
    user ← users
    product ← products
    id ← orders user product
    clean_up user product id
