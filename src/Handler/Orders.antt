-- ===== src/Handler/Orders.antt =====
-- internal/handler/order_handler.go: the methods of `OrderHandler`.
use temporal_durable_event_p.Base.{String, true, List, map, ◌==◌, is_empty}
use temporal_durable_event_p.Base.Int.{pos, leb_ℤ}
use temporal_durable_event_p.Base.Exec.{Exec, or_raise, raise_if, ◌>>=◌, ◌>>◌, map_err, map_ok}
use temporal_durable_event_p.Handler.Rpc.{
  Status, invalid, missing, no_rows_or, any_error, Codec, OrderStore,
}
use temporal_durable_event_p.Handler.Converter.{order_to_proto, order_item_to_proto}
use temporal_durable_event_p.Proto

module _ {Struct S : Type 0} (codec : Codec Struct) (store : OrderStore S) where
  unfoldable pub create_order : Proto.CreateOrderRequest → Exec S Status Proto.Order
  create_order req = do
    user_id ← or_raise (codec.uuid_parse req.user_id) (invalid "invalid user_id")
    raise_if (is_empty req.total_amount) (invalid "total_amount is required")
    map_ok (order_to_proto codec)
        (map_err (any_error "failed to create order") (store.create_order user_id req.total_amount))

  unfoldable pub get_order : String → Exec S Status Proto.Order
  get_order text = do
    id ← or_raise (codec.uuid_parse text) (invalid "invalid order id")
    map_ok (order_to_proto codec)
        (map_err (no_rows_or "order not found" "internal error") (store.get_order_by_id id))

  unfoldable pub list_orders_by_user : String → Exec S Status (List Proto.Order)
  list_orders_by_user text = do
    user_id ← or_raise (codec.uuid_parse text) (invalid "invalid user_id")
    map_ok (map (order_to_proto codec))
        (map_err (any_error "failed to list orders") (store.list_orders_by_user user_id))

  unfoldable pub update_order_status : Proto.UpdateOrderStatusRequest → Exec S Status Proto.Order
  update_order_status req = do
    id ← or_raise (codec.uuid_parse req.id) (invalid "invalid order id")
    raise_if (is_empty req.status) (invalid "status is required")
    map_ok (order_to_proto codec) (
        map_err (any_error "failed to update order status")
          (store.update_order_status id (record { string = req.status; valid = true })))

  unfoldable pub delete_order : String → Exec S Status (Unit {0})
  delete_order text = do
    id ← or_raise (codec.uuid_parse text) (invalid "invalid order id")
    rows_affected ← map_err (any_error "failed to delete order") (store.delete_order id)
    raise_if (rows_affected == 0) (missing "order not found")

  unfoldable pub create_order_item : Proto.CreateOrderItemRequest → Exec S Status Proto.OrderItem
  create_order_item req = do
    order_id ← or_raise (codec.uuid_parse req.order_id) (invalid "invalid order_id")
    product_id ← or_raise (codec.uuid_parse req.product_id) (invalid "invalid product_id")
    raise_if (is_empty req.unit_price) (invalid "unit_price is required")
    raise_if (leb_ℤ req.quantity (pos 0)) (invalid "quantity must be greater than 0")
    map_ok (order_item_to_proto codec) (
        map_err (any_error "failed to create order item")
          (store.create_order_item order_id product_id req.quantity req.unit_price))

  unfoldable pub get_order_items : String → Exec S Status (List Proto.OrderItem)
  get_order_items text = do
    order_id ← or_raise (codec.uuid_parse text) (invalid "invalid order_id")
    map_ok (map (order_item_to_proto codec)) (
        map_err (any_error "failed to get order items")
          (store.get_order_items_by_order_id order_id))

  unfoldable pub update_order_item_quantity :
      Proto.UpdateOrderItemQuantityRequest → Exec S Status Proto.OrderItem
  update_order_item_quantity req = do
    id ← or_raise (codec.uuid_parse req.id) (invalid "invalid order item id")
    map_ok (order_item_to_proto codec) (
        map_err (any_error "failed to update order item quantity")
          (store.update_order_item_quantity id req.quantity))

  unfoldable pub delete_order_item : String → Exec S Status (Unit {0})
  delete_order_item text = do
    id ← or_raise (codec.uuid_parse text) (invalid "invalid order item id")
    rows_affected ← map_err (any_error "failed to delete order item") (store.delete_order_item id)
    raise_if (rows_affected == 0) (missing "order item not found")
