-- ===== src/Handler/Products.antt =====
-- internal/handler/product_handler.go: the methods of `ProductHandler`.
use temporal_durable_event_p.Base.{String, true, not, ◌||◌, List, map, is_empty}
use temporal_durable_event_p.Base.Int.{is_zero_ℤ}
use temporal_durable_event_p.Base.Exec.{Exec, or_raise, raise_if, ◌>>=◌, ◌>>◌, map_err, map_ok}
use temporal_durable_event_p.Handler.Rpc.{
  Status, invalid, no_rows_or, any_error, Codec, ProductStore,
}
use temporal_durable_event_p.Handler.Converter.{product_to_proto}
use temporal_durable_event_p.Pgtype.{Text}
use temporal_durable_event_p.Proto

-- `pgtype.Text{String: s, Valid: s != ""}`
abbrev pub optional_text : String → Text
optional_text s = record { string = s; valid = not (is_empty s) }

module _ {Struct S : Type 0} (codec : Codec Struct) (store : ProductStore S) where
  unfoldable pub create_product : Proto.CreateProductRequest → Exec S Status Proto.Product
  create_product req = do
    raise_if (is_empty req.name || is_empty req.price) (invalid "name and price are required")
    map_ok (product_to_proto codec) (
        map_err (any_error "failed to create product") (
          store.create_product req.name (optional_text req.description) req.price
            (record { int32 = req.stock_quantity; valid = true })))

  unfoldable pub get_product : String → Exec S Status Proto.Product
  get_product text = do
    id ← or_raise (codec.uuid_parse text) (invalid "invalid product id")
    map_ok (product_to_proto codec)
        (map_err (no_rows_or "product not found" "internal error") (store.get_product_by_id id))

  unfoldable pub list_products : Exec S Status (List Proto.Product)
  list_products =
      map_ok (map (product_to_proto codec))
        (map_err (any_error "failed to list products") store.list_products)

  -- A stock quantity of 0 is sent as NULL.
  unfoldable pub update_product : Proto.UpdateProductRequest → Exec S Status Proto.Product
  update_product req = do
    id ← or_raise (codec.uuid_parse req.id) (invalid "invalid product id")
    raise_if (is_empty req.name || is_empty req.price) (invalid "name and price are required")
    map_ok (product_to_proto codec) (
        map_err (any_error "failed to update product") (
          store.update_product id req.name (optional_text req.description) req.price
            (record { int32 = req.stock_quantity; valid = not (is_zero_ℤ req.stock_quantity) })))

  unfoldable pub delete_product : String → Exec S Status (Unit {0})
  delete_product text = do
    id ← or_raise (codec.uuid_parse text) (invalid "invalid product id")
    map_err (any_error "failed to delete product") (store.delete_product id)
