-- ===== src/Handler/Rpc.antt =====
-- What the handlers of internal/handler share: gRPC status errors, the library functions that they
-- call, and the store interfaces that they are written against. `S` is whatever state a store keeps.
use temporal_durable_event_p.Base.{ℕ, String, Option, List}
use temporal_durable_event_p.Base.Int.{ℤ}
use temporal_durable_event_p.Base.Exec.{Exec, Result}
use temporal_durable_event_p.Pgtype.{Text, Int4, Numeric, Value}
use temporal_durable_event_p.Repository.Models.{EventStatus, Event, Order, OrderItem, Product, User}
use temporal_durable_event_p.Repository.Db.{DbError, no_rows}
use temporal_durable_event_p.Repository.Users.{
  CreateUserRow, GetUserByIdRow, ListUsersRow, UpdateUserRow,
}

-- The gRPC codes that the handlers return.
pub data Code : Type 0 where
  invalid_argument not_found internal : Code

-- `status.Error(code, message)`
pub record Status : Type 0 where
  pub code : Code
  pub message : String

abbrev pub invalid : String → Status
invalid message = record { code = invalid_argument; message = message }

abbrev pub missing : String → Status
missing message = record { code = not_found; message = message }

abbrev pub failed : String → Status
failed message = record { code = internal; message = message }

-- `if errors.Is(err, pgx.ErrNoRows) { return NotFound }; return Internal`
abbrev pub no_rows_or : String → String → DbError → Status
no_rows_or not_found_message message no_rows = missing not_found_message
no_rows_or not_found_message message _ = failed message

-- `return Internal`, whatever the error.
abbrev pub any_error : String → DbError → Status
any_error message _ = failed message

-- google/uuid, `pgtype.UUID.String`, `pgtype.Numeric.Value` (`none` is its error) and protojson.
pub record Codec (Struct : Type 0) : Type 0 where
  pub uuid_parse : String → Option ℕ
  pub uuid_text : ℕ → String
  pub numeric_value : Numeric → Option Value
  pub marshal : Struct → Option String
  -- The error is its text.
  pub unmarshal : String → Result String Struct

-- `interface EventStore` of event_handler.go
pub record EventStore (S : Type 0) : Type 0 where
  pub create_event : String → Option String → Exec S DbError Event
  pub get_event_by_id : ℕ → Exec S DbError Event
  pub poll_pending_events : ℤ → Exec S DbError (List Event)
  pub update_event_status : ℕ → EventStatus → Exec S DbError Event
  pub list_events : ℤ → ℤ → Exec S DbError (List Event)

-- `interface UserStore` of user_handler.go
pub record UserStore (S : Type 0) : Type 0 where
  pub create_user : String → String → String → Exec S DbError CreateUserRow
  pub get_user_by_id : ℕ → Exec S DbError GetUserByIdRow
  pub get_user_by_email : String → Exec S DbError User
  pub list_users : Exec S DbError (List ListUsersRow)
  pub update_user : ℕ → String → String → Exec S DbError UpdateUserRow
  pub delete_user : ℕ → Exec S DbError (Unit {0})

-- `interface ProductStore` of product_handler.go
pub record ProductStore (S : Type 0) : Type 0 where
  pub create_product : String → Text → String → Int4 → Exec S DbError Product
  pub get_product_by_id : ℕ → Exec S DbError Product
  pub list_products : Exec S DbError (List Product)
  pub update_product : ℕ → String → Text → String → Int4 → Exec S DbError Product
  pub delete_product : ℕ → Exec S DbError (Unit {0})

-- `interface OrderStore` of order_handler.go; a command tag is its number of rows.
pub record OrderStore (S : Type 0) : Type 0 where
  pub create_order : ℕ → String → Exec S DbError Order
  pub get_order_by_id : ℕ → Exec S DbError Order
  pub list_orders_by_user : ℕ → Exec S DbError (List Order)
  pub update_order_status : ℕ → Text → Exec S DbError Order
  pub delete_order : ℕ → Exec S DbError ℕ
  pub create_order_item : ℕ → ℕ → ℤ → String → Exec S DbError OrderItem
  pub get_order_items_by_order_id : ℕ → Exec S DbError (List OrderItem)
  pub update_order_item_quantity : ℕ → ℤ → Exec S DbError OrderItem
  pub delete_order_item : ℕ → Exec S DbError ℕ
