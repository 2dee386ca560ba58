-- ===== src/Client.antt =====
-- cmd/client/main.go: the client's connection, what it prints, and the messages as it prints them.
-- `S` is what is on the other side of the connection.
pub mod Script
pub mod Events
pub mod Continues
pub mod Polling
pub mod Success
pub mod Published
use Prim.Native.String.{◌++◌}
use temporal_durable_event_p.Base.{
  ℕ, String, Bool, Option, none, some, List, [], ◌∷◌, length, if◌then◌else◌, is_empty,
}
use temporal_durable_event_p.Base.Int.{ℤ}
use temporal_durable_event_p.Base.Decimal.{itoa}
use temporal_durable_event_p.Base.Exec.{Exec, Result, ok, err}
use temporal_durable_event_p.Handler.Rpc.{Status}
use temporal_durable_event_p.Proto
use temporal_durable_event_p.Proto.{EventStatus}

-- The error of a call: the server's status, or none where no answer came in time.
pub data RpcError : Type 0 where
  status : Status → RpcError
  no_answer : RpcError

-- The generated clients on one connection, with the clock in milliseconds. Of a response that has one
-- field the model has that field, none where it is a nil pointer.
pub record Connection (Struct S : Type 0) : Type 0 where
  pub create_user : Proto.CreateUserRequest → Exec S RpcError (Option Proto.User)
  pub list_users : Exec S RpcError (List Proto.User)
  pub get_user : String → Exec S RpcError (Option Proto.User)
  pub get_user_by_email : String → Exec S RpcError (Option Proto.User)
  pub update_user : Proto.UpdateUserRequest → Exec S RpcError (Option Proto.User)
  pub delete_user : String → Exec S RpcError (Unit {0})
  pub create_product : Proto.CreateProductRequest → Exec S RpcError (Option Proto.Product)
  pub list_products : Exec S RpcError (List Proto.Product)
  pub get_product : String → Exec S RpcError (Option Proto.Product)
  pub update_product : Proto.UpdateProductRequest → Exec S RpcError (Option Proto.Product)
  pub delete_product : String → Exec S RpcError (Unit {0})
  pub create_order : Proto.CreateOrderRequest → Exec S RpcError (Option Proto.Order)
  pub get_order : String → Exec S RpcError (Option Proto.Order)
  pub list_orders_by_user : String → Exec S RpcError (List Proto.Order)
  pub update_order_status : Proto.UpdateOrderStatusRequest → Exec S RpcError (Option Proto.Order)
  pub delete_order : String → Exec S RpcError (Unit {0})
  pub create_order_item : Proto.CreateOrderItemRequest → Exec S RpcError (Option Proto.OrderItem)
  pub get_order_items : String → Exec S RpcError (List Proto.OrderItem)
  pub delete_order_item : String → Exec S RpcError (Unit {0})
  pub create_event : Proto.CreateEventRequest Struct → Exec S RpcError (Option (Proto.Event Struct))
  pub get_event : String → Exec S RpcError (Option (Proto.Event Struct))
  pub now : S → ℕ
  pub sleep : ℕ → S → S

-- A line of the log: its message, and the attribute that it has.
pub data Line : Type 0 where
  info : String → Line
  value : String → String → Line
  count : String → ℕ → Line
  error : String → Option RpcError → Line
  failure : String → String → Line
  polled : EventStatus → Line

-- The client's surroundings: the other side, and the log, newest line first.
pub record Console (S : Type 0) : Type 0 where
  pub server : S
  pub lines : List Line

-- How the program ends: with an exit code, or by a panic.
pub data Exit : Type 0 where
  code : ℕ → Exit
  panicked : Exit

abbrev nil : String
nil = "<nil>"

unfoldable pub format_user : Option Proto.User → String
format_user none = nil
format_user (some u) =
    "{id: " ++ (u.id ++ (", username: " ++ (u.username ++ (", email: " ++ (u.email ++ "}")))))

unfoldable pub format_product : Option Proto.Product → String
unfolding itoa
format_product none = nil
format_product (some p) =
    "{id: "
    ++ (p.id
        ++ (", name: "
            ++ (p.name
                ++ (", price: " ++ (p.price ++ (", stock: " ++ (itoa p.stock_quantity ++ "}")))))))

unfoldable pub format_order : Option Proto.Order → String
format_order none = nil
format_order (some o) =
    "{id: "
    ++ (o.id
        ++ (", user_id: "
            ++ (o.user_id
                ++ (", status: " ++ (o.status ++ (", total: " ++ (o.total_amount ++ "}")))))))

unfoldable pub format_order_item : Option Proto.OrderItem → String
unfolding itoa
format_order_item none = nil
format_order_item (some oi) =
    "{id: "
    ++ (oi.id
        ++ (", order_id: "
            ++ (oi.order_id
                ++ (", product_id: "
                    ++ (oi.product_id
                        ++ (", qty: "
                            ++ (itoa oi.quantity ++ (", price: " ++ (oi.unit_price ++ "}")))))))))

unfoldable pub format_event : {Struct : Type 0} → Option (Proto.Event Struct) → String
format_event none = nil
format_event (some e) =
    "{id: " ++ (e.id ++ (", type: " ++ (e.event_type ++ (", status: " ++ (e.status ++ "}")))))

-- What a response holds, if the call succeeded and the field is not nil.
abbrev pub found : {A : Type 0} → Result RpcError (Option A) → Option A
found (err _) = none
found (ok a) = a

module _ {S : Type 0} where
  abbrev pub say : Line → Console S → Console S
  say line c = record c { lines = line ∷ c.lines }

  -- `log.Info`, `log.Error` or `log.Debug`
  abbrev pub tell : Line → Exec (Console S) Exit (Unit {0})
  tell line c = (ok tt, say line c)

  -- A call on the connection: `resp, err := …`
  abbrev pub call : {A : Type 0} → Exec S RpcError A → Exec (Console S) Exit (Result RpcError A)
  call request c = let (r, s) = request c.server in (ok r, record c { server = s })

  -- The `if err != nil { log.Error(…) } else { log.Info(…) }` after a call.
  abbrev pub report :
      {A : Type 0} → String → (A → String) → Result RpcError A → Exec (Console S) Exit (Unit {0})
  report name format (err e) = tell (error (name ++ " failed") (some e))
  report name format (ok a) = tell (value (name ++ " succeeded") (format a))

  abbrev items : {A : Type 0} → String → (Option A → String) → List A → Console S → Console S
  items name format [] c = c
  items name format (x ∷ xs) c = items name format xs (say (value name (format (some x))) c)

  -- The same after a call that returns a list, of which every element is printed.
  abbrev pub report_list :
      {A : Type 0}
      → String
      → String
      → (Option A → String)
      → Result RpcError (List A)
      → Exec (Console S) Exit (Unit {0})
  report_list name item format (err e) c = tell (error (name ++ " failed") (some e)) c
  report_list name item format (ok xs) c =
      (ok tt, items item format xs (say (count (name ++ " succeeded") (length xs)) c))

  -- The same after a deletion, but for the response that it prints.
  abbrev pub report_done : String → Result RpcError (Unit {0}) → Exec (Console S) Exit (Unit {0})
  report_done name (err e) = tell (error (name ++ " failed") (some e))
  report_done name (ok _) = tell (info (name ++ " succeeded"))

  abbrev pub when_some :
      {A : Type 0}
      → Option A
      → (A → Exec (Console S) Exit (Unit {0}))
      → Exec (Console S) Exit (Unit {0})
  when_some none f c = (ok tt, c)
  when_some (some a) f c = f a c

  -- `if orderID != "" { … }`
  abbrev pub when_given :
      String → (String → Exec (Console S) Exit (Unit {0})) → Exec (Console S) Exit (Unit {0})
  when_given text f c = if is_empty text then (ok tt, c) else f text c
