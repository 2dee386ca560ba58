-- ===== src/Handler/Converter.antt =====
-- internal/handler/converter.go: from the rows of the repository to the messages of the services.
use Prim.Native.String.{◌++◌}
use temporal_durable_event_p.Base.{ℕ, String, Option, none, some, str_eq, is_empty, if◌then◌else◌}
use temporal_durable_event_p.Base.Int.{ℤ, pos}
use temporal_durable_event_p.Base.Exec.{Result, ok, err}
use temporal_durable_event_p.Pgtype.{Uuid, Text, Int4, Timestamp, Numeric, Value}
use temporal_durable_event_p.Repository.Models
use temporal_durable_event_p.Repository.Models.{
  NullEventStatus, event_status_pending, event_status_processing, event_status_completed,
  event_status_failed,
}
use temporal_durable_event_p.Repository.Users.{
  CreateUserRow, GetUserByIdRow, ListUsersRow, UpdateUserRow,
}
use temporal_durable_event_p.Handler.Rpc.{Codec}
use temporal_durable_event_p.Proto
use temporal_durable_event_p.Proto.{EventStatus}

unfoldable pub pg_timestamp_to_proto : Timestamp → Option ℕ
pg_timestamp_to_proto ts = if ts.valid then some ts.time else none

unfoldable pub pg_text_to_string : Text → String
pg_text_to_string t = if t.valid then t.string else ""

unfoldable pub pg_int4_to_int32 : Int4 → ℤ
pg_int4_to_int32 i = if i.valid then i.int32 else pos 0

-- What `Numeric.Value` gave: an error, nil, a string or a value of another type.
abbrev string_or_zero : Option Value → String
string_or_zero none = "0"
string_or_zero (some (Value.string s)) = s
string_or_zero (some Value.nil) = "0"
string_or_zero (some (Value.bytes s)) = "0"
string_or_zero (some Value.other) = "0"

unfoldable pub event_status_to_proto : Models.EventStatus → EventStatus
event_status_to_proto s =
    if str_eq s event_status_pending
    then EventStatus.pending
    else if str_eq s event_status_processing
    then EventStatus.processing
    else if str_eq s event_status_completed
    then EventStatus.completed
    else if str_eq s event_status_failed
    then EventStatus.failed
    else EventStatus.unspecified

unfoldable pub event_status_from_proto : EventStatus → Models.EventStatus
event_status_from_proto EventStatus.pending = event_status_pending
event_status_from_proto EventStatus.processing = event_status_processing
event_status_from_proto EventStatus.completed = event_status_completed
event_status_from_proto EventStatus.failed = event_status_failed
event_status_from_proto EventStatus.unspecified = ""
event_status_from_proto (EventStatus.unrecognized n) = ""

module _ {Struct : Type 0} (codec : Codec Struct) where
  unfoldable pub pg_uuid_to_string : Uuid → String
  pg_uuid_to_string id = if id.valid then codec.uuid_text id.bytes else ""

  unfoldable pub pg_numeric_to_string : Numeric → String
  pg_numeric_to_string n = if n.valid then string_or_zero (codec.numeric_value n) else "0"

  unfoldable pub user_row_to_proto : CreateUserRow → Proto.User
  unfolding pg_uuid_to_string pg_timestamp_to_proto
  user_row_to_proto u = record {
    id = pg_uuid_to_string u.id;
    username = u.username;
    email = u.email;
    created_at = pg_timestamp_to_proto u.created_at;
    updated_at = pg_timestamp_to_proto u.updated_at;
  }

  unfoldable pub user_model_to_proto : Models.User → Proto.User
  unfolding pg_uuid_to_string pg_timestamp_to_proto
  user_model_to_proto u = record {
    id = pg_uuid_to_string u.id;
    username = u.username;
    email = u.email;
    created_at = pg_timestamp_to_proto u.created_at;
    updated_at = pg_timestamp_to_proto u.updated_at;
  }

  unfoldable pub get_user_by_id_row_to_proto : GetUserByIdRow → Proto.User
  unfolding pg_uuid_to_string pg_timestamp_to_proto
  get_user_by_id_row_to_proto u = record {
    id = pg_uuid_to_string u.id;
    username = u.username;
    email = u.email;
    created_at = pg_timestamp_to_proto u.created_at;
    updated_at = pg_timestamp_to_proto u.updated_at;
  }

  unfoldable pub list_users_row_to_proto : ListUsersRow → Proto.User
  unfolding pg_uuid_to_string pg_timestamp_to_proto
  list_users_row_to_proto u = record {
    id = pg_uuid_to_string u.id;
    username = u.username;
    email = u.email;
    created_at = pg_timestamp_to_proto u.created_at;
    updated_at = pg_timestamp_to_proto u.updated_at;
  }

  unfoldable pub update_user_row_to_proto : UpdateUserRow → Proto.User
  unfolding pg_uuid_to_string pg_timestamp_to_proto
  update_user_row_to_proto u = record {
    id = pg_uuid_to_string u.id;
    username = u.username;
    email = u.email;
    created_at = pg_timestamp_to_proto u.created_at;
    updated_at = pg_timestamp_to_proto u.updated_at;
  }

  unfoldable pub product_to_proto : Models.Product → Proto.Product
  unfolding pg_uuid_to_string pg_timestamp_to_proto pg_text_to_string pg_numeric_to_string
      pg_int4_to_int32
  product_to_proto p = record {
    id = pg_uuid_to_string p.id;
    name = p.name;
    description = pg_text_to_string p.description;
    price = pg_numeric_to_string p.price;
    stock_quantity = pg_int4_to_int32 p.stock_quantity;
    created_at = pg_timestamp_to_proto p.created_at;
    updated_at = pg_timestamp_to_proto p.updated_at;
  }

  unfoldable pub order_to_proto : Models.Order → Proto.Order
  unfolding pg_uuid_to_string pg_timestamp_to_proto pg_text_to_string pg_numeric_to_string
  order_to_proto o = record {
    id = pg_uuid_to_string o.id;
    user_id = pg_uuid_to_string o.user_id;
    order_date = pg_timestamp_to_proto o.order_date;
    status = pg_text_to_string o.status;
    total_amount = pg_numeric_to_string o.total_amount;
  }

  unfoldable pub order_item_to_proto : Models.OrderItem → Proto.OrderItem
  unfolding pg_uuid_to_string pg_numeric_to_string
  order_item_to_proto oi = record {
    id = pg_uuid_to_string oi.id;
    order_id = pg_uuid_to_string oi.order_id;
    product_id = pg_uuid_to_string oi.product_id;
    quantity = oi.quantity;
    unit_price = pg_numeric_to_string oi.unit_price;
  }

  -- A payload that is nil or empty stays unset; any other is unmarshalled. The error is its text.
  unfoldable pub payload_to_proto : Option String → Result String (Option Struct)
  payload_to_proto none = ok none
  payload_to_proto (some text) = if is_empty text then ok none else (elim (codec.unmarshal text) [
    | ok payload ↦ ok (some payload)
    | err e ↦ err ("failed to unmarshal event payload: " ++ e)
  ])

  unfoldable pub null_status_to_proto : NullEventStatus → EventStatus
  unfolding event_status_to_proto
  null_status_to_proto s =
      if s.valid then event_status_to_proto s.event_status else EventStatus.unspecified

  unfoldable pub event_to_proto : Models.Event → Result String (Proto.Event Struct)
  unfolding pg_uuid_to_string pg_timestamp_to_proto payload_to_proto null_status_to_proto
  event_to_proto e = elim (payload_to_proto e.payload) [
    | err text ↦ err text
    | ok payload ↦ ok (record {
      id = pg_uuid_to_string e.id;
      event_type = e.event_type;
      payload = payload;
      status = "";
      status_v2 = null_status_to_proto e.status;
      created_at = pg_timestamp_to_proto e.created_at;
      updated_at = pg_timestamp_to_proto e.updated_at;
      processed_at = pg_timestamp_to_proto e.processed_at;
    })
  ]
