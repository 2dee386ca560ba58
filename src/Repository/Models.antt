-- ===== src/Repository/Models.antt =====
-- internal/repository/models.go: the row types, and the event status with its `Scan` and `Value`.
use temporal_durable_event_p.Base.{String, Bool, true, false, Option, none, some}
use temporal_durable_event_p.Base.Int.{ℤ}
use temporal_durable_event_p.Pgtype.{Uuid, Text, Int4, Timestamp, Numeric, Value}

-- `type EventStatus string`
abbrev pub EventStatus : Type 0
EventStatus = String

abbrev pub event_status_pending : EventStatus
event_status_pending = "pending"

abbrev pub event_status_processing : EventStatus
event_status_processing = "processing"

abbrev pub event_status_completed : EventStatus
event_status_completed = "completed"

abbrev pub event_status_failed : EventStatus
event_status_failed = "failed"

-- `(*EventStatus).Scan`; `none` is the error on an unsupported type.
unfoldable pub scan_event_status : Value → Option EventStatus
scan_event_status (Value.bytes s) = some s
scan_event_status (Value.string s) = some s
scan_event_status Value.nil = none
scan_event_status Value.other = none

pub record NullEventStatus : Type 0 where
  pub event_status : EventStatus
  pub valid : Bool

abbrev valid_event_status : Option EventStatus → Option NullEventStatus
valid_event_status (some s) = some (record { event_status = s; valid = true })
valid_event_status none = none

-- `(*NullEventStatus).Scan`
unfoldable pub scan_null_event_status : Value → Option NullEventStatus
unfolding scan_event_status
scan_null_event_status Value.nil = some (record { event_status = ""; valid = false })
scan_null_event_status (Value.bytes s) = valid_event_status (scan_event_status (Value.bytes s))
scan_null_event_status (Value.string s) = valid_event_status (scan_event_status (Value.string s))
scan_null_event_status Value.other = valid_event_status (scan_event_status Value.other)

abbrev value_if_valid : Bool → EventStatus → Value
value_if_valid true s = Value.string s
value_if_valid false s = Value.nil

-- `NullEventStatus.Value`
unfoldable pub null_event_status_value : NullEventStatus → Value
null_event_status_value ns = value_if_valid ns.valid ns.event_status

pub record Event : Type 0 where
  pub id : Uuid
  pub event_type : String
  pub payload : Option String
  pub status : NullEventStatus
  pub created_at : Timestamp
  pub updated_at : Timestamp
  pub processed_at : Timestamp

pub record Order : Type 0 where
  pub id : Uuid
  pub user_id : Uuid
  pub order_date : Timestamp
  pub status : Text
  pub total_amount : Numeric

pub record OrderItem : Type 0 where
  pub id : Uuid
  pub order_id : Uuid
  pub product_id : Uuid
  pub quantity : ℤ
  pub unit_price : Numeric

pub record Product : Type 0 where
  pub id : Uuid
  pub name : String
  pub description : Text
  pub price : Numeric
  pub stock_quantity : Int4
  pub created_at : Timestamp
  pub updated_at : Timestamp

pub record User : Type 0 where
  pub id : Uuid
  pub username : String
  pub email : String
  pub password_hash : String
  pub created_at : Timestamp
  pub updated_at : Timestamp
