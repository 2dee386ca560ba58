-- ===== src/Proto.antt =====
-- The messages of proto/*/v1, as internal/handler reads and builds them. A `google.protobuf.Struct`
-- is a type of the reader's choice; a `google.protobuf.Timestamp` is the instant that it names,
-- `none` where the field is not set.
use temporal_durable_event_p.Base.{ℕ, String, Option}
use temporal_durable_event_p.Base.Int.{ℤ}

-- `event.v1.EventStatus`, an open enum: `unrecognized` is any other number on the wire.
pub data EventStatus : Type 0 where
  unspecified pending processing completed failed : EventStatus
  unrecognized : ℤ → EventStatus

pub record Event (Struct : Type 0) : Type 0 where
  pub id : String
  pub event_type : String
  pub payload : Option Struct
  -- the deprecated field, which the server leaves empty
  pub status : String
  pub status_v2 : EventStatus
  pub created_at : Option ℕ
  pub updated_at : Option ℕ
  pub processed_at : Option ℕ

pub record CreateEventRequest (Struct : Type 0) : Type 0 where
  pub event_type : String
  pub payload : Option Struct

pub record UpdateEventStatusRequest : Type 0 where
  pub id : String
  pub status_v2 : EventStatus

pub record ListEventsRequest : Type 0 where
  pub limit : ℤ
  pub offset : ℤ

pub record User : Type 0 where
  pub id : String
  pub username : String
  pub email : String
  pub created_at : Option ℕ
  pub updated_at : Option ℕ

pub record CreateUserRequest : Type 0 where
  pub username : String
  pub email : String
  pub password : String

pub record UpdateUserRequest : Type 0 where
  pub id : String
  pub username : String
  pub email : String

pub record Product : Type 0 where
  pub id : String
  pub name : String
  pub description : String
  pub price : String
  pub stock_quantity : ℤ
  pub created_at : Option ℕ
  pub updated_at : Option ℕ

pub record CreateProductRequest : Type 0 where
  pub name : String
  pub description : String
  pub price : String
  pub stock_quantity : ℤ

pub record UpdateProductRequest : Type 0 where
  pub id : String
  pub name : String
  pub description : String
  pub price : String
  pub stock_quantity : ℤ

pub record Order : Type 0 where
  pub id : String
  pub user_id : String
  pub order_date : Option ℕ
  pub status : String
  pub total_amount : String

pub record OrderItem : Type 0 where
  pub id : String
  pub order_id : String
  pub product_id : String
  pub quantity : ℤ
  pub unit_price : String

pub record CreateOrderRequest : Type 0 where
  pub user_id : String
  pub total_amount : String

pub record UpdateOrderStatusRequest : Type 0 where
  pub id : String
  pub status : String

pub record CreateOrderItemRequest : Type 0 where
  pub order_id : String
  pub product_id : String
  pub quantity : ℤ
  pub unit_price : String

pub record UpdateOrderItemQuantityRequest : Type 0 where
  pub id : String
  pub quantity : ℤ
