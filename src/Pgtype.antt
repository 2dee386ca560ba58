-- ===== src/Pgtype.antt =====
-- The nullable column values of pgx (`pgtype.UUID`, `Text`, `Int4`, `Timestamp`, `Numeric`) that
-- internal/repository and internal/handler read and write by their fields, and the value that a
-- database driver hands to a Go `Scan` method.
--
-- A Go string and a `[]byte` are both native texts here, so `[]byte(s)` and `string(b)` change
-- nothing; a `[]byte` that may be nil is an `Option`. A `uuid.UUID` is the number of its 16 bytes,
-- a `time.Time` a number of microseconds.
use temporal_durable_event_p.Base.{ℕ, String, Bool}
use temporal_durable_event_p.Base.Int.{ℤ}

pub record Uuid : Type 0 where
  pub bytes : ℕ
  pub valid : Bool

pub record Text : Type 0 where
  pub string : String
  pub valid : Bool

pub record Int4 : Type 0 where
  pub int32 : ℤ
  pub valid : Bool

pub record Timestamp : Type 0 where
  pub time : ℕ
  pub valid : Bool

-- Only `valid` is read here; the number itself goes through the driver's functions.
pub record Numeric : Type 0 where
  pub int : ℤ
  pub exp : ℤ
  pub valid : Bool

-- A `driver.Value`, as far as `Scan` tells its types apart.
pub data Value : Type 0 where
  nil : Value
  bytes : String → Value
  string : String → Value
  other : Value
