-- ===== src/Repository/Db.antt =====
-- The database behind internal/repository: the tables of db/migrations, the driver's answers, and
-- how one statement runs. The engine (PostgreSQL and pgx) is a parameter.
pub mod Ordering
pub mod References
use temporal_durable_event_p.Base.{
  ℕ, suc, String, Bool, true, false, ◌&&◌, Option, none, some, List, [], ◌∷◌, ◌==◌, leb,
  if◌then◌else◌, find, any, ◌≡◌, ◌⊎◌, ◌≢◌, inl, inr, refl,
}
use temporal_durable_event_p.Base.Int.{ℤ, pos}
use temporal_durable_event_p.Base.Exec.{Exec, err, raise, or_raise}
use temporal_durable_event_p.Pgtype.{Uuid, Text, Int4, Timestamp, Numeric}

-- How a request to a server over a connection ends: it is answered; it fails and was not carried
-- out; or it was carried out and the answer was lost.
pub data Delivery : Type 0 where
  answered refused reply_lost : Delivery

pub Delivery-cases : (d : Delivery) → (d ≡ answered) ⊎ (d ≢ answered)
Delivery-cases answered = inl refl
Delivery-cases refused = inr (λ e. cc)
Delivery-cases reply_lost = inr (λ e. cc)

-- The enum `event_status` of migration 6.
pub data StatusEnum : Type 0 where
  pending processing completed failed : StatusEnum

-- PostgreSQL and pgx, as far as the statements use them. `n` numbers the statements.
pub record Engine : Type 0 where
  pub delivery : ℕ → Delivery
  pub gen_random_uuid : ℕ → ℕ
  pub current_timestamp : ℕ → ℕ
  -- Whether another transaction holds a lock on the row with this id.
  pub locked : ℕ → ℕ → Bool
  -- Assignment to `VARCHAR(n)`, to `DECIMAL(10, 2)` and to `JSONB`; `none` is an error.
  pub varchar : ℕ → String → Option String
  pub decimal : Numeric → Option Numeric
  pub jsonb : String → Option String
  -- `(*pgtype.Numeric).Scan` of a text.
  pub scan_numeric : String → Option Numeric
  -- `json_build_object('id', …, 'event_type', …, 'status', …)::text`
  pub json_build_object : ℕ → String → Option StatusEnum → String

-- `no_rows` is `pgx.ErrNoRows`; `connection` is any failure of the connection or the context.
pub data DbError : Type 0 where
  no_rows connection unique_violation foreign_key_violation not_null_violation : DbError
  string_too_long numeric_out_of_range invalid_json invalid_enum negative_limit : DbError
  -- raised by the store itself, before any statement
  invalid_numeric invalid_id invalid_status : DbError

pub record UserRow : Type 0 where
  pub id : ℕ
  pub username : String
  pub email : String
  pub password_hash : String
  pub created_at : ℕ
  pub updated_at : ℕ

pub record ProductRow : Type 0 where
  pub id : ℕ
  pub name : String
  pub description : Option String
  pub price : Numeric
  pub stock_quantity : Option ℤ
  pub created_at : ℕ
  pub updated_at : ℕ

pub record OrderRow : Type 0 where
  pub id : ℕ
  pub user_id : ℕ
  pub order_date : ℕ
  pub status : Option String
  pub total_amount : Numeric

pub record OrderItemRow : Type 0 where
  pub id : ℕ
  pub order_id : ℕ
  pub product_id : ℕ
  pub quantity : ℤ
  pub unit_price : Numeric

pub record EventRow : Type 0 where
  pub id : ℕ
  pub event_type : String
  pub payload : String
  pub status : Option StatusEnum
  pub created_at : ℕ
  pub updated_at : ℕ
  pub processed_at : Option ℕ

-- `notifications` is all that was sent on the channel `events_notification`, oldest first.
pub record Db : Type 0 where
  pub users : List UserRow
  pub products : List ProductRow
  pub orders : List OrderRow
  pub order_items : List OrderItemRow
  pub events : List EventRow
  pub notifications : List String
  pub statements : ℕ

-- A query argument for a nullable column: an invalid value is NULL.
abbrev pub uuid_param : Uuid → Option ℕ
uuid_param u = if u.valid then some u.bytes else none

abbrev pub text_param : Text → Option String
text_param t = if t.valid then some t.string else none

abbrev pub int4_param : Int4 → Option ℤ
int4_param i = if i.valid then some i.int32 else none

-- A numeric argument for a column `DECIMAL(10, 2) NOT NULL`.
abbrev pub decimal_param : {S : Type 0} → Engine → Numeric → Exec S DbError Numeric
decimal_param engine n =
    if n.valid then or_raise (engine.decimal n) numeric_out_of_range else raise not_null_violation

-- What `Scan` stores for a column that may be NULL.
abbrev pub scan_uuid : ℕ → Uuid
scan_uuid k = record { bytes = k; valid = true }

abbrev pub scan_text : Option String → Text
scan_text none = record { string = ""; valid = false }
scan_text (some s) = record { string = s; valid = true }

abbrev pub scan_int4 : Option ℤ → Int4
scan_int4 none = record { int32 = pos 0; valid = false }
scan_int4 (some i) = record { int32 = i; valid = true }

abbrev pub scan_timestamp : Option ℕ → Timestamp
scan_timestamp none = record { time = 0; valid = false }
scan_timestamp (some t) = record { time = t; valid = true }

-- `id = $1`: a NULL equals nothing.
abbrev pub equals : Uuid → ℕ → Bool
equals u k = u.valid && (u.bytes == k)

abbrev pub deliver : {A : Type 0} → Delivery → Exec Db DbError A → Exec Db DbError A
deliver answered stmt db = stmt db
deliver refused stmt db = (err connection, db)
deliver reply_lost stmt db = (err connection, (stmt db).1)

abbrev pub tick : Db → Db
tick db = record db { statements = suc db.statements }

-- One round trip to the database: `q.db.QueryRow`, `q.db.Query` or `q.db.Exec` with what reads its
-- answer. Each statement is a transaction of its own.
unfoldable pub statement : Engine → {A : Type 0} → (ℕ → Exec Db DbError A) → Exec Db DbError A
statement engine stmt db = deliver (engine.delivery db.statements) (stmt db.statements) (tick db)

module _ {R : Type 0} (id : R → ℕ) where
  -- `UPDATE … SET … WHERE id = $1` on the rows of a table.
  unfoldable pub update_rows : Uuid → (R → R) → List R → List R
  update_rows u f [] = []
  update_rows u f (r ∷ rs) = (if equals u (id r) then f r else r) ∷ update_rows u f rs

  -- `SELECT … WHERE id = $1`, of which the first row is scanned.
  abbrev pub find_row : Uuid → List R → Option R
  find_row u rs = find (λ r. equals u (id r)) rs

  -- The primary key's test.
  abbrev pub has_id : ℕ → List R → Bool
  has_id k rs = any (λ r. id r == k) rs

module _ {R : Type 0} (key : R → ℕ) where
  unfoldable pub insert_asc : R → List R → List R
  insert_asc r [] = r ∷ []
  insert_asc r (s ∷ rs) =
      let rest = insert_asc r rs in if leb (key r) (key s) then r ∷ s ∷ rs else s ∷ rest

  -- `ORDER BY key ASC`; rows with equal keys keep the order of the table.
  unfoldable pub order_asc : List R → List R
  unfolding insert_asc
  order_asc [] = []
  order_asc (r ∷ rs) = insert_asc r (order_asc rs)

  unfoldable pub insert_desc : R → List R → List R
  insert_desc r [] = r ∷ []
  insert_desc r (s ∷ rs) =
      let rest = insert_desc r rs in if leb (key s) (key r) then r ∷ s ∷ rs else s ∷ rest

  -- `ORDER BY key DESC`
  unfoldable pub order_desc : List R → List R
  unfolding insert_desc
  order_desc [] = []
  order_desc (r ∷ rs) = insert_desc r (order_desc rs)
