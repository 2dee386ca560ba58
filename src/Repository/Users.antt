-- ===== src/Repository/Users.antt =====
-- internal/repository/users.sql.go: the statements on the table `users`.
use temporal_durable_event_p.Base.{
  ℕ, String, Bool, some, find, ◌&&◌, ◌||◌, not, List, [], ◌∷◌, ◌++◌, map, str_eq, keep, any, ◌==◌,
  if◌then◌else◌,
}
use temporal_durable_event_p.Base.Exec.{Exec, ok, err, or_raise, ◌>>=◌, map_ok}
use temporal_durable_event_p.Pgtype.{Uuid, Timestamp}
use temporal_durable_event_p.Repository.Models.{User}
use temporal_durable_event_p.Repository.Db.{
  Engine, Db, DbError, no_rows, unique_violation, string_too_long, UserRow, OrderRow, OrderItemRow,
  statement, equals, update_rows, find_row, has_id, order_desc, scan_uuid, scan_timestamp,
}

-- The four row types `CreateUserRow`, `GetUserByIDRow`, `ListUsersRow` and `UpdateUserRow` have
-- the same fields.
pub record CreateUserRow : Type 0 where
  pub id : Uuid
  pub username : String
  pub email : String
  pub created_at : Timestamp
  pub updated_at : Timestamp

abbrev pub GetUserByIdRow : Type 0
GetUserByIdRow = CreateUserRow

abbrev pub ListUsersRow : Type 0
ListUsersRow = CreateUserRow

abbrev pub UpdateUserRow : Type 0
UpdateUserRow = CreateUserRow

unfoldable pub scan_user_row : UserRow → CreateUserRow
scan_user_row r = record {
  id = scan_uuid r.id;
  username = r.username;
  email = r.email;
  created_at = scan_timestamp (some r.created_at);
  updated_at = scan_timestamp (some r.updated_at);
}

unfoldable pub scan_user : UserRow → User
scan_user r = record {
  id = scan_uuid r.id;
  username = r.username;
  email = r.email;
  password_hash = r.password_hash;
  created_at = scan_timestamp (some r.created_at);
  updated_at = scan_timestamp (some r.updated_at);
}

pub record CreateUserParams : Type 0 where
  pub username : String
  pub email : String
  pub password_hash : String

pub record UpdateUserParams : Type 0 where
  pub id : Uuid
  pub username : String
  pub email : String

-- The `UNIQUE` constraints on username and email.
abbrev pub takes_name : String → String → UserRow → Bool
takes_name username email r = str_eq r.username username || str_eq r.email email

-- `ON DELETE CASCADE` from orders to their items.
abbrev pub delete_orders : (OrderRow → Bool) → Db → Db
delete_orders gone db = record db {
  orders = keep (λ o. not (gone o)) db.orders;
  order_items =
      keep
        (λ (i : OrderItemRow).
          not (any (λ (o : OrderRow). gone o && (o.id == i.order_id)) db.orders))
        db.order_items;
}

-- `ON DELETE CASCADE` from users to their orders.
abbrev pub delete_users : Uuid → Db → Db
delete_users id db =
    delete_orders (λ o. any (λ (r : UserRow). equals id r.id && (r.id == o.user_id)) db.users)
      (record db { users = keep (λ (r : UserRow). not (equals id r.id)) db.users })

module _ (engine : Engine) where
  abbrev pub new_user : ℕ → String → String → String → UserRow
  new_user n username email password_hash = record {
    id = engine.gen_random_uuid n;
    username = username;
    email = email;
    password_hash = password_hash;
    created_at = engine.current_timestamp n;
    updated_at = engine.current_timestamp n;
  }

  unfoldable pub insert_user : CreateUserParams → ℕ → Exec Db DbError CreateUserRow
  unfolding scan_user_row
  insert_user arg n = do
    username ← or_raise (engine.varchar 50 arg.username) string_too_long
    email ← or_raise (engine.varchar 100 arg.email) string_too_long
    password_hash ← or_raise (engine.varchar 255 arg.password_hash) string_too_long
    let row = new_user n username email password_hash
    λ db.
        if has_id (λ (r : UserRow). r.id) row.id db.users
          || any (takes_name username email) db.users
        then (err unique_violation, db)
        else (ok (scan_user_row row), record db { users = db.users ++ row ∷ [] })

  unfoldable pub create_user : CreateUserParams → Exec Db DbError CreateUserRow
  unfolding statement insert_user
  create_user arg = statement engine (insert_user arg)

  unfoldable pub delete_user : Uuid → Exec Db DbError (Unit {0})
  unfolding statement
  delete_user id = statement engine λ n db. (ok tt, delete_users id db)

  unfoldable pub get_user_by_email : String → Exec Db DbError User
  unfolding statement scan_user
  get_user_by_email email = statement engine λ n db.
      map_ok scan_user (or_raise (find (λ (r : UserRow). str_eq r.email email) db.users) no_rows) db

  unfoldable pub get_user_by_id : Uuid → Exec Db DbError GetUserByIdRow
  unfolding statement scan_user_row
  get_user_by_id id = statement engine λ n db.
      map_ok scan_user_row (or_raise (find_row (λ (r : UserRow). r.id) id db.users) no_rows) db

  unfoldable pub list_users : Exec Db DbError (List ListUsersRow)
  unfolding statement scan_user_row order_desc
  list_users =
      statement engine
        λ n db. (ok (map scan_user_row (order_desc (λ (r : UserRow). r.created_at) db.users)), db)

  abbrev pub rename_user : ℕ → String → String → UserRow → UserRow
  rename_user n username email r = record r {
    username = username;
    email = email;
    updated_at = engine.current_timestamp n;
  }

  unfoldable pub update_user : UpdateUserParams → Exec Db DbError UpdateUserRow
  unfolding statement scan_user_row update_rows
  update_user arg = statement engine λ n. do
    username ← or_raise (engine.varchar 50 arg.username) string_too_long
    email ← or_raise (engine.varchar 100 arg.email) string_too_long
    row ← λ db. or_raise (find_row (λ (r : UserRow). r.id) arg.id db.users) no_rows db
    λ db.
        if any (λ (r : UserRow). not (equals arg.id r.id) && takes_name username email r) db.users
        then (err unique_violation, db)
        else (
          ok (scan_user_row (rename_user n username email row)),
          record db {
            users =
                update_rows (λ (r : UserRow). r.id) arg.id (rename_user n username email) db.users;
          },
        )
