-- ===== src/Handler/Users.antt =====
-- internal/handler/user_handler.go: the methods of `UserHandler`.
use temporal_durable_event_p.Base.{String, ◌||◌, List, map, is_empty}
use temporal_durable_event_p.Base.Exec.{Exec, or_raise, raise_if, ◌>>=◌, ◌>>◌, map_err, map_ok}
use temporal_durable_event_p.Handler.Rpc.{
  Status, invalid, failed, no_rows_or, any_error, Codec, UserStore,
}
use temporal_durable_event_p.Handler.Converter.{
  user_row_to_proto, get_user_by_id_row_to_proto, list_users_row_to_proto, update_user_row_to_proto,
  user_model_to_proto,
}
use temporal_durable_event_p.Proto

-- `hash` is `bcrypt.GenerateFromPassword` at the default cost, which draws its salt from the state.
module _ {Struct S : Type 0} (codec : Codec Struct) (hash : String → Exec S (Unit {0}) String)
    (store : UserStore S) where
  unfoldable pub create_user : Proto.CreateUserRequest → Exec S Status Proto.User
  create_user req = do
    raise_if (is_empty req.username || is_empty req.email || is_empty req.password)
        (invalid "username, email, and password are required")
    hashed_password ← map_err (λ _. failed "internal error") (hash req.password)
    map_ok (user_row_to_proto codec) (
        map_err (any_error "failed to create user")
          (store.create_user req.username req.email hashed_password))

  unfoldable pub get_user : String → Exec S Status Proto.User
  get_user text = do
    id ← or_raise (codec.uuid_parse text) (invalid "invalid user id")
    map_ok (get_user_by_id_row_to_proto codec)
        (map_err (no_rows_or "user not found" "failed to get user") (store.get_user_by_id id))

  unfoldable pub get_user_by_email : String → Exec S Status Proto.User
  get_user_by_email email = do
    raise_if (is_empty email) (invalid "email is required")
    map_ok (user_model_to_proto codec)
        (map_err (no_rows_or "user not found" "internal error") (store.get_user_by_email email))

  unfoldable pub list_users : Exec S Status (List Proto.User)
  list_users =
      map_ok (map (list_users_row_to_proto codec))
        (map_err (any_error "failed to list users") store.list_users)

  unfoldable pub update_user : Proto.UpdateUserRequest → Exec S Status Proto.User
  update_user req = do
    id ← or_raise (codec.uuid_parse req.id) (invalid "invalid user id")
    raise_if (is_empty req.username || is_empty req.email)
        (invalid "username and email are required")
    map_ok (update_user_row_to_proto codec)
        (map_err (any_error "failed to update user") (store.update_user id req.username req.email))

  unfoldable pub delete_user : String → Exec S Status (Unit {0})
  delete_user text = do
    id ← or_raise (codec.uuid_parse text) (invalid "invalid user id")
    map_err (any_error "failed to delete user") (store.delete_user id)
