-- ===== src/Repository/Migrations.antt =====
-- `RunMigrations` and `extractGooseUp` of internal/repository/store.go. The directory,
-- whether the database accepts a script and how a call of it ends are parameters.
pub mod Goose
pub mod Scripts
use Prim.Native.Char.{code}
use temporal_durable_event_p.Base.{
  ℕ, String, Bool, true, false, not, ◌&&◌, ◌||◌, Option, none, some, List, [], ◌∷◌, ◌==◌, ltb,
  str_eq, keep, if◌then◌else◌, ◌++◌,
}
use temporal_durable_event_p.Repository.Db.{Delivery, answered, refused, reply_lost}
use temporal_durable_event_p.Base.Exec.{Exec, Result, ok, err}
use temporal_durable_event_p.Base.Text.{trim_space, has_prefix, split_lines, join_lines, is_nil}

-- `strings.HasPrefix(trimmed, "-- +goose")`
abbrev pub is_marker : String → Bool
is_marker line = has_prefix (trim_space line) "-- +goose"

abbrev pub is_up : String → Bool
is_up line = str_eq (trim_space line) "-- +goose Up"

abbrev pub is_down : String → Bool
is_down line = str_eq (trim_space line) "-- +goose Down"

-- The `for` of `extractGooseUp` from a line on, for the value of `inUpBlock`: the lines that it
-- appends to `result`. The marker `Down` breaks the loop.
unfoldable pub up_lines : Bool → List String → List String
up_lines up [] = []
up_lines up (line ∷ lines) =
    let rest = up_lines (up || (is_marker line && is_up line)) lines in
    if is_marker line
    then (if is_up line then rest else if is_down line then [] else rest)
    else if up && not (is_nil (trim_space line))
    then line ∷ rest
    else rest

-- `extractGooseUp`
unfoldable pub extract_goose_up : String → String
unfolding up_lines
extract_goose_up content = join_lines (up_lines false (split_lines content))

-- `filepath.Ext` of a name without a slash: what starts at its last dot.
unfoldable pub ext : String → String
ext String.[] = String.[]
ext (String.◌∷◌ c s) =
    let rest = ext s in
    if is_nil rest then (if code c == b'.' then String.◌∷◌ c s else String.[]) else rest

abbrev pub is_sql : String → Bool
is_sql name = str_eq (ext name) ".sql"

-- The order of strings, by bytes, which for UTF-8 is by characters.
unfoldable pub str_leb : String → String → Bool
str_leb String.[] t = true
str_leb (String.◌∷◌ c s) String.[] = false
str_leb (String.◌∷◌ c s) (String.◌∷◌ d t) =
    ltb (code c) (code d) || (code c == code d && str_leb s t)

unfoldable pub insert_name : String → List String → List String
unfolding str_leb
insert_name s [] = s ∷ []
insert_name s (t ∷ ts) = let rest = insert_name s ts in if str_leb s t then s ∷ t ∷ ts else t ∷ rest

-- `sort.Strings`
unfoldable pub sort_names : List String → List String
unfolding insert_name
sort_names [] = []
sort_names (s ∷ ss) = insert_name s (sort_names ss)

pub data MigrationError : Type 0 where
  unreadable_directory : MigrationError
  unreadable_file migration_failed : String → MigrationError

-- What `RunMigrations` calls. `accepts` says whether the database runs a script after those that it
-- has run before, and `delivery` how the call ends that sends it there; a script with several
-- statements is one transaction.
pub record Migrator : Type 0 where
  pub read_dir : String → Option (List String)
  -- `os.ReadFile(filepath.Join(dir, name))`
  pub read_file : String → String → Option String
  pub accepts : List String → String → Bool
  pub delivery : List String → String → Delivery

-- The scripts that the database has run, oldest first.
abbrev pub Schema : Type 0
Schema = List String

module _ (m : Migrator) where
  -- The script at the database, for how the call ends: not sent there, or its answer lost.
  abbrev pub executed : Delivery → String → Exec Schema (Unit {0}) (Unit {0})
  executed answered sql schema =
      if m.accepts schema sql then (ok tt, schema ++ sql ∷ []) else (err tt, schema)
  executed refused sql schema = (err tt, schema)
  executed reply_lost sql schema =
      (err tt, if m.accepts schema sql then schema ++ sql ∷ [] else schema)

  -- `pool.Exec(ctx, sql)`
  abbrev pub exec_script : String → Exec Schema (Unit {0}) (Unit {0})
  exec_script sql schema = executed (m.delivery schema sql) sql schema

  -- The two `return`s of the loop, and its next round.
  abbrev pub after_file :
      String
      → (Schema → Result MigrationError (Unit {0}) × Schema)
      → Result (Unit {0}) (Unit {0}) × Schema
      → Result MigrationError (Unit {0}) × Schema
  after_file name rest (ok _, schema) = rest schema
  after_file name rest (err _, schema) = (err (migration_failed name), schema)

  abbrev pub run_file :
      String
      → (Schema → Result MigrationError (Unit {0}) × Schema)
      → Option String
      → Schema
      → Result MigrationError (Unit {0}) × Schema
  run_file name rest none schema = (err (unreadable_file name), schema)
  run_file name rest (some content) schema =
      after_file name rest (exec_script (extract_goose_up content) schema)

  -- The second `for` of `RunMigrations`.
  unfoldable pub run_files : String → List String → Exec Schema MigrationError (Unit {0})
  run_files dir [] schema = (ok tt, schema)
  run_files dir (name ∷ names) schema =
      run_file name (run_files dir names) (m.read_file dir name) schema

  abbrev pub run_entries : String → Option (List String) → Exec Schema MigrationError (Unit {0})
  run_entries dir none schema = (err unreadable_directory, schema)
  run_entries dir (some names) schema = run_files dir (sort_names (keep is_sql names)) schema

  -- `RunMigrations`
  unfoldable pub run_migrations : String → Exec Schema MigrationError (Unit {0})
  unfolding sort_names run_files
  run_migrations dir schema = run_entries dir (m.read_dir dir) schema
