-- ===== src/Tests/Startup.antt =====
-- Instances of the theorems about what the server needs before it starts: the migrations, the
-- configuration and the connection pool.
use Prim.Native.Char.{code}
use Prim.Native.String.{◌++◌}
use temporal_durable_event_p.Base.{
  ℕ, ◌≤◌, String, true, false, some, List, [], ◌∷◌, ◌≡◌, ◌≢◌, refl, is_empty, ◌⊎◌, not, any, str_eq,
  arith, leb, if◌then◌else◌,
}
use temporal_durable_event_p.Base.Int.{pos}
use temporal_durable_event_p.Base.Exec.{ok, err}
use mathlib.Core.List.{Perm}
use temporal_durable_event_p.Base.Text.{join_lines, split_lines, trim_space, has_prefix}
use temporal_durable_event_p.Repository.Migrations.{
  ext, extract_goose_up, Migrator, run_migrations, migration_failed,
}
use temporal_durable_event_p.Repository.Migrations.Goose.{extract_goose_up-eq}
use temporal_durable_event_p.Config.{Config, Environment, load, get_env}
use temporal_durable_event_p.Config.Loaded.{load-accepted, with_password}
use temporal_durable_event_p.Postgres.{
  Driver, Pools, wait_for_db, default_pool_options, apply_options,
}
use temporal_durable_event_p.Postgres.Dsn.{dsn, conn_str, escape}
use temporal_durable_event_p.Postgres.Dsn.Plain.{conn_str-eq-dsn}
use temporal_durable_event_p.Postgres.Dsn.Delimiters.{cut, dsn-cut, conn_str_collision}
use temporal_durable_event_p.Postgres.Waiting.{Waited, wait_for_db-Waited}
use temporal_durable_event_p.Postgres.Reaching.{wait_for_db-ok}
use temporal_durable_event_p.Repository.Migrations.Scripts.{
  run_migrations-HasRun, run_migrations_twice, HasRun, AreSorted,
}
use temporal_durable_event_p.Repository.Db.{answered}

abbrev script : String
script = "-- +goose Up\nCREATE TABLE a;\n\n-- +goose Down\nDROP TABLE a;"

extract_goose_up-eq_example : extract_goose_up script ≡ "CREATE TABLE a;"
unfolding join_lines split_lines trim_space has_prefix
extract_goose_up-eq_example = extract_goose_up-eq script

-- A directory with two scripts, on a database that refuses a script that it has run.
abbrev migrator : Migrator
migrator = record {
  read_dir = λ dir. some ("2.sql" ∷ "README.md" ∷ "1.sql" ∷ []);
  read_file = λ dir name. some (
      if str_eq name "1.sql"
      then "-- +goose Up\nCREATE TABLE a;"
      else "-- +goose Up\nCREATE TABLE b;");
  accepts = λ schema sql. not (any (λ s. str_eq s sql) schema);
  delivery = λ schema sql. answered;
}

abbrev entries : List String
entries = "2.sql" ∷ "README.md" ∷ "1.sql" ∷ []

run_migrations-HasRun_example :
    let (r, schema') = run_migrations migrator "migrations" [] in
    (names : List String) × Perm names ("2.sql" ∷ "1.sql" ∷ [])
    × AreSorted names
    × HasRun migrator "migrations" r names schema' []
unfolding ext
run_migrations-HasRun_example = run_migrations-HasRun migrator "migrations" entries [] refl

run_migrations_twice_example :
    let schema' = (run_migrations migrator "migrations" []).1 in
    run_migrations migrator "migrations" schema' ≡ (err (migration_failed "1.sql"), schema')
unfolding run_migrations extract_goose_up split_lines trim_space has_prefix join_lines ext
run_migrations_twice_example =
    run_migrations_twice migrator "migrations" entries "1.sql" ("2.sql" ∷ []) [] refl refl
      (λ schema sql h. rw h refl) refl

abbrev pub environment : Environment
environment = record {
  read_file = λ path. some "";
  lookup_env = λ key. some "secret";
  unmarshal = λ text c. (false, c);
}

abbrev pub config : Config
config = record {
  server_config = record { port = pos 50051; env = "development" };
  database_config = record {
    host = "db";
    port = pos 5432;
    user = "app";
    ssl_mode = "disable";
    name = "events";
    password = "${DB_PASSWORD}";
  };
  redpanda_config = record { brokers = "localhost:9092" ∷ []; topic_prefix = "events" };
}

load-accepted_example :
    let c' = (load environment "config.yaml" config).1 in
    (text : String) × (environment.read_file "config.yaml" ≡ some text)
    × (c'.redpanda_config.brokers ≢ [])
    × (is_empty c'.redpanda_config.topic_prefix ≡ false)
    × (let read = (environment.unmarshal text config).1 in
        let password = read.database_config.password in
        (((password ≢ "") × (password ≢ "${DB_PASSWORD}")) × (c' ≡ read))
        ⊎ (((password ≡ "") ⊎ (password ≡ "${DB_PASSWORD}"))
            × (c' ≡ with_password (get_env environment "DB_PASSWORD") read)))
unfolding load
load-accepted_example = load-accepted environment "config.yaml" config refl

conn_str-eq-dsn_example :
    ◌≡◌ {A = String} "postgres://app:pw@db:5432/events?sslmode=disable"
      (dsn (record (config.database_config) { password = "pw" }))
unfolding conn_str
conn_str-eq-dsn_example =
    conn_str-eq-dsn (record (config.database_config) { password = "pw" }) (refl, (refl, tt))
      (refl, (refl, (refl, tt))) (refl, (refl, tt))
      (refl, (refl, (refl, (refl, (refl, (refl, tt)))))) refl
      (refl, (refl, (refl, (refl, (refl, (refl, (refl, tt)))))))

dsn-cut_example :
    (login rest target : String) × (dsn
        (record (config.database_config) { user = "a:b"; password = "p@ss/word" })
      ≡ "postgres://" ++ login)
    × (cut (code ":") login ≡ some ("a%3Ab", rest))
    × (cut (code "@") rest ≡ some ("p%40ss%2Fword", target))
unfolding escape
dsn-cut_example = dsn-cut (record (config.database_config) { user = "a:b"; password = "p@ss/word" })

conn_str_collision_example :
    conn_str (record (config.database_config) { user = "a:b"; password = "c" })
    ≡ conn_str (record (config.database_config) { user = "a"; password = "b:c" })
conn_str_collision_example = conn_str_collision config.database_config "a" "b" "c"

-- A database that answers the second ping.
abbrev pub driver : Driver
driver = record {
  parse_config = λ text. some (record {
    max_conns = pos 4;
    min_conns = pos 0;
    max_conn_lifetime = 0;
    max_conn_idle_time = 0;
    health_check_period = 0;
  });
  creates = λ n c. true;
  pings = λ n. leb 1 n;
  done = λ n. false;
}

abbrev pub no_pools : Pools
no_pools = record { made = 0; opened = []; waits = 0 }

wait_for_db-Waited_example :
    let (r, s') =
      wait_for_db driver config.database_config (pos 10) default_pool_options no_pools in
    Waited driver 10 no_pools r s'
wait_for_db-Waited_example =
    wait_for_db-Waited driver config.database_config default_pool_options 10 no_pools tt

wait_for_db-ok_example :
    (id : ℕ) × (id ≤ 1)
    × ((wait_for_db driver config.database_config (pos 10) default_pool_options no_pools).0
        ≡ ok (record {
          id = id;
          config = apply_options default_pool_options (record {
            max_conns = pos 4;
            min_conns = pos 0;
            max_conn_lifetime = 0;
            max_conn_idle_time = 0;
            health_check_period = 0;
          });
        }))
wait_for_db-ok_example =
    wait_for_db-ok driver config.database_config default_pool_options _ refl (λ k. refl) 10 1
      no_pools (omega arith) (omega arith) (refl, refl)
