-- ===== src/Config.antt =====
-- shared/pkg/config.go: the configuration, and `Config.Load`. The files, the environment and
-- `yaml.Unmarshal` are parameters; `getEnvOrDefault` of the two programs stands here too.
pub mod Loaded
use temporal_durable_event_p.Base.{
  String, Bool, ◌||◌, Option, none, some, List, [], ◌∷◌, str_eq, is_empty, if◌then◌else◌,
}
use temporal_durable_event_p.Base.Int.{ℤ}
use temporal_durable_event_p.Base.Exec.{Exec, Result, ok, err}

pub record ServerConfig : Type 0 where
  pub port : ℤ
  pub env : String

pub record DatabaseConfig : Type 0 where
  pub host : String
  pub port : ℤ
  pub user : String
  pub ssl_mode : String
  pub name : String
  pub password : String

pub record RedpandaConfig : Type 0 where
  pub brokers : List String
  pub topic_prefix : String

pub record Config : Type 0 where
  pub server_config : ServerConfig
  pub database_config : DatabaseConfig
  pub redpanda_config : RedpandaConfig

pub data ConfigError : Type 0 where
  unreadable_file malformed no_brokers no_topic_prefix : ConfigError

-- What `Load` asks of its surroundings. `unmarshal` returns the error, if any, and the value as the
-- decoder has left it.
pub record Environment : Type 0 where
  pub read_file : String → Option String
  pub lookup_env : String → Option String
  pub unmarshal : String → Config → Bool × Config

-- `os.Getenv`
abbrev pub get_env : Environment → String → String
get_env env key = elim (env.lookup_env key) [ none ↦ "" | some value ↦ value ]

-- `getEnvOrDefault` of cmd/server/main.go and cmd/client/main.go
unfoldable pub get_env_or_default : Environment → String → String → String
get_env_or_default env key default = elim (env.lookup_env key) [
  | none ↦ default
  | some value ↦ value
]

-- A password that is missing or left as a placeholder comes from the environment.
abbrev pub needs_password : String → Bool
needs_password password = is_empty password || str_eq password "${DB_PASSWORD}"

abbrev pub set_password : String → Config → Config
set_password password c = record c {
  database_config = record (c.database_config) { password = password };
}

abbrev no_brokers_left : List String → Bool
no_brokers_left [] = Bool.true
no_brokers_left (b ∷ bs) = Bool.false

-- `Load` after `yaml.Unmarshal` has returned no error.
unfoldable pub check_config : Environment → Exec Config ConfigError (Unit {0})
check_config env c =
    if no_brokers_left c.redpanda_config.brokers
    then (err no_brokers, c)
    else if is_empty c.redpanda_config.topic_prefix
    then (err no_topic_prefix, c)
    else if needs_password c.database_config.password
    then (ok tt, set_password (get_env env "DB_PASSWORD") c)
    else (ok tt, c)

abbrev check_decoded : Environment → Bool × Config → Result ConfigError (Unit {0}) × Config
check_decoded env (failed, c) = if failed then (err malformed, c) else check_config env c

abbrev decode : Environment → Option String → Exec Config ConfigError (Unit {0})
decode env none c = (err unreadable_file, c)
decode env (some text) c = check_decoded env (env.unmarshal text c)

-- `Load`
unfoldable pub load : Environment → String → Exec Config ConfigError (Unit {0})
unfolding check_config
load env path c = decode env (env.read_file path) c
