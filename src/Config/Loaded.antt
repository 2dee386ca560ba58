-- ===== src/Config/Loaded.antt =====
-- What a configuration satisfies that `Config.Load` (shared/pkg/config.go) has accepted.
use temporal_durable_event_p.Base.{
  String, true, false, some, [], ◌≡◌, ◌≢◌, is_empty, arith, sym, ◌⊎◌, inl, inr, Bool-cases,
  Option-cases,
}
use text.Mathlib.TextEquality.{eq_iff}
use mathlib.Core.Path.{subst}
use mathlib.Core.Bool.{false≢true}
use temporal_durable_event_p.Base.Exec.{ok}
use temporal_durable_event_p.Config.{
  Config, Environment, load, needs_password, get_env, check_config,
}

-- The configuration with another password.
abbrev pub with_password : String → Config → Config
with_password password c = record {
  server_config = c.server_config;
  database_config = record (c.database_config) { password = password };
  redpanda_config = c.redpanda_config;
}

needs_password-given : (p : String) → needs_password p ≡ false → (p ≢ "") × (p ≢ "${DB_PASSWORD}")
needs_password-given p h = (
  λ e. false≢true (sym (subst (λ q. needs_password q ≡ false) e h)),
  λ e. false≢true (sym (subst (λ q. needs_password q ≡ false) e h)),
)

needs_password-missing : (p : String) → needs_password p ≡ true → (p ≡ "") ⊎ (p ≡ "${DB_PASSWORD}")
needs_password-missing p h = elim (Bool-cases (is_empty p)) [
  | inl empty ↦ inl ((eq_iff p "").0 empty)
  | inr full ↦ inr ((eq_iff p "${DB_PASSWORD}").0 (ground (arith, full)))
]

-- The same for the checks on a decoded configuration.
abbrev IsAccepted : Environment → Config → Config → Type 0
IsAccepted env c' c =
    (c'.redpanda_config.brokers ≢ [])
    × (is_empty c'.redpanda_config.topic_prefix ≡ false)
    × ((((c.database_config.password ≢ "") × (c.database_config.password ≢ "${DB_PASSWORD}"))
          × (c' ≡ c))
        ⊎ (((c.database_config.password ≡ "") ⊎ (c.database_config.password ≡ "${DB_PASSWORD}"))
            × (c' ≡ with_password (get_env env "DB_PASSWORD") c)))

check_config-IsAccepted :
    (env : Environment) (c : Config)
    → (check_config env c).0 ≡ ok tt
    → IsAccepted env (check_config env c).1 c
unfolding check_config
check_config-IsAccepted env c h = elim (Bool-cases (needs_password c.database_config.password)) [
  | inl missing ↦ (
    λ e. ground arith,
    ground arith,
    inr (needs_password-missing c.database_config.password missing, ground arith),
  )
  | inr given ↦ (
    λ e. ground arith,
    ground arith,
    inl (needs_password-given c.database_config.password given, ground arith),
  )
]

-- After `Load` has returned no error there is a broker, the topic prefix is not empty, and the
-- configuration is that of the file, but for a missing or placeholder password, which is the
-- environment's; in particular the placeholder is kept only if the environment holds it.
pub load-accepted :
    (env : Environment) (path : String) (c : Config)
    → (load env path c).0 ≡ ok tt
    → let c' = (load env path c).1 in
      (text : String) × (env.read_file path ≡ some text)
      × (c'.redpanda_config.brokers ≢ [])
      × (is_empty c'.redpanda_config.topic_prefix ≡ false)
      × (let read = (env.unmarshal text c).1 in
          let password = read.database_config.password in
          (((password ≢ "") × (password ≢ "${DB_PASSWORD}")) × (c' ≡ read))
          ⊎ (((password ≡ "") ⊎ (password ≡ "${DB_PASSWORD}"))
              × (c' ≡ with_password (get_env env "DB_PASSWORD") read)))
unfolding load
load-accepted env path c h = elim (Option-cases (env.read_file path)) [
  | inl gone ↦ absurd (ground arith)
  | inr (text, found) ↦
      let (failed, read) = env.unmarshal text c in
      let accepted : IsAccepted env (check_config env read).1 read =
        check_config-IsAccepted env read (ground arith) in
      let same : (load env path c).1 ≡ (check_config env read).1 = ground arith in
      (text, found, rw same accepted.0, rw same accepted.1, rw same accepted.2)
]
