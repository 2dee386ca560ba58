-- ===== src/Logger.antt =====
-- shared/logger/logger.go: `New`.
use temporal_durable_event_p.Base.{String, str_eq, if◌then◌else◌}

pub data Format : Type 0 where
  json text : Format

pub data Level : Type 0 where
  debug info : Level

-- A handler on the standard output.
pub record Logger : Type 0 where
  pub format : Format
  pub level : Level

-- `New`, by the environment's name.
unfoldable pub new : String → Logger
new env =
    if str_eq env "production"
    then record { format = json; level = info }
    else if str_eq env "development"
    then record { format = text; level = debug }
    else record { format = text; level = info }
