-- ===== src/Tests/Data.antt =====
-- Servers and libraries that answer, in the smallest way that their descriptions allow.
use Prim.Native.String.{◌++◌}
use temporal_durable_event_p.Base.{
  ℕ, suc, zero, String, [], ◌∷◌, Option, true, some, false, if◌then◌else◌, leb, none, is_empty, ◌≡◌,
  ap, refl,
}
use temporal_durable_event_p.World.{World, Network, Conn}
use temporal_durable_event_p.Pgtype.{Numeric, Value}
use temporal_durable_event_p.Repository.Db.{EventRow, Db, Engine, answered, StatusEnum}
use temporal_durable_event_p.Base.Exec.{Result, ok}
use temporal_durable_event_p.Handler.Rpc.{Codec}
use temporal_durable_event_p.Base.Int.{pos, negsuc}
use temporal_durable_event_p.Poller.Outbox.{Payload}

-- A number as that many strokes.
abbrev pub strokes : ℕ → String
strokes zero = ""
strokes (suc n) = String.◌∷◌ "|" (strokes n)

abbrev pub count_strokes : String → ℕ
count_strokes String.[] = 0
count_strokes (String.◌∷◌ c s) = suc (count_strokes s)

abbrev pub some_numeric : Numeric
some_numeric = record { int = pos 2999; exp = negsuc 1; valid = true }

abbrev pub engine : Engine
engine = record {
  delivery = λ _. answered;
  gen_random_uuid = λ n. suc n;
  current_timestamp = λ n. n;
  locked = λ _ _. false;
  varchar = λ n s. if leb (count_strokes s) n then some s else none;
  decimal = λ n. some n;
  jsonb = λ s. some s;
  scan_numeric = λ s. if is_empty s then none else some some_numeric;
  json_build_object = λ id event_type status. strokes id;
}

abbrev pub codec : Codec String
codec = record {
  uuid_parse = λ s. some (count_strokes s);
  uuid_text = strokes;
  numeric_value = λ n. some (Value.string "29.99");
  marshal = λ s. some s;
  unmarshal = λ s. ok s;
}

abbrev pub network : Network
network = record {
  engine = engine;
  produce = λ _. answered;
  connect = λ _ _. true;
  exec = λ _. true;
  breaks = λ _. false;
}

abbrev pub unmarshal_payload : String → Option Payload
unmarshal_payload text = some (record { id = text; event_type = ""; status = "pending" })

abbrev pub hash : String → World → Result (Unit {0}) String
hash password w = ok (password ++ "#")

abbrev pub pending_row : ℕ → ℕ → EventRow
pending_row id created_at = record {
  id = id;
  event_type = "user.signup";
  payload = "{}";
  status = some StatusEnum.pending;
  created_at = created_at;
  updated_at = created_at;
  processed_at = none;
}

abbrev pub failed_row : EventRow
failed_row = record (pending_row 3 5) { status = some StatusEnum.failed; processed_at = some 6 }

abbrev pub db : Db
db = record {
  users = [];
  products = [];
  orders = [];
  order_items = [];
  events = pending_row 2 8 ∷ failed_row ∷ pending_row 1 7 ∷ [];
  notifications = [];
  statements = 20;
}

abbrev pub conn : Conn
conn = record { listening = true; seen = 0 }

abbrev pub world : World
world = record {
  db = db;
  log = [];
  produced = 0;
  pg = record { conn_str = "postgres://dev"; conn = some conn; stop_closed = false };
  dialled = 0;
  started = true;
  cancelled = false;
  stopped = false;
}

pub parses_strokes : (k : ℕ) → codec.uuid_parse (codec.uuid_text k) ≡ some k
parses_strokes zero = refl
parses_strokes (suc k) = ap (λ o. elim o [ none ↦ none | some n ↦ some (suc n) ]) (parses_strokes k)
