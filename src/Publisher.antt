-- ===== src/Publisher.antt =====
-- internal/publisher/redpanda.go: the publisher over a broker.
use Prim.Native.Char.{code}
use temporal_durable_event_p.Base.{
  suc, String, Bool, true, ◌&&◌, ◌||◌, Option, List, [], ◌∷◌, ◌++◌, if◌then◌else◌, false,
}
use temporal_durable_event_p.Base.Text.{is_space}
use temporal_durable_event_p.Base.Exec.{Exec, Result, ok, err}
use temporal_durable_event_p.Repository.Db.{Delivery, answered, refused, reply_lost}
use temporal_durable_event_p.World.{World, Record, Network}

-- `strings.TrimSpace(s) == ""`
unfoldable pub is_blank : String → Bool
is_blank String.[] = true
is_blank (String.◌∷◌ c s) = is_space (code c) && is_blank s

pub data PublisherError : Type 0 where
  no_brokers empty_address client_failed produce_failed : PublisherError

abbrev pub any_blank : List String → Bool
any_blank [] = false
any_blank (b ∷ bs) = is_blank b || any_blank bs

-- `NewRedpandaPublisher`; `client` says whether `kgo.NewClient` succeeds.
unfoldable pub new_redpanda_publisher :
    (List String → Bool) → List String → Result PublisherError (Unit {0})
unfolding is_blank
new_redpanda_publisher client [] = err no_brokers
new_redpanda_publisher client (b ∷ bs) =
    if any_blank (b ∷ bs)
    then err empty_address
    else if client (b ∷ bs)
    then ok tt
    else err client_failed

-- The broker's answer to a record.
abbrev pub append_record : Record → World → World
append_record r w = record w { log = w.log ++ r ∷ [] }

abbrev pub produce : Delivery → Record → Exec World PublisherError (Unit {0})
produce answered r w = (ok tt, append_record r w)
produce refused r w = (err produce_failed, w)
produce reply_lost r w = (err produce_failed, append_record r w)

-- `Publish`: one record, sent and awaited. The deadline of 30 seconds is one way for the request
-- to fail.
unfoldable pub publish :
    Network → String → String → Option String → Exec World PublisherError (Unit {0})
publish network topic key value w =
    produce (network.produce w.produced) (record { topic = topic; key = key; value = value })
      (record w { produced = suc w.produced })
