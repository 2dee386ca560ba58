-- ===== src/Pipeline/Spec.antt =====
-- What the outbox promises: an abstract view of the events and of the broker, and the steps that it
-- may take. internal/repository, internal/poller and internal/publisher are behind it.
use temporal_durable_event_p.Base.{
  ℕ, String, Bool, true, false, Option, some, List, [], ◌∷◌, ◌++◌, map, any, ◌==◌, str_eq, ◌≡◌,
  if◌then◌else◌,
}
use temporal_durable_event_p.Pgtype.{Uuid}
use temporal_durable_event_p.Repository.Db.{EventRow, StatusEnum, equals}
use temporal_durable_event_p.World.{World, Record}
use temporal_durable_event_p.Handler.Rpc.{Codec}

-- An event, without its payload and its times.
pub record Item : Type 0 where
  pub id : ℕ
  pub status : Option StatusEnum

-- The events in the order of their insertion, and the keys that were published.
pub record Outbox : Type 0 where
  pub items : List Item
  pub published : List String

abbrev pub item_of : EventRow → Item
item_of r = record { id = r.id; status = r.status }

abbrev pub view : World → Outbox
view w = record { items = map item_of w.db.events; published = map (λ (r : Record). r.key) w.log }

abbrev pub has_item : ℕ → List Item → Bool
has_item k items = any (λ (i : Item). i.id == k) items

abbrev pub has_key : String → List String → Bool
has_key key keys = any (λ k. str_eq k key) keys

abbrev pub set_item : Uuid → StatusEnum → List Item → List Item
set_item u s [] = []
set_item u s (i ∷ items) =
    (if equals u i.id then record i { status = some s } else i) ∷ set_item u s items

module _ {Struct : Type 0} (codec : Codec Struct) where
  -- Every event that the id names has been published.
  abbrev pub IsSent : Uuid → Outbox → Type 0
  IsSent u s = (id : ℕ) → equals u id ≡ true → has_key (codec.uuid_text id) s.published ≡ true

  -- A step creates an event that is new and pending, publishes a key, or changes the status of an
  -- event, which it completes only after it was published.
  pub data Step : Outbox → Outbox → Type 0 where
    create :
        (s : Outbox) (id : ℕ)
        → has_item id s.items ≡ false
        → Step s (record s {
          items = s.items ++ record { id = id; status = some StatusEnum.pending } ∷ [];
        })
    publish :
        (s : Outbox) (key : String) → Step s (record s { published = s.published ++ key ∷ [] })
    mark :
        (s : Outbox) (u : Uuid) (status : StatusEnum)
        → (status ≡ StatusEnum.completed → IsSent u s)
        → Step s (record s { items = set_item u status s.items })

  -- Any number of steps.
  pub data Steps (s : Outbox) : Outbox → Type 0 where
    here : Steps s s
    then : (t u : Outbox) → Steps s t → Step t u → Steps s u
