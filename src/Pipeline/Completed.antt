-- ===== src/Pipeline/Completed.antt =====
-- Completed events and published keys in the abstract outbox, and in the world that it views
-- (internal/poller/outbox.go over internal/repository and internal/publisher).
use temporal_durable_event_p.Base.{
  ℕ, String, true, some, List, [], ◌∷◌, ◌++◌, map, ◌≡◌, arith, refl, Bool-cases, inl, inr, sym, ◌∙◌,
}
use temporal_durable_event_p.Pgtype.{Uuid}
use temporal_durable_event_p.Repository.Db.{EventRow, StatusEnum, equals}
use temporal_durable_event_p.World.{World, Record}
use temporal_durable_event_p.Handler.Rpc.{Codec}
use temporal_durable_event_p.Pipeline.Delivered.{IsDelivered, RowsDelivered, is_published}
use temporal_durable_event_p.Pipeline.Spec.{
  Item, Outbox, Step, Steps, create, publish, mark, here, then, has_key, set_item, item_of, view,
}

module _ {Struct : Type 0} (codec : Codec Struct) where
  -- The key of each completed event is among the keys.
  abbrev AreSent : List String → List Item → Type 0
  AreSent keys [] = Unit
  AreSent keys (i ∷ items) =
      (i.status ≡ some StatusEnum.completed → has_key (codec.uuid_text i.id) keys ≡ true)
      × AreSent keys items

  has_key-append_other :
      (key other : String) (keys : List String)
      → has_key key keys ≡ true
      → has_key key (keys ++ other ∷ []) ≡ true
  has_key-append_other key other [] h = cc
  has_key-append_other key other (k ∷ keys) h =
      let rest : has_key key keys ≡ true → has_key key (keys ++ other ∷ []) ≡ true =
        has_key-append_other key other keys in
      ground (arith, rest)

  AreSent-publish :
      (key : String) (keys : List String) (items : List Item)
      → AreSent keys items
      → AreSent (keys ++ key ∷ []) items
  AreSent-publish key keys [] h = tt
  AreSent-publish key keys (i ∷ items) h = (
    λ e. has_key-append_other (codec.uuid_text i.id) key keys (h.0 e),
    AreSent-publish key keys items h.1,
  )

  AreSent-create :
      (id : ℕ) (keys : List String) (items : List Item)
      → AreSent keys items
      → AreSent keys (items ++ record { id = id; status = some StatusEnum.pending } ∷ [])
  AreSent-create id keys [] h = (λ e. cc, tt)
  AreSent-create id keys (i ∷ items) h = (h.0, AreSent-create id keys items h.1)

  AreSent-mark :
      (u : Uuid) (s : StatusEnum) (keys : List String) (items : List Item)
      → (s ≡ StatusEnum.completed
          → (id : ℕ) → equals u id ≡ true
          → has_key (codec.uuid_text id) keys ≡ true)
      → AreSent keys items
      → AreSent keys (set_item u s items)
  AreSent-mark u s keys [] p h = tt
  AreSent-mark u s keys (i ∷ items) p h =
      let rest = AreSent-mark u s keys items p h.1 in
      elim (Bool-cases (equals u i.id)) [
        | inl same ↦ rw same (λ e. p (ground arith) i.id same, rest)
        | inr other ↦ rw other (h.0, rest)
      ]

  Step-AreSent :
      (s t : Outbox) → Step codec s t → AreSent s.published s.items → AreSent t.published t.items
  Step-AreSent s _ (create _ id new) h = AreSent-create id s.published s.items h
  Step-AreSent s _ (publish _ key) h = AreSent-publish key s.published s.items h
  Step-AreSent s _ (mark _ u status sent) h = AreSent-mark u status s.published s.items sent h

  Steps-AreSent :
      (s t : Outbox) → Steps codec s t → AreSent s.published s.items → AreSent t.published t.items
  Steps-AreSent s _ here h = h
  Steps-AreSent s _ (then t u steps step) h = Step-AreSent t u step (Steps-AreSent s t steps h)

  has_key-is_published :
      (id : ℕ) (log : List Record)
      → has_key (codec.uuid_text id) (map (λ (r : Record). r.key) log) ≡ is_published codec id log
  has_key-is_published id [] = refl
  has_key-is_published id (r ∷ log) = ground (arith, has_key-is_published id log)

  RowsDelivered-AreSent :
      (log : List Record) (rows : List EventRow)
      → RowsDelivered codec log rows
      → AreSent (map (λ (r : Record). r.key) log) (map item_of rows)
  RowsDelivered-AreSent log [] h = tt
  RowsDelivered-AreSent log (r ∷ rows) h =
      (λ e. has_key-is_published r.id log ∙ h.0 e, RowsDelivered-AreSent log rows h.1)

  AreSent-RowsDelivered :
      (log : List Record) (rows : List EventRow)
      → AreSent (map (λ (r : Record). r.key) log) (map item_of rows)
      → RowsDelivered codec log rows
  AreSent-RowsDelivered log [] h = tt
  AreSent-RowsDelivered log (r ∷ rows) h =
      (λ e. sym (has_key-is_published r.id log) ∙ h.0 e, AreSent-RowsDelivered log rows h.1)

  -- A world whose view is reached by steps keeps every completed event published.
  pub Steps-IsDelivered :
      (w w' : World) → Steps codec (view w) (view w') → IsDelivered codec w → IsDelivered codec w'
  Steps-IsDelivered w w' steps h =
      AreSent-RowsDelivered w'.log w'.db.events
        (Steps-AreSent (view w) (view w') steps (RowsDelivered-AreSent w.log w.db.events h))
