-- ===== src/Pipeline/Growth.antt =====
-- What the steps of the abstract outbox never take away.
use temporal_durable_event_p.Base.{ℕ, String, List, [], ◌∷◌, ◌++◌, map, ◌≡◌, refl, sym, ◌∙◌, arith}
use mathlib.Core.List.{append_assoc, append-nil}
use temporal_durable_event_p.Pgtype.{Uuid}
use temporal_durable_event_p.Repository.Db.{StatusEnum}
use temporal_durable_event_p.Handler.Rpc.{Codec}
use temporal_durable_event_p.Pipeline.Spec.{
  Outbox, Item, set_item, Step, create, publish, mark, Steps, here, then,
}

abbrev pub ids : List Item → List ℕ
ids items = map (λ (i : Item). i.id) items

-- The ids in their order and the published keys are kept, with others after them.
abbrev pub Grows : Outbox → Outbox → Type 0
Grows s t =
    ((new : List ℕ) × (ids t.items ≡ ids s.items ++ new))
    × ((keys : List String) × (t.published ≡ s.published ++ keys))

pub ids-append : (items : List Item) (i : Item) → ids (items ++ i ∷ []) ≡ ids items ++ i.id ∷ []
ids-append [] i = refl
ids-append (x ∷ items) i = rw (ids-append items i) refl

pub ids-set_item :
    (u : Uuid) (s : StatusEnum) (items : List Item) → ids (set_item u s items) ≡ ids items
ids-set_item u s [] = refl
ids-set_item u s (i ∷ items) = ground (arith, ids-set_item u s items)

Grows-refl : (s : Outbox) → Grows s s
Grows-refl s = (([], sym (append-nil (ids s.items))), ([], sym (append-nil s.published)))

Grows-trans : (s t u : Outbox) → Grows s t → Grows t u → Grows s u
Grows-trans s t u ((a, ea), (b, eb)) ((c, ec), (d, ed)) = (
  (a ++ c, rw (ec, ea) (append_assoc (ids s.items) a c)),
  (b ++ d, rw (ed, eb) (append_assoc s.published b d)),
)

module _ {Struct : Type 0} (codec : Codec Struct) where
  Step-Grows : (s t : Outbox) → Step codec s t → Grows s t
  Step-Grows _ _ (create s id new) =
      ((id ∷ [], ids-append s.items _), ([], sym (append-nil s.published)))
  Step-Grows _ _ (publish s key) = (([], sym (append-nil (ids s.items))), (key ∷ [], refl))
  Step-Grows _ _ (mark s u status sent) = (
    ([], ids-set_item u status s.items ∙ sym (append-nil (ids s.items))),
    ([], sym (append-nil s.published)),
  )

  pub Steps-Grows : (s t : Outbox) → Steps codec s t → Grows s t
  Steps-Grows s _ here = Grows-refl s
  Steps-Grows s _ (then t u steps step) =
      Grows-trans s t u (Steps-Grows s t steps) (Step-Grows t u step)
