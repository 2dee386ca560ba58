-- ===== src/Pipeline/Distinct.antt =====
-- The ids of the events under the steps of the abstract outbox.
use temporal_durable_event_p.Base.{
  ℕ, Bool, false, List, [], ◌∷◌, ◌++◌, ◌||◌, any, ◌==◌, ◌≡◌, refl, ◌∙◌, arith,
}
use temporal_durable_event_p.Handler.Rpc.{Codec}
use temporal_durable_event_p.Pipeline.Spec.{
  Outbox, Item, has_item, Step, create, publish, mark, Steps, here, then,
}
use temporal_durable_event_p.Pipeline.Growth.{ids, ids-append, ids-set_item}

abbrev has_id : ℕ → List ℕ → Bool
has_id k ks = any (λ j. j == k) ks

-- No number occurs twice.
abbrev pub AreDistinct : List ℕ → Type 0
AreDistinct [] = Unit
AreDistinct (k ∷ ks) = (has_id k ks ≡ false) × AreDistinct ks

has_id-append : (k j : ℕ) (ks : List ℕ) → has_id k (ks ++ j ∷ []) ≡ (has_id k ks || j == k)
has_id-append k j [] = ground arith
has_id-append k j (i ∷ ks) = ground (arith, has_id-append k j ks)

AreDistinct-append :
    (ks : List ℕ) (k : ℕ) → has_id k ks ≡ false → AreDistinct ks → AreDistinct (ks ++ k ∷ [])
AreDistinct-append [] k new h = (refl, tt)
AreDistinct-append (j ∷ ks) k new h =
    (ground (arith, has_id-append j k ks, h.0), AreDistinct-append ks k (ground arith) h.1)

has_id-ids : (k : ℕ) (items : List Item) → has_id k (ids items) ≡ has_item k items
has_id-ids k [] = refl
has_id-ids k (i ∷ items) = rw (has_id-ids k items) refl

module _ {Struct : Type 0} (codec : Codec Struct) where
  Step-AreDistinct :
      (s t : Outbox) → Step codec s t → AreDistinct (ids s.items) → AreDistinct (ids t.items)
  Step-AreDistinct _ _ (create s id new) h =
      rw (ids-append s.items _)
        (AreDistinct-append (ids s.items) id (has_id-ids id s.items ∙ new) h)
  Step-AreDistinct _ _ (publish s key) h = h
  Step-AreDistinct _ _ (mark s u status sent) h = rw (ids-set_item u status s.items) h

  pub Steps-AreDistinct :
      (s t : Outbox) → Steps codec s t → AreDistinct (ids s.items) → AreDistinct (ids t.items)
  Steps-AreDistinct s _ here h = h
  Steps-AreDistinct s _ (then t u steps step) h =
      Step-AreDistinct t u step (Steps-AreDistinct s t steps h)
