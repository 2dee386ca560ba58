-- ===== src/Repository/Db/References.antt =====
-- The foreign keys of db/migrations, as an invariant of the tables, and the lemmas on rows for it.
use temporal_durable_event_p.Base.{
  ℕ, List, [], ◌∷◌, ◌++◌, Bool, true, false, not, ◌&&◌, arith, ◌≡◌, keep, any, refl, inl, inr,
  Bool-cases, ◌==◌,
}
use temporal_durable_event_p.Pgtype.{Uuid}
use temporal_durable_event_p.Repository.Db.{
  Db, UserRow, ProductRow, OrderRow, OrderItemRow, has_id, update_rows, equals,
}
use temporal_durable_event_p.Repository.Db.Ordering.{All, All-keep_map}

abbrev pub has_user : Db → ℕ → Bool
has_user db k = has_id (λ (r : UserRow). r.id) k db.users

abbrev pub has_order : Db → ℕ → Bool
has_order db k = has_id (λ (r : OrderRow). r.id) k db.orders

abbrev pub has_product : Db → ℕ → Bool
has_product db k = has_id (λ (r : ProductRow). r.id) k db.products

pub record HasReferences (db : Db) : Type 0 where
  pub users : All (λ (o : OrderRow). has_user db o.user_id ≡ true) db.orders
  pub orders : All (λ (i : OrderItemRow). has_order db i.order_id ≡ true) db.order_items
  pub products : All (λ (i : OrderItemRow). has_product db i.product_id ≡ true) db.order_items

-- Each order has its user, and each item its order and its product.
unfoldable pub IsConsistent : Db → Type 0
IsConsistent db = HasReferences db

module _ {R : Type 0} (id : R → ℕ) where
  pub has_id-append :
      (k : ℕ) (rows : List R) (r : R)
      → has_id id k rows ≡ true
      → has_id id k (rows ++ r ∷ []) ≡ true
  has_id-append k [] r h = cc
  has_id-append k (x ∷ rows) r h =
      let rest : has_id id k rows ≡ true → has_id id k (rows ++ r ∷ []) ≡ true =
        has_id-append k rows r in
      ground (arith, rest)

  pub has_id-update :
      (k : ℕ) (u : Uuid) (f : R → R) (rows : List R)
      → ((r : R) → id (f r) ≡ id r)
      → has_id id k (update_rows id u f rows) ≡ has_id id k rows
  unfolding update_rows
  has_id-update k u f [] same = refl
  has_id-update k u f (x ∷ rows) same = ground (arith, same x, has_id-update k u f rows same)

  -- A row survives the deletion of others with other ids.
  pub has_id-keep :
      (gone : R → Bool) (k : ℕ) (rows : List R)
      → has_id id k rows ≡ true
      → any (λ r. gone r && (id r == k)) rows ≡ false
      → has_id id k (keep (λ r. not (gone r)) rows) ≡ true
  has_id-keep gone k [] h n = h
  has_id-keep gone k (x ∷ rows) h n =
      let rest : has_id id k rows ≡ true
          → any (λ r. gone r && (id r == k)) rows ≡ false
          → has_id id k (keep (λ r. not (gone r)) rows) ≡ true =
        has_id-keep gone k rows in
      ground (arith, rest)

pub All-append :
    {A : Type 0} (P : A → Type 0) (xs : List A) (x : A) → All P xs → P x → All P (xs ++ x ∷ [])
All-append P [] x h p = (p, tt)
All-append P (y ∷ xs) x h p = (h.0, All-append P xs x h.1 p)

pub All-update :
    {A : Type 0} (P : A → Type 0) (id : A → ℕ) (u : Uuid) (f : A → A) (xs : List A)
    → ((x : A) → P x → P (f x))
    → All P xs
    → All P (update_rows id u f xs)
unfolding update_rows
All-update P id u f [] g h = tt
All-update P id u f (x ∷ xs) g h = elim (Bool-cases (equals u (id x))) [
  | inl y ↦ rw y (g x h.0, All-update P id u f xs g h.1)
  | inr n ↦ rw n (h.0, All-update P id u f xs g h.1)
]

pub All-kept :
    {A : Type 0} (P : A → Type 0) (p : A → Bool) (xs : List A) → All P xs → All P (keep p xs)
All-kept P p xs h = All-keep_map p xs (λ x k _. k) h

-- `ON DELETE CASCADE`: the rows that are left have the rows that they name.
pub cascade :
    {R I : Type 0} (id : R → ℕ) (key : I → ℕ) (gone : R → Bool) (rows : List R) (items : List I)
    → All (λ i. has_id id (key i) rows ≡ true) items
    → All
        (λ i. has_id id (key i) (keep (λ r. not (gone r)) rows) ≡ true)
        (keep (λ i. not (any (λ r. gone r && (id r == key i)) rows)) items)
cascade id key gone rows items h =
    All-keep_map (λ i. not (any (λ r. gone r && (id r == key i)) rows)) items
      (λ i k left. has_id-keep id gone (key i) rows k (ground arith)) h
