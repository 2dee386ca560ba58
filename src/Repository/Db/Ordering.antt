-- ===== src/Repository/Db/Ordering.antt =====
-- `ORDER BY` of the statements in internal/repository: an ordered rearrangement of the rows.
use temporal_durable_event_p.Base.{
  ℕ, List, [], ◌∷◌, arith, Bool, ◌≤◌, take, Bool-cases, any, suc, ◌≡◌, length, true, refl, zero,
  ◌||◌, leb, inl, keep, inr, map,
}
use mathlib.Core.List.{Perm}
use temporal_durable_event_p.Repository.Db.{order_asc, insert_asc, order_desc, insert_desc}
use mathlib.Core.List.Perm

-- Every row passes a test that its statement states.
abbrev pub All {ℓ} : {A : Type 0} → (A → Type ℓ) → List A → Type ℓ
All P [] = Unit
All P (x ∷ xs) = P x × All P xs

pub All-map {ℓ κ} :
    {A : Type 0} {P : A → Type ℓ} {Q : A → Type κ} (xs : List A)
    → ((x : A) → P x → Q x)
    → All P xs
    → All Q xs
All-map [] f h = tt
All-map (x ∷ xs) f h = (f x h.0, All-map xs f h.1)

pub All-of_map {ℓ} :
    {A B : Type 0} (P : B → Type ℓ) (f : A → B) (xs : List A)
    → All (λ x. P (f x)) xs
    → All P (map f xs)
All-of_map P f [] h = tt
All-of_map P f (x ∷ xs) h = (h.0, All-of_map P f xs h.1)

-- What follows for a row from what is known of it and from the test.
pub All-keep_map :
    {A : Type 0} {P Q : A → Type 0} (p : A → Bool) (xs : List A)
    → ((x : A) → P x → p x ≡ true → Q x)
    → All P xs
    → All Q (keep p xs)
All-keep_map p [] f h = tt
All-keep_map p (x ∷ xs) f h = elim (Bool-cases (p x)) [
  | inl y ↦ rw y (f x h.0 y, All-keep_map p xs f h.1)
  | inr n ↦ rw n (All-keep_map p xs f h.1)
]

pub All-keep :
    {A : Type 0} (P : A → Type 0) (p : A → Bool) (xs : List A)
    → ((x : A) → p x ≡ true → P x)
    → All P (keep p xs)
All-keep P p [] h = tt
All-keep P p (x ∷ xs) h = elim (Bool-cases (p x)) [
  | inl y ↦ rw y (h x y, All-keep P p xs h)
  | inr n ↦ rw n (All-keep P p xs h)
]

pub All-take : {A : Type 0} (P : A → Type 0) (n : ℕ) (xs : List A) → All P xs → All P (take n xs)
All-take P zero xs h = tt
All-take P (suc n) [] h = tt
All-take P (suc n) (x ∷ xs) h = (h.0, All-take P n xs h.1)

module _ {R : Type 0} (key : R → ℕ) where
  -- Each key is at most the keys behind it.
  abbrev pub IsAscending : List R → Type 0
  IsAscending [] = Unit
  IsAscending (r ∷ rs) = All (λ s. key r ≤ key s) rs × IsAscending rs

  All-insert_asc :
      (P : R → Type 0) (r : R) (rs : List R) → P r → All P rs → All P (insert_asc key r rs)
  unfolding insert_asc
  All-insert_asc P r [] p h = (p, tt)
  All-insert_asc P r (s ∷ rs) p h = elim (Bool-cases (leb (key r) (key s))) [
    | inl y ↦ rw y (p, h)
    | inr n ↦ rw n (h.0, All-insert_asc P r rs p h.1)
  ]

  All-le : (a b : ℕ) (rs : List R) → a ≤ b → All (λ s. b ≤ key s) rs → All (λ s. a ≤ key s) rs
  All-le a b [] h k = tt
  All-le a b (r ∷ rs) h k = (omega (arith, k.0), All-le a b rs h k.1)

  insert_asc-IsAscending :
      (r : R) (rs : List R) → IsAscending rs → IsAscending (insert_asc key r rs)
  unfolding insert_asc
  insert_asc-IsAscending r [] h = (tt, tt)
  insert_asc-IsAscending r (s ∷ rs) h = elim (Bool-cases (leb (key r) (key s))) [
    | inl y ↦ rw y ((ground arith, All-le (key r) (key s) rs (ground arith) h.0), h)
    | inr n ↦ rw n (
      All-insert_asc (λ t. key s ≤ key t) r rs (ground arith) h.0,
      insert_asc-IsAscending r rs h.1,
    )
  ]

  -- The rows come in ascending order.
  pub order_asc-IsAscending : (rs : List R) → IsAscending (order_asc key rs)
  unfolding order_asc
  order_asc-IsAscending [] = tt
  order_asc-IsAscending (r ∷ rs) =
      insert_asc-IsAscending r (order_asc key rs) (order_asc-IsAscending rs)

  pub All-order_asc : (P : R → Type 0) (rs : List R) → All P rs → All P (order_asc key rs)
  unfolding order_asc
  All-order_asc P [] h = tt
  All-order_asc P (r ∷ rs) h = All-insert_asc P r (order_asc key rs) h.0 (All-order_asc P rs h.1)

  insert_asc-perm : (r : R) (rs : List R) → Perm (insert_asc key r rs) (r ∷ rs)
  unfolding insert_asc
  insert_asc-perm r [] = Perm.refl _
  insert_asc-perm r (s ∷ rs) = elim (Bool-cases (leb (key r) (key s))) [
    | inl y ↦ rw y (Perm.refl _)
    | inr n ↦ rw n (Perm.trans (Perm.cons s (insert_asc-perm r rs)) (Perm.swap r s rs))
  ]

  -- They are the rows that there were, each as often.
  pub order_asc-perm : (rs : List R) → Perm (order_asc key rs) rs
  unfolding order_asc
  order_asc-perm [] = Perm.refl _
  order_asc-perm (r ∷ rs) =
      Perm.trans (insert_asc-perm r (order_asc key rs)) (Perm.cons r (order_asc-perm rs))

  any-insert_asc :
      (p : R → Bool) (r : R) (rs : List R) → any p (insert_asc key r rs) ≡ (p r || any p rs)
  unfolding insert_asc
  any-insert_asc p r [] = refl
  any-insert_asc p r (s ∷ rs) = ground (arith, any-insert_asc p r rs)

  pub any-order_asc : (p : R → Bool) (rs : List R) → any p (order_asc key rs) ≡ any p rs
  unfolding order_asc
  any-order_asc p [] = refl
  any-order_asc p (r ∷ rs) = rw (any-insert_asc, any-order_asc p rs)

  length-insert_asc : (r : R) (rs : List R) → length (insert_asc key r rs) ≡ suc (length rs)
  unfolding insert_asc
  length-insert_asc r [] = refl
  length-insert_asc r (s ∷ rs) = ground (arith, length-insert_asc r rs)

  pub length-order_asc : (rs : List R) → length (order_asc key rs) ≡ length rs
  unfolding order_asc
  length-order_asc [] = refl
  length-order_asc (r ∷ rs) =
      omega (arith, length-insert_asc r (order_asc key rs), length-order_asc rs)

  length-insert_desc : (r : R) (rs : List R) → length (insert_desc key r rs) ≡ suc (length rs)
  unfolding insert_desc
  length-insert_desc r [] = refl
  length-insert_desc r (s ∷ rs) = ground (arith, length-insert_desc r rs)

  pub length-order_desc : (rs : List R) → length (order_desc key rs) ≡ length rs
  unfolding order_desc
  length-order_desc [] = refl
  length-order_desc (r ∷ rs) =
      omega (arith, length-insert_desc r (order_desc key rs), length-order_desc rs)
