-- ===== src/Base/Exec.antt =====
-- Calls that return a Go pair `(value, error)` and change some state. What was written before an
-- error stays written, so the state comes back beside the error too.
use mathlib.Core.Path.{◌≡◌, refl}
use mathlib.Core.Logic.{◌⊎◌, inl, inr}
use mathlib.Core.Bool.{Bool, true, false}
use mathlib.Core.Option.{Option, none, some}

pub data Result {ℓ} (E A : Type ℓ) : Type ℓ where
  ok : A → Result E A
  err : E → Result E A

abbrev pub Exec {ℓ} : Type ℓ → Type ℓ → Type ℓ → Type ℓ
Exec S E A = S → Result E A × S

module _ {ℓ} {S E A : Type ℓ} where
  abbrev pub pure : A → Exec S E A
  pure a s = (ok a, s)

  abbrev pub raise : E → Exec S E A
  raise e s = (err e, s)

  abbrev pub lift : Result E A → Exec S E A
  lift r s = (r, s)

  abbrev pub or_raise : Option A → E → Exec S E A
  or_raise none e s = (err e, s)
  or_raise (some a) e s = (ok a, s)

-- `if cond { return nil, e }`
abbrev pub raise_if {ℓ} : {S E : Type ℓ} → Bool → E → Exec S E (Unit {ℓ})
raise_if true e s = (err e, s)
raise_if false e s = (ok tt, s)

infixl 5 ◌>>=◌ ◌>>◌
abbrev pub ◌>>=◌ {ℓ} : {S E A B : Type ℓ} → Exec S E A → (A → Exec S E B) → Exec S E B
◌>>=◌ m f s = let (r, s') = m s in elim r [ ok a ↦ f a s' | err e ↦ (err e, s') ]

abbrev pub ◌>>◌ {ℓ} : {S E A B : Type ℓ} → Exec S E A → Exec S E B → Exec S E B
m >> k = m >>= λ _. k

-- A call whose error the caller replaces by its own.
abbrev pub map_err {ℓ} : {S E F A : Type ℓ} → (E → F) → Exec S E A → Exec S F A
map_err h m s = let (r, s') = m s in elim r [ ok a ↦ (ok a, s') | err e ↦ (err (h e), s') ]

-- A call of which the caller uses a function of the value.
abbrev pub map_ok {ℓ} : {S E A B : Type ℓ} → (A → B) → Exec S E A → Exec S E B
map_ok h m s = let (r, s') = m s in elim r [ ok a ↦ (ok (h a), s') | err e ↦ (err e, s') ]

pub Result-cases {ℓ} :
    {E A : Type ℓ} (r : Result E A) → ((e : E) × (r ≡ err e)) ⊎ ((a : A) × (r ≡ ok a))
Result-cases (ok a) = inr (a, refl)
Result-cases (err e) = inl (e, refl)
