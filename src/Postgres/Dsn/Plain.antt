-- ===== src/Postgres/Dsn/Plain.antt =====
-- Where the two connection strings (db/postgres.go and cmd/server/main.go) agree.
use Prim.Native.Char.{code}
use Prim.Native.String.{◌++◌}
use mathlib.Core.Path.{subst}
use text.Mathlib.TextLemmas.{nil-append, cons-append, append_assoc}
use temporal_durable_event_p.Base.{
  ℕ, zero, suc, String, true, false, ◌≡◌, refl, arith, is_empty, Bool-cases, str_eq, ltb, inl, ◌%◌,
  inr, ◌/◌, any, eq_iff,
}
use temporal_durable_event_p.Base.Int.{ℤ, pos, negsuc}
use temporal_durable_event_p.Config.{DatabaseConfig}
use temporal_durable_event_p.Postgres.Dsn.{
  Mode, escape, is_unreserved, dsn, conn_str, join_host_port, slash_path, is_one_of,
}
use temporal_durable_event_p.Base.Decimal.{char_of, digits, itoa}
use temporal_durable_event_p.Base.Text.{codes}

-- Only letters, digits and `-_.~`.
abbrev pub IsPlain : String → Type 0
IsPlain String.[] = Unit
IsPlain (String.◌∷◌ c s) = (is_unreserved (code c) ≡ true) × IsPlain s

escape-IsPlain : (mode : Mode) (s : String) → IsPlain s → escape mode s ≡ s
unfolding escape
escape-IsPlain mode String.[] h = refl
escape-IsPlain mode (String.◌∷◌ c s) h = rw (h.0, escape-IsPlain mode s h.1) refl

pub char_of-unreserved :
    (s : String) (d : ℕ) → IsPlain s → is_unreserved (code (char_of s d)) ≡ true
char_of-unreserved String.[] d h = refl
char_of-unreserved (String.◌∷◌ c s) zero h = h.0
char_of-unreserved (String.◌∷◌ c s) (suc d) h = char_of-unreserved s d h.1

digit_unreserved : (d : ℕ) → is_unreserved (code (char_of "0123456789" d)) ≡ true
digit_unreserved d = char_of-unreserved "0123456789" d (ground arith)

digits-IsPlain : (fuel n : ℕ) (rest : String) → IsPlain rest → IsPlain (digits fuel n rest)
unfolding digits
digits-IsPlain zero n rest h = h
digits-IsPlain (suc fuel) n rest h = elim (Bool-cases (ltb n 10)) [
  | inl last ↦ rw last (digit_unreserved (n % 10), h)
  | inr more ↦ rw more (
      digits-IsPlain fuel (n / 10) (String.◌∷◌ (char_of "0123456789" (n % 10)) rest)
        (digit_unreserved (n % 10), h))
]

itoa-IsPlain : (i : ℤ) → IsPlain (itoa i)
unfolding itoa
itoa-IsPlain (pos n) = digits-IsPlain (suc n) n "" tt
itoa-IsPlain (negsuc n) = (refl, digits-IsPlain (suc (suc n)) (suc n) "" tt)

no_colon : (h : String) → IsPlain h → any (λ c. is_one_of ":%" c) (codes h) ≡ false
no_colon String.[] h = refl
no_colon (String.◌∷◌ c s) h = ground (arith, no_colon s h.1)

escape_append : (mode : Mode) (s t : String) → IsPlain s → escape mode (s ++ t) ≡ s ++ escape mode t
unfolding escape
escape_append mode String.[] t h = rw (nil-append t, nil-append (escape mode t)) refl
escape_append mode (String.◌∷◌ c s) t h =
    rw (cons-append c s t, cons-append c s (escape mode t), h.0, escape_append mode s t h.1) refl

escape_port : (port : String) → IsPlain port → escape Mode.host (":" ++ port) ≡ ":" ++ port
unfolding escape
escape_port port h =
    rw (cons-append ":" "" port, nil-append port, escape-IsPlain Mode.host port h) refl

-- A host of plain characters with its port.
host-IsPlain :
    (h port : String)
    → IsPlain h
    → IsPlain port
    → escape Mode.host (join_host_port h port) ≡ h ++ (":" ++ port)
unfolding join_host_port
host-IsPlain h port ph pp =
    rw (no_colon h ph, escape_append Mode.host h (":" ++ port) ph, escape_port port pp) refl

not_star : (name : String) → IsPlain name → str_eq name "*" ≡ false
not_star name p = elim (Bool-cases (str_eq name "*")) [
  | inr other ↦ other
  | inl star ↦ absurd (plain_star name p ((eq_iff name "*").0 star))
]
  where
    plain_star : (name : String) → IsPlain name → name ≡ "*" → ⊥
    plain_star name p e = let q : IsPlain "*" = subst IsPlain e p in cc (q.0)

path-IsPlain :
    (name : String) → IsPlain name → is_empty name ≡ false → slash_path name ≡ "/" ++ name
path-IsPlain String.[] p n = cc
path-IsPlain (String.◌∷◌ c s) p n =
    let other : is_one_of "/" (code c) ≡ false = ground (arith, p.0) in
    rw (n, other, not_star (String.◌∷◌ c s) p, escape-IsPlain Mode.path (String.◌∷◌ c s) p) refl

-- Where the host, the user, the name, the password and the SSL mode have only letters, digits and
-- `-_.~`, and the name is not empty, the listener connects by the string that the pool connects by.
pub conn_str-eq-dsn :
    (cfg : DatabaseConfig)
    → IsPlain cfg.host
    → IsPlain cfg.user
    → IsPlain cfg.password
    → IsPlain cfg.name
    → is_empty cfg.name ≡ false
    → IsPlain cfg.ssl_mode
    → conn_str cfg ≡ dsn cfg
unfolding conn_str dsn
conn_str-eq-dsn cfg h u p n named s =
    rw
      (
        escape-IsPlain Mode.user_password cfg.user u,
        escape-IsPlain Mode.user_password cfg.password p,
        host-IsPlain cfg.host (itoa cfg.port) h (itoa-IsPlain cfg.port),
        path-IsPlain cfg.name n named,
        escape-IsPlain Mode.query_component cfg.ssl_mode s,
        append_assoc,
        append_assoc,
        append_assoc,
      )
      refl
