-- ===== src/Postgres/Dsn/Delimiters.antt =====
-- The characters that delimit a user and a password in a URL, in the connection strings of
-- db/postgres.go and of cmd/server/main.go.
use Prim.Native.Char.{code, Char}
use Prim.Native.String.{◌++◌}
use text.Mathlib.TextLemmas.{append_assoc, nil-append, cons-append}
use temporal_durable_event_p.Base.{
  ℕ, String, false, List, [], ◌∷◌, ◌≡◌, refl, arith, Bool-cases, inl, inr, ◌/◌, ◌%◌, if◌then◌else◌,
  ==_refl, some, true, Option, ◌==◌, none,
}
use temporal_durable_event_p.Base.Decimal.{itoa}
use temporal_durable_event_p.Config.{DatabaseConfig}
use temporal_durable_event_p.Postgres.Dsn.{
  Mode, escape, dsn, join_host_port, slash_path, is_one_of, should_escape, percent, hex, utf8,
  conn_str,
}
use temporal_durable_event_p.Postgres.Dsn.Plain.{char_of-unreserved}

-- `@`, `/`, `?` and `:` are not in the text.
abbrev pub LacksDelimiters : String → Type 0
LacksDelimiters String.[] = Unit
LacksDelimiters (String.◌∷◌ c s) = (is_one_of "@/?:" (code c) ≡ false) × LacksDelimiters s

hex_lem : (n : ℕ) → is_one_of "@/?:" (code (hex n)) ≡ false
hex_lem n = ground (arith, char_of-unreserved "0123456789ABCDEF" n (ground arith))

percent-LacksDelimiters :
    (bytes : List ℕ) (rest : String) → LacksDelimiters rest → LacksDelimiters (percent bytes rest)
percent-LacksDelimiters [] rest h = h
percent-LacksDelimiters (b ∷ bytes) rest h =
    (refl, (hex_lem (b / 16), (hex_lem (b % 16), percent-LacksDelimiters bytes rest h)))

kept : (c : ℕ) → should_escape Mode.user_password c ≡ false → is_one_of "@/?:" c ≡ false
kept c h = ground arith

escape-LacksDelimiters : (s : String) → LacksDelimiters (escape Mode.user_password s)
unfolding escape
escape-LacksDelimiters String.[] = tt
escape-LacksDelimiters (String.◌∷◌ c s) =
    elim (Bool-cases (should_escape Mode.user_password (code c))) [
      | inl escaped ↦ rw escaped (
          percent-LacksDelimiters (utf8 (code c)) (escape Mode.user_password s)
            (escape-LacksDelimiters s))
      | inr plain ↦ rw plain (kept (code c) plain, escape-LacksDelimiters s)
    ]

abbrev pub onto : Char → Option (String × String) → Option (String × String)
onto d none = none
onto d (some (s, t)) = some (String.◌∷◌ d s, t)

-- A text before and behind the first of its characters that has a code.
abbrev pub cut : ℕ → String → Option (String × String)
cut c String.[] = none
cut c (String.◌∷◌ d s) =
    let rest = cut c s in if code d == c then some (String.[], s) else onto d rest

cut-append :
    (d : Char) (s t : String)
    → is_one_of "@/?:" (code d) ≡ true
    → LacksDelimiters s
    → cut (code d) (s ++ (String.◌∷◌ d String.[] ++ t)) ≡ some (s, t)
cut-append d String.[] t is h = rw (nil-append, cons-append, nil-append, ==_refl (code d)) refl
cut-append d (String.◌∷◌ c s) t is h =
    let other : (code c == code d) ≡ false = elim (Bool-cases (code c == code d)) [
      | inl same ↦ absurd (ground (arith, h.0))
      | inr differs ↦ differs
    ] in
    rw (cons-append, other, cut-append d s t is h.1) refl

-- In the URL of `NewPool` the first colon behind the scheme ends the escaped user, and the first `@`
-- behind that the escaped password, whatever characters the two have.
pub dsn-cut :
    (cfg : DatabaseConfig)
    → (login rest target : String) × (dsn cfg ≡ "postgres://" ++ login)
      × (cut (code ":") login ≡ some (escape Mode.user_password cfg.user, rest))
      × (cut (code "@") rest ≡ some (escape Mode.user_password cfg.password, target))
unfolding dsn
dsn-cut cfg =
    let target : String =
      escape Mode.host (join_host_port cfg.host (itoa cfg.port))
      ++ (slash_path cfg.name ++ ("?sslmode=" ++ escape Mode.query_component cfg.ssl_mode)) in
    let rest : String = escape Mode.user_password cfg.password ++ ("@" ++ target) in
    (
      escape Mode.user_password cfg.user ++ (":" ++ rest),
      rest,
      target,
      refl,
      cut-append ":" (escape Mode.user_password cfg.user) rest refl
          (escape-LacksDelimiters cfg.user),
      cut-append "@" (escape Mode.user_password cfg.password) target refl
          (escape-LacksDelimiters cfg.password),
    )

-- The string of `main` does not tell where the user ends: a colon with what follows it may belong to
-- the user or to the password.
pub conn_str_collision :
    (cfg : DatabaseConfig) (user middle password : String)
    → conn_str (record cfg { user = user ++ (":" ++ middle); password = password })
      ≡ conn_str (record cfg { user = user; password = middle ++ (":" ++ password) })
unfolding conn_str
conn_str_collision cfg user middle password =
    rw (append_assoc, append_assoc, append_assoc, append_assoc) refl
