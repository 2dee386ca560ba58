-- ===== src/Postgres/Dsn.antt =====
-- The connection strings: `NewPool` of db/postgres.go by net/url, and cmd/server/main.go by
-- `fmt.Sprintf`.
pub mod Plain
pub mod Delimiters
use Prim.Native.Char.{Char, code}
use Prim.Native.String.{◌++◌}
use temporal_durable_event_p.Base.{
  ℕ, zero, suc, ◌+◌, ◌/◌, ◌%◌, String, Bool, true, false, not, ◌&&◌, ◌||◌, List, [], ◌∷◌, ◌==◌, leb,
  ltb, is_empty, any, if◌then◌else◌, str_eq,
}
use temporal_durable_event_p.Base.Text.{codes}
use temporal_durable_event_p.Base.Int.{ℤ}
use temporal_durable_event_p.Base.Decimal.{char_of, itoa}
use temporal_durable_event_p.Config.{DatabaseConfig}

-- The parts of a URL for which net/url escapes.
pub data Mode : Type 0 where
  host path user_password query_component : Mode

abbrev is_alphanumeric : ℕ → Bool
is_alphanumeric c =
    (leb b'a' c && leb c b'z') || (leb b'A' c && leb c b'Z') || (leb b'0' c && leb c b'9')

abbrev pub is_one_of : String → ℕ → Bool
is_one_of s c = any (λ d. d == c) (codes s)

-- Letters, digits and `-_.~`, which are never escaped.
abbrev pub is_unreserved : ℕ → Bool
is_unreserved c = is_alphanumeric c || is_one_of "-_.~" c

abbrev reserved_escape : Mode → ℕ → Bool
reserved_escape host c = true
reserved_escape path c = c == b'?'
reserved_escape user_password c = is_one_of "@/?:" c
reserved_escape query_component c = true

abbrev host_keeps : Mode → ℕ → Bool
host_keeps host c = is_one_of "!$&'()*+,;=:[]<>\"" c
host_keeps _ c = false

-- `shouldEscape` of net/url
abbrev pub should_escape : Mode → ℕ → Bool
should_escape mode c =
    if is_unreserved c
    then false
    else if host_keeps mode c
    then false
    else if is_one_of "$&+,/:;=?@" c
    then reserved_escape mode c
    else true

-- The bytes of a character in UTF-8.
abbrev pub utf8 : ℕ → List ℕ
utf8 c =
    if ltb c 0x80
    then c ∷ []
    else if ltb c 0x800
    then (0xC0 + c / 64) ∷ (0x80 + c % 64) ∷ []
    else if ltb c 0x10000
    then (0xE0 + c / 4096) ∷ (0x80 + c / 64 % 64) ∷ (0x80 + c % 64) ∷ []
    else (0xF0 + c / 262144) ∷ (0x80 + c / 4096 % 64) ∷ (0x80 + c / 64 % 64) ∷ (0x80 + c % 64) ∷ []

abbrev pub hex : ℕ → Char
hex n = char_of "0123456789ABCDEF" n

-- `%XX` for each byte, before `rest`.
abbrev pub percent : List ℕ → String → String
percent [] rest = rest
percent (b ∷ bs) rest =
    String.◌∷◌ "%" (String.◌∷◌ (hex (b / 16)) (String.◌∷◌ (hex (b % 16)) (percent bs rest)))

abbrev is_query : Mode → Bool
is_query query_component = true
is_query _ = false

-- `escape` of net/url
unfoldable pub escape : Mode → String → String
escape mode String.[] = String.[]
escape mode (String.◌∷◌ c s) =
    let rest = escape mode s in
    if should_escape mode (code c)
    then (if is_query mode && code c == 32
        then String.◌∷◌ "+" rest
        else percent (utf8 (code c)) rest)
    else String.◌∷◌ c rest

-- `net.JoinHostPort`
unfoldable pub join_host_port : String → String → String
join_host_port h port =
    if any (λ c. is_one_of ":%" c) (codes h)
    then "[" ++ (h ++ ("]:" ++ port))
    else h ++ (":" ++ port)

abbrev pub first_code : String → ℕ
first_code String.[] = 0
first_code (String.◌∷◌ c s) = code c

-- `EscapedPath`
abbrev pub escaped_path : String → String
escaped_path name = if str_eq name "*" then "*" else escape path name

-- The path behind a slash, if there is a path.
abbrev pub slash_path : String → String
slash_path name =
    if is_empty name
    then ""
    else if is_one_of "/" (first_code name)
    then escaped_path name
    else "/" ++ escaped_path name

-- The URL that `NewPool` parses.
unfoldable pub dsn : DatabaseConfig → String
unfolding escape join_host_port itoa
dsn cfg =
    "postgres://"
    ++ (escape user_password cfg.user
        ++ (":"
            ++ (escape user_password cfg.password
                ++ ("@"
                    ++ (escape host (join_host_port cfg.host (itoa cfg.port))
                        ++ (slash_path cfg.name
                            ++ ("?sslmode=" ++ escape query_component cfg.ssl_mode)))))))

-- The string that `main` formats for the listener.
unfoldable pub conn_str : DatabaseConfig → String
unfolding itoa
conn_str cfg =
    "postgres://"
    ++ (cfg.user
        ++ (":"
            ++ (cfg.password
                ++ ("@"
                    ++ (cfg.host
                        ++ (":"
                            ++ (itoa cfg.port
                                ++ ("/" ++ (cfg.name ++ ("?sslmode=" ++ cfg.ssl_mode))))))))))
