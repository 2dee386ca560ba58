-- ===== src/Base/Text.antt =====
-- Go's `strings` on native texts: `TrimSpace`, `Split` and `Join` at newlines, `HasPrefix`.
use Prim.Native.Char.{Char, code}
use Prim.Native.String.{String, ◌++◌}
use Prim.Native.Nat.{ℕ}
use mathlib.Core.Bool.{Bool, true, false, ◌&&◌, ◌||◌}
use mathlib.Core.List.{List, [], ◌∷◌}
use mathlib.Core.Path.{◌≡◌, refl}
use text.Mathlib.TextLemmas.{nil-append, cons-append}
use temporal_durable_event_p.Base.Tests.{leb, ◌==◌, if◌then◌else◌}
use temporal_durable_event_p.Base.{◌≢◌}

-- `unicode.IsSpace`
abbrev pub is_space : ℕ → Bool
is_space c =
    (leb 9 c && leb c 13)
    || c == 32
    || c == 0x85
    || c == 0xa0
    || c == 0x1680
    || (leb 0x2000 c && leb c 0x200a)
    || c == 0x2028
    || c == 0x2029
    || c == 0x202f
    || c == 0x205f
    || c == 0x3000

-- The code points of a text.
abbrev pub codes : String → List ℕ
codes String.[] = []
codes (String.◌∷◌ c s) = code c ∷ codes s

-- The test `s == ""`, by its constructors.
abbrev pub is_nil : String → Bool
is_nil String.[] = true
is_nil (String.◌∷◌ c s) = false

unfoldable pub trim_left : String → String
trim_left String.[] = String.[]
trim_left (String.◌∷◌ c s) = if is_space (code c) then trim_left s else String.◌∷◌ c s

unfoldable pub trim_right : String → String
trim_right String.[] = String.[]
trim_right (String.◌∷◌ c s) =
    let rest = trim_right s in
    if is_nil rest && is_space (code c) then String.[] else String.◌∷◌ c rest

-- `strings.TrimSpace`
unfoldable pub trim_space : String → String
unfolding trim_left trim_right
trim_space s = trim_right (trim_left s)

-- `strings.HasPrefix`
unfoldable pub has_prefix : String → String → Bool
has_prefix s String.[] = true
has_prefix String.[] (String.◌∷◌ d p) = false
has_prefix (String.◌∷◌ c s) (String.◌∷◌ d p) = code c == code d && has_prefix s p

abbrev pub is_newline : Char → Bool
is_newline c = code c == 10

abbrev add_char : Char → List String → List String
add_char c [] = String.◌∷◌ c String.[] ∷ []
add_char c (l ∷ ls) = String.◌∷◌ c l ∷ ls

-- `strings.Split(s, "\n")`
unfoldable pub split_lines : String → List String
split_lines String.[] = String.[] ∷ []
split_lines (String.◌∷◌ c s) =
    let rest = split_lines s in if is_newline c then String.[] ∷ rest else add_char c rest

-- `strings.Join(lines, "\n")`
unfoldable pub join_lines : List String → String
join_lines [] = ""
join_lines (l ∷ []) = l
join_lines (l ∷ m ∷ ls) = l ++ String.◌∷◌ "\n" (join_lines (m ∷ ls))

-- No character of the text is a newline.
abbrev pub IsLine : String → Type 0
IsLine String.[] = Unit
IsLine (String.◌∷◌ c s) = (is_newline c ≡ false) × IsLine s

abbrev pub AreLines : List String → Type 0
AreLines [] = Unit
AreLines (l ∷ ls) = IsLine l × AreLines ls

split_line : (l : String) → IsLine l → split_lines l ≡ l ∷ []
unfolding split_lines
split_line String.[] h = refl
split_line (String.◌∷◌ c s) h = rw (h.0, split_line s h.1)

split_lines-append :
    (l s : String) → IsLine l → split_lines (l ++ String.◌∷◌ "\n" s) ≡ l ∷ split_lines s
unfolding split_lines
split_lines-append String.[] s h = rw (nil-append (String.◌∷◌ "\n" s)) refl
split_lines-append (String.◌∷◌ c l) s h =
    rw (cons-append c l (String.◌∷◌ "\n" s), h.0, split_lines-append l s h.1)

-- Splitting what was joined gives the lines back, if there is one.
pub split_lines-join_lines :
    (l : String) (ls : List String) → AreLines (l ∷ ls) → split_lines (join_lines (l ∷ ls)) ≡ l ∷ ls
unfolding join_lines
split_lines-join_lines l [] h = split_line l h.0
split_lines-join_lines l (m ∷ ls) h =
    rw (split_lines-append l (join_lines (m ∷ ls)) h.0, split_lines-join_lines m ls h.1)

pub split_lines-join_lines_lem :
    (ls : List String) → ls ≢ [] → AreLines ls → split_lines (join_lines ls) ≡ ls
split_lines-join_lines_lem [] n h = absurd (n refl)
split_lines-join_lines_lem (l ∷ ls) n h = split_lines-join_lines l ls h
