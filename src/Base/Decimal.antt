-- ===== src/Base/Decimal.antt =====
-- Decimal digits.
use Prim.Native.Char.{Char}
use Prim.Native.Nat.{ℕ, zero, suc, ◌/◌, ◌%◌}
use Prim.Native.String.{String}
use temporal_durable_event_p.Base.Int.{ℤ, pos, negsuc}
use temporal_durable_event_p.Base.Tests.{ltb, if◌then◌else◌}

-- The character with an index in a text, "0" past its end.
abbrev pub char_of : String → ℕ → Char
char_of String.[] n = "0"
char_of (String.◌∷◌ c s) zero = c
char_of (String.◌∷◌ c s) (suc n) = char_of s n

-- Decimal digits, put before `rest`; the fuel is more than the number.
unfoldable pub digits : ℕ → ℕ → String → String
digits zero n rest = rest
digits (suc fuel) n rest =
    let more = String.◌∷◌ (char_of "0123456789" (n % 10)) rest in
    let further = digits fuel (n / 10) more in if ltb n 10 then more else further

-- `strconv.Itoa`, and the verb `%d`.
unfoldable pub itoa : ℤ → String
unfolding digits
itoa (pos n) = digits (suc n) n ""
itoa (negsuc n) = String.◌∷◌ "-" (digits (suc (suc n)) (suc n) "")
