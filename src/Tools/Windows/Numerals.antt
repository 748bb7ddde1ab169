-- ===== src/Tools/Windows/Numerals.antt =====
-- `strconv.Atoi`: an optional sign and decimal digits, within the range of an `int64`.
use Prim.Native.Char.{code}
use eve_online_mcp.Prelude.{
  ℕ, ◌+◌, ◌*◌, ◌-◌, String, Bool, ◌&&◌, Option, none, some, if◌then◌else◌, leb, ◌==◌,
}
use eve_online_mcp.Write.Summary.{Value}

abbrev is_digit : ℕ → Bool
is_digit c = leb 48 c && leb c 57

-- The number that the digits write after `acc`.
unfoldable pub digits : String → ℕ → Option ℕ
digits String.[] acc = some acc
digits (String.◌∷◌ c s) acc =
    let rest = digits s (10 * acc + (code c - 48)) in if is_digit (code c) then rest else none

unfoldable pub numeral : String → Option ℕ
unfolding digits
numeral String.[] = none
numeral (String.◌∷◌ c s) = digits (String.◌∷◌ c s) 0

abbrev pub max_int : ℕ
max_int = 9223372036854775807

unfoldable pub positive : Option ℕ → Option Value
positive none = none
positive (some n) = if leb n max_int then some (Value.int n) else none

unfoldable pub negative : Option ℕ → Option Value
negative none = none
negative (some n) =
    if n == 0
    then some (Value.int 0)
    else if leb n (max_int + 1)
    then some (Value.minus (n - 1))
    else none

unfoldable pub atoi : String → Option Value
unfolding numeral positive negative
atoi String.[] = none
atoi (String.◌∷◌ c s) =
    if code c == 45
    then negative (numeral s)
    else if code c == 43
    then positive (numeral s)
    else positive (numeral (String.◌∷◌ c s))
