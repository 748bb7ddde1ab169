-- ===== src/Tools/Texts.antt =====
-- The texts of internal/usecase/eve/writes_*.go: values as `%v` writes them, texts cut to a number
-- of bytes, and the answers for names that are not resolved.
use Prim.Native.Char.{len_utf8}
use Prim.Native.String.{len}
use eve_online_mcp.Prelude.{
  ℕ, zero, suc, ◌-◌, String, Bool, true, false, not, ◌||◌, Option, none, some, List, [], ◌∷◌, map,
  if◌then◌else◌, leb, str_eq, contains, length, trim_space,
}
use eve_online_mcp.Domain.{validation}
use eve_online_mcp.Store.{Result, ok, err}
use eve_online_mcp.Write.Summary.{Args, Value, ◌++◌, itoa}
use eve_online_mcp.Esi.Lookup.{NameMatch, NameResolution}

unfoldable pub join : String → List String → String
join separator [] = ""
join separator (s ∷ []) = s
join separator (s ∷ t ∷ ts) = s ++ separator ++ join separator (t ∷ ts)

abbrev pub flag : Bool → Value
flag true = Value.other "true"
flag false = Value.other "false"

-- A slice by its length and its `%v`; one that was never appended to is nil.
unfoldable pub slice_of : List String → Value
unfolding join
slice_of [] = Value.other "[]"
slice_of (s ∷ texts) = Value.slice (length (s ∷ texts)) ("[" ++ join " " (s ∷ texts) ++ "]")

unfoldable pub ids_value : List ℕ → Value
unfolding slice_of itoa
ids_value ids = slice_of (map itoa ids)

-- The first bytes of a text, as JSON writes them: a character that is cut leaves one replacement
-- character for each of its bytes.
unfoldable pub replacements : ℕ → String
replacements zero = ""
replacements (suc n) = "�" ++ replacements n

unfoldable pub clip : ℕ → String → String
unfolding replacements
clip n String.[] = ""
clip n (String.◌∷◌ c s) =
    let rest = clip (n - len_utf8 c) s in
    if leb (len_utf8 c) n then String.◌∷◌ c rest else replacements n

abbrev pub byte_len : String → ℕ
byte_len s = len s

abbrev pub invariant_required : String
invariant_required = "is required"

unfoldable pub enum_invariant : List String → String
unfolding join
enum_invariant allowed = "must be one of " ++ join ", " allowed

abbrev pub sentence_unresolved : String
sentence_unresolved =
    "That name could not be resolved. Names must be exact — call eve_universe_search."

unfoldable pub unresolved_result : List String → Args
unfolding slice_of
unresolved_result names =
    ("error", Value.text sentence_unresolved)
    ∷ ("kind", Value.text "Error")
    ∷ ("names", slice_of names)
    ∷ []

unfoldable pub ambiguous_result : List String → Args
unfolding slice_of
ambiguous_result matches =
    (
      "error",
      Value.text "More than one match; confirm which one is meant with eve_universe_search.",
    )
    ∷ ("kind", Value.text "Error")
    ∷ ("matches", slice_of matches)
    ∷ []

-- The first letter of `kind`, in either case, is a vowel.
unfoldable pub starts_with_vowel : String → Bool
starts_with_vowel String.[] = false
starts_with_vowel (String.◌∷◌ c s) =
    contains ("a" ∷ "e" ∷ "i" ∷ "o" ∷ "u" ∷ "A" ∷ "E" ∷ "I" ∷ "O" ∷ "U" ∷ []) (String.◌∷◌ c "")

unfoldable pub article : String → String
unfolding starts_with_vowel
article kind =
    if str_eq kind ""
    then "a thing"
    else if starts_with_vowel kind
    then "an " ++ kind
    else "a " ++ kind

unfoldable pub numbered : NameMatch → String
unfolding article itoa
numbered m = article m.kind ++ " (#" ++ itoa m.id ++ ")"

module _ (quote : String → String) where
  unfoldable pub describe_of : NameResolution → Option NameMatch → String
  unfolding numbered join
  describe_of r none = quote r.query ++ " matched nothing"
  describe_of r (some m) =
      quote r.query
      ++ " is "
      ++ numbered m
      ++ " and also "
      ++ join ", " (map numbered r.alternatives)

  -- `NameResolution.Describe`
  unfoldable pub describe : NameResolution → String
  unfolding describe_of
  describe r = describe_of r r.chosen

module _ (lower : String → String) where
  unfoldable pub require_enum : String → String → List String → Result String
  unfolding trim_space contains enum_invariant
  require_enum field raw allowed =
      let v = lower (trim_space raw) in
      if str_eq v "" || not (contains allowed v)
      then err (validation field (enum_invariant allowed))
      else ok v
