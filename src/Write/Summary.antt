-- ===== src/Write/Summary.antt =====
-- internal/domain/write/summary.go: the one-line summary of a write in the audit log.

use Prim.Native.String.{◌++◌ as text_append}
use eve_online_mcp.Prelude.{
  ℕ, zero, suc, ◌+◌, ◌/◌, ◌%◌, ◌≤◌, ◌≡◌, refl, ap, String, Option, none, some, List, [], ◌∷◌, arith,
  if◌then◌else◌, leb, ltb, ◌==◌, str_eq,
}

-- A value of `map[string]any`: a text, an integer (`minus n` is -(n + 1)), a float by its integer
-- part, a slice that is not nil by its length and its text under `%v`, or any other value by
-- that text, a nil slice among them.
pub data Value : Type 0 where
  text : String → Value
  int minus : ℕ → Value
  slice : ℕ → String → Value
  other : String → Value

abbrev pub Args : Type 0
Args = List (String × Value)

infixl 65 ◌++◌
abbrev pub ◌++◌ : String → String → String
s ++ t = text_append s t

unfoldable pub arg : String → Args → Option Value
arg key [] = none
arg key ((k, v) ∷ args) = if str_eq k key then some v else arg key args

-- `strconv.Itoa`, the last digits first; a number below 10^fuel has at most `fuel` digits.
unfoldable pub digit : ℕ → String
digit n =
    if n == 0
    then "0"
    else if n == 1
    then "1"
    else if n == 2
    then "2"
    else if n == 3
    then "3"
    else if n == 4
    then "4"
    else if n == 5
    then "5"
    else if n == 6
    then "6"
    else if n == 7
    then "7"
    else if n == 8
    then "8"
    else "9"

unfoldable pub itoa_from : ℕ → ℕ → String → String
unfolding digit
itoa_from zero n acc = acc
itoa_from (suc fuel) n acc =
    let rest = itoa_from fuel (n / 10) (digit (n % 10) ++ acc) in
    if ltb n 10 then digit n ++ acc else rest

-- An `int64` has at most 19 digits.
unfoldable pub itoa : ℕ → String
unfolding itoa_from
itoa n = itoa_from 20 n ""

unfoldable pub value_string : Value → String
unfolding itoa
value_string (Value.text t) = t
value_string (Value.int n) = itoa n
value_string (Value.minus n) = "-" ++ itoa (n + 1)
value_string (Value.slice n t) = t
value_string (Value.other t) = t

unfoldable pub arg_string : Args → String → String
unfolding arg value_string
arg_string args key = elim (arg key args) [ none ↦ "" | some v ↦ value_string v ]

-- `lenAny` of two values: the length of the first that is a slice and not nil.
unfoldable pub len_any : Option Value → Option Value → ℕ
len_any (some (Value.slice n t)) v = n
len_any u (some (Value.slice n t)) = n
len_any u v = 0

unfoldable pub summarize : String → Args → String
unfolding arg arg_string len_any itoa
summarize tool args =
    let recipients = itoa (len_any (arg "recipients" args) (arg "to" args)) in
    let contacts = itoa (len_any (arg "contact_ids" args) (arg "ids" args)) in
    if str_eq tool "eve_mail_send"
    then "mail to " ++ recipients ++ " recipients, subject '" ++ arg_string args "subject" ++ "'"
    else if str_eq tool "eve_fitting_save"
    then "save fitting '" ++ arg_string args "name" ++ "'"
    else if str_eq tool "eve_fitting_delete"
    then "delete fitting " ++ arg_string args "fitting_id"
    else if str_eq tool "eve_contacts_set"
    then "set standing on " ++ contacts ++ " contacts"
    else if str_eq tool "eve_contacts_delete"
    then "delete " ++ contacts ++ " contacts"
    else if str_eq tool "eve_ui_set_waypoint"
    then "set waypoint " ++ arg_string args "destination_id"
    else if str_eq tool "eve_ui_open_window"
    then "open " ++ arg_string args "window" ++ " window"
    else if str_eq tool "eve_mail_mark"
    then "mark mail " ++ arg_string args "mail_id"
    else if str_eq tool "eve_mail_delete"
    then "delete mail " ++ arg_string args "mail_id"
    else if str_eq tool "eve_calendar_respond"
    then "respond " ++ arg_string args "response" ++ " to event " ++ arg_string args "event_id"
    else if str_eq tool "eve_mail_compose"
    then "open compose to "
      ++ recipients
      ++ " recipients, subject '"
      ++ arg_string args "subject"
      ++ "'"
    else tool

abbrev pub audit_field_max : ℕ
audit_field_max = 200

-- `utf8.RuneCountInString`
abbrev pub rune_count : String → ℕ
rune_count String.[] = 0
rune_count (String.◌∷◌ c s) = suc (rune_count s)

unfoldable pub first_runes : ℕ → String → String
first_runes zero s = ""
first_runes (suc n) String.[] = ""
first_runes (suc n) (String.◌∷◌ c s) = String.◌∷◌ c (first_runes n s)

unfoldable pub truncate : String → ℕ → String
unfolding first_runes
truncate s n = if leb (rune_count s) n then s else first_runes n s

rune_count-first_runes-le : (n : ℕ) (s : String) → rune_count (first_runes n s) ≤ n
unfolding first_runes
rune_count-first_runes-le zero s = omega arith
rune_count-first_runes-le (suc n) String.[] = omega arith
rune_count-first_runes-le (suc n) (String.◌∷◌ c s) = omega (arith, rune_count-first_runes-le n s)

-- What `truncate` answers has at most the runes that it was given leave for.
pub rune_count-truncate-le : (s : String) (n : ℕ) → rune_count (truncate s n) ≤ n
unfolding truncate
rune_count-truncate-le s n = ground (arith, rune_count-first_runes-le n s)

first_runes_of-le : (n : ℕ) (s : String) → rune_count s ≤ n → first_runes n s ≡ s
unfolding first_runes
first_runes_of-le zero String.[] h = refl
first_runes_of-le zero (String.◌∷◌ c s) h = absurd (omega arith)
first_runes_of-le (suc n) String.[] h = refl
first_runes_of-le (suc n) (String.◌∷◌ c s) h =
    ap (String.◌∷◌ c) (first_runes_of-le n s (omega arith))

-- Truncating twice is truncating once.
pub truncate_twice : (s : String) (n : ℕ) → truncate (truncate s n) n ≡ truncate s n
unfolding truncate
truncate_twice s n = ground (arith, rune_count-first_runes-le n s)
