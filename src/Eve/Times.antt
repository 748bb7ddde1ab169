-- ===== src/Eve/Times.antt =====
-- internal/usecase/eve/common.go: how tools write a span of time and the level of a skill.
use eve_online_mcp.Prelude.{
  ℕ, zero, suc, ◌+◌, ◌*◌, ◌/◌, ◌%◌, ◌≤◌, ◌<◌, String, Option, none, some, List, [], ◌∷◌, arith,
  if◌then◌else◌, ltb,
}
use eve_online_mcp.Write.Summary.{◌++◌, itoa}

abbrev pub seconds_per_day : ℕ
seconds_per_day = 86400

abbrev pub seconds_per_hour : ℕ
seconds_per_hour = 3600

abbrev pub seconds_per_minute : ℕ
seconds_per_minute = 60

abbrev pub days_of : ℕ → ℕ
days_of seconds = seconds / seconds_per_day

abbrev pub hours_of : ℕ → ℕ
hours_of seconds = (seconds % seconds_per_day) / seconds_per_hour

abbrev pub minutes_of : ℕ → ℕ
minutes_of seconds = ((seconds % seconds_per_day) % seconds_per_hour) / seconds_per_minute

-- `humanDelta` of whole seconds, none where they are negative.
unfoldable pub human_delta : Option ℕ → String
unfolding itoa
human_delta none = "done"
human_delta (some seconds) =
    if ltb 0 (days_of seconds)
    then itoa (days_of seconds) ++ "d " ++ itoa (hours_of seconds) ++ "h"
    else if ltb 0 (hours_of seconds)
    then itoa (hours_of seconds) ++ "h " ++ itoa (minutes_of seconds) ++ "m"
    else itoa (minutes_of seconds) ++ "m"

-- The level of a skill, which is not negative.
unfoldable pub numeral : ℕ → List String → String → String
numeral n [] fallback = fallback
numeral zero (s ∷ numerals) fallback = s
numeral (suc n) (s ∷ numerals) fallback = numeral n numerals fallback

unfoldable pub roman : ℕ → String
unfolding numeral itoa
roman level = numeral level ("0" ∷ "I" ∷ "II" ∷ "III" ∷ "IV" ∷ "V" ∷ []) (itoa level)

-- The days, hours and minutes make up the span but for less than a minute.
pub parts_within :
    (seconds : ℕ)
    → (days_of seconds * seconds_per_day
          + hours_of seconds * seconds_per_hour
          + minutes_of seconds * seconds_per_minute
        ≤ seconds)
      × (seconds
          < days_of seconds * seconds_per_day
            + hours_of seconds * seconds_per_hour
            + minutes_of seconds * seconds_per_minute
            + 60)
parts_within seconds = (omega arith, omega arith)
