-- ===== src/Tools/Calendar.antt =====
-- internal/usecase/eve/writes_calendar.go: the answer to an invitation.
use eve_online_mcp.Prelude.{ℕ, String, List, [], ◌∷◌}
use eve_online_mcp.Domain.{CharacterToken}
use eve_online_mcp.Store.{Result}
use eve_online_mcp.Write.Policy.{cap_calendar}
use eve_online_mcp.Write.Summary.{Args, Value, itoa}
use eve_online_mcp.Tools.{
  Net, T, Answer, Method, Body, Event, read, settle_result, ◌>>=◌, authz, my_character, carry_out,
  owned,
}
use eve_online_mcp.Tools.Texts.{require_enum}

pub record CalendarRespondIn : Type 0 where
  pub event_id : ℕ
  pub response : String
  pub confirm_token : String

abbrev pub responses : List String
responses = "accepted" ∷ "declined" ∷ "tentative" ∷ []

module _ (net : Net) (digest : Args → Result String) (fresh : String) where
  unfoldable pub respond : CalendarRespondIn → String → CharacterToken → Event → T Answer
  unfolding carry_out itoa
  respond in_ response token event =
      carry_out net digest fresh
        (authz "eve_calendar_respond" cap_calendar
          (owned token
            (("event_id", Value.int in_.event_id) ∷ ("response", Value.text response) ∷ []))
          (("action", Value.text "Respond to a calendar invitation — the organiser is notified")
            ∷ ("character", Value.text token.character_name)
            ∷ ("event", event.title)
            ∷ ("date", event.date)
            ∷ ("owner", event.owner_name)
            ∷ ("response", Value.text response)
            ∷ [])
          in_.confirm_token token)
        (record {
          method = Method.put;
          path = "characters" ∷ itoa token.character_id ∷ "calendar" ∷ itoa in_.event_id ∷ [];
          character_id = token.character_id;
          params = [];
          body = Body.fields (("response", Value.text response) ∷ []);
        })
        (λ v.
          ("status", Value.text "done")
          ∷ ("event", event.title)
          ∷ ("response", Value.text response)
          ∷ [])

  unfoldable pub eve_calendar_respond : CalendarRespondIn → T Answer
  unfolding my_character respond require_enum
  eve_calendar_respond in_ =
      settle_result (require_enum net.lower "response" in_.response responses) >>= λ response.
      my_character >>= λ token.
      read (net.event token.character_id in_.event_id) >>= λ event. respond in_ response token event
