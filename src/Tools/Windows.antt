-- ===== src/Tools/Windows.antt =====
-- internal/usecase/eve/writes_ui.go: the waypoint and the windows of the game client.
pub mod Numerals
use Numerals.{atoi}
use eve_online_mcp.Prelude.{
  ℕ, String, Bool, true, false, not, ◌&&◌, ◌||◌, Option, none, some, List, [], ◌∷◌,
  ◌++◌ as join_lists, if◌then◌else◌, str_eq, trim_space,
}
use eve_online_mcp.Domain.{CharacterToken, validation}
use eve_online_mcp.Store.{Result, ok, err}
use eve_online_mcp.Write.Policy.{cap_waypoint, cap_open_window}
use eve_online_mcp.Write.Summary.{Args, Value, value_string, ◌++◌}
use eve_online_mcp.Esi.Lookup.{NameMatch, NameResolution, ambiguous, fold, resolved}
use eve_online_mcp.Tools.{
  Net, T, Answer, Method, Body, t_pure, read, settle_result, ◌>>=◌, authz, my_character, carry_out,
  owned, bool_def,
}
use eve_online_mcp.Tools.Texts.{flag, describe, require_enum, unresolved_result, enum_invariant}
use eve_online_mcp.Tools.Pick.{Resolved, look_up}
use eve_online_mcp.Tools.Compose.{client_caveat}

pub record WaypointIn : Type 0 where
  pub destination : String
  pub clear_other_waypoints : Option Bool
  pub add_to_beginning : Option Bool
  pub confirm_token : String

pub record OpenWindowIn : Type 0 where
  pub window : String
  pub target : String
  pub confirm_token : String

-- What a name was resolved to; `ambiguity` is empty where there is no doubt.
pub record Target : Type 0 where
  pub id : Value
  pub name : String
  pub kind : String
  pub ambiguity : String

-- windowPlan, less its refusal.
pub record WindowPlan : Type 0 where
  pub path : String
  pub params : Args
  pub label : String
  pub ambiguity : String

abbrev pub windows : List String
windows = "market" ∷ "info" ∷ "contract" ∷ []

abbrev pub destinations : List String
destinations = "stations" ∷ "systems" ∷ []

abbrev pub item_types : List String
item_types = "inventory_types" ∷ []

abbrev pub anything : List String
anything =
    "characters" ∷ "corporations" ∷ "alliances" ∷ "inventory_types" ∷ "systems" ∷ "stations" ∷ []

unfoldable pub target_of : (String → String) → NameResolution → NameMatch → Target
unfolding describe
target_of quote r m = record {
  id = Value.int m.id;
  name = m.name;
  kind = m.kind;
  ambiguity = if ambiguous r then describe quote r else "";
}

-- The warning of a preview where the name may mean more than one thing.
abbrev pub warned : String → String → Args → Args
warned ambiguity warning preview =
    if str_eq ambiguity ""
    then preview
    else ("ambiguous_name", Value.text (ambiguity ++ warning)) ∷ preview

-- `params` as `%v` writes a map with one entry.
unfoldable pub params_text : Args → String
unfolding value_string
params_text [] = "map[]"
params_text ((k, v) ∷ params) = "map[" ++ k ++ ":" ++ value_string v ++ "]"

unfoldable pub plan_contract_window : String → Result (Resolved WindowPlan)
unfolding atoi trim_space
plan_contract_window target = elim (atoi (trim_space target)) [
  | none ↦ err (validation "target" "must be the numeric contract_id from eve_market_contracts")
  | some id ↦ ok (
      Resolved.found (record {
        path = "/ui/openwindow/contract";
        params = ("contract_id", id) ∷ [];
        label = "contract #" ++ trim_space target;
        ambiguity = "";
      }))
]

unfoldable pub named_window : String → String → Resolved Target → Resolved WindowPlan
named_window path id_key (Resolved.refused answer) = Resolved.refused answer
named_window path id_key (Resolved.found t) = Resolved.found (record {
  path = path;
  params = (id_key, t.id) ∷ [];
  label =
      if str_eq t.kind "" || str_eq t.kind "id" then t.name else t.name ++ " (" ++ t.kind ++ ")";
  ambiguity = t.ambiguity;
})

module _ (net : Net) where
  unfoldable pub structure_target : String → List ℕ → T (Resolved Target)
  unfolding unresolved_result
  structure_target name [] = t_pure (Resolved.refused (unresolved_result (name ∷ [])))
  structure_target name (id ∷ ids) = read (net.name (Value.int id) true) >>= λ text. t_pure (
      Resolved.found
        (record { id = Value.int id; name = text; kind = "structure"; ambiguity = "" }))

  unfoldable pub destination_of :
      String → ℕ → NameResolution → Option NameMatch → T (Resolved Target)
  unfolding structure_target target_of
  destination_of name character_id r (some m) = t_pure (Resolved.found (target_of net.quote r m))
  destination_of name character_id r none =
      read (net.structures character_id name) >>= λ ids. structure_target name ids

  unfoldable pub resolve_destination : String → ℕ → T (Resolved Target)
  unfolding destination_of fold resolved
  resolve_destination name character_id =
      look_up net (name ∷ []) destinations destinations >>= λ found.
      let r = resolved net.lower found (fold net.lower name) in
      destination_of name character_id r r.chosen

  unfoldable pub entity_of : String → NameResolution → Option NameMatch → Resolved Target
  unfolding target_of unresolved_result
  entity_of name r none = Resolved.refused (unresolved_result (name ∷ []))
  entity_of name r (some m) = Resolved.found (target_of net.quote r m)

  unfoldable pub named_entity : String → Bool → T (Resolved Target)
  unfolding entity_of fold resolved
  named_entity name market =
      look_up net (name ∷ []) (if market then item_types else anything)
        (if market then item_types else [])
      >>= λ found.
          let r = resolved net.lower found (fold net.lower name) in
          t_pure (entity_of name r r.chosen)

  -- A number is taken for an id, though it is `j.Int` of the name as it was given that is used.
  unfoldable pub numbered_entity : String → Bool → Option Value → T (Resolved Target)
  unfolding named_entity
  numbered_entity name market none = named_entity name market
  numbered_entity name market (some n) = read (net.name (net.int_of name) true) >>= λ text.
      t_pure
        (Resolved.found (record { id = net.int_of name; name = text; kind = "id"; ambiguity = "" }))

  unfoldable pub resolve_entity : String → Bool → T (Resolved Target)
  unfolding numbered_entity atoi trim_space
  resolve_entity name market = numbered_entity name market (atoi (trim_space name))

  unfoldable pub plan_named_window : Bool → String → String → String → T (Resolved WindowPlan)
  unfolding resolve_entity named_window
  plan_named_window market target path id_key =
      resolve_entity target market >>= λ t. t_pure (named_window path id_key t)

  unfoldable pub plan_open_window : String → String → T (Resolved WindowPlan)
  unfolding plan_contract_window plan_named_window enum_invariant
  plan_open_window kind target =
      if str_eq kind "contract"
      then settle_result (plan_contract_window target)
      else if str_eq kind "market"
      then plan_named_window true target "/ui/openwindow/marketdetails" "type_id"
      else if str_eq kind "info"
      then plan_named_window false target "/ui/openwindow/information" "target_id"
      else settle_result (err (validation "window" (enum_invariant windows)))

  module _ (digest : Args → Result String) (fresh : String) where
    unfoldable pub waypoint_resolved : WaypointIn → CharacterToken → Resolved Target → T Answer
    unfolding carry_out value_string
    waypoint_resolved in_ token (Resolved.refused answer) = t_pure (Answer.result answer)
    waypoint_resolved in_ token (Resolved.found t) =
        let clear = bool_def in_.clear_other_waypoints true in
        let add = bool_def in_.add_to_beginning false in
        let params =
          ("destination_id", t.id)
          ∷ ("clear_other_waypoints", flag clear)
          ∷ ("add_to_beginning", flag add)
          ∷ [] in
        carry_out net digest fresh
          (authz "eve_ui_set_waypoint" cap_waypoint (owned token params)
            (warned t.ambiguity
              " — this routes to the first. Cancel and use eve_universe_search if the other one was meant."
              (("action", Value.text "Set an autopilot waypoint in the game client")
                ∷ ("character", Value.text token.character_name)
                ∷ ("destination", Value.text (t.name ++ " (" ++ t.kind ++ ")"))
                ∷ ("clears_existing_route", flag clear)
                ∷ ("position", Value.text (if add then "next hop" else "final stop"))
                ∷ []))
            in_.confirm_token token)
          (record {
            method = Method.post;
            path = "/ui/autopilot/waypoint" ∷ [];
            character_id = token.character_id;
            params = params;
            body = Body.empty;
          })
          (λ v.
            ("status", Value.text "done")
            ∷ ("waypoint_set_to", Value.text t.name)
            ∷ ("note", Value.text client_caveat)
            ∷ [])

    unfoldable pub eve_ui_set_waypoint : WaypointIn → T Answer
    unfolding my_character waypoint_resolved resolve_destination
    eve_ui_set_waypoint in_ = my_character >>= λ token.
        resolve_destination in_.destination token.character_id >>= λ t.
        waypoint_resolved in_ token t

    unfoldable pub window_planned :
        OpenWindowIn → String → CharacterToken → Resolved WindowPlan → T Answer
    unfolding carry_out params_text
    window_planned in_ kind token (Resolved.refused answer) = t_pure (Answer.result answer)
    window_planned in_ kind token (Resolved.found plan) =
        carry_out net digest fresh
          (authz "eve_ui_open_window" cap_open_window
            (owned token (
              ("window", Value.text kind) ∷ ("params", Value.other (params_text plan.params)) ∷ []))
            (warned plan.ambiguity
              " — this opens the first. Cancel and use eve_universe_search if the other one was meant."
              (("action", Value.text ("Open the " ++ kind ++ " window in the game client"))
                ∷ ("character", Value.text token.character_name)
                ∷ ("target", Value.text plan.label)
                ∷ []))
            in_.confirm_token token)
          (record {
            method = Method.post;
            path = plan.path ∷ [];
            character_id = token.character_id;
            params = plan.params;
            body = Body.empty;
          })
          (λ v.
            ("status", Value.text "done")
            ∷ ("opened", Value.text plan.label)
            ∷ ("note", Value.text client_caveat)
            ∷ [])

    unfoldable pub eve_ui_open_window : OpenWindowIn → T Answer
    unfolding my_character window_planned require_enum plan_open_window
    eve_ui_open_window in_ =
        settle_result (require_enum net.lower "window" in_.window windows) >>= λ kind.
        my_character >>= λ token.
        plan_open_window kind in_.target >>= λ plan. window_planned in_ kind token plan
