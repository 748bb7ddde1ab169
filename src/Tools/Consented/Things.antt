-- ===== src/Tools/Consented/Things.antt =====
-- internal/usecase/eve: what the tools for fittings, invitations, windows and the deletion of
-- contacts may send, and on what consent.
use eve_online_mcp.Prelude.{
  ℕ, refl, inl, inr, String, Bool, true, false, Option, none, some, List, [], ◌∷◌, map, Bool-cases,
  if◌then◌else◌, str_eq, find?, trim_space,
}
use eve_online_mcp.Domain.{CharacterToken}
use eve_online_mcp.Store.{Result}
use eve_online_mcp.Write.Summary.{Args, Value, arg}
use eve_online_mcp.Esi.Lookup.{NameMatch, NameResolution, resolve_names, resolved, fold}
use eve_online_mcp.Tools.{Net, Fitting, my_character, read, settle_result}
use eve_online_mcp.Tools.Pick.{Resolved, resolve_matches}
use eve_online_mcp.Tools.Texts.{require_enum}
use eve_online_mcp.Tools.Mail.{entities}
use eve_online_mcp.Tools.Calendar.{CalendarRespondIn, eve_calendar_respond, respond, responses}
use eve_online_mcp.Tools.Contacts.{ContactsDeleteIn, delete_resolved, eve_contacts_delete}
use eve_online_mcp.Tools.Fittings.{
  FittingModule, FittingSaveIn, FittingDeleteIn, eve_fitting_save, eve_fitting_delete,
  save_resolved, delete_found, resolve_fitting_modules, fitting_fields, FittingResolved,
  has_fitting_id,
}
use eve_online_mcp.Tools.Windows.{
  WaypointIn, OpenWindowIn, Target, WindowPlan, windows, destinations, anything, item_types,
  structure_target, destination_of, resolve_destination, named_entity, numbered_entity,
  resolve_entity, plan_named_window, plan_open_window, plan_contract_window, waypoint_resolved,
  eve_ui_set_waypoint, window_planned, eve_ui_open_window,
}
use eve_online_mcp.Tools.Windows.Numerals.{atoi}
use eve_online_mcp.Tools.Consented.Course.{my_character-Reads, resolve_matches-Reads, Tool}
use eve_online_mcp.Tools.Sends.{Reads, after-Reads, read-Reads, settle_result-Reads}
use eve_online_mcp.Tools.Sound.{after-Sound, idle-Sound, carry_out-Sound}

module _ (net : Net) where
  resolve_fitting_modules-Reads :
      (ship : String) (modules : List FittingModule)
      → Reads (resolve_fitting_modules net ship modules)
  unfolding resolve_fitting_modules
  resolve_fitting_modules-Reads ship modules d =
      let get =
        resolve_names net.lower net.universe_ids
          (ship ∷ map (λ (m : FittingModule). m.name) modules) [] ("inventory_types" ∷ []) in
      after-Reads d (read get) _ (read-Reads get)
        (λ a e. record { guard = refl; sent = refl; asked = refl })

  structure_target-Reads : (name : String) (ids : List ℕ) → Reads (structure_target net name ids)
  unfolding structure_target
  structure_target-Reads name [] d = record { guard = refl; sent = refl; asked = refl }
  structure_target-Reads name (id ∷ ids) d =
      let get = net.name (Value.int id) true in
      after-Reads d (read get) _ (read-Reads get)
        (λ a e. record { guard = refl; sent = refl; asked = refl })

  destination_of-Reads :
      (name : String) (id : ℕ) (r : NameResolution) (m : Option NameMatch)
      → Reads (destination_of net name id r m)
  unfolding destination_of
  destination_of-Reads name id r (some m) d = record { guard = refl; sent = refl; asked = refl }
  destination_of-Reads name id r none d =
      let get = net.structures id name in
      after-Reads d (read get) _ (read-Reads get) (λ ids. structure_target-Reads name ids)

  resolve_destination-Reads : (name : String) (id : ℕ) → Reads (resolve_destination net name id)
  unfolding resolve_destination
  resolve_destination-Reads name id d =
      let get = resolve_names net.lower net.universe_ids (name ∷ []) destinations destinations in
      after-Reads d (read get) _ (read-Reads get) (λ found.
        let r = resolved net.lower found (fold net.lower name) in
        destination_of-Reads name id r r.chosen)

  named_entity-Reads : (name : String) (market : Bool) → Reads (named_entity net name market)
  unfolding named_entity
  named_entity-Reads name market d =
      let get =
        resolve_names net.lower net.universe_ids (name ∷ [])
          (if market then item_types else anything) (if market then item_types else []) in
      after-Reads d (read get) _ (read-Reads get)
        (λ a e. record { guard = refl; sent = refl; asked = refl })

  numbered_entity-Reads :
      (name : String) (market : Bool) (n : Option Value) → Reads (numbered_entity net name market n)
  unfolding numbered_entity
  numbered_entity-Reads name market none d = named_entity-Reads name market d
  numbered_entity-Reads name market (some n) d =
      let get = net.name (net.int_of name) true in
      after-Reads d (read get) _ (read-Reads get)
        (λ a e. record { guard = refl; sent = refl; asked = refl })

  resolve_entity-Reads : (name : String) (market : Bool) → Reads (resolve_entity net name market)
  unfolding resolve_entity
  resolve_entity-Reads name market = numbered_entity-Reads name market (atoi (trim_space name))

  plan_named_window-Reads :
      (market : Bool) (target path id_key : String)
      → Reads (plan_named_window net market target path id_key)
  unfolding plan_named_window
  plan_named_window-Reads market target path id_key d =
      after-Reads d (resolve_entity net target market) _ (resolve_entity-Reads target market)
        (λ a e. record { guard = refl; sent = refl; asked = refl })

  plan_open_window-Reads : (kind target : String) → Reads (plan_open_window net kind target)
  unfolding plan_open_window
  plan_open_window-Reads kind target d = elim (Bool-cases (str_eq kind "contract")) [
    | inl contract ↦ rw contract (settle_result-Reads (plan_contract_window target) d)
    | inr other ↦ elim (Bool-cases (str_eq kind "market")) [
      | inl market ↦ rw (other, market) (plan_named_window-Reads true target _ _ d)
      | inr rest ↦ elim (Bool-cases (str_eq kind "info")) [
        | inl info ↦ rw (other, rest, info) (plan_named_window-Reads false target _ _ d)
        | inr none_of ↦
            rw (other, rest, none_of) (record { guard = refl; sent = refl; asked = refl })
      ]
    ]
  ]

  module _ (digest : Args → Result String) (fresh : String) where
    pub calendar_respond-Sound :
        (in_ : CalendarRespondIn)
        → Tool digest "eve_calendar_respond" in_.confirm_token
            (eve_calendar_respond net digest fresh in_)
    unfolding eve_calendar_respond respond arg
    calendar_respond-Sound in_ d =
        let checked = require_enum net.lower "response" in_.response responses in
        after-Sound digest d (settle_result checked) _ (settle_result-Reads checked) (λ response e.
          after-Sound digest e my_character _ my_character-Reads (λ token e'.
            let get = net.event token.character_id in_.event_id in
            after-Sound digest e' (read get) _ (read-Reads get) (λ event.
              carry_out-Sound digest fresh net _ _ _ (record {
                path = inl (
                  inl refl,
                  (
                    inr ("character_id", (_, (refl, refl))),
                    (inl refl, (inr ("event_id", (_, (refl, refl))), tt)),
                  ),
                );
                params = inl tt;
                body = (inr refl, tt);
                character = refl;
              }))))

    save_resolved-Sound :
        (in_ : FittingSaveIn) (token : CharacterToken) (r : Resolved FittingResolved)
        → Tool digest "eve_fitting_save" in_.confirm_token
            (save_resolved net digest fresh in_ token r)
    unfolding save_resolved fitting_fields arg
    save_resolved-Sound in_ token (Resolved.refused answer) d = idle-Sound digest refl
    save_resolved-Sound in_ token (Resolved.found r) d =
        carry_out-Sound digest fresh net _ _ _
          (record {
            path = inl (inl refl, (inr ("character_id", (_, (refl, refl))), (inl refl, tt)));
            params = inl tt;
            body = (inr refl, (inr refl, (inr refl, (inr refl, tt))));
            character = refl;
          })
          d

    pub fitting_save-Sound :
        (in_ : FittingSaveIn)
        → Tool digest "eve_fitting_save" in_.confirm_token (eve_fitting_save net digest fresh in_)
    unfolding eve_fitting_save
    fitting_save-Sound in_ d = after-Sound digest d my_character _ my_character-Reads (λ token e.
        after-Sound digest e (resolve_fitting_modules net in_.ship in_.modules) _
          (resolve_fitting_modules-Reads in_.ship in_.modules)
          (λ r. save_resolved-Sound in_ token r))

    delete_found-Sound :
        (in_ : FittingDeleteIn) (token : CharacterToken) (f : Option Fitting)
        → Tool digest "eve_fitting_delete" in_.confirm_token
            (delete_found net digest fresh in_ token f)
    unfolding delete_found arg
    delete_found-Sound in_ token none d = idle-Sound digest refl
    delete_found-Sound in_ token (some f) d =
        carry_out-Sound digest fresh net _ _ _
          (record {
            path = inl (
              inl refl,
              (
                inr ("character_id", (_, (refl, refl))),
                (inl refl, (inr ("fitting_id", (_, (refl, refl))), tt)),
              ),
            );
            params = inl tt;
            body = tt;
            character = refl;
          })
          d

    pub fitting_delete-Sound :
        (in_ : FittingDeleteIn)
        → Tool digest "eve_fitting_delete" in_.confirm_token
            (eve_fitting_delete net digest fresh in_)
    unfolding eve_fitting_delete
    fitting_delete-Sound in_ d = after-Sound digest d my_character _ my_character-Reads (λ token e.
        let get = net.fittings token.character_id in
        after-Sound digest e (read get) _ (read-Reads get) (λ existing.
          delete_found-Sound in_ token (find? (has_fitting_id in_.fitting_id) existing)))

    delete_resolved-Sound :
        (in_ : ContactsDeleteIn) (token : CharacterToken) (r : Resolved (List NameMatch))
        → Tool digest "eve_contacts_delete" in_.confirm_token
            (delete_resolved net digest fresh in_ token r)
    unfolding delete_resolved arg
    delete_resolved-Sound in_ token (Resolved.refused answer) d = idle-Sound digest refl
    delete_resolved-Sound in_ token (Resolved.found matches) d =
        carry_out-Sound digest fresh net _ _ _
          (record {
            path = inl (inl refl, (inr ("character_id", (_, (refl, refl))), (inl refl, tt)));
            params = inl (inr refl, tt);
            body = tt;
            character = refl;
          })
          d

    pub contacts_delete-Sound :
        (in_ : ContactsDeleteIn)
        → Tool digest "eve_contacts_delete" in_.confirm_token
            (eve_contacts_delete net digest fresh in_)
    unfolding eve_contacts_delete
    contacts_delete-Sound in_ d = after-Sound digest d my_character _ my_character-Reads (λ token e.
        after-Sound digest e (resolve_matches net in_.names entities) _
          (resolve_matches-Reads net in_.names entities) (λ r. delete_resolved-Sound in_ token r))

    waypoint_resolved-Sound :
        (in_ : WaypointIn) (token : CharacterToken) (t : Resolved Target)
        → Tool digest "eve_ui_set_waypoint" in_.confirm_token
            (waypoint_resolved net digest fresh in_ token t)
    unfolding waypoint_resolved arg
    waypoint_resolved-Sound in_ token (Resolved.refused answer) d = idle-Sound digest refl
    waypoint_resolved-Sound in_ token (Resolved.found t) d =
        carry_out-Sound digest fresh net _ _ _
          (record {
            path = inl (inl refl, tt);
            params = inl (inr refl, (inr refl, (inr refl, tt)));
            body = tt;
            character = refl;
          })
          d

    pub ui_set_waypoint-Sound :
        (in_ : WaypointIn)
        → Tool digest "eve_ui_set_waypoint" in_.confirm_token
            (eve_ui_set_waypoint net digest fresh in_)
    unfolding eve_ui_set_waypoint
    ui_set_waypoint-Sound in_ d = after-Sound digest d my_character _ my_character-Reads (λ token e.
        after-Sound digest e (resolve_destination net in_.destination token.character_id) _
          (resolve_destination-Reads in_.destination token.character_id)
          (λ t. waypoint_resolved-Sound in_ token t))

    window_planned-Sound :
        (in_ : OpenWindowIn) (kind : String) (token : CharacterToken) (p : Resolved WindowPlan)
        → Tool digest "eve_ui_open_window" in_.confirm_token
            (window_planned net digest fresh in_ kind token p)
    unfolding window_planned arg
    window_planned-Sound in_ kind token (Resolved.refused answer) d = idle-Sound digest refl
    window_planned-Sound in_ kind token (Resolved.found p) d =
        carry_out-Sound digest fresh net _ _ _
          (record { path = inr (kind, refl); params = inr refl; body = tt; character = refl }) d

    pub ui_open_window-Sound :
        (in_ : OpenWindowIn)
        → Tool digest "eve_ui_open_window" in_.confirm_token
            (eve_ui_open_window net digest fresh in_)
    unfolding eve_ui_open_window
    ui_open_window-Sound in_ d =
        let checked = require_enum net.lower "window" in_.window windows in
        after-Sound digest d (settle_result checked) _ (settle_result-Reads checked) (λ kind e.
          after-Sound digest e my_character _ my_character-Reads (λ token e'.
            after-Sound digest e' (plan_open_window net kind in_.target) _
              (plan_open_window-Reads kind in_.target)
              (λ p. window_planned-Sound in_ kind token p)))
