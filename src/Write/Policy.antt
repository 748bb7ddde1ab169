-- ===== src/Write/Policy.antt =====
-- internal/domain/write/policy.go: the capabilities, their scopes, and the scopes that a sign-in
-- is asked for.
pub mod Scopes
use eve_online_mcp.Prelude.{
  ℕ, ◌*◌, String, Bool, true, false, not, Option, none, some, List, [], ◌∷◌, ◌++◌, map,
  if◌then◌else◌, str_eq, contains, sort, remove_if, find?,
}
use eve_online_mcp.Domain.{second}

abbrev pub mail_cap : ℕ
mail_cap = 5

abbrev pub confirm_ttl : ℕ
confirm_ttl = 300 * second

abbrev pub cap_mail_send : String
cap_mail_send = "mail_send"

abbrev pub cap_waypoint : String
cap_waypoint = "waypoint"

abbrev pub cap_open_window : String
cap_open_window = "openwindow"

abbrev pub cap_fittings : String
cap_fittings = "fittings"

abbrev pub cap_calendar : String
cap_calendar = "calendar"

abbrev pub cap_mail_organize : String
cap_mail_organize = "mail_organize"

abbrev pub cap_contacts : String
cap_contacts = "contacts"

pub record Capability : Type 0 where
  pub name : String
  pub scopes : List String
  pub summary : String
  pub outward_facing : Bool

unfoldable pub capabilities : List Capability
capabilities =
    record {
      name = cap_waypoint;
      scopes = "esi-ui.write_waypoint.v1" ∷ [];
      summary = "Set autopilot waypoints in the running game client.";
      outward_facing = false;
    }
    ∷ record {
      name = cap_open_window;
      scopes = "esi-ui.open_window.v1" ∷ [];
      summary = "Open market / info / contract / new-mail windows in the client.";
      outward_facing = false;
    }
    ∷ record {
      name = cap_fittings;
      scopes = "esi-fittings.write_fittings.v1" ∷ [];
      summary = "Save and delete saved ship fittings.";
      outward_facing = false;
    }
    ∷ record {
      name = cap_calendar;
      scopes = "esi-calendar.respond_calendar_events.v1" ∷ [];
      summary = "Respond to calendar events (accept / decline / tentative).";
      outward_facing = true;
    }
    ∷ record {
      name = cap_mail_organize;
      scopes = "esi-mail.organize_mail.v1" ∷ [];
      summary = "Mark mail read, manage labels, delete mail.";
      outward_facing = false;
    }
    ∷ record {
      name = cap_mail_send;
      scopes = "esi-mail.send_mail.v1" ∷ [];
      summary = "Send in-game EVE mail to other players.";
      outward_facing = true;
    }
    ∷ record {
      name = cap_contacts;
      scopes = "esi-characters.write_contacts.v1" ∷ [];
      summary = "Add, edit and delete character contacts and standings.";
      outward_facing = true;
    }
    ∷ []

-- `Capabilities()[name]`
unfoldable pub capability : String → Option Capability
unfolding capabilities
capability name = find? (λ c. str_eq c.name name) capabilities

unfoldable pub read_scopes : List String
read_scopes =
    "esi-assets.read_assets.v1" ∷ "esi-calendar.read_calendar_events.v1"
    ∷ "esi-characters.read_agents_research.v1" ∷ "esi-characters.read_blueprints.v1"
    ∷ "esi-characters.read_contacts.v1" ∷ "esi-characters.read_corporation_roles.v1"
    ∷ "esi-characters.read_fatigue.v1" ∷ "esi-characters.read_fw_stats.v1"
    ∷ "esi-characters.read_loyalty.v1" ∷ "esi-characters.read_medals.v1"
    ∷ "esi-characters.read_notifications.v1" ∷ "esi-characters.read_standings.v1"
    ∷ "esi-characters.read_titles.v1" ∷ "esi-clones.read_clones.v1" ∷ "esi-clones.read_implants.v1"
    ∷ "esi-contracts.read_character_contracts.v1" ∷ "esi-fittings.read_fittings.v1"
    ∷ "esi-fleets.read_fleet.v1" ∷ "esi-industry.read_character_jobs.v1"
    ∷ "esi-industry.read_character_mining.v1" ∷ "esi-killmails.read_killmails.v1"
    ∷ "esi-location.read_location.v1" ∷ "esi-location.read_online.v1"
    ∷ "esi-location.read_ship_type.v1" ∷ "esi-mail.read_mail.v1"
    ∷ "esi-markets.read_character_orders.v1" ∷ "esi-markets.structure_markets.v1"
    ∷ "esi-planets.manage_planets.v1" ∷ "esi-search.search_structures.v1"
    ∷ "esi-skills.read_skillqueue.v1" ∷ "esi-skills.read_skills.v1"
    ∷ "esi-universe.read_structures.v1" ∷ "esi-wallet.read_character_wallet.v1" ∷ []

unfoldable pub corp_read_scopes : List String
corp_read_scopes =
    "esi-assets.read_corporation_assets.v1" ∷ "esi-contracts.read_corporation_contracts.v1"
    ∷ "esi-corporations.read_blueprints.v1" ∷ "esi-corporations.read_corporation_membership.v1"
    ∷ "esi-corporations.read_divisions.v1" ∷ "esi-corporations.read_structures.v1"
    ∷ "esi-industry.read_corporation_jobs.v1" ∷ "esi-industry.read_corporation_mining.v1"
    ∷ "esi-killmails.read_corporation_killmails.v1" ∷ "esi-markets.read_corporation_orders.v1"
    ∷ "esi-wallet.read_corporation_wallets.v1" ∷ []

unfoldable pub capability_names : List String
unfolding capabilities sort
capability_names = sort (map (λ c. c.name) capabilities)

-- The closure `add`, over the scopes that are out so far.
unfoldable pub add_scopes : List String → List String → List String
unfolding contains
add_scopes out [] = out
add_scopes out (s ∷ scopes) = add_scopes (if contains out s then out else out ++ s ∷ []) scopes

unfoldable pub scopes_of : String → List String
unfolding capability
scopes_of name = elim (capability name) [ none ↦ [] | some c ↦ c.scopes ]

unfoldable pub add_capabilities : List String → List String → List String
unfolding add_scopes scopes_of
add_capabilities out [] = out
add_capabilities out (name ∷ names) = add_capabilities (add_scopes out (scopes_of name)) names

unfoldable pub requested_scopes : List String
unfolding add_capabilities add_scopes read_scopes corp_read_scopes capability_names
requested_scopes =
    add_capabilities (add_scopes (add_scopes [] read_scopes) corp_read_scopes) capability_names

-- The scopes of a list that were not granted, in the list's order.
unfoldable pub not_granted : List String → List String → List String
not_granted granted = remove_if (contains granted)

unfoldable pub missing_scopes : List String → List String
unfolding not_granted sort
missing_scopes granted = sort (not_granted granted requested_scopes)
