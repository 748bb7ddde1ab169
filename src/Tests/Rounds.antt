-- ===== src/Tests/Rounds.antt =====
-- Runs of the sweeper, of the session's character and of the pages and places of the tools.
use eve_online_mcp.Prelude.{ℕ, suc, ◌≡◌, refl, true, some, none, List, [], ◌∷◌, length, In}
use eve_online_mcp.Domain.{CharacterToken}
use eve_online_mcp.Store.{World, ok}
use eve_online_mcp.Write.Policy.{requested_scopes}
use eve_online_mcp.Session.{character}
use eve_online_mcp.Session.Known.{Known, character-Known}
use eve_online_mcp.Eve.Paging.{page_by_offset}
use eve_online_mcp.Eve.Paging.All.{read_on, page_by_offset-all}
use eve_online_mcp.Eve.Locations.{Item, Roots, root_locations}
use eve_online_mcp.Eve.Locations.Total.{has_root, root_locations-total}
use eve_online_mcp.Tests.Samples.{calm, sample_db, session_row}

abbrev pub full_db : World
full_db = record calm {
  db = record sample_db { sessions = record session_row { scopes = requested_scopes } ∷ [] };
}

abbrev pub known : CharacterToken
known = record {
  character_id = 90;
  character_name = "Pilot";
  refresh_token = "old";
  scopes = requested_scopes;
  owner_hash = "hash";
  access_token = "";
  access_expires_at = 0;
}

character_runs : character 90 7 full_db ≡ (ok known, (character 90 7 full_db).1)
unfolding character eve_online_mcp.Repo.Sessions.live_by_id eve_online_mcp.Store.sql
    eve_online_mcp.Repo.Sessions.live_by_id_sql eve_online_mcp.Repo.Characters.get
    eve_online_mcp.Repo.Characters.get_sql eve_online_mcp.Grant.revoke_if_scopes_fall_short
    eve_online_mcp.Write.Policy.missing_scopes requested_scopes
character_runs = refl

character-Known_example : Known 90 7 known full_db (character 90 7 full_db).1
character-Known_example =
    character-Known 90 7 known full_db (character 90 7 full_db).1 character_runs

-- Late enough for the parked code to be past its time.
abbrev late : World
late = record calm { now = 600 }

abbrev some_rows : List ℕ
some_rows = 4 ∷ 8 ∷ 15 ∷ 16 ∷ 23 ∷ 42 ∷ []

page_by_offset-all_example :
    read_on (suc (length some_rows)) (λ o. page_by_offset some_rows o 4 none) 0 ≡ some_rows
page_by_offset-all_example = page_by_offset-all some_rows 4

-- Two containers in each other, and an item in one of them.
abbrev circle : List Item
circle =
    record { item_id = 1; location_id = 2 }
    ∷ record { item_id = 2; location_id = 1 }
    ∷ record { item_id = 3; location_id = 1 }
    ∷ []

root_locations-total_example :
    (roots : Roots) × ((root_locations circle ≡ some roots)
      × ((i : Item) → In i circle → has_root roots i ≡ true))
root_locations-total_example = root_locations-total circle
