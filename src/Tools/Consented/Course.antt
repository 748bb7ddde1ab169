-- ===== src/Tools/Consented/Course.antt =====
-- What the writing tools of internal/usecase/eve read on their way.
use eve_online_mcp.Prelude.{refl, String, List, []}
use eve_online_mcp.Store.{Result}
use eve_online_mcp.Write.Summary.{Args}
use eve_online_mcp.Esi.Lookup.{resolve_names}
use eve_online_mcp.Tools.{Net, Desk, T, Answer, my_character, read}
use eve_online_mcp.Tools.Pick.{resolve_matches}
use eve_online_mcp.Tools.Sends.{Reads, after-Reads, read-Reads}
use eve_online_mcp.Tools.Sound.{Sound}

pub my_character-Reads : Reads my_character
unfolding my_character
my_character-Reads d = record { guard = refl; sent = refl; asked = refl }

pub resolve_matches-Reads :
    (net : Net) (names only : List String) → Reads (resolve_matches net names only)
unfolding resolve_matches
resolve_matches-Reads net names only d =
    let get = resolve_names net.lower net.universe_ids names [] only in
    after-Reads d (read get) _ (read-Reads get)
      (λ a e. record { guard = refl; sent = refl; asked = refl })

-- What a tool may send in one call.
abbrev pub Tool : (Args → Result String) → String → String → T Answer → Type 0
Tool digest tool token m = (d : Desk) → Sound digest 1 tool token d (m d).1
