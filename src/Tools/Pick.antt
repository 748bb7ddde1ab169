-- ===== src/Tools/Pick.antt =====
-- The loop over the names that a tool was given, in `resolveMailRecipients`,
-- `resolveComposeRecipients` and `resolveContacts` of internal/usecase/eve.
pub mod Clear
use eve_online_mcp.Prelude.{
  ℕ, String, Bool, Option, none, some, List, [], ◌∷◌, ◌++◌, map, if◌then◌else◌, ◌==◌, any,
}
use eve_online_mcp.Write.Summary.{Args}
use eve_online_mcp.Esi.Lookup.{
  NameMatch, NameResolution, Resolutions, ambiguous, fold, resolved, resolve_names,
}
use eve_online_mcp.Tools.{Net, T, read, t_pure, ◌>>=◌}
use eve_online_mcp.Tools.Texts.{unresolved_result, ambiguous_result, describe}

-- What the loop has: the matches, each id once, the names that match nothing, and those that may
-- mean more than one thing.
pub record Picked : Type 0 where
  pub matches : List NameMatch
  pub unknown : List String
  pub unsure : List NameResolution

abbrev pub nothing_picked : Picked
nothing_picked = record { matches = []; unknown = []; unsure = [] }

abbrev pub is_seen : List NameMatch → ℕ → Bool
is_seen matches id = any (λ (m : NameMatch). m.id == id) matches

unfoldable pub pick_one : String → NameResolution → Option NameMatch → Picked → Picked
pick_one asked r none p = record p { unknown = p.unknown ++ asked ∷ [] }
pick_one asked r (some m) p =
    if ambiguous r
    then record p { unsure = p.unsure ++ r ∷ [] }
    else if is_seen p.matches m.id
    then p
    else record p { matches = p.matches ++ m ∷ [] }

module _ (lower : String → String) where
  unfoldable pub pick : List String → Resolutions → Picked → Picked
  unfolding pick_one fold resolved
  pick [] found p = p
  pick (asked ∷ names) found p =
      let r = resolved lower found (fold lower asked) in
      pick names found (pick_one asked r r.chosen p)

-- `nameResolveFail`: the answer for the names that did not come out, if there are any.
unfoldable pub name_resolve_fail :
    (String → String) → List String → List NameResolution → Option Args
unfolding unresolved_result ambiguous_result describe
name_resolve_fail quote (n ∷ unknown) unsure = some (unresolved_result (n ∷ unknown))
name_resolve_fail quote [] [] = none
name_resolve_fail quote [] (r ∷ unsure) =
    some (ambiguous_result (map (describe quote) (r ∷ unsure)))

-- A set of things to write about, or an answer that refuses.
pub data Resolved (A : Type 0) : Type 0 where
  refused : Args → Resolved A
  found : A → Resolved A

abbrev pub judged : Option Args → List NameMatch → Resolved (List NameMatch)
judged none matches = Resolved.found matches
judged (some answer) matches = Resolved.refused answer

unfoldable pub judge_picked : Net → Picked → Resolved (List NameMatch)
unfolding name_resolve_fail
judge_picked net p = judged (name_resolve_fail net.quote p.unknown p.unsure) p.matches

module _ (net : Net) where
  abbrev pub look_up : List String → List String → List String → T Resolutions
  look_up names prefer only = read (resolve_names net.lower net.universe_ids names prefer only)

  -- The matches of all the names, or a refusal.
  unfoldable pub resolve_matches : List String → List String → T (Resolved (List NameMatch))
  unfolding pick judge_picked resolve_names
  resolve_matches names only = look_up names [] only >>= λ resolutions.
      t_pure (judge_picked net (pick net.lower names resolutions nothing_picked))
