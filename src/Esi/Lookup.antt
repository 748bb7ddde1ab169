-- ===== src/Esi/Lookup.antt =====
-- internal/adapter/esi/http/resolver.go, `IDsFromNames` and `ResolveNames`, with
-- internal/adapter/esi/names.go: what a name may stand for, the likeliest match first.
pub mod Order
pub mod Best
use Prim.Native.String.{compare as compare_text}
use Prim.Native.Nat.{Ordering}
use eve_online_mcp.Prelude.{
  ℕ, zero, suc, ◌+◌, String, Bool, true, false, not, ◌&&◌, ◌||◌, Option, none, some, List, [], ◌∷◌,
  ◌++◌, map, if◌then◌else◌, ltb, leb, ◌==◌, str_eq, contains, length, take, trim_space,
}
use eve_online_mcp.Store.{World, Result, ok, err, M, pure, ◌>>=◌}

abbrev pub ids_batch : ℕ
ids_batch = 500

-- esi.NameMatch
pub record NameMatch : Type 0 where
  pub id : ℕ
  pub name : String
  pub category : String
  pub kind : String

-- esi.NameResolution
pub record NameResolution : Type 0 where
  pub query : String
  pub chosen : Option NameMatch
  pub alternatives : List NameMatch

abbrev pub ambiguous : NameResolution → Bool
ambiguous r = leb 1 (length r.alternatives)

unfoldable pub category_kind : String → String
category_kind key =
    if str_eq key "agents"
    then "agent"
    else if str_eq key "alliances"
    then "alliance"
    else if str_eq key "characters"
    then "character"
    else if str_eq key "constellations"
    then "constellation"
    else if str_eq key "corporations"
    then "corporation"
    else if str_eq key "factions"
    then "faction"
    else if str_eq key "inventory_types"
    then "item type"
    else if str_eq key "regions"
    then "region"
    else if str_eq key "stations"
    then "station"
    else if str_eq key "systems"
    then "solar system"
    else ""

-- A row that ESI answers for a name.
pub record Entry : Type 0 where
  pub id : ℕ
  pub name : String

-- A map from a category to its rows, in an order in which it may be walked.
abbrev pub Found : Type 0
Found = List (String × List Entry)

abbrev pub Resolutions : Type 0
Resolutions = List (String × NameResolution)

-- The names trimmed, each once, where it is met first.
unfoldable pub unique_names : List String → List String → List String
unfolding trim_space contains
unique_names seen [] = []
unique_names seen (n ∷ names) =
    let name = trim_space n in
    if str_eq name "" || contains seen name
    then unique_names seen names
    else name ∷ unique_names (name ∷ seen) names

unfoldable pub drop : ℕ → List String → List String
drop zero names = names
drop (suc n) [] = []
drop (suc n) (name ∷ names) = drop n names

-- The slices of the loop, with as much fuel as there are names.
unfoldable pub batches : ℕ → List String → List (List String)
unfolding drop
batches zero names = []
batches (suc fuel) [] = []
batches (suc fuel) (n ∷ names) =
    take ids_batch (n ∷ names) ∷ batches fuel (drop ids_batch (n ∷ names))

unfoldable pub add_rows : String → List Entry → Found → Found
add_rows key rows [] = (key, rows) ∷ []
add_rows key rows ((k, old) ∷ out) =
    if str_eq k key then (k, old ++ rows) ∷ out else (k, old) ∷ add_rows key rows out

unfoldable pub add_part : Found → Found → Found
unfolding add_rows
add_part [] out = out
add_part ((key, rows) ∷ part) out = add_part part (add_rows key rows out)

-- The rank of a category, that of its last place in the list, or the number of ranks.
unfoldable pub rank_from : ℕ → List String → String → Option ℕ
rank_from i [] category = none
rank_from i (key ∷ prefer) category =
    let later = rank_from (suc i) prefer category in
    elim later [ none ↦ if str_eq key category then some i else none | some j ↦ some j ]

-- The length of a map with these keys.
unfoldable pub distinct : List String → ℕ
unfolding contains
distinct [] = 0
distinct (key ∷ prefer) = if contains prefer key then distinct prefer else suc (distinct prefer)

unfoldable pub rank_of : List String → String → ℕ
unfolding rank_from distinct
rank_of prefer category = elim (rank_from 0 prefer category) [ none ↦ distinct prefer | some i ↦ i ]

unfoldable pub text_less : String → String → Bool
text_less s t = elim (compare_text s t) [ Ordering.lt ↦ true | _ ↦ false ]

-- `lessNameMatch`, by the rank of a category.
unfoldable pub less : (String → ℕ) → NameMatch → NameMatch → Bool
unfolding text_less
less rank a b =
    if not (rank a.category == rank b.category)
    then ltb (rank a.category) (rank b.category)
    else if not (str_eq a.category b.category)
    then text_less a.category b.category
    else ltb a.id b.id

unfoldable pub insert_match : (String → ℕ) → NameMatch → List NameMatch → List NameMatch
unfolding less
insert_match rank m [] = m ∷ []
insert_match rank m (n ∷ ns) = if less rank n m then n ∷ insert_match rank m ns else m ∷ n ∷ ns

-- `sort.Slice`: matches that are alike in category and id may come in any order.
unfoldable pub sort_matches : (String → ℕ) → List NameMatch → List NameMatch
unfolding insert_match
sort_matches rank [] = []
sort_matches rank (m ∷ ms) = insert_match rank m (sort_matches rank ms)

-- The least match is chosen, the others are its alternatives.
unfoldable pub resolution : String → List NameMatch → NameResolution
resolution query [] = record { query = query; chosen = none; alternatives = [] }
resolution query (m ∷ ms) = record { query = query; chosen = some m; alternatives = ms }

-- `lower` is `strings.ToLower`, for its tables of letters.
module _ (lower : String → String) where
  -- The key of a name in the maps.
  unfoldable pub fold : String → String
  unfolding trim_space
  fold s = lower (trim_space s)

  unfoldable pub match_of : String → Entry → NameMatch
  unfolding category_kind
  match_of key e = record {
    id = e.id;
    name = e.name;
    category = key;
    kind = if str_eq (category_kind key) "" then key else category_kind key;
  }

  -- The rows of one category that fall into the bucket of a name.
  unfoldable pub matches_in : String → String → List Entry → List NameMatch
  unfolding fold match_of
  matches_in wanted key [] = []
  matches_in wanted key (e ∷ rows) =
      if ((e.id == 0) || str_eq e.name "") || not (str_eq (fold e.name) wanted)
      then matches_in wanted key rows
      else match_of key e ∷ matches_in wanted key rows

  abbrev pub is_asked : List String → String → Bool
  is_asked only key = leb (length only) 0 || contains only key

  -- `collectNameBuckets`, read at one name.
  unfoldable pub bucket : List String → Found → String → List NameMatch
  unfolding matches_in contains
  bucket only [] wanted = []
  bucket only ((key, rows) ∷ found) wanted =
      if is_asked only key
      then matches_in wanted key rows ++ bucket only found wanted
      else bucket only found wanted

  -- The map that the loop fills, the last name that was put into it first.
  unfoldable pub pick_name_resolutions :
      List String → (String → List NameMatch) → (String → ℕ) → Resolutions → Resolutions
  unfolding fold trim_space sort_matches resolution
  pick_name_resolutions [] buckets rank out = out
  pick_name_resolutions (asked ∷ names) buckets rank out =
      let wanted = fold asked in
      pick_name_resolutions names buckets rank
        ((wanted, resolution (trim_space asked) (sort_matches rank (buckets wanted))) ∷ out)

  abbrev pub unresolved : NameResolution
  unresolved = record { query = ""; chosen = none; alternatives = [] }

  -- `resolutions[wanted]`, with the zero value for a missing key.
  unfoldable pub resolved : Resolutions → String → NameResolution
  resolved [] wanted = unresolved
  resolved ((k, r) ∷ out) wanted = if str_eq k wanted then r else resolved out wanted

  -- `universe_ids` is the request to ESI.
  module _ (universe_ids : List String → M Found) where
    unfoldable pub ask_batches : List (List String) → Found → M Found
    unfolding add_part
    ask_batches [] out = pure out
    ask_batches (part ∷ parts) out =
        universe_ids part >>= λ found. ask_batches parts (add_part found out)

    unfoldable pub ids_from_names : List String → M Found
    unfolding unique_names batches ask_batches
    ids_from_names names =
        let unique = unique_names [] names in ask_batches (batches (length unique) unique) []

    unfoldable pub resolve_names : List String → List String → List String → M Resolutions
    unfolding ids_from_names pick_name_resolutions rank_of bucket
    resolve_names names prefer only = ids_from_names names >>= λ found.
        pure (pick_name_resolutions names (bucket only found) (rank_of prefer) [])
