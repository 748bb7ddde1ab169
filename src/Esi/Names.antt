-- ===== src/Esi/Names.antt =====
-- internal/adapter/esi/http: namecache.go and the part of resolver.go that finds the names of ids,
-- in memory, from ESI in bulk, and one by one for structures.
pub mod Named
use eve_online_mcp.Prelude.{
  ℕ, zero, suc, ◌+◌, String, Bool, true, false, not, ◌&&◌, ◌||◌, Option, none, some, List, [], ◌∷◌,
  ◌++◌, if◌then◌else◌, leb, ◌==◌, str_eq, length, take, filter, find?, any, remove_if,
}

abbrev pub max_name_entries : ℕ
max_name_entries = 50000

abbrev pub name_batch : ℕ
name_batch = 900

abbrev pub structure_id_floor : ℕ
structure_id_floor = 1000000000000

pub record NameItem : Type 0 where
  pub id : ℕ
  pub name : String

-- The names, the one that was used last first.
abbrev pub NameCache : Type 0
NameCache = List NameItem

abbrev pub has_id : ℕ → NameItem → Bool
has_id id i = i.id == id

-- nameHit, with a map as the pairs that were put into it, the last one first.
pub record NameHit : Type 0 where
  pub names : List NameItem
  pub missing : List ℕ

abbrev pub move_to_front : NameItem → NameCache → NameCache
move_to_front i c = i ∷ remove_if (has_id i.id) c

-- The loop of `get`, which goes on with what it has found.
unfoldable pub get : List ℕ → NameHit → NameCache → NameHit × NameCache
get [] hit c = (hit, c)
get (id ∷ ids) hit c = elim (find? (has_id id) c) [
  | none ↦ get ids (record hit { missing = hit.missing ++ id ∷ [] }) c
  | some i ↦ get ids (record hit { names = i ∷ hit.names }) (move_to_front i c)
]

-- The loop at the end of the source takes the last elements off, one by one.
unfoldable pub put : NameItem → NameCache → NameCache
put i c =
    if (i.id == 0) || str_eq i.name ""
    then c
    else if any (has_id i.id) c
    then move_to_front i c
    else take max_name_entries (i ∷ c)

-- The set of the ids that are not 0, each where it is met first.
unfoldable pub unique_positive : List ℕ → List ℕ → List ℕ
unique_positive seen [] = []
unique_positive seen (id ∷ ids) =
    if (id == 0) || any (λ n. n == id) seen
    then unique_positive seen ids
    else id ∷ unique_positive (id ∷ seen) ids

unfoldable pub drop : ℕ → List ℕ → List ℕ
drop zero ids = ids
drop (suc n) [] = []
drop (suc n) (id ∷ ids) = drop n ids

-- The slices of the loop over `universal`, with as much fuel as there are ids.
unfoldable pub chunks : ℕ → List ℕ → List (List ℕ)
unfolding drop
chunks zero ids = []
chunks (suc fuel) [] = []
chunks (suc fuel) (id ∷ ids) = take name_batch (id ∷ ids) ∷ chunks fuel (drop name_batch (id ∷ ids))

abbrev pub Filled : Type 0
Filled = List NameItem × NameCache

abbrev pub is_unnamed : NameItem → Bool
is_unnamed i = (i.id == 0) || str_eq i.name ""

unfoldable pub take_rows : List NameItem → Filled → Filled
unfolding put
take_rows [] f = f
take_rows (i ∷ rows) (out, c) =
    take_rows rows (if is_unnamed i then (out, c) else (i ∷ out, put i c))

-- `bulk` is ESI's answer to a list of ids, `structure` its answer for one structure, and `unknown` the
-- text for an id that has no name. The structures answer in the order in which they are asked.
module _ (bulk : List ℕ → Option (List NameItem)) (structure : ℕ → Option String)
    (unknown : ℕ → String) where
  abbrev pub or_none : Option (List NameItem) → List NameItem
  or_none none = []
  or_none (some rows) = rows

  unfoldable pub fill_chunks : List (List ℕ) → Filled → Filled
  unfolding take_rows
  fill_chunks [] f = f
  fill_chunks (chunk ∷ rest) f = fill_chunks rest (take_rows (or_none (bulk chunk)) f)

  unfoldable pub fill_universe_names : List ℕ → Filled → Filled
  unfolding fill_chunks chunks
  fill_universe_names ids f = fill_chunks (chunks (length ids) ids) f

  abbrev pub fill_one : ℕ → Option String → Filled → Filled
  unfolding put
  fill_one id none f = f
  fill_one id (some name) (out, c) =
      (record { id = id; name = name } ∷ out, put (record { id = id; name = name }) c)

  unfoldable pub fill_structure_names : List ℕ → Filled → Filled
  unfolding fill_one
  fill_structure_names [] f = f
  fill_structure_names (id ∷ ids) f = fill_structure_names ids (fill_one id (structure id) f)

  -- `as_character` says whether there is a character to ask as.
  unfoldable pub fill_missing_names : Bool → List ℕ → Filled → Filled
  unfolding fill_universe_names fill_structure_names
  fill_missing_names as_character missing f =
      let structures = filter (λ id. leb structure_id_floor id) missing in
      let universal = filter (λ id. not (leb structure_id_floor id)) missing in
      let g = fill_universe_names universal f in
      if as_character then fill_structure_names structures g else g

  unfoldable pub add_unknown : List ℕ → List NameItem → List NameItem
  add_unknown [] out = out
  add_unknown (id ∷ ids) out =
      add_unknown ids
        (if any (has_id id) out then out else record { id = id; name = unknown id } ∷ out)

  unfoldable pub fill_hit : Bool → List ℕ → NameHit × NameCache → Filled
  unfolding fill_missing_names add_unknown
  fill_hit as_character wanted (hit, c) =
      if length hit.missing == 0
      then (hit.names, c)
      else let (out, d) = fill_missing_names as_character hit.missing (hit.names, c) in
        (add_unknown wanted out, d)

  unfoldable pub names : Bool → List ℕ → NameCache → Filled
  unfolding unique_positive get fill_hit
  names as_character ids c =
      let wanted = unique_positive [] ids in
      if length wanted == 0
      then ([], c)
      else fill_hit as_character wanted (get wanted (record { names = []; missing = [] }) c)
