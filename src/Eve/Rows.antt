-- ===== src/Eve/Rows.antt =====
-- internal/j/j.go, the reading of decoded JSON, and of internal/usecase/eve/common.go what the tools
-- do with the fields of a row: emptyVal, compact, project, merge and intersect.
use eve_online_mcp.Prelude.{
  ◌≡◌, ◌∙◌, refl, ap, String, Bool, true, false, not, ◌&&◌, ◌||◌, List, [], ◌∷◌, map, filter,
  eq_iff, str_eq, contains, arith, if◌then◌else◌,
}

-- A Go value of type `any`; a number is a float, of a type that the caller chooses. A map is the
-- list of its fields, each key once.
mutual
  pub data Any (F : Type 0) : Type 0 where
    nil : Any F
    text : String → Any F
    flag : Bool → Any F
    number : F → Any F
    texts : List String → Any F
    slice : Items F → Any F
    fields : Fields F → Any F

  pub data Items (F : Type 0) : Type 0 where
    end : Items F
    item : Any F → Items F → Items F

  pub data Fields (F : Type 0) : Type 0 where
    bare : Fields F
    field : String → Any F → Fields F → Fields F

module _ {F : Type 0} where
  -- `j.Map`
  unfoldable pub map_of : Any F → Fields F
  map_of (fields m) = m
  map_of v = bare

  -- `j.Slice`; nil is a slice of nothing.
  unfoldable pub slice_of : Any F → Items F
  slice_of (slice s) = s
  slice_of v = end

  unfoldable pub maps_in : Items F → List (Fields F)
  maps_in end = []
  maps_in (item (fields m) raw) = m ∷ maps_in raw
  maps_in (item v raw) = maps_in raw

  -- `j.Maps`
  unfoldable pub maps : Any F → List (Fields F)
  unfolding maps_in slice_of
  maps v = maps_in (slice_of v)

  -- `j.Get`
  unfoldable pub get : Fields F → String → Any F
  get bare key = nil
  get (field k v m) key = let rest = get m key in if str_eq k key then v else rest

  -- `j.Has`
  unfoldable pub has : Fields F → String → Bool
  has bare key = false
  has (field k v m) key = str_eq k key || has m key

  -- `j.Str`
  unfoldable pub str : Any F → String
  str (text t) = t
  str v = ""

  -- `j.Bool`
  unfoldable pub bool : Any F → Bool
  bool (flag b) = b
  bool v = false

  unfoldable pub empty_val : Any F → Bool
  empty_val nil = true
  empty_val (text t) = str_eq t ""
  empty_val (texts []) = true
  empty_val (slice end) = true
  empty_val (fields bare) = true
  empty_val v = false

  unfoldable pub compact : Fields F → Fields F
  unfolding empty_val
  compact bare = bare
  compact (field k v m) = let out = compact m in if empty_val v then out else field k v out

  unfoldable pub picked : List String → Bool → Fields F → Fields F
  unfolding empty_val
  picked keep concise bare = bare
  picked keep concise (field k v row) =
      let out = picked keep concise row in
      if concise && not (contains keep k) || empty_val v then out else field k v out

  unfoldable pub project : List (Fields F) → List String → Bool → List (Fields F)
  unfolding picked
  project rows keep concise = map (picked keep concise) rows

  -- `m[key] = v`
  unfoldable pub set : String → Any F → Fields F → Fields F
  set key v bare = field key v bare
  set key v (field k old m) =
      let rest = set key v m in if str_eq k key then field k v m else field k old rest

  unfoldable pub merge : Fields F → Fields F → Fields F
  unfolding set
  merge dst bare = dst
  merge dst (field k v extra) = merge (set k v dst) extra

  -- A compact map is compact: nothing is left to drop.
  pub compact_twice : (m : Fields F) → compact (compact m) ≡ compact m
  unfolding compact
  compact_twice bare = refl
  compact_twice (field k v m) = ground (arith, compact_twice m)

  picked-compact : (keep : List String) (row : Fields F) → picked keep false row ≡ compact row
  unfolding picked compact
  picked-compact keep bare = refl
  picked-compact keep (field k v row) = ground (arith, picked-compact keep row)

  -- In the detailed format a row keeps all that is not empty.
  pub project-compact :
      (rows : List (Fields F)) (keep : List String) → project rows keep false ≡ map compact rows
  unfolding project
  project-compact [] keep = refl
  project-compact (row ∷ rows) keep =
      ap (λ r. r ∷ map (picked keep false) rows) (picked-compact keep row)
      ∙ ap (λ rs. compact row ∷ rs) (project-compact rows keep)

  -- In the concise format a row has no field but those to keep.
  pub has-picked :
      (keep : List String) (row : Fields F) (key : String)
      → contains keep key ≡ false
      → has (picked keep true row) key ≡ false
  unfolding has picked
  has-picked keep bare key out = refl
  has-picked keep (field k v row) key out =
      ground (arith, out, eq_iff k key, has-picked keep row key out)

  get-set :
      (m : Fields F) (k key : String) (v : Any F)
      → get (set k v m) key ≡ (if str_eq k key then v else get m key)
  unfolding get set
  get-set bare k key v = refl
  get-set (field c old m) k key v =
      ground (arith, eq_iff c k, eq_iff k key, eq_iff c key, get-set m k key v)

  -- What is not merged in stays.
  pub get-merge :
      (dst extra : Fields F) (key : String)
      → has extra key ≡ false
      → get (merge dst extra) key ≡ get dst key
  unfolding merge has
  get-merge dst bare key out = refl
  get-merge dst (field k v extra) key out =
      get-merge (set k v dst) extra key (ground (arith, out))
      ∙ get-set dst k key v
      ∙ ground (arith, out)

  -- A field that has no value reads as nil.
  pub get-has : (m : Fields F) (key : String) → has m key ≡ false → get m key ≡ nil
  unfolding get has
  get-has bare key h = refl
  get-has (field k v m) key h = ground (arith, h, get-has m key)

-- A set of texts is a list.
unfoldable pub intersect : List String → List String → List String
intersect have want = filter (contains want) have

pub intersect_twice :
    (have want : List String) → intersect (intersect have want) want ≡ intersect have want
unfolding intersect
intersect_twice [] want = refl
intersect_twice (s ∷ have) want = ground (arith, intersect_twice have want)
