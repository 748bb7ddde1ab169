-- ===== src/Esi/Cache.antt =====
-- internal/adapter/esi/http/cache.go: the cache of ESI's answers, least recently used out first.
-- The map from keys to elements of the list is the search of the list by key.
pub mod Bounds
pub mod Counts
pub mod Found
use eve_online_mcp.Prelude.{
  ℕ, zero, suc, ◌+◌, ◌-◌, ◌*◌, String, Bool, true, false, ◌||◌, Option, none, some, List, [], ◌∷◌,
  if◌then◌else◌, ltb, ◌==◌, str_eq, find?, length,
}

abbrev pub max_cache_entries : ℕ
max_cache_entries = 2000

abbrev pub max_cache_bytes : ℕ
max_cache_bytes = 268435456

abbrev pub max_cached_body : ℕ
max_cached_body = 8388608

-- The body is a list of bytes. A time that was not set is 0.
pub record CachedResponse : Type 0 where
  pub body : List ℕ
  pub etag : String
  pub expires_at : ℕ
  pub stored_at : ℕ
  pub pages : Option ℕ

pub record CacheItem : Type 0 where
  pub key : String
  pub val : CachedResponse

-- The items, most recently used first.
pub record ResponseCache : Type 0 where
  pub items : List CacheItem
  pub bytes : ℕ

unfoldable pub fresh : ℕ → CachedResponse → Bool
fresh now r = ltb now r.expires_at

abbrev pub new_response_cache : ResponseCache
new_response_cache = record { items = []; bytes = 0 }

abbrev pub size : CacheItem → ℕ
size i = length i.val.body

abbrev pub has_key : String → CacheItem → Bool
has_key key i = str_eq i.key key

-- The list less the first element of this key, the element that `MoveToFront` moves.
unfoldable pub without : String → List CacheItem → List CacheItem
without key [] = []
without key (i ∷ items) = if str_eq i.key key then items else i ∷ without key items

unfoldable pub lookup : String → ResponseCache → Option CachedResponse × ResponseCache
unfolding without
lookup key c = elim (find? (has_key key) c.items) [
  | none ↦ (none, c)
  | some i ↦ (some i.val, record c { items = i ∷ without key c.items })
]

-- `ll.Back()`
unfoldable pub back : List CacheItem → Option CacheItem
back [] = none
back (i ∷ []) = some i
back (i ∷ j ∷ items) = back (j ∷ items)

unfoldable pub remove_back : List CacheItem → List CacheItem
remove_back [] = []
remove_back (i ∷ []) = []
remove_back (i ∷ j ∷ items) = i ∷ remove_back (j ∷ items)

abbrev pub over_full : ResponseCache → Bool
over_full c = ltb max_cache_entries (length c.items) || ltb max_cache_bytes c.bytes

-- One round of `evictLocked`.
unfoldable pub drop_back : ResponseCache → ResponseCache
unfolding back remove_back
drop_back c = elim (back c.items) [
  | none ↦ c
  | some i ↦ record { items = remove_back c.items; bytes = c.bytes - size i }
]

-- The loop runs at most once an item. On an empty list a round changes nothing.
unfoldable pub evict : ℕ → ResponseCache → ResponseCache
unfolding drop_back
evict zero c = c
evict (suc fuel) c = let rest = evict fuel (drop_back c) in if over_full c then rest else c

unfoldable pub evict_locked : ResponseCache → ResponseCache
unfolding evict
evict_locked c = evict (length c.items) c

unfoldable pub stamp : ℕ → CachedResponse → CachedResponse
stamp now val = if val.stored_at == 0 then record val { stored_at = now } else val

unfoldable pub insert : String → CachedResponse → ResponseCache → ResponseCache
unfolding without
insert key val c = elim (find? (has_key key) c.items) [
  | none ↦ record {
    items = record { key = key; val = val } ∷ c.items;
    bytes = c.bytes + length val.body;
  }
  | some i ↦ record {
    items = record { key = key; val = val } ∷ without key c.items;
    bytes = c.bytes - size i + length val.body;
  }
]

unfoldable pub put : ℕ → String → CachedResponse → ResponseCache → ResponseCache
unfolding evict_locked insert stamp
put now key val c =
    if ltb max_cached_body (length val.body) then c else evict_locked (insert key (stamp now val) c)

unfoldable pub touch : ℕ → String → ℕ → ResponseCache → ResponseCache
unfolding without
touch now key expires_at c = elim (find? (has_key key) c.items) [
  | none ↦ c
  | some i ↦ record c {
    items =
        record i { val = record i.val { expires_at = expires_at; stored_at = now } }
        ∷ without key c.items;
  }
]

-- `len` and `size` are the two halves of it.
pub stats : ResponseCache → ℕ × ℕ
stats c = (c.bytes, length c.items)
