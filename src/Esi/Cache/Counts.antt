-- ===== src/Esi/Cache/Counts.antt =====
-- internal/adapter/esi/http/cache.go: the counter of bytes and the keys, when an item is taken out, dropped or put in.
use eve_online_mcp.Prelude.{
  ℕ, suc, ◌+◌, ◌≤◌, ◌≡◌, refl, inl, inr, String, Bool, none, some, List, [], ◌∷◌, arith, str_eq,
  find?, length, count, Option-cases, Bool-cases, ap, str_eq_of_true,
}
use eve_online_mcp.Esi.Cache.{
  CachedResponse, CacheItem, ResponseCache, size, has_key, without, back, remove_back, insert,
  max_cache_entries, max_cache_bytes,
}

abbrev pub total : List CacheItem → ℕ
total [] = 0
total (i ∷ items) = size i + total items

-- The counter counts, and no key stands twice in the list.
pub record Counts (c : ResponseCache) : Type 0 where
  pub counted : c.bytes ≡ total c.items
  pub once : (key : String) → count (has_key key) c.items ≤ 1

-- Both bounds hold.
pub record IsValid (c : ResponseCache) : Type 0 where
  pub counts : Counts c
  pub few : length c.items ≤ max_cache_entries
  pub small : c.bytes ≤ max_cache_bytes

pub total-without :
    (key : String) (items : List CacheItem) (i : CacheItem)
    → find? (has_key key) items ≡ some i
    → total (without key items) + size i ≡ total items
unfolding without
total-without key [] i h = ground arith
total-without key (j ∷ items) i h = ground (arith, total-without key items i)

pub length-without :
    (key : String) (items : List CacheItem) (i : CacheItem)
    → find? (has_key key) items ≡ some i
    → suc (length (without key items)) ≡ length items
unfolding without
length-without key [] i h = ground arith
length-without key (j ∷ items) i h = ground (arith, length-without key items i)

pub count-without :
    (key other : String) (items : List CacheItem)
    → count (has_key other) (without key items) ≤ count (has_key other) items
unfolding without
count-without key other [] = omega arith
count-without key other (j ∷ items) = ground (arith, count-without key other items)

pub total-remove_back :
    (items : List CacheItem) (i : CacheItem)
    → back items ≡ some i
    → total (remove_back items) + size i ≡ total items
unfolding remove_back back
total-remove_back [] i h = ground arith
total-remove_back (j ∷ []) i h = ground arith
total-remove_back (j ∷ k ∷ items) i h = ground (arith, total-remove_back (k ∷ items) i h)

pub length-remove_back :
    (items : List CacheItem) (i : CacheItem)
    → back items ≡ some i
    → suc (length (remove_back items)) ≡ length items
unfolding remove_back back
length-remove_back [] i h = ground arith
length-remove_back (j ∷ []) i h = ground arith
length-remove_back (j ∷ k ∷ items) i h = ground (arith, length-remove_back (k ∷ items) i h)

pub count-remove_back :
    (p : CacheItem → Bool) (items : List CacheItem) → count p (remove_back items) ≤ count p items
unfolding remove_back
count-remove_back p [] = omega arith
count-remove_back p (j ∷ []) = ground arith
count-remove_back p (j ∷ k ∷ items) = ground (arith, count-remove_back p (k ∷ items))

pub back-none : (items : List CacheItem) → back items ≡ none → items ≡ []
unfolding back
back-none [] h = refl
back-none (j ∷ []) h = ground arith
back-none (j ∷ k ∷ items) h = ground (arith, back-none (k ∷ items) h)

pub count-absent :
    (key : String) (items : List CacheItem)
    → find? (has_key key) items ≡ none
    → count (has_key key) items ≡ 0
count-absent key [] h = refl
count-absent key (i ∷ items) h = ground (arith, count-absent key items)

pub count-without-found :
    (key : String) (items : List CacheItem) (i : CacheItem)
    → find? (has_key key) items ≡ some i
    → suc (count (has_key key) (without key items)) ≡ count (has_key key) items
unfolding without
count-without-found key [] i h = ground arith
count-without-found key (j ∷ items) i h = ground (arith, count-without-found key items i)

-- A key that is not in the list may be put at its front.
pub once-front :
    (key k : String) (val : CachedResponse) (items : List CacheItem)
    → count (has_key key) items ≤ 0
    → count (has_key k) items ≤ 1
    → count (has_key k) (record { key = key; val = val } ∷ items) ≤ 1
once-front key k val items h g = elim (Bool-cases (str_eq key k)) [
  | inl e ↦ ground (arith, ap (λ q. count (has_key q) items) (str_eq_of_true key k e))
  | inr e ↦ ground arith
]

pub insert-Counts :
    (key : String) (val : CachedResponse) (c : ResponseCache) → Counts c → Counts (insert key val c)
unfolding insert
insert-Counts key val c v = elim (Option-cases (find? (has_key key) c.items)) [
  | inl h ↦ record {
    counted = ground (arith, v.counted);
    once = λ k. ground (arith, once-front key k val c.items, count-absent key c.items h, v.once k);
  }
  | inr (i, h) ↦ record {
    counted = ground (arith, v.counted, total-without key c.items i h);
    once = λ k. ground (
      arith,
      once-front key k val (without key c.items),
      count-without-found key c.items i h,
      count-without key k c.items,
      v.once k,
      v.once key,
    );
  }
]
