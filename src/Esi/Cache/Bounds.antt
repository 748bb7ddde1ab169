-- ===== src/Esi/Cache/Bounds.antt =====
-- internal/adapter/esi/http/cache.go: every operation leaves the cache within its two bounds.
use eve_online_mcp.Prelude.{
  ℕ, zero, suc, ◌≤◌, ◌≡◌, refl, inl, inr, String, Bool, true, false, some, List, [], ◌∷◌,
  if◌then◌else◌, arith, find?, length, count, Option-cases, ap, str_eq_of_true, find?-holds,
}
use eve_online_mcp.Esi.Cache.{
  CachedResponse, CacheItem, ResponseCache, size, has_key, without, lookup, back, over_full,
  drop_back, evict, evict_locked, stamp, insert, put, touch,
}
use eve_online_mcp.Esi.Cache.Counts.{
  total, Counts, IsValid, total-without, length-without, count-without, total-remove_back,
  length-remove_back, count-remove_back, back-none, count-without-found, once-front, insert-Counts,
}

pub drop_back-Counts : (c : ResponseCache) → Counts c → Counts (drop_back c)
unfolding drop_back
drop_back-Counts c v = elim (Option-cases (back c.items)) [
  | inl h ↦ record { counted = ground (arith, v.counted); once = λ key. ground (arith, v.once key) }
  | inr (i, h) ↦ record {
    counted = ground (arith, v.counted, total-remove_back c.items i h);
    once = λ key. ground (arith, v.once key, count-remove_back (has_key key) c.items);
  }
]

pub drop_back-length :
    (c : ResponseCache) (n : ℕ) → length c.items ≤ suc n → length (drop_back c).items ≤ n
unfolding drop_back
drop_back-length c n h = elim (Option-cases (back c.items)) [
  | inl e ↦ ground (arith, back-none c.items e)
  | inr (i, e) ↦ ground (arith, length-remove_back c.items i e)
]

pub empty-total : (items : List CacheItem) → length items ≤ 0 → total items ≡ 0
empty-total [] h = refl
empty-total (i ∷ items) h = omega (arith, h)

pub bounded-IsValid : (c : ResponseCache) → Counts c → over_full c ≡ false → IsValid c
bounded-IsValid c v h = record { counts = v; few = ground arith; small = ground arith }

pub either-IsValid :
    (b : Bool) (x y : ResponseCache)
    → IsValid x
    → (b ≡ false → IsValid y)
    → IsValid (if b then x else y)
either-IsValid true x y v w = v
either-IsValid false x y v w = w refl

-- With a round for every item the loop ends inside both bounds.
pub evict-IsValid :
    (fuel : ℕ) (c : ResponseCache) → Counts c → length c.items ≤ fuel → IsValid (evict fuel c)
unfolding evict
evict-IsValid zero c v h =
    let empty = empty-total c.items h in
    record { counts = v; few = omega (arith, h); small = omega (arith, empty, v.counted) }
evict-IsValid (suc fuel) c v h =
    either-IsValid (over_full c) (evict fuel (drop_back c)) c
      (evict-IsValid fuel (drop_back c) (drop_back-Counts c v) (drop_back-length c fuel h))
      (bounded-IsValid c v)

pub evict_locked-IsValid : (c : ResponseCache) → Counts c → IsValid (evict_locked c)
unfolding evict_locked
evict_locked-IsValid c v = evict-IsValid (length c.items) c v (omega arith)

-- `put` keeps a valid cache valid: the counter is the sum of the bodies, no key stands twice, and
-- both bounds, on entries and on bytes, hold whatever is stored.
pub put-IsValid :
    (now : ℕ) (key : String) (val : CachedResponse) (c : ResponseCache)
    → IsValid c
    → IsValid (put now key val c)
unfolding put
put-IsValid now key val c v = ground (
  arith,
  evict_locked-IsValid (insert key (stamp now val) c)
      (insert-Counts key (stamp now val) c v.counts),
)

pub found-key :
    (key : String) (items : List CacheItem) (i : CacheItem)
    → find? (has_key key) items ≡ some i
    → i.key ≡ key
found-key key items i h = str_eq_of_true i.key key (find?-holds (has_key key) items h)

-- The element of a key goes to the front, its body as long as before.
pub move-IsValid :
    (key : String) (i : CacheItem) (val : CachedResponse) (c : ResponseCache)
    → IsValid c
    → find? (has_key key) c.items ≡ some i
    → length val.body ≡ size i
    → IsValid (record c { items = record { key = i.key; val = val } ∷ without key c.items })
move-IsValid key i val c v h s = record {
  counts = record {
    counted = omega (arith, s, v.counts.counted, total-without key c.items i h);
    once = λ k.
        once-front i.key k val (without key c.items)
          (omega (
            arith,
            ap (λ q. count (has_key q) (without key c.items)) (found-key key c.items i h),
            count-without-found key c.items i h,
            v.counts.once key,
          ))
          (omega (arith, count-without key k c.items, v.counts.once k));
  };
  few = omega (arith, length-without key c.items i h, v.few);
  small = v.small;
}

-- `get` only moves an item.
pub lookup-IsValid : (key : String) (c : ResponseCache) → IsValid c → IsValid (lookup key c).1
unfolding lookup
lookup-IsValid key c v = elim (Option-cases (find? (has_key key) c.items)) [
  | inl h ↦ ground (arith, v)
  | inr (i, h) ↦ ground (arith, move-IsValid key i i.val c v h refl)
]

pub touch-IsValid :
    (now : ℕ) (key : String) (expires_at : ℕ) (c : ResponseCache)
    → IsValid c
    → IsValid (touch now key expires_at c)
unfolding touch
touch-IsValid now key expires_at c v = elim (Option-cases (find? (has_key key) c.items)) [
  | inl h ↦ ground (arith, v)
  | inr (i, h) ↦ ground (
    arith,
    move-IsValid key i (record i.val { expires_at = expires_at; stored_at = now }) c v h refl,
  )
]
