-- ===== src/Esi/Cache/Found.antt =====
-- internal/adapter/esi/http/cache.go: what is stored is found again, and what is dropped is the oldest.
use eve_online_mcp.Prelude.{
  ℕ, zero, suc, ◌≤◌, ◌<◌, ◌≡◌, refl, inl, inr, String, Bool, true, false, some, List, [], ◌∷◌,
  if◌then◌else◌, arith, find?, length, take, Option-cases, Bool-cases, sym, ap, ◌∙◌, str_eq_refl,
}
use eve_online_mcp.Esi.Cache.{
  CachedResponse, CacheItem, ResponseCache, size, has_key, lookup, back, remove_back, over_full,
  drop_back, evict, evict_locked, stamp, insert, put, max_cached_body,
}
use eve_online_mcp.Esi.Cache.Counts.{total, Counts, IsValid, insert-Counts}
use eve_online_mcp.Esi.Cache.Bounds.{drop_back-Counts, drop_back-length}

pub insert-front :
    (key : String) (val : CachedResponse) (c : ResponseCache)
    → take 1 (insert key val c).items ≡ record { key = key; val = val } ∷ []
unfolding insert
insert-front key val c = elim (Option-cases (find? (has_key key) c.items)) [
  | inl h ↦ ground arith
  | inr (i, h) ↦ ground arith
]

pub front-remove_back :
    (i : CacheItem) (items : List CacheItem)
    → take 1 items ≡ i ∷ []
    → 1 < length items
    → take 1 (remove_back items) ≡ i ∷ []
unfolding remove_back
front-remove_back i [] h m = ground arith
front-remove_back i (j ∷ []) h m = ground arith
front-remove_back i (j ∷ k ∷ items) h m = h

-- A list of one item is as large as the item.
pub total-front :
    (i : CacheItem) (items : List CacheItem)
    → take 1 items ≡ i ∷ []
    → length items ≤ 1
    → total items ≡ size i
total-front i [] h m = ground arith
total-front i (j ∷ []) h m = ground arith
total-front i (j ∷ k ∷ items) h m = ground arith

pub over_full-long :
    (i : CacheItem) (c : ResponseCache)
    → Counts c
    → size i ≤ max_cached_body
    → take 1 c.items ≡ i ∷ []
    → over_full c ≡ true
    → 1 < length c.items
over_full-long i c v s h e = ground (arith, v.counted, total-front i c.items h)

pub drop_back-front :
    (i : CacheItem) (c : ResponseCache)
    → take 1 c.items ≡ i ∷ []
    → 1 < length c.items
    → take 1 (drop_back c).items ≡ i ∷ []
unfolding drop_back
drop_back-front i c h m = elim (Option-cases (back c.items)) [
  | inl e ↦ ground (arith, h)
  | inr (j, e) ↦ ground (arith, front-remove_back i c.items h m)
]

-- An item that alone is within the bound on bytes is not dropped from the front.
pub evict-front :
    (fuel : ℕ) (i : CacheItem) (c : ResponseCache)
    → Counts c
    → size i ≤ max_cached_body
    → take 1 c.items ≡ i ∷ []
    → take 1 (evict fuel c).items ≡ i ∷ []
unfolding evict
evict-front zero i c v s h = h
evict-front (suc fuel) i c v s h = elim (Bool-cases (over_full c)) [
  | inl e ↦ ground (
    arith,
    evict-front fuel i (drop_back c) (drop_back-Counts c v) s
        (drop_back-front i c h (over_full-long i c v s h e)),
  )
  | inr e ↦ ground (arith, h)
]

pub find-front :
    (i : CacheItem) (items : List CacheItem)
    → take 1 items ≡ i ∷ []
    → find? (has_key i.key) items ≡ some i
find-front i [] h = ground arith
find-front i (j ∷ items) h = ground (arith, h, str_eq_refl i.key)

pub stamp-body : (now : ℕ) (val : CachedResponse) → (stamp now val).body ≡ val.body
unfolding stamp
stamp-body now val = ground arith

pub lookup-front :
    (i : CacheItem) (c : ResponseCache) → take 1 c.items ≡ i ∷ [] → (lookup i.key c).0 ≡ some i.val
unfolding lookup
lookup-front i c h = ground (arith, find-front i c.items h)

-- An answer that was stored in a valid cache is found again, unless its body is over the limit for
-- one body.
pub put-lookup :
    (now : ℕ) (key : String) (val : CachedResponse) (c : ResponseCache)
    → IsValid c
    → length val.body ≤ max_cached_body
    → (lookup key (put now key val c)).0 ≡ some (stamp now val)
unfolding put evict_locked
put-lookup now key val c v s =
    let entry : CacheItem = record { key = key; val = stamp now val } in
    let bigger = insert key (stamp now val) c in
    let counts = insert-Counts key (stamp now val) c v.counts in
    let small : size entry ≤ max_cached_body = omega (arith, s, ap length (stamp-body now val)) in
    let front =
      evict-front (length bigger.items) entry bigger counts small
        (insert-front key (stamp now val) c) in
    let found = lookup-front entry (evict_locked bigger) front in ground (arith, found, s)

take-remove_back :
    (n : ℕ) (items : List CacheItem)
    → n ≤ length (remove_back items)
    → take n (remove_back items) ≡ take n items
unfolding remove_back
take-remove_back zero items h = refl
take-remove_back (suc n) [] h = refl
take-remove_back (suc n) (j ∷ []) h = ground arith
take-remove_back (suc n) (j ∷ k ∷ items) h =
    ap (λ l. j ∷ l) (take-remove_back n (k ∷ items) (omega (arith, h)))

take-all : (items : List CacheItem) → take (length items) items ≡ items
take-all [] = refl
take-all (i ∷ items) = ap (λ l. i ∷ l) (take-all items)

take-drop_back :
    (n : ℕ) (c : ResponseCache)
    → n ≤ length (drop_back c).items
    → take n (drop_back c).items ≡ take n c.items
unfolding drop_back
take-drop_back n c h = elim (Option-cases (back c.items)) [
  | inl e ↦ ground arith
  | inr (j, e) ↦ ground (arith, take-remove_back n c.items)
]

drop_back-length-le : (c : ResponseCache) → length (drop_back c).items ≤ length c.items
drop_back-length-le c = omega (arith, drop_back-length c (length c.items) (omega arith))

-- The items of `d` are the first ones of `c`.
pub record Begins (d c : ResponseCache) : Type 0 where
  pub taken : take (length d.items) c.items ≡ d.items
  pub shorter : length d.items ≤ length c.items

either-Begins :
    (b : Bool) (x y c : ResponseCache) → Begins x c → Begins y c → Begins (if b then x else y) c
either-Begins true x y c v w = v
either-Begins false x y c v w = w

evict-Begins : (fuel : ℕ) (c : ResponseCache) → Begins (evict fuel c) c
unfolding evict
evict-Begins zero c = record { taken = take-all c.items; shorter = omega arith }
evict-Begins (suc fuel) c =
    let rest = evict-Begins fuel (drop_back c) in
    let n = length (evict fuel (drop_back c)).items in
    either-Begins (over_full c) (evict fuel (drop_back c)) c c
      (record {
        taken = sym (take-drop_back n c rest.shorter) ∙ rest.taken;
        shorter = omega (arith, rest.shorter, drop_back-length-le c);
      })
      (record { taken = take-all c.items; shorter = omega arith })

-- What `put` of a body within the limit drops was used less recently than all it keeps: it keeps a
-- front part of the list that has the stored item first.
pub put-Begins :
    (now : ℕ) (key : String) (val : CachedResponse) (c : ResponseCache)
    → length val.body ≤ max_cached_body
    → Begins (put now key val c) (insert key (stamp now val) c)
unfolding put evict_locked
put-Begins now key val c h =
    let d = insert key (stamp now val) c in ground (arith, evict-Begins (length d.items) d, h)
