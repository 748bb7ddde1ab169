-- ===== src/Esi/Client/Again.antt =====
-- internal/adapter/esi/http/request.go, `cachedGet`: what it fetched is what it answers from the
-- cache until it expires.
use eve_online_mcp.Prelude.{
  ℕ, ◌≤◌, ◌<◌, ◌≡◌, refl, sym, ap, ◌∙◌, arith, String, Bool, true, false, Option, none, some, List,
  if◌then◌else◌, leb, ◌==◌, length,
}
use eve_online_mcp.Esi.Budget.{ℤ, BudgetSpent, ErrorBudget, check}
use eve_online_mcp.Esi.Cache.{
  CachedResponse, ResponseCache, fresh, lookup, put, stamp, max_cached_body,
}
use eve_online_mcp.Esi.Cache.Counts.{IsValid}
use eve_online_mcp.Esi.Cache.Bounds.{lookup-IsValid}
use eve_online_mcp.Esi.Cache.Found.{put-lookup}
use eve_online_mcp.Esi.Request.{
  Line, Reply, Outcome, Answer, get, answered, failed, out_of_fuel, request,
}
use eve_online_mcp.Esi.Client.{
  Result, Fetch, fetched, refused, CallError, http_error, torn_body, request_failed, stuck,
  budget_spent, no_token, Client, unix_time, decode, expires_at, data_of, cached_result, page_of,
  store, revalidate, finish_fresh, finish_get, settle, asked, looked_up, cached_get,
  is_server_error,
}

-- The client at a later time.
abbrev pub later : ℕ → Client → Client
later t c = record c { line = record c.line { now = t } }

module _ {J : Type 0} (null : J) (text : List ℕ → J) (unmarshal : List ℕ → Option J)
    (marshal : J → Option (List ℕ)) where
  -- An answer over the network is in the cache, as `json.Marshal` writes it.
  record Stored (key : String) (g : Result J) (c : Client) : Type 0 where
    raw : List ℕ
    reply : Reply
    now : ℕ
    before : ResponseCache
    written : marshal g.content ≡ some raw
    kept : c.cache ≡ put now key (page_of null text unmarshal marshal raw g.expires_at reply) before
    valid : IsValid before
    same_pages : g.pages ≡ reply.pages

  abbrev Stores : String → Fetch (Result J) × Client → Type 0
  Stores key r = (g : Result J) → r.0 ≡ fetched g → g.from_cache ≡ false → Stored key g r.1

  store-Stores :
      (key : String) (decoded : J) (expires : ℕ) (r : Reply) (o : Option (List ℕ)) (c : Client)
      → marshal decoded ≡ o
      → IsValid c.cache
      → Stores key (store null text unmarshal marshal key decoded expires r o c)
  unfolding store
  store-Stores key decoded expires r none c e v g h new = ground (arith, h)
  store-Stores key decoded expires r (some raw) c e v g h new = record {
    raw = raw;
    reply = r;
    now = c.line.now;
    before = c.cache;
    written = ground (arith, h, e);
    kept = ground (arith, h);
    valid = v;
    same_pages = ground (arith, h);
  }

  finish_fresh-Stores :
      (key : String) (fallback : Option ℤ) (r : Reply) (c : Client)
      → IsValid c.cache
      → Stores key (finish_fresh null text unmarshal marshal key fallback r c)
  unfolding finish_fresh expires_at
  finish_fresh-Stores key fallback r c v =
      let decoded = decode null text unmarshal marshal r.status r.body in
      store-Stores key decoded (expires_at c.line.now r.lifetime fallback) r (marshal decoded) c
        refl v

  -- An error, and an answer from the cache, have nothing to show.
  refused-Stores : (key : String) (e : CallError) (c : Client) → Stores key (refused e, c)
  refused-Stores key e c g h new = ground (arith, h)

  cached-Stores :
      (key : String) (a : Result J) (c : Client) → a.from_cache ≡ true → Stores key (fetched a, c)
  cached-Stores key a c old g h new = ground (arith, old, h, new)

  either-Stores :
      (key : String) (b : Bool) (x y : Fetch (Result J) × Client)
      → Stores key x
      → Stores key y
      → Stores key (if b then x else y)
  either-Stores key true x y v w = v
  either-Stores key false x y v w = w

  finish_get-Stores :
      (key : String) (fallback : Option ℤ) (cached : Option CachedResponse) (r : Reply) (c : Client)
      → IsValid c.cache
      → Stores key (finish_get null text unmarshal marshal key fallback cached r c)
  unfolding finish_get revalidate cached_result
  finish_get-Stores key fallback (some old) r c v =
      either-Stores key (r.status == 304)
        (revalidate null text unmarshal marshal key fallback old r c) _ (cached-Stores key _ _ refl)
        (either-Stores key (leb 400 r.status) _ _
          (either-Stores key (is_server_error r.status) _ _
            (cached-Stores key (cached_result null text unmarshal marshal c.line.now old) c refl)
            (refused-Stores key (http_error r.status) c))
          (finish_fresh-Stores key fallback r c v))
  finish_get-Stores key fallback none r c v =
      either-Stores key (leb 400 r.status) _ _ (refused-Stores key (http_error r.status) c)
        (finish_fresh-Stores key fallback r c v)

  settle-Stores :
      (key : String) (fallback : Option ℤ) (cached : Option CachedResponse) (cache : ResponseCache)
      (a : Answer × Line)
      → IsValid cache
      → Stores key (settle null text unmarshal marshal key fallback cached cache a)
  unfolding settle
  settle-Stores key fallback cached cache (answered r, line) v =
      either-Stores key r.complete _ _
        (finish_get-Stores key fallback cached r (record { line = line; cache = cache }) v)
        (refused-Stores key torn_body (record { line = line; cache = cache }))
  settle-Stores key fallback cached cache (failed f, line) v =
      refused-Stores key (request_failed f) _
  settle-Stores key fallback cached cache (out_of_fuel, line) v = refused-Stores key stuck _

  module _ (outcome : ℕ → Outcome) (took random : ℕ → ℕ) (denied : ℕ → Bool) where
    asked-Stores :
        (key : String) (fallback : Option ℤ) (cached : Option CachedResponse)
        (t : Option BudgetSpent × ErrorBudget) (c : Client)
        → IsValid c.cache
        → Stores key
            (asked null text unmarshal marshal outcome took random denied key fallback cached t c)
    unfolding asked
    asked-Stores key fallback cached (some spent, b) c v = refused-Stores key (budget_spent spent) _
    asked-Stores key fallback cached (none, b) c v =
        let line : Line = record c.line { budget = b } in
        either-Stores key (denied line.now) _ _ (refused-Stores key no_token _)
          (settle-Stores key fallback cached c.cache (request outcome took random 3 get 0 line) v)

    looked_up-Stores :
        (key : String) (fallback : Option ℤ) (cached : Option CachedResponse) (c : Client)
        → IsValid c.cache
        → Stores key
            (looked_up null text unmarshal marshal outcome took random denied key fallback cached c)
    unfolding looked_up
    looked_up-Stores key fallback none c v =
        asked-Stores key fallback none (check c.line.error_remain c.line.now c.line.budget) c v
    looked_up-Stores key fallback (some r) c v =
        either-Stores key (fresh c.line.now r) _ _
          (cached-Stores key (cached_result null text unmarshal marshal c.line.now r) c refl)
          (asked-Stores key fallback (some r) (check c.line.error_remain c.line.now c.line.budget) c
            v)

    looked_up-hit :
        (key : String) (fallback : Option ℤ) (found : Option CachedResponse) (r : CachedResponse)
        (c : Client)
        → found ≡ some r
        → fresh c.line.now r ≡ true
        → looked_up null text unmarshal marshal outcome took random denied key fallback found c
          ≡ (fetched (cached_result null text unmarshal marshal c.line.now r), c)
    unfolding looked_up
    looked_up-hit key fallback none r c e lives = ground (arith, e)
    looked_up-hit key fallback (some found) r c e lives = ground (arith, e, lives)

    -- The answer from the cache at a later time.
    abbrev pub Again : String → Option ℤ → ℕ → Result J → Client → Type 0
    Again key fallback t g c =
        let r =
          cached_get null text unmarshal marshal outcome took random denied key fallback
            (later t c) in
        ((a : Result J) × ((r.0 ≡ fetched a)
            × ((a.content ≡ g.content) × ((a.pages ≡ g.pages) × (a.from_cache ≡ true)))))
        × (r.1.line ≡ (later t c).line)

    -- When `cachedGet` on a valid cache got an answer over the network whose JSON reads back as it
    -- was and has at most 8 MiB, then at any time before the second in which it expires, `cachedGet`
    -- of the same key, with whatever lifetime as a default, answers the same content and pages from
    -- the cache and sends nothing.
    pub cached_get-Again :
        (key : String) (fallback : Option ℤ) (c c' : Client) (g : Result J) (other : Option ℤ)
        (t : ℕ)
        → IsValid c.cache
        → cached_get null text unmarshal marshal outcome took random denied key fallback c
          ≡ (fetched g, c')
        → g.from_cache ≡ false
        → ((raw : List ℕ)
            → marshal g.content ≡ some raw
            → (data_of null text unmarshal marshal raw ≡ g.content)
              × (length raw ≤ max_cached_body))
        → t < unix_time g.expires_at
        → Again key other t g c'
    unfolding cached_get looked_up fresh cached_result stamp
    cached_get-Again key fallback c c' g other t v h new reads soon =
        let found = lookup key c.cache in
        let s =
          looked_up-Stores key fallback found.0 (record c { cache = found.1 })
            (lookup-IsValid key c.cache v) g (ap (λ r. r.0) h) new in
        let content = reads s.raw s.written in
        let page = page_of null text unmarshal marshal s.raw g.expires_at s.reply in
        let hit = put-lookup s.now key page s.before s.valid content.1 in
        let found_again : (lookup key c'.cache).0 ≡ some (stamp s.now page) =
          ap (λ r. (lookup key r.1.cache).0) (sym h) ∙ ap (λ k. (lookup key k).0) s.kept ∙ hit in
        let lives : fresh t (stamp s.now page) ≡ true = ground (arith, soon) in
        let r =
          looked_up-hit key other (lookup key c'.cache).0 (stamp s.now page)
            (record (later t c') { cache = (lookup key c'.cache).1 }) found_again lives in
        (
          (
            cached_result null text unmarshal marshal t (stamp s.now page),
            (ap (λ q. q.0) r, (content.0, (sym s.same_pages, refl))),
          ),
          ap (λ q. q.1.line) r,
        )
