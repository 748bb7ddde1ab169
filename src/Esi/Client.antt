-- ===== src/Esi/Client.antt =====
-- internal/adapter/esi/http/request.go: `cachedGet`, `finishGet` and `write`, which put the cache,
-- the limits and one request together, with what they use of httputil.go and cache.go.
pub mod Again
pub mod Limit
use eve_online_mcp.Prelude.{
  ℕ, zero, suc, ◌+◌, ◌-◌, ◌*◌, ◌/◌, min, String, Bool, true, false, ◌&&◌, ◌||◌, Option, none, some,
  List, [], ◌∷◌, if◌then◌else◌, ltb, leb, ◌==◌,
}
use eve_online_mcp.Domain.{second}
use eve_online_mcp.Esi.Bucket.{refund}
use eve_online_mcp.Esi.Budget.{ℤ, pos, negsuc, BudgetSpent, ErrorBudget, check}
use eve_online_mcp.Esi.Cache.{CachedResponse, ResponseCache, fresh, lookup, put, touch}
use eve_online_mcp.Esi.Request.{
  Line, Reply, Outcome, Method, Failure, Answer, get, answered, failed, out_of_fuel, request,
}

-- Seconds of the source in nanoseconds.
abbrev pub max_cache_ttl : ℕ
max_cache_ttl = 86400 * second

abbrev pub default_ttl : ℤ
default_ttl = pos (60 * second)

-- A time of the source in whole seconds.
abbrev pub unix_time : ℕ → ℕ
unix_time t = t / second * second

abbrev pub clamped : ℤ → ℕ
clamped (pos d) = min d max_cache_ttl
clamped (negsuc d) = 0

abbrev pub ttl_of : Option ℤ → Option ℤ → ℤ
ttl_of (some d) fallback = d
ttl_of none (some d) = d
ttl_of none none = default_ttl

unfoldable pub expires_at : ℕ → Option ℤ → Option ℤ → ℕ
expires_at now lifetime fallback = unix_time now + clamped (ttl_of lifetime fallback)

-- esi.Result, with `J` for a JSON value. An age is in nanoseconds.
pub record Result (J : Type 0) : Type 0 where
  pub content : J
  pub from_cache : Bool
  pub age : ℕ
  pub expires_at : ℕ
  pub pages : Option ℕ
  pub truncated : Bool

-- `stuck` is no error of the program.
pub data CallError : Type 0 where
  budget_spent : BudgetSpent → CallError
  no_token : CallError
  request_failed : Failure → CallError
  torn_body : CallError
  http_error : ℕ → CallError
  unencodable : CallError
  stuck : CallError

pub data Fetch (A : Type 0) : Type 0 where
  fetched : A → Fetch A
  refused : CallError → Fetch A

pub record Client : Type 0 where
  pub line : Line
  pub cache : ResponseCache

abbrev pub is_server_error : ℕ → Bool
is_server_error status = leb 500 status && ltb status 600

-- `decode` and `Data` read JSON with `unmarshal`; `marshal` writes it. `denied` says when the source
-- of tokens gives an error. The key of the cache is an argument.
module _ {J : Type 0} (null : J) (text : List ℕ → J) (unmarshal : List ℕ → Option J)
    (marshal : J → Option (List ℕ)) where
  abbrev pub read_json : J → List ℕ → J
  read_json otherwise body = elim (unmarshal body) [ none ↦ otherwise | some v ↦ v ]

  unfoldable pub decode : ℕ → List ℕ → J
  decode status [] = null
  decode status (b ∷ body) = if status == 204 then null else read_json (text (b ∷ body)) (b ∷ body)

  unfoldable pub data_of : List ℕ → J
  data_of [] = null
  data_of (b ∷ body) = read_json null (b ∷ body)

  unfoldable pub cached_result : ℕ → CachedResponse → Result J
  unfolding data_of
  cached_result now r = record {
    content = data_of r.body;
    from_cache = true;
    age = now - r.stored_at;
    expires_at = unix_time r.expires_at;
    pages = r.pages;
    truncated = false;
  }

  abbrev pub page_of : List ℕ → ℕ → Reply → CachedResponse
  page_of raw expires r = record {
    body = raw;
    etag = r.etag;
    expires_at = unix_time expires;
    stored_at = 0;
    pages = r.pages;
  }

  -- The last part of `finishGet`, on what `json.Marshal` gives.
  unfoldable pub store :
      String → J → ℕ → Reply → Option (List ℕ) → Client → Fetch (Result J) × Client
  store key decoded expires r none c = (refused unencodable, c)
  store key decoded expires r (some raw) c = (
    fetched (record {
      content = decoded;
      from_cache = false;
      age = 0;
      expires_at = expires;
      pages = r.pages;
      truncated = false;
    }),
    record c { cache = put c.line.now key (page_of raw expires r) c.cache },
  )

  unfoldable pub revalidate :
      String → Option ℤ → CachedResponse → Reply → Client → Fetch (Result J) × Client
  unfolding data_of expires_at
  revalidate key fallback old r c =
      let expires = expires_at c.line.now r.lifetime fallback in
      (
        fetched (record {
          content = data_of old.body;
          from_cache = true;
          age = 0;
          expires_at = expires;
          pages = old.pages;
          truncated = false;
        }),
        record {
          line = record c.line { bucket = refund c.line.bucket };
          cache = touch c.line.now key (unix_time expires) c.cache;
        },
      )

  unfoldable pub finish_fresh : String → Option ℤ → Reply → Client → Fetch (Result J) × Client
  unfolding decode expires_at store
  finish_fresh key fallback r c =
      let decoded = decode r.status r.body in
      store key decoded (expires_at c.line.now r.lifetime fallback) r (marshal decoded) c

  unfoldable pub finish_get :
      String → Option ℤ → Option CachedResponse → Reply → Client → Fetch (Result J) × Client
  unfolding revalidate finish_fresh cached_result
  finish_get key fallback (some old) r c =
      if r.status == 304
      then revalidate key fallback old r c
      else if leb 400 r.status
      then (if is_server_error r.status
          then (fetched (cached_result c.line.now old), c)
          else (refused (http_error r.status), c))
      else finish_fresh key fallback r c
  finish_get key fallback none r c =
      if leb 400 r.status then (refused (http_error r.status), c) else finish_fresh key fallback r c

  -- `cachedGet` after its request.
  unfoldable pub settle :
      String
      → Option ℤ
      → Option CachedResponse
      → ResponseCache
      → Answer × Line
      → Fetch (Result J) × Client
  unfolding finish_get
  settle key fallback cached cache (answered r, line) =
      if r.complete
      then finish_get key fallback cached r (record { line = line; cache = cache })
      else (refused torn_body, record { line = line; cache = cache })
  settle key fallback cached cache (failed f, line) =
      (refused (request_failed f), record { line = line; cache = cache })
  settle key fallback cached cache (out_of_fuel, line) =
      (refused stuck, record { line = line; cache = cache })

  module _ (outcome : ℕ → Outcome) (took random : ℕ → ℕ) (denied : ℕ → Bool) where
    -- `cachedGet` after `checkErrorBudget`.
    unfoldable pub asked :
        String
        → Option ℤ
        → Option CachedResponse
        → Option BudgetSpent × ErrorBudget
        → Client
        → Fetch (Result J) × Client
    unfolding settle
    asked key fallback cached (some spent, b) c =
        (refused (budget_spent spent), record c { line = record c.line { budget = b } })
    asked key fallback cached (none, b) c =
        let line = record c.line { budget = b } in
        if denied line.now
        then (refused no_token, record c { line = line })
        else settle key fallback cached c.cache (request outcome took random 3 get 0 line)

    abbrev pub ask : String → Option ℤ → Option CachedResponse → Client → Fetch (Result J) × Client
    unfolding asked
    ask key fallback cached c =
        asked key fallback cached (check c.line.error_remain c.line.now c.line.budget) c

    unfoldable pub looked_up :
        String → Option ℤ → Option CachedResponse → Client → Fetch (Result J) × Client
    unfolding cached_result asked
    looked_up key fallback none c = ask key fallback none c
    looked_up key fallback (some r) c =
        if fresh c.line.now r
        then (fetched (cached_result c.line.now r), c)
        else ask key fallback (some r) c

    unfoldable pub cached_get : String → Option ℤ → Client → Fetch (Result J) × Client
    unfolding looked_up
    cached_get key fallback c =
        let (found, cache) = lookup key c.cache in
        looked_up key fallback found (record c { cache = cache })

    unfoldable pub write_answer : Answer × Line → Client → Fetch J × Client
    unfolding decode
    write_answer (answered r, line) c =
        let d = record c { line = line } in
        if r.complete
        then (if leb 400 r.status
            then (refused (http_error r.status), d)
            else (fetched (decode r.status r.body), d))
        else (refused torn_body, d)
    write_answer (failed f, line) c = (refused (request_failed f), record c { line = line })
    write_answer (out_of_fuel, line) c = (refused stuck, record c { line = line })

    unfoldable pub write_asked :
        Method → Option BudgetSpent × ErrorBudget → Client → Fetch J × Client
    unfolding write_answer
    write_asked method (some spent, b) c =
        (refused (budget_spent spent), record c { line = record c.line { budget = b } })
    write_asked method (none, b) c =
        let line = record c.line { budget = b } in
        if denied line.now
        then (refused no_token, record c { line = line })
        else write_answer (request outcome took random 3 method 0 line) c

    unfoldable pub write : Method → Client → Fetch J × Client
    unfolding write_asked
    write method c = write_asked method (check c.line.error_remain c.line.now c.line.budget) c
