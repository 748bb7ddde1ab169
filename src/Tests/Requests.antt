-- ===== src/Tests/Requests.antt =====
-- Runs of the client of ESI: internal/adapter/esi/http.
use eve_online_mcp.Prelude.{
  String, ℕ, ◌+◌, ◌-◌, ◌*◌, ◌≡◌, ◌≤◌, refl, ap, subst, Bool, true, false, none, some, List, [], ◌∷◌,
  arith, max, Option, length, ◌==◌, if◌then◌else◌, count,
}
use eve_online_mcp.Domain.{second}
use eve_online_mcp.Esi.Bucket.{new_user_bucket, capacity, token, refill_rate}
use eve_online_mcp.Esi.Budget.{pos}
use eve_online_mcp.Esi.Cache.{new_response_cache, max_cached_body}
use eve_online_mcp.Esi.Request.{Line, Reply, Outcome, replied, unsaid, get, post, request}
use eve_online_mcp.Esi.Request.Sends.{is_answer, request-Ends, write_sends_once}
use eve_online_mcp.Esi.Client.Limit.{Use, gets, writes, unmodified, use_all}
use eve_online_mcp.Esi.Client.Limit.Sent.{client_limit}
use eve_online_mcp.Esi.Client.{Client, Result, Fetch, fetched, cached_get, data_of}
use eve_online_mcp.Esi.Client.Again.{Again, cached_get-Again}
use eve_online_mcp.Esi.Pages.{CursorQuery, get_cursor_pages}
use eve_online_mcp.Esi.Pages.Cursor.{Descends, logged, get_cursor_pages-Descends}
use eve_online_mcp.Esi.Pages.Once.{carries, get_cursor_pages-Once}
use eve_online_mcp.Esi.Pages.Numbered.{get_all_pages, rows_of, get_all_pages-order}
use mathlib.Core.List.{Permᴰ}
use eve_online_mcp.Esi.Names.{NameItem, names}
use eve_online_mcp.Esi.Names.Named.{is_named, names-named}
use eve_online_mcp.Tests.Limits.{empty-IsValid}

abbrev line : Line
line = record {
  error_remain = pos 100;
  error_reset_at = 0;
  bucket = record { tokens = 100 * token; last = 5 };
  budget = record { stamps = [] };
  now = 10;
  sent = 0;
}

abbrev reply : ℕ → Reply
reply status = record {
  status = status;
  remain = none;
  reset = none;
  retry_after = unsaid;
  served = none;
  complete = true;
  body = 91 ∷ 93 ∷ [];
  etag = "e";
  pages = none;
  lifetime = some (pos (60 * second));
}

-- Bad gateway at first, and then an answer.
abbrev outcome : ℕ → Outcome
outcome n = if n == 0 then replied (reply 502) else replied (reply 200)

abbrev quick : ℕ → ℕ
quick n = 1

request-Ends_example :
    (is_answer (request outcome quick quick 3 get 0 line).0 ≡ true)
    × ((request outcome quick quick 3 get 0 line).1.sent ≤ 0 + 3)
request-Ends_example = request-Ends outcome quick quick 3 get line (omega arith)

write_sends_once_example : (request outcome quick quick 3 post 0 line).1.sent ≤ 1
write_sends_once_example = write_sends_once outcome quick quick 3 post line refl refl

-- JSON values are their texts.
abbrev own : List ℕ → List ℕ
own body = body

abbrev as_json : List ℕ → Option (List ℕ)
as_json body = some body

abbrev never : ℕ → Bool
never n = false

abbrev client : Client
client = record { line = line; cache = new_response_cache }

abbrev page : Result (List ℕ)
page = record {
  content = 91 ∷ 93 ∷ [];
  from_cache = false;
  age = 0;
  expires_at = 60 * second;
  pages = none;
  truncated = false;
}

abbrev one_reply : ℕ → Outcome
one_reply n = replied (reply 200)

abbrev after_get : Client
after_get = (cached_get [] own as_json as_json one_reply quick quick never "key" none client).1

cached_get_runs :
    cached_get [] own as_json as_json one_reply quick quick never "key" none client
    ≡ (fetched page, after_get)
unfolding cached_get eve_online_mcp.Esi.Cache.lookup eve_online_mcp.Esi.Budget.check request
    eve_online_mcp.Esi.Bucket.take
cached_get_runs = refl

same_json : (raw : List ℕ) → some page.content ≡ some raw → page.content ≡ raw
same_json raw e = ap (λ o. elim o [ none ↦ [] | some x ↦ x ]) e

reads :
    (raw : List ℕ)
    → some page.content ≡ some raw
    → (data_of [] own as_json as_json raw ≡ page.content) × (length raw ≤ max_cached_body)
unfolding data_of
reads raw e =
    subst (λ r. (data_of [] own as_json as_json r ≡ page.content) × (length r ≤ max_cached_body))
      (same_json raw e) (refl, omega arith)

cached_get-Again_example :
    Again [] own as_json as_json one_reply quick quick never "key" none second page after_get
cached_get-Again_example =
    cached_get-Again [] own as_json as_json one_reply quick quick never "key" none client after_get
      page none second empty-IsValid cached_get_runs refl reads (omega arith)

abbrev three_calls : List (Use × ℕ)
three_calls = (gets "key" none, 7) ∷ (gets "key" none, 200 * second) ∷ (writes post, second) ∷ []

abbrev used_client : Client
used_client = use_all [] own as_json as_json one_reply quick quick never three_calls client

client_limit_example :
    (used_client.line.sent - 0) * token
    ≤ capacity
      + (used_client.line.bucket.last - 5) * refill_rate
      + (unmodified one_reply used_client.line.sent - 0) * token
client_limit_example =
    client_limit [] own as_json as_json one_reply quick quick never three_calls client
      (record { capped = omega arith; whole = refl }) (omega arith)

-- Two pages of two markers each, that overlap.
abbrev rows_from : Option ℕ → List ℕ
rows_from none = 9 ∷ 7 ∷ []
rows_from (some n) = if n == 7 then 7 ∷ 5 ∷ [] else []

abbrev fetch_rows : Option ℕ → ℕ → Fetch (Result (List ℕ)) × ℕ
fetch_rows c n = (fetched (record page { content = rows_from c }), n + 1)

abbrev query : CursorQuery
query = record { cursor = none; batch_size = 2; max_pages = 5 }

get_cursor_pages-Descends_example :
    (let log = (get_cursor_pages own some (logged fetch_rows) query (0, [])).1.1 in
      Descends log × (length log ≤ max 5 1))
get_cursor_pages-Descends_example = get_cursor_pages-Descends own some fetch_rows query 0

abbrev merged : Result (List ℕ)
merged = record {
  content = 9 ∷ 7 ∷ 5 ∷ [];
  from_cache = false;
  age = 0;
  expires_at = 60 * second;
  pages = some 3;
  truncated = false;
}

pages_run : (get_cursor_pages own some fetch_rows query 0).0 ≡ fetched merged
unfolding get_cursor_pages
pages_run = refl

get_cursor_pages-Once_example : count (carries own some 7) merged.content ≤ 1
get_cursor_pages-Once_example = get_cursor_pages-Once own some fetch_rows query 0 merged 7 pages_run

-- A type that ESI knows, one that it does not, and a structure.
abbrev bulk : List ℕ → Option (List NameItem)
bulk ids = some (record { id = 587; name = "Rifter" } ∷ [])

abbrev structure : ℕ → Option String
structure id = some "Keepstar"

abbrev unknown : ℕ → String
unknown id = "Unknown"

names-named_example :
    is_named (names bulk structure unknown true (587 ∷ 3 ∷ 1000000000001 ∷ []) []).0 3 ≡ true
names-named_example =
    names-named bulk structure unknown true (587 ∷ 3 ∷ 1000000000001 ∷ []) [] 3 refl refl

-- Three pages of one row each.
abbrev third : ℕ → Fetch (Result (List ℕ))
third n = fetched (record page { content = n ∷ []; pages = some 3 })

abbrev in_order : ℕ → List ℕ
in_order n = 2 ∷ 3 ∷ []

abbrev reversed : ℕ → List ℕ
reversed n = 3 ∷ 2 ∷ []

abbrev all_pages : List ℕ → Result (List ℕ)
all_pages rows = record page { content = rows; pages = some 3 }

in_order_run : get_all_pages some own third in_order 5 ≡ fetched (all_pages (1 ∷ 2 ∷ 3 ∷ []))
unfolding get_all_pages
in_order_run = refl

reversed_run : get_all_pages some own third reversed 5 ≡ fetched (all_pages (1 ∷ 3 ∷ 2 ∷ []))
unfolding get_all_pages
reversed_run = refl

get_all_pages-order_example :
    count (λ n. n == 3) (rows_of some own third (all_pages (1 ∷ 2 ∷ 3 ∷ [])))
    ≡ count (λ n. n == 3) (rows_of some own third (all_pages (1 ∷ 3 ∷ 2 ∷ [])))
get_all_pages-order_example =
    get_all_pages-order some own third (λ n. n == 3) in_order reversed 5
      (all_pages (1 ∷ 2 ∷ 3 ∷ [])) (all_pages (1 ∷ 3 ∷ 2 ∷ [])) (λ n. Permᴰ.swap refl refl)
      (λ rows. refl) in_order_run reversed_run
