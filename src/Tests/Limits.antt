-- ===== src/Tests/Limits.antt =====
-- Runs of the limits on requests, of the cache and of the scopes.
use eve_online_mcp.Prelude.{◌*◌, ◌≡◌, ◌≤◌, ◌<◌, ◌↔◌, refl, none, [], ◌∷◌, arith, count}
use eve_online_mcp.Esi.Bucket.{UserBucket, UserLimited, token}
use eve_online_mcp.Esi.Budget.{pos, ErrorBudget, check, in_window, error_budget_limit}
use eve_online_mcp.Esi.Budget.History.{Represents, check-Represents}
use eve_online_mcp.Esi.Cache.{CachedResponse, new_response_cache, put, touch}
use eve_online_mcp.Esi.Cache.Counts.{IsValid}
use eve_online_mcp.Http.{public_rate_limit, serve_all}
use eve_online_mcp.Http.Windows.{in_minute, public_rate_limited}
use eve_online_mcp.Esi.Cache.Bounds.{put-IsValid, touch-IsValid}

abbrev used_bucket : UserBucket
used_bucket = record { tokens = 2 * token; last = 5 }

abbrev empty_bucket : UserBucket
empty_bucket = record { tokens = 0; last = 5 }

public_rate_limited_example :
    count
      (in_minute "10.0.0.1" 30)
      (serve_all (("10.0.0.1", 10) ∷ ("10.0.0.2", 15) ∷ ("10.0.0.1", 20) ∷ []) [] [])
    ≤ public_rate_limit
public_rate_limited_example =
    public_rate_limited (("10.0.0.1", 10) ∷ ("10.0.0.2", 15) ∷ ("10.0.0.1", 20) ∷ []) "10.0.0.1" 30
      (omega arith, (omega arith, (omega arith, tt)))

abbrev first_refusal : UserLimited
first_refusal = record { retry_at = 500000005; retry_sec = 1 }

abbrev one_error : ErrorBudget
one_error = record { stamps = 10 ∷ [] }

one_error-Represents : Represents (10 ∷ []) 10 one_error
one_error-Represents = record { rising = (omega arith, omega arith); kept = refl }

check-Represents_example :
    ((check (pos 100) 20 one_error).0 ≡ none
      ↔ count (in_window 20) (10 ∷ []) < error_budget_limit (pos 100))
    × Represents (10 ∷ []) 20 (check (pos 100) 20 one_error).1
check-Represents_example =
    check-Represents (pos 100) (10 ∷ []) 10 20 one_error one_error-Represents (omega arith)

abbrev page : CachedResponse
page = record { body = 91 ∷ 93 ∷ []; etag = "e"; expires_at = 60; stored_at = 0; pages = none }

pub empty-IsValid : IsValid new_response_cache
empty-IsValid = record {
  counts = record { counted = refl; once = λ key. omega arith };
  few = omega arith;
  small = omega arith;
}

put-IsValid_example : IsValid (put 7 "key" page new_response_cache)
put-IsValid_example = put-IsValid 7 "key" page new_response_cache empty-IsValid

touch-IsValid_example : IsValid (touch 8 "key" 90 (put 7 "key" page new_response_cache))
touch-IsValid_example =
    touch-IsValid 8 "key" 90 (put 7 "key" page new_response_cache) put-IsValid_example
