-- ===== src/Http.antt =====
-- internal/service/http/limit.go: the limit of requests from one address to the public routes.
pub mod Windows
use eve_online_mcp.Prelude.{
  ℕ, ◌+◌, ◌-◌, max, String, Bool, true, false, Option, none, some, List, [], ◌∷◌, ◌++◌,
  if◌then◌else◌, ltb, leb, str_eq, filter, length,
}
use eve_online_mcp.Domain.{second, minute}

abbrev pub public_rate_limit : ℕ
public_rate_limit = 60

abbrev pub public_rate_window : ℕ
public_rate_window = minute

-- The map from an address to the times of its requests, oldest first.
abbrev pub Limiter : Type 0
Limiter = List (String × List ℕ)

unfoldable pub hits_of : String → Limiter → List ℕ
hits_of ip [] = []
hits_of ip ((a, hits) ∷ l) = if str_eq a ip then hits else hits_of ip l

unfoldable pub set_hits : String → List ℕ → Limiter → Limiter
set_hits ip hits [] = (ip, hits) ∷ []
set_hits ip hits ((a, old) ∷ l) =
    if str_eq a ip then (ip, hits) ∷ l else (a, old) ∷ set_hits ip hits l

-- `at.After(now.Add(-publicRateWindow))`
abbrev pub is_recent : ℕ → ℕ → Bool
is_recent now at = ltb now (at + public_rate_window)

abbrev pub retry_after : ℕ → List ℕ → ℕ
retry_after now [] = second
retry_after now (first ∷ kept) = max (public_rate_window - (now - first)) second

-- `allow`: nothing, or how long to wait.
unfoldable pub allow : String → ℕ → Limiter → Option ℕ × Limiter
unfolding hits_of set_hits
allow ip now l =
    let kept = filter (is_recent now) (hits_of ip l) in
    if leb public_rate_limit (length kept)
    then (some (retry_after now kept), set_hits ip kept l)
    else (none, set_hits ip (kept ++ now ∷ []) l)

-- The requests that `wrap` lets through, with their addresses and times, the last one first.
abbrev pub logged : String → ℕ → Option ℕ → List (String × ℕ) → List (String × ℕ)
logged ip now none log = (ip, now) ∷ log
logged ip now (some retry) log = log

unfoldable pub serve_all : List (String × ℕ) → Limiter → List (String × ℕ) → List (String × ℕ)
unfolding allow
serve_all [] l log = log
serve_all ((ip, now) ∷ calls) l log =
    let (retry, l') = allow ip now l in serve_all calls l' (logged ip now retry log)
