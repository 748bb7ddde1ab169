-- ===== src/Esi/Client/Limit.antt =====
-- internal/adapter/esi/http: how many requests a client sends, by cachedGet and by write. A reply 304
-- gives its token back, so each of those lets one request more through.
pub mod Balanced
pub mod Sent
use eve_online_mcp.Prelude.{
  ℕ, zero, suc, ◌+◌, ◌-◌, ◌*◌, ◌≤◌, ◌<◌, ◌≡◌, refl, sym, ap, subst, String, Bool, true, false,
  Option, none, some, List, [], ◌∷◌, arith, inl, inr, Bool-cases, if◌then◌else◌, leb, ◌==◌,
}
use eve_online_mcp.Esi.Bucket.{UserBucket, Covered, token, capacity, refill_rate, refund, IsValid}
use eve_online_mcp.Esi.Budget.{ℤ, BudgetSpent, ErrorBudget, check}
use eve_online_mcp.Esi.Cache.{CachedResponse, ResponseCache, fresh, lookup}
use eve_online_mcp.Esi.Request.{
  Line, Reply, Outcome, broken, replied, Method, Answer, get, answered, failed, out_of_fuel, sleep,
  request,
}
use eve_online_mcp.Esi.Request.Paid.{Paid, Paid-along, request-Paid}
use eve_online_mcp.Esi.Request.Answered.{IsTraced, request-IsTraced}
use eve_online_mcp.Esi.Client.{
  Result, Fetch, Client, store, revalidate, finish_fresh, finish_get, settle, asked, looked_up,
  cached_get, write_answer, write_asked, write, is_server_error,
}

-- The request brought 304.
abbrev pub is_unmodified : Outcome → Bool
is_unmodified (broken safe) = false
is_unmodified (replied r) = r.status == 304

-- How many of the first requests brought 304.
abbrev pub unmodified : (ℕ → Outcome) → ℕ → ℕ
unmodified outcome zero = 0
unmodified outcome (suc n) = unmodified outcome n + (if is_unmodified (outcome n) then 1 else 0)

pub unmodified_later :
    (outcome : ℕ → Outcome) (n m : ℕ) → n ≤ m → unmodified outcome n ≤ unmodified outcome m
unmodified_later outcome n zero h =
    subst (λ k. unmodified outcome k ≤ 0) (zero_of n h) (omega arith)
  where
    zero_of : (n : ℕ) → n ≤ 0 → 0 ≡ n
    zero_of n h = omega (arith, h)
unmodified_later outcome n (suc m) h = elim (Bool-cases (leb n m)) [
  | inl earlier ↦ omega (arith, unmodified_later outcome n m (ground (arith, earlier)))
  | inr same ↦
      let all : suc m ≡ n = ground (arith, h, same) in
      subst (λ k. unmodified outcome k ≤ unmodified outcome (suc m)) all (omega arith)
]

-- A call of the client.
pub data Use : Type 0 where
  gets : (key : String) (fallback : Option ℤ) → Use
  writes : Method → Use

module _ {J : Type 0} (null : J) (text : List ℕ → J) (unmarshal : List ℕ → Option J)
    (marshal : J → Option (List ℕ)) (outcome : ℕ → Outcome) (took random : ℕ → ℕ)
    (denied : ℕ → Bool) where
  -- Calls of the client one after another, each after a pause.
  unfoldable pub use_all : List (Use × ℕ) → Client → Client
  unfolding cached_get write
  use_all [] c = c
  use_all ((gets key fallback, pause) ∷ uses) c =
      let d = record c { line = sleep pause c.line } in
      use_all uses
        (cached_get null text unmarshal marshal outcome took random denied key fallback d).1
  use_all ((writes method, pause) ∷ uses) c =
      let d = record c { line = sleep pause c.line } in
      use_all uses (write null text unmarshal marshal outcome took random denied method d).1
