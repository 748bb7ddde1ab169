-- ===== src/Esi/Client/Limit/Sent.antt =====
-- internal/adapter/esi/http: how many requests the calls of a client send.
use eve_online_mcp.Prelude.{
  ℕ, ◌+◌, ◌-◌, ◌*◌, ◌≤◌, ◌<◌, ◌≡◌, refl, sym, subst, String, Bool, Option, none, some, List, [],
  ◌∷◌, arith, inl, inr, Bool-cases, leb,
}
use eve_online_mcp.Esi.Bucket.{token, capacity, refill_rate, IsValid}
use eve_online_mcp.Esi.Budget.{ℤ, BudgetSpent, ErrorBudget}
use eve_online_mcp.Esi.Cache.{CachedResponse, fresh, lookup}
use eve_online_mcp.Esi.Request.{
  Line, Outcome, Method, Answer, get, answered, failed, out_of_fuel, sleep, request,
}
use eve_online_mcp.Esi.Request.Paid.{Paid-along, request-Paid}
use eve_online_mcp.Esi.Request.Answered.{request-IsTraced}
use eve_online_mcp.Esi.Client.{
  Client, asked, looked_up, cached_get, write_answer, write_asked, write,
}
use eve_online_mcp.Esi.Client.Limit.{unmodified, unmodified_later, Use, gets, writes, use_all}
use eve_online_mcp.Esi.Client.Limit.Balanced.{Balanced, Balanced-along, settle-Balanced}

module _ (outcome : ℕ → Outcome) (tokens since base : ℕ) {J : Type 0} (null : J) (text : List ℕ → J)
    (unmarshal : List ℕ → Option J) (marshal : J → Option (List ℕ)) (took random : ℕ → ℕ)
    (denied : ℕ → Bool) where
  abbrev HasBalance : Line → Type 0
  HasBalance c = Balanced outcome tokens since base c

  write_answer-line :
      (q : Answer × Line) (c : Client)
      → (write_answer null text unmarshal marshal outcome took random denied q c).1.line ≡ q.1
  unfolding write_answer
  write_answer-line (answered r, line) c = elim (Bool-cases r.complete) [
    | inr torn ↦ rw torn refl
    | inl whole ↦ elim (Bool-cases (leb 400 r.status)) [
      | inl failed_so ↦ rw (whole, failed_so) refl
      | inr fine ↦ rw (whole, fine) refl
    ]
  ]
  write_answer-line (failed f, line) c = refl
  write_answer-line (out_of_fuel, line) c = refl

  asked-Balanced :
      (key : String) (fallback : Option ℤ) (cached : Option CachedResponse)
      (b : Option BudgetSpent × ErrorBudget) (c : Client)
      → HasBalance c.line
      → HasBalance
          (asked null text unmarshal marshal outcome took random denied key fallback cached b
            c).1.line
  unfolding asked
  asked-Balanced key fallback cached (some spent, b) c h =
      Balanced-along outcome tokens since base c.line (record c.line { budget = b }) refl refl h
  asked-Balanced key fallback cached (none, b) c h =
      let line = record c.line { budget = b } in
      let same = Balanced-along outcome tokens since base c.line line refl refl h in
      elim (Bool-cases (denied line.now)) [
        | inl no_token ↦ rw no_token same
        | inr allowed ↦ rw allowed (
            settle-Balanced outcome tokens since base null text unmarshal marshal line.sent
              h.refunds key fallback cached c.cache (request outcome took random 3 get 0 line)
              h.earned
              (request-Paid outcome took random (tokens + h.refunds * token) since 3 get 0 line
                (Paid-along (tokens + h.refunds * token) since c.line line refl refl h.paid))
              (request-IsTraced outcome took random 3 get 0 line))
      ]

  looked_up-Balanced :
      (key : String) (fallback : Option ℤ) (found : Option CachedResponse) (c : Client)
      → HasBalance c.line
      → HasBalance
          (looked_up null text unmarshal marshal outcome took random denied key fallback found
            c).1.line
  unfolding looked_up
  looked_up-Balanced key fallback none c h = asked-Balanced key fallback none _ c h
  looked_up-Balanced key fallback (some r) c h = elim (Bool-cases (fresh c.line.now r)) [
    | inl still ↦ rw still h
    | inr stale ↦ rw stale (asked-Balanced key fallback (some r) _ c h)
  ]

  write_asked-Balanced :
      (method : Method) (b : Option BudgetSpent × ErrorBudget) (c : Client)
      → HasBalance c.line
      → HasBalance
          (write_asked null text unmarshal marshal outcome took random denied method b c).1.line
  unfolding write_asked
  write_asked-Balanced method (some spent, b) c h =
      Balanced-along outcome tokens since base c.line (record c.line { budget = b }) refl refl h
  write_asked-Balanced method (none, b) c h =
      let line = record c.line { budget = b } in
      let same = Balanced-along outcome tokens since base c.line line refl refl h in
      let q = request outcome took random 3 method 0 line in
      let traced = request-IsTraced outcome took random 3 method 0 line in
      elim (Bool-cases (denied line.now)) [
        | inl no_token ↦ rw no_token same
        | inr allowed ↦ rw allowed (
            subst HasBalance (sym (write_answer-line q c)) (record {
              refunds = h.refunds;
              paid =
                  request-Paid outcome took random (tokens + h.refunds * token) since 3 method 0
                    line
                    (Paid-along (tokens + h.refunds * token) since c.line line refl refl h.paid);
              earned =
                  omega (arith, h.earned, unmodified_later outcome line.sent q.1.sent traced.0);
            }))
      ]

  use_all-Balanced :
      (uses : List (Use × ℕ)) (c : Client)
      → HasBalance c.line
      → HasBalance (use_all null text unmarshal marshal outcome took random denied uses c).line
  unfolding use_all cached_get write
  use_all-Balanced [] c h = h
  use_all-Balanced ((gets key fallback, pause) ∷ uses) c h =
      let d = record c { line = sleep pause c.line } in
      let (found, cache) = lookup key d.cache in
      use_all-Balanced uses _ (
        looked_up-Balanced key fallback found (record d { cache = cache })
          (Balanced-along outcome tokens since base c.line d.line refl refl h))
  use_all-Balanced ((writes method, pause) ∷ uses) c h =
      let d = record c { line = sleep pause c.line } in
      use_all-Balanced uses _ (
        write_asked-Balanced method _ d
          (Balanced-along outcome tokens since base c.line d.line refl refl h))

-- Over any sequence of calls of cachedGet and write with any pauses, whatever the network brings, a
-- client whose bucket is valid and in use sends at most 400 requests, two for each second that
-- passed on the bucket's clock, and one for each of these requests that brought 304, retries
-- included.
pub client_limit :
    {J : Type 0} (null : J) (text : List ℕ → J) (unmarshal : List ℕ → Option J)
    (marshal : J → Option (List ℕ)) (outcome : ℕ → Outcome) (took random : ℕ → ℕ)
    (denied : ℕ → Bool) (uses : List (Use × ℕ)) (c : Client)
    → IsValid c.line.bucket
    → 0 < c.line.bucket.last
    → (let l = (use_all null text unmarshal marshal outcome took random denied uses c).line in
        (l.sent - c.line.sent) * token
        ≤ capacity
          + (l.bucket.last - c.line.bucket.last) * refill_rate
          + (unmodified outcome l.sent - unmodified outcome c.line.sent) * token)
client_limit null text unmarshal marshal outcome took random denied uses c v used =
    let start : Balanced outcome (c.line.bucket.tokens + c.line.sent * token) c.line.bucket.last
        (unmodified outcome c.line.sent) c.line =
      record { refunds = 0; paid = (omega arith, omega arith, used); earned = omega arith } in
    let h =
      use_all-Balanced outcome (c.line.bucket.tokens + c.line.sent * token) c.line.bucket.last
        (unmodified outcome c.line.sent) null text unmarshal marshal took random denied uses c
        start in
    omega (arith, h.paid.0, h.earned, v.capped)
