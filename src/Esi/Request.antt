-- ===== src/Esi/Request.antt =====
-- internal/adapter/esi/http/request.go and httputil.go: one request to ESI with its retries, and
-- the error limit that CCP reports.
pub mod Sends
pub mod Paid
pub mod Answered
use eve_online_mcp.Prelude.{
  ℕ, zero, suc, ◌+◌, ◌-◌, ◌*◌, ◌/◌, min, max, String, List, Bool, true, false, not, ◌&&◌, ◌||◌,
  Option, none, some, if◌then◌else◌, ltb, leb, ◌==◌,
}
use eve_online_mcp.Domain.{second}
use eve_online_mcp.Esi.Bucket
use eve_online_mcp.Esi.Bucket.{UserBucket, UserLimited}
use eve_online_mcp.Esi.Budget.{ℤ, pos, negsuc, ErrorBudget, charge}

abbrev pub error_floor : ℕ
error_floor = 15

abbrev pub error_limit_budget : ℤ
error_limit_budget = pos 100

abbrev pub default_retry_after : ℕ
default_retry_after = 10 * second

abbrev pub backoff_cap : ℕ
backoff_cap = 8 * second

abbrev pub throttle_retry_cap : ℕ
throttle_retry_cap = 2 * second

abbrev pub max_uint64 : ℕ
max_uint64 = 18446744073709551615

pub data Method : Type 0 where
  get post put delete : Method

abbrev pub is_get : Method → Bool
is_get get = true
is_get _ = false

-- The header `Retry-After`: missing or unreadable, a number of seconds in nanoseconds (0 for one
-- that is not positive), or a date.
pub data RetryAfter : Type 0 where
  unsaid : RetryAfter
  seconds date : ℕ → RetryAfter

-- What the program reads of a response. `complete` says that its body can be read to the end, and
-- `body` is what is read of it, 16 MiB at most. `lifetime` is what `serverTTL`, or else `maxAge`,
-- makes of the headers, in nanoseconds.
pub record Reply : Type 0 where
  pub status : ℕ
  pub remain : Option ℤ
  pub reset : Option ℤ
  pub retry_after : RetryAfter
  pub served : Option ℕ
  pub complete : Bool
  pub body : List ℕ
  pub etag : String
  pub pages : Option ℕ
  pub lifetime : Option ℤ

-- An exchange over the network: an error, with what `safeToRetry` says of it for a write, or a reply.
pub data Outcome : Type 0 where
  broken : Bool → Outcome
  replied : Reply → Outcome

-- esi.RateLimitedError
pub record RateLimited : Type 0 where
  pub retry_at : ℕ
  pub retry_sec : ℕ

pub data Failure : Type 0 where
  rate_limited : RateLimited → Failure
  allowance_spent : UserLimited → Failure
  network_error : Failure
  read_error : Failure

-- `out_of_fuel` is no answer of the program.
pub data Answer : Type 0 where
  answered : Reply → Answer
  failed : Failure → Answer
  out_of_fuel : Answer

-- The state of a client with the clock, and how many requests it has sent.
pub record Line : Type 0 where
  pub error_remain : ℤ
  pub error_reset_at : ℕ
  pub bucket : UserBucket
  pub budget : ErrorBudget
  pub now : ℕ
  pub sent : ℕ

abbrev pub at_least : ℕ → ℤ → Bool
at_least n (pos m) = leb n m
at_least n (negsuc m) = false

-- The seconds of a header after `now`.
abbrev pub seconds_after : ℕ → ℤ → ℕ
seconds_after now (pos s) = now + s * second
seconds_after now (negsuc s) = now - (s + 1) * second

-- A duration in seconds, rounded, and at least one.
abbrev pub rounded : ℕ → ℕ
rounded d = max ((d + second / 2) / second) 1

unfoldable pub await_error_budget : Line → Option RateLimited × Line
await_error_budget c =
    if at_least error_floor c.error_remain
    then (none, c)
    else if leb c.error_reset_at c.now
    then (none, record c { error_remain = error_limit_budget })
    else (
      some (record { retry_at = c.error_reset_at; retry_sec = rounded (c.error_reset_at - c.now) }),
      c,
    )

abbrev pub reset_of : Option ℤ → ℤ
reset_of none = pos 0
reset_of (some s) = s

abbrev pub noted : Option ℤ → Reply → Line → Line
noted none r c = c
noted (some remain) r c = record c {
  error_remain = remain;
  error_reset_at = seconds_after c.now (reset_of r.reset);
  budget = if leb 400 r.status then charge c.now c.budget else c.budget;
}

unfoldable pub note_error_headers : Reply → Line → Line
note_error_headers r c = noted r.remain r c

abbrev pub or_now : ℕ → Option ℕ → ℕ
or_now now none = now
or_now now (some t) = t

unfoldable pub retry_after_of : ℕ → RetryAfter → Option ℕ → ℕ
retry_after_of now unsaid served = default_retry_after
retry_after_of now (seconds d) served = if ltb 0 d then d else default_retry_after
retry_after_of now (date when) served =
    if ltb (or_now now served) when then when - or_now now served else default_retry_after

abbrev pub reset_wait : Option ℤ → ℕ
reset_wait (some (pos s)) = s * second
reset_wait _ = 0

unfoldable pub limit_error : ℕ → Reply → RateLimited
unfolding retry_after_of
limit_error now r =
    let wait = max (retry_after_of now r.retry_after r.served) (reset_wait r.reset) in
    record { retry_at = now + wait; retry_sec = rounded wait }

-- A power of two seconds, at most eight, of which a half to the whole is waited.
abbrev pub backoff_base : ℕ → ℕ
backoff_base attempt =
    min (if attempt == 0 then second else if attempt == 1 then 2 * second else 4 * second)
      backoff_cap

unfoldable pub backoff : ℕ → ℕ → ℕ
backoff attempt random = backoff_base attempt / 2 + backoff_base attempt * random / (2 * max_uint64)

abbrev pub is_throttled : Reply → Bool
is_throttled r = (r.status == 420) || (r.status == 429)

-- `throttleOrLimit` asks for another try.
abbrev pub is_retried_limit : ℕ → Reply → Bool
is_retried_limit attempt r = (r.status == 429) && ltb attempt 1

unfoldable pub server_retry : ℕ → Method → ℕ → Bool
server_retry attempt method status =
    ltb attempt 2
    && (is_get method
        && ((status == 500) || ((status == 502) || ((status == 503) || (status == 504)))))

abbrev pub sleep : ℕ → Line → Line
sleep d c = record c { now = c.now + d }

abbrev pub Try : Type 0
Try = ℕ → Line → Answer × Line

-- `again` is `request` with the attempt that follows; a body that cannot be read ends the call.
unfoldable pub discard_and_retry : Try → ℕ → ℕ → Reply → Line → Answer × Line
discard_and_retry again attempt pause r c =
    if r.complete then again (suc attempt) (sleep pause c) else (failed read_error, c)

unfoldable pub judge_reply : Try → Method → ℕ → ℕ → Reply → Line → Answer × Line
unfolding limit_error server_retry discard_and_retry retry_after_of backoff
judge_reply again method attempt random r c =
    if is_throttled r
    then (if is_retried_limit attempt r
        then discard_and_retry again attempt
            (min (retry_after_of c.now r.retry_after r.served) throttle_retry_cap) r c
        else (failed (if r.complete then rate_limited (limit_error c.now r) else read_error), c))
    else if server_retry attempt method r.status
    then discard_and_retry again attempt (backoff attempt random) r c
    else (answered r, c)

unfoldable pub judge_outcome : Try → Method → ℕ → ℕ → Outcome → Line → Answer × Line
unfolding judge_reply backoff note_error_headers
judge_outcome again method attempt random (broken safe) c =
    if ltb attempt 2 && (is_get method || safe)
    then again (suc attempt) (sleep (backoff attempt random) c)
    else (failed network_error, c)
judge_outcome again method attempt random (replied r) c =
    judge_reply again method attempt random r (note_error_headers r c)

-- `outcome n` and `took n` say what the n-th request brings and after what time, and `random n`
-- is the number drawn for the pause that may follow it.
module _ (outcome : ℕ → Outcome) (took random : ℕ → ℕ) where
  abbrev pub send : UserBucket → Line → Line
  send b c = record c { bucket = b; sent = suc c.sent; now = c.now + took c.sent }

  unfoldable pub taken : Try → Method → ℕ → Option UserLimited × UserBucket → Line → Answer × Line
  unfolding judge_outcome
  taken again method attempt (some l, b) c = (failed (allowance_spent l), record c { bucket = b })
  taken again method attempt (none, b) c =
      judge_outcome again method attempt (random c.sent) (outcome c.sent) (send b c)

  unfoldable pub awaited : Try → Method → ℕ → Option RateLimited × Line → Answer × Line
  unfolding taken
  awaited again method attempt (some limit, c) = (failed (rate_limited limit), c)
  awaited again method attempt (none, c) = taken again method attempt (Bucket.take c.now c.bucket) c

  unfoldable pub request : ℕ → Method → Try
  unfolding awaited await_error_budget
  request zero method attempt c = (out_of_fuel, c)
  request (suc fuel) method attempt c =
      awaited (request fuel method) method attempt (await_error_budget c)
