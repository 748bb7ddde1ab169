-- ===== src/Esi/Bucket.antt =====
-- internal/adapter/esi/http/bucket.go: the request allowance of one user. A float of the source is
-- a number of billionths of a token, exact where the source rounds; one nanosecond refills two.
use eve_online_mcp.Prelude.{
  ℕ, ◌+◌, ◌-◌, ◌*◌, ◌/◌, ◌%◌, ◌≤◌, ◌<◌, min, max, ◌≡◌, refl, Option, none, some, List, [], ◌∷◌,
  arith, if◌then◌else◌, ltb, leb, ◌==◌,
}

-- One token.
abbrev pub token : ℕ
token = 1000000000

abbrev pub capacity : ℕ
capacity = 400 * token

-- Tokens to a second.
abbrev pub refill_rate : ℕ
refill_rate = 2

-- A bucket that was not yet used has the zero time.
pub record UserBucket : Type 0 where
  pub tokens : ℕ
  pub last : ℕ

-- esi.UserLimitedError
pub record UserLimited : Type 0 where
  pub retry_at : ℕ
  pub retry_sec : ℕ

pub new_user_bucket : UserBucket
new_user_bucket = record { tokens = capacity; last = 0 }

unfoldable pub refill : ℕ → UserBucket → UserBucket
refill now b =
    if b.last == 0
    then record b { last = now }
    else if leb now b.last
    then b
    else record { tokens = min (b.tokens + (now - b.last) * refill_rate) capacity; last = now }

unfoldable pub limited : ℕ → UserBucket → UserLimited
limited now b =
    let deficit = token - b.tokens in
    record {
      retry_at = now + deficit / refill_rate;
      retry_sec = max ((deficit + (refill_rate * token - 1)) / (refill_rate * token)) 1;
    }

-- `take`: the refusal, if there is one, and the bucket.
unfoldable pub take : ℕ → UserBucket → Option UserLimited × UserBucket
unfolding refill limited
take now b =
    let c = refill now b in
    if ltb c.tokens token
    then (some (limited now c), c)
    else (none, record c { tokens = c.tokens - token })

unfoldable pub refund : UserBucket → UserBucket
refund b = record b { tokens = min (b.tokens + token) capacity }

pub remaining : ℕ → UserBucket → ℕ × UserBucket
unfolding refill
remaining now b = let c = refill now b in (c.tokens, c)

-- Never more than the capacity, and no half of what a nanosecond refills.
pub record IsValid (b : UserBucket) : Type 0 where
  pub capped : b.tokens ≤ capacity
  pub whole : b.tokens % 2 ≡ 0

pub new_user_bucket-IsValid : IsValid new_user_bucket
unfolding new_user_bucket
new_user_bucket-IsValid = record { capped = omega arith; whole = refl }

refill-IsValid : (now : ℕ) (b : UserBucket) → IsValid b → IsValid (refill now b)
unfolding refill
refill-IsValid now b v = ground arith

pub take-IsValid : (now : ℕ) (b : UserBucket) → IsValid b → IsValid (take now b).1
unfolding take
take-IsValid now b v = ground (arith, refill-IsValid now b v)

pub refund-IsValid : (b : UserBucket) → IsValid b → IsValid (refund b)
unfolding refund
refund-IsValid b v = ground arith

-- After a refusal by a valid bucket, on a clock that has not gone back, the promised wait is one
-- second, and a call at the promised time goes through.
pub take_at_retry :
    (now : ℕ) (b : UserBucket) (l : UserLimited)
    → IsValid b
    → 0 < now
    → b.last ≤ now
    → (take now b).0 ≡ some l
    → (l.retry_sec ≡ 1) × ((take l.retry_at (take now b).1).0 ≡ none)
unfolding take refill limited
take_at_retry now b l v pos later e = ground arith

-- A history of the bucket: takes at their times, and refunds.
pub data Event : Type 0 where
  takes : ℕ → Event
  refunds : Event

-- What a history granted and gave back, and the bucket after it.
pub record Tally : Type 0 where
  pub granted : ℕ
  pub refunded : ℕ
  pub bucket : UserBucket

unfoldable pub step : Event → Tally → Tally
step (takes now) t =
    let (refused, b) = take now t.bucket in
    record {
      granted = elim refused [ none ↦ t.granted + 1 | some _ ↦ t.granted ];
      refunded = t.refunded;
      bucket = b;
    }
step refunds t = record t { refunded = t.refunded + 1; bucket = refund t.bucket }

pub run : List Event → Tally → Tally
unfolding step
run [] t = t
run (e ∷ events) t = run events (step e t)

-- What was granted is covered by the tokens at the start, the refill and the refunds.
abbrev pub Covered : ℕ → ℕ → Tally → Type 0
Covered tokens since t =
    (t.granted * token + t.bucket.tokens
      ≤ tokens + (t.bucket.last - since) * refill_rate + t.refunded * token)
    × (since ≤ t.bucket.last)
    × (0 < since)

pub step-Covered :
    (tokens since : ℕ) (e : Event) (t : Tally)
    → Covered tokens since t
    → Covered tokens since (step e t)
unfolding step take refill refund
step-Covered tokens since (takes now) t h = ground arith
step-Covered tokens since refunds t h = ground arith

run-Covered :
    (tokens since : ℕ) (events : List Event) (t : Tally)
    → Covered tokens since t
    → Covered tokens since (run events t)
unfolding run
run-Covered tokens since [] t h = h
run-Covered tokens since (e ∷ events) t h =
    run-Covered tokens since events (step e t) (step-Covered tokens since e t h)

abbrev pub from_start : UserBucket → Tally
from_start b = record { granted = 0; refunded = 0; bucket = b }

-- Over any history of a valid bucket in use, the requests that went through are at most 400, two
-- for each second that passed on the bucket's clock, and one for each refund.
pub rate_limit :
    (events : List Event) (b : UserBucket)
    → IsValid b
    → 0 < b.last
    → (let t = run events (from_start b) in
        t.granted * token ≤ capacity + (t.bucket.last - b.last) * refill_rate + t.refunded * token)
rate_limit events b v used =
    let h = run-Covered b.tokens b.last events (from_start b) (omega arith, omega arith, used) in
    omega (arith, h.0, v.capped)
