-- ===== src/Esi/Request/Paid.antt =====
-- internal/adapter/esi/http/request.go and bucket.go together: every request that `request` sends
-- is paid for in the user's bucket, its retries included.
use eve_online_mcp.Prelude.{
  ℕ, zero, suc, ◌≡◌, refl, Option, none, some, arith, inl, inr, Bool-cases, min,
}
use eve_online_mcp.Esi.Bucket.{
  UserBucket, UserLimited, Tally, Covered, step, step-Covered, takes, take,
}
use eve_online_mcp.Esi.Request.{
  Line, Reply, Outcome, broken, replied, Method, RateLimited, Try, request, awaited, taken,
  judge_outcome, judge_reply, discard_and_retry, note_error_headers, await_error_budget, backoff,
  server_retry, retry_after_of, sleep, is_throttled, is_retried_limit, throttle_retry_cap, send,
}

-- The requests sent so far as what the bucket granted.
abbrev sent_tally : Line → Tally
sent_tally c = record { granted = c.sent; refunded = 0; bucket = c.bucket }

-- The requests sent so far are covered by the tokens at a start and the refill since then.
abbrev pub Paid : ℕ → ℕ → Line → Type 0
Paid tokens since c = Covered tokens since (sent_tally c)

-- A state that differs in nothing that `Paid` reads.
pub Paid-along :
    (tokens since : ℕ) (c v : Line)
    → v.sent ≡ c.sent
    → v.bucket ≡ c.bucket
    → Paid tokens since c
    → Paid tokens since v
Paid-along tokens since c v sent bucket h = ground (arith, sent, bucket, h)

abbrev PaidLater : ℕ → ℕ → Try → Type 0
PaidLater tokens since again =
    (attempt : ℕ) (c : Line) → Paid tokens since c → Paid tokens since (again attempt c).1

discard_and_retry-Paid :
    (tokens since attempt pause : ℕ) (again : Try) (r : Reply) (c : Line)
    → PaidLater tokens since again
    → Paid tokens since c
    → Paid tokens since (discard_and_retry again attempt pause r c).1
unfolding discard_and_retry
discard_and_retry-Paid tokens since attempt pause again r c later h =
    ground (arith, later (suc attempt) (sleep pause c) h)

judge_reply-Paid :
    (tokens since : ℕ) (again : Try) (method : Method) (attempt random : ℕ) (r : Reply) (c : Line)
    → PaidLater tokens since again
    → Paid tokens since c
    → Paid tokens since (judge_reply again method attempt random r c).1
unfolding judge_reply
judge_reply-Paid tokens since again method attempt random r c later h =
    let retry =
      λ (pause : ℕ). discard_and_retry-Paid tokens since attempt pause again r c later h in
    elim (Bool-cases (is_throttled r)) [
      | inl throttled ↦ elim (Bool-cases (is_retried_limit attempt r)) [
        | inl retried ↦ ground (
          arith,
          retry (min (retry_after_of c.now r.retry_after r.served) throttle_retry_cap),
          throttled,
          retried,
        )
        | inr over ↦ ground (arith, throttled, over)
      ]
      | inr through ↦ elim (Bool-cases (server_retry attempt method r.status)) [
        | inl retried ↦ ground (arith, retry (backoff attempt random), through, retried)
        | inr over ↦ ground (arith, through, over)
      ]
    ]

judge_outcome-Paid :
    (tokens since : ℕ) (again : Try) (method : Method) (attempt random : ℕ) (o : Outcome) (c : Line)
    → PaidLater tokens since again
    → Paid tokens since c
    → Paid tokens since (judge_outcome again method attempt random o c).1
unfolding judge_outcome note_error_headers
judge_outcome-Paid tokens since again method attempt random (broken safe) c later h =
    ground (arith, later (suc attempt) (sleep (backoff attempt random) c) h)
judge_outcome-Paid tokens since again method attempt random (replied r) c later h =
    judge_reply-Paid tokens since again method attempt random r (note_error_headers r c) later
      (Paid-along tokens since c (note_error_headers r c) (ground arith) (ground arith) h)

module _ (outcome : ℕ → Outcome) (took random : ℕ → ℕ) where
  -- `taken` on what the bucket says.
  taken-Paid :
      (tokens since : ℕ) (again : Try) (method : Method) (attempt : ℕ)
      (t : Option UserLimited × UserBucket) (c : Line)
      → take c.now c.bucket ≡ t
      → PaidLater tokens since again
      → Paid tokens since c
      → Paid tokens since (taken outcome took random again method attempt t c).1
  unfolding taken step
  taken-Paid tokens since again method attempt (some l, b) c e later h =
      ground (arith, e, step-Covered tokens since (takes c.now) (sent_tally c) h)
  taken-Paid tokens since again method attempt (none, b) c e later h =
      judge_outcome-Paid tokens since again method attempt (random c.sent) (outcome c.sent)
        (send outcome took random b c) later
        (ground (arith, e, step-Covered tokens since (takes c.now) (sent_tally c) h))

  awaited-Paid :
      (tokens since : ℕ) (again : Try) (method : Method) (attempt : ℕ)
      (l : Option RateLimited × Line)
      → PaidLater tokens since again
      → Paid tokens since l.1
      → Paid tokens since (awaited outcome took random again method attempt l).1
  unfolding awaited
  awaited-Paid tokens since again method attempt (some l, v) later h = h
  awaited-Paid tokens since again method attempt (none, v) later h =
      taken-Paid tokens since again method attempt (take v.now v.bucket) v refl later h

  pub request-Paid :
      (tokens since fuel : ℕ) (method : Method) (attempt : ℕ) (c : Line)
      → Paid tokens since c
      → Paid tokens since (request outcome took random fuel method attempt c).1
  unfolding request await_error_budget
  request-Paid tokens since zero method attempt c h = h
  request-Paid tokens since (suc fuel) method attempt c h =
      awaited-Paid tokens since (request outcome took random fuel method) method attempt
        (await_error_budget c) (λ next v. request-Paid tokens since fuel method next v)
        (Paid-along tokens since c (await_error_budget c).1 (ground arith) (ground arith) h)
