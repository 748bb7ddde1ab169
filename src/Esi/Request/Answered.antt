-- ===== src/Esi/Request/Answered.antt =====
-- internal/adapter/esi/http/request.go: a reply that `request` answers is what the last request of
-- the call brought.
use eve_online_mcp.Prelude.{
  ℕ, zero, suc, ◌≤◌, ◌≡◌, refl, ap, ◌∙◌, Option, none, some, arith, inl, inr, Bool-cases, min, ltb,
  ◌&&◌, ◌||◌,
}
use eve_online_mcp.Esi.Bucket.{UserBucket, UserLimited, take}
use eve_online_mcp.Esi.Request.{
  Line, Reply, Outcome, broken, replied, Method, RateLimited, Try, Answer, answered, request,
  awaited, taken, judge_outcome, judge_reply, discard_and_retry, note_error_headers,
  await_error_budget, backoff, server_retry, retry_after_of, sleep, is_throttled, is_retried_limit,
  throttle_retry_cap, send, is_get,
}

module _ (outcome : ℕ → Outcome) where
  -- The last request, which is not before the one with the number `start`, brought this reply.
  pub record Brought (start : ℕ) (r : Reply) (c : Line) : Type 0 where
    pub number : ℕ
    pub sent : c.sent ≡ suc number
    pub later : start ≤ number
    pub outcome_of : outcome number ≡ replied r

  -- A call from this number on, and what its reply comes from.
  abbrev pub IsTraced : ℕ → Answer × Line → Type 0
  IsTraced start q = (start ≤ q.1.sent) × ((r : Reply) → q.0 ≡ answered r → Brought start r q.1)

  abbrev TracedLater : Try → Type 0
  TracedLater again = (attempt : ℕ) (c : Line) → IsTraced c.sent (again attempt c)

  sooner-IsTraced :
      (start start' : ℕ) (q : Answer × Line) → start ≤ start' → IsTraced start' q → IsTraced start q
  sooner-IsTraced start start' q h t = (
    omega (arith, h, t.0),
    (λ r e.
        let b = t.1 r e in
        record {
          number = b.number;
          sent = b.sent;
          later = omega (arith, h, b.later);
          outcome_of = b.outcome_of;
        }),
  )

  discard_and_retry-IsTraced :
      (start attempt pause : ℕ) (again : Try) (r : Reply) (c : Line)
      → TracedLater again
      → start ≤ c.sent
      → IsTraced start (discard_and_retry again attempt pause r c)
  unfolding discard_and_retry
  discard_and_retry-IsTraced start attempt pause again r c later h = elim (Bool-cases r.complete) [
    | inl whole ↦ rw whole (
        sooner-IsTraced start c.sent (again (suc attempt) (sleep pause c)) h
          (later (suc attempt) (sleep pause c)))
    | inr torn ↦ rw torn (h, (λ x e. ground (arith, e)))
  ]

  judge_reply-IsTraced :
      (n : ℕ) (again : Try) (method : Method) (attempt random : ℕ) (r : Reply) (c : Line)
      → TracedLater again
      → c.sent ≡ suc n
      → outcome n ≡ replied r
      → IsTraced n (judge_reply again method attempt random r c)
  unfolding judge_reply
  judge_reply-IsTraced n again method attempt random r c later s o =
      let retry = λ (pause : ℕ).
        discard_and_retry-IsTraced n attempt pause again r c later (omega (arith, s)) in
      elim (Bool-cases (is_throttled r)) [
        | inl throttled ↦ elim (Bool-cases (is_retried_limit attempt r)) [
          | inl retried ↦
              rw (throttled, retried)
                (retry (min (retry_after_of c.now r.retry_after r.served) throttle_retry_cap))
          | inr over ↦ rw (throttled, over) (omega (arith, s), (λ x e. ground (arith, e)))
        ]
        | inr through ↦ elim (Bool-cases (server_retry attempt method r.status)) [
          | inl retried ↦ rw (through, retried) (retry (backoff attempt random))
          | inr over ↦
              rw (through, over)
                (
                  omega (arith, s),
                  (λ x e. record {
                    number = n;
                    sent = s;
                    later = omega arith;
                    outcome_of = o ∙ ap replied (same_reply r x e);
                  }),
                )
        ]
      ]
    where
      same_reply : (x y : Reply) → answered x ≡ answered y → x ≡ y
      same_reply x y h = ground (arith, h)

  judge_outcome-IsTraced :
      (n : ℕ) (again : Try) (method : Method) (attempt random : ℕ) (o : Outcome) (c : Line)
      → TracedLater again
      → c.sent ≡ suc n
      → outcome n ≡ o
      → IsTraced n (judge_outcome again method attempt random o c)
  unfolding judge_outcome note_error_headers
  judge_outcome-IsTraced n again method attempt random (broken safe) c later s o =
      elim (Bool-cases (ltb attempt 2 && (is_get method || safe))) [
        | inl again_so ↦ rw again_so (
            sooner-IsTraced n c.sent (again (suc attempt) (sleep (backoff attempt random) c))
              (omega (arith, s)) (later (suc attempt) (sleep (backoff attempt random) c)))
        | inr over ↦ rw over (omega (arith, s), (λ x e. ground (arith, e)))
      ]
  judge_outcome-IsTraced n again method attempt random (replied r) c later s o =
      judge_reply-IsTraced n again method attempt random r (note_error_headers r c) later
        (ground (arith, s)) o

  module _ (took random : ℕ → ℕ) where
    taken-IsTraced :
        (again : Try) (method : Method) (attempt : ℕ) (t : Option UserLimited × UserBucket)
        (c : Line)
        → TracedLater again
        → IsTraced c.sent (taken outcome took random again method attempt t c)
    unfolding taken
    taken-IsTraced again method attempt (some l, b) c later =
        (omega arith, (λ r e. ground (arith, e)))
    taken-IsTraced again method attempt (none, b) c later =
        judge_outcome-IsTraced c.sent again method attempt (random c.sent) (outcome c.sent)
          (send outcome took random b c) later refl refl

    awaited-IsTraced :
        (start : ℕ) (again : Try) (method : Method) (attempt : ℕ) (l : Option RateLimited × Line)
        → TracedLater again
        → l.1.sent ≡ start
        → IsTraced start (awaited outcome took random again method attempt l)
    unfolding awaited
    awaited-IsTraced start again method attempt (some l, v) later h =
        (omega (arith, h), (λ r e. ground (arith, e)))
    awaited-IsTraced start again method attempt (none, v) later h =
        sooner-IsTraced start v.sent _ (omega (arith, h))
          (taken-IsTraced again method attempt (take v.now v.bucket) v later)

    pub request-IsTraced :
        (fuel : ℕ) (method : Method) (attempt : ℕ) (c : Line)
        → IsTraced c.sent (request outcome took random fuel method attempt c)
    unfolding request await_error_budget
    request-IsTraced zero method attempt c = (omega arith, (λ r e. ground (arith, e)))
    request-IsTraced (suc fuel) method attempt c =
        awaited-IsTraced c.sent (request outcome took random fuel method) method attempt
          (await_error_budget c) (λ next v. request-IsTraced fuel method next v) (ground arith)
