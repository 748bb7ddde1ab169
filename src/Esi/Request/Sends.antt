-- ===== src/Esi/Request/Sends.antt =====
-- internal/adapter/esi/http/request.go, `request`: how often one call of it sends, and that every
-- sending is paid for in the user's bucket.
use eve_online_mcp.Prelude.{
  ℕ, zero, suc, ◌==◌, ap, ◌∙◌, ◌+◌, ◌≤◌, ◌<◌, ◌≡◌, refl, Bool, true, false, Option, none, some,
  arith, inl, inr, Bool-cases, ltb, ◌&&◌, ◌||◌, min,
}
use eve_online_mcp.Esi.Bucket.{UserBucket, UserLimited, take}
use eve_online_mcp.Esi.Request.{
  Line, Answer, out_of_fuel, Reply, Outcome, broken, replied, Method, RateLimited, Try, request,
  awaited, taken, judge_outcome, judge_reply, discard_and_retry, note_error_headers,
  await_error_budget, backoff, server_retry, retry_after_of, limit_error, sleep, is_throttled,
  is_retried_limit, throttle_retry_cap, send, is_get,
}

abbrev pub is_answer : Answer → Bool
is_answer out_of_fuel = false
is_answer _ = true

-- A call that ended, and sent at most so often.
abbrev pub Ends : ℕ → Line → Answer × Line → Type 0
Ends n c r = (is_answer r.0 ≡ true) × (r.1.sent ≤ c.sent + n)

-- What the next try does, where there is one.
abbrev EndsLater : ℕ → ℕ → Try → Type 0
EndsLater n attempt again = attempt < 2 → (c : Line) → Ends n c (again (suc attempt) c)

discard_and_retry-Ends :
    (n attempt pause : ℕ) (again : Try) (r : Reply) (c : Line)
    → attempt < 2
    → EndsLater n attempt again
    → Ends n c (discard_and_retry again attempt pause r c)
unfolding discard_and_retry
discard_and_retry-Ends n attempt pause again r c few later =
    ground (arith, later few (sleep pause c))

judge_reply-Ends :
    (n : ℕ) (again : Try) (method : Method) (attempt random : ℕ) (r : Reply) (c : Line)
    → EndsLater n attempt again
    → Ends n c (judge_reply again method attempt random r c)
unfolding judge_reply server_retry backoff retry_after_of limit_error
judge_reply-Ends n again method attempt random r c later =
    let again_reply = λ (pause : ℕ) (few : attempt < 2).
      discard_and_retry-Ends n attempt pause again r c few later in
    elim (Bool-cases (is_throttled r)) [
      | inl throttled ↦ elim (Bool-cases (is_retried_limit attempt r)) [
        | inl retried ↦ ground (
          arith,
          again_reply (min (retry_after_of c.now r.retry_after r.served) throttle_retry_cap)
              (ground (arith, retried)),
          throttled,
          retried,
        )
        | inr over ↦ ground (arith, throttled, over)
      ]
      | inr through ↦ elim (Bool-cases (server_retry attempt method r.status)) [
        | inl retried ↦ ground (
          arith,
          again_reply (backoff attempt random) (ground (arith, retried)),
          through,
          retried,
        )
        | inr over ↦ ground (arith, through, over)
      ]
    ]

judge_outcome-Ends :
    (n : ℕ) (again : Try) (method : Method) (attempt random : ℕ) (o : Outcome) (c : Line)
    → EndsLater n attempt again
    → Ends n c (judge_outcome again method attempt random o c)
unfolding judge_outcome note_error_headers
judge_outcome-Ends n again method attempt random (broken safe) c later =
    elim (Bool-cases (ltb attempt 2 && (is_get method || safe))) [
      | inl retried ↦
          ground
            (arith, later (ground (arith, retried)) (sleep (backoff attempt random) c), retried)
      | inr over ↦ ground (arith, over)
    ]
judge_outcome-Ends n again method attempt random (replied r) c later =
    let h = judge_reply-Ends n again method attempt random r (note_error_headers r c) later in
    (h.0, ground (arith, h.1))

-- A failure that is taken as safe, or a throttled request.
abbrev pub is_retried : Outcome → Bool
is_retried (broken safe) = safe
is_retried (replied r) = r.status == 429

judge_outcome-once :
    (again : Try) (method : Method) (random : ℕ) (o : Outcome) (c : Line)
    → is_get method ≡ false
    → is_retried o ≡ false
    → (judge_outcome again method 0 random o c).1.sent ≡ c.sent
unfolding judge_outcome judge_reply note_error_headers server_retry
judge_outcome-once again method random (broken safe) c writes final = ground (arith, writes, final)
judge_outcome-once again method random (replied r) c writes final = ground (arith, writes, final)

module _ (outcome : ℕ → Outcome) (took random : ℕ → ℕ) where
  taken-Ends :
      (n : ℕ) (again : Try) (method : Method) (attempt : ℕ) (t : Option UserLimited × UserBucket)
      (c : Line)
      → EndsLater n attempt again
      → Ends (suc n) c (taken outcome took random again method attempt t c)
  unfolding taken
  taken-Ends n again method attempt (some l, b) c later = (refl, omega arith)
  taken-Ends n again method attempt (none, b) c later =
      let h =
        judge_outcome-Ends n again method attempt (random c.sent) (outcome c.sent)
          (send outcome took random b c) later in
      (h.0, omega (arith, h.1))

  awaited-Ends :
      (n : ℕ) (again : Try) (method : Method) (attempt : ℕ) (l : Option RateLimited × Line)
      (c : Line)
      → l.1.sent ≡ c.sent
      → EndsLater n attempt again
      → Ends (suc n) c (awaited outcome took random again method attempt l)
  unfolding awaited
  awaited-Ends n again method attempt (some l, v) c same later = (refl, omega (arith, same))
  awaited-Ends n again method attempt (none, v) c same later =
      let h = taken-Ends n again method attempt (take v.now v.bucket) v later in
      (h.0, omega (arith, h.1, same))

  taken-once :
      (again : Try) (method : Method) (t : Option UserLimited × UserBucket) (c : Line)
      → is_get method ≡ false
      → is_retried (outcome c.sent) ≡ false
      → (taken outcome took random again method 0 t c).1.sent ≤ suc c.sent
  unfolding taken
  taken-once again method (some l, b) c writes final = omega arith
  taken-once again method (none, b) c writes final = omega (
    arith,
    judge_outcome-once again method (random c.sent) (outcome c.sent) (send outcome took random b c)
        writes final,
  )

  awaited-once :
      (again : Try) (method : Method) (l : Option RateLimited × Line) (c : Line)
      → is_get method ≡ false
      → is_retried (outcome c.sent) ≡ false
      → l.1.sent ≡ c.sent
      → (awaited outcome took random again method 0 l).1.sent ≤ suc c.sent
  unfolding awaited
  awaited-once again method (some l, v) c writes final same = omega (arith, same)
  awaited-once again method (none, v) c writes final same =
      let h =
        taken-once again method (take v.now v.bucket) v writes
          (ap (λ n. is_retried (outcome n)) same ∙ final) in
      omega (arith, h, same)

  tries-Ends :
      (fuel tries : ℕ) (method : Method) (attempt : ℕ) (c : Line)
      → tries < fuel
      → 3 ≤ suc tries + attempt
      → Ends (suc tries) c (request outcome took random fuel method attempt c)
  unfolding request await_error_budget
  tries-Ends zero tries method attempt c left enough = ground (arith, left)
  tries-Ends (suc fuel) zero method attempt c left enough =
      awaited-Ends zero (request outcome took random fuel method) method attempt
        (await_error_budget c) c (ground arith) (λ few v. ground (arith, few, enough))
  tries-Ends (suc fuel) (suc tries) method attempt c left enough =
      awaited-Ends (suc tries) (request outcome took random fuel method) method attempt
        (await_error_budget c) c (ground arith)
        (λ few v.
          tries-Ends fuel tries method (suc attempt) v (omega (arith, left))
            (omega (arith, enough)))

  -- With fuel for three tries or more, `request` answers, whatever the network brings, and sends at most three requests.
  pub request-Ends :
      (fuel : ℕ) (method : Method) (c : Line)
      → 3 ≤ fuel
      → (is_answer (request outcome took random fuel method 0 c).0 ≡ true)
        × ((request outcome took random fuel method 0 c).1.sent ≤ c.sent + 3)
  request-Ends fuel method c enough = tries-Ends fuel 2 method 0 c enough (omega arith)

  -- A write whose first request CCP answers, but for the status 429, or breaks with an error that
  -- is not taken as safe, sends no second request, whatever the fuel.
  pub write_sends_once :
      (fuel : ℕ) (method : Method) (c : Line)
      → is_get method ≡ false
      → is_retried (outcome c.sent) ≡ false
      → (request outcome took random fuel method 0 c).1.sent ≤ suc c.sent
  unfolding request await_error_budget
  write_sends_once zero method c writes final = omega arith
  write_sends_once (suc fuel) method c writes final =
      awaited-once (request outcome took random fuel method) method (await_error_budget c) c writes
        final (ground arith)
