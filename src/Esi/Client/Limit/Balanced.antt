-- ===== src/Esi/Client/Limit/Balanced.antt =====
-- internal/adapter/esi/http/request.go, `finishGet`: what a reply gives back was earned by a 304.
use eve_online_mcp.Prelude.{
  ℕ, ◌+◌, ◌*◌, ◌≤◌, ◌≡◌, refl, sym, subst, String, true, Option, none, some, List, arith, inl, inr,
  Bool-cases, if◌then◌else◌, leb, ◌==◌,
}
use eve_online_mcp.Esi.Bucket.{token, refund}
use eve_online_mcp.Esi.Budget.{ℤ}
use eve_online_mcp.Esi.Cache.{CachedResponse, ResponseCache}
use eve_online_mcp.Esi.Request.{Line, Reply, Outcome, Answer, answered, failed, out_of_fuel}
use eve_online_mcp.Esi.Request.Paid.{Paid, Paid-along}
use eve_online_mcp.Esi.Request.Answered.{IsTraced}
use eve_online_mcp.Esi.Client.{
  Client, store, revalidate, finish_fresh, finish_get, settle, is_server_error,
}
use eve_online_mcp.Esi.Client.Limit.{is_unmodified, unmodified, unmodified_later}

refund-Paid :
    (tokens since : ℕ) (c : Line)
    → Paid tokens since c
    → Paid (tokens + token) since (record c { bucket = refund c.bucket })
unfolding refund
refund-Paid tokens since c h = ground (arith, h)

module _ (outcome : ℕ → Outcome) (tokens since base : ℕ) where
  -- The requests sent so far are covered by the tokens at a start, the refill since then, and one
  -- for each request since then that brought 304.
  pub record Balanced (c : Line) : Type 0 where
    pub refunds : ℕ
    pub paid : Paid (tokens + refunds * token) since c
    pub earned : refunds + base ≤ unmodified outcome c.sent

  pub Balanced-along :
      (c v : Line) → v.sent ≡ c.sent → v.bucket ≡ c.bucket → Balanced c → Balanced v
  Balanced-along c v sent bucket h = record {
    refunds = h.refunds;
    paid = Paid-along (tokens + h.refunds * token) since c v sent bucket h.paid;
    earned = ground (arith, h.earned, sent);
  }

  -- A reply that the last request has brought, with a refund to come if it is 304.
  record Due (r : Reply) (c : Line) : Type 0 where
    balanced : Balanced c
    earned : (r.status == 304) ≡ true → balanced.refunds + 1 + base ≤ unmodified outcome c.sent

  refunded-Balanced :
      (r : Reply) (c : Line)
      → Due r c
      → (r.status == 304) ≡ true
      → Balanced (record c { bucket = refund c.bucket })
  refunded-Balanced r c d e = record {
    refunds = d.balanced.refunds + 1;
    paid =
        subst (λ n. Paid n since (record c { bucket = refund c.bucket })) (omega arith)
          (refund-Paid (tokens + d.balanced.refunds * token) since c d.balanced.paid);
    earned = d.earned e;
  }

  traced-Due :
      (start : ℕ) (r : Reply) (q : Answer × Line) (x : ℕ)
      → x + base ≤ unmodified outcome start
      → Paid (tokens + x * token) since q.1
      → IsTraced outcome start q
      → q.0 ≡ answered r
      → Due r q.1
  traced-Due start r q x e paid traced said =
      let b = traced.1 r said in
      let grown = unmodified_later outcome start b.number b.later in
      record {
        balanced = record {
          refunds = x;
          paid = paid;
          earned = omega (arith, e, unmodified_later outcome start q.1.sent traced.0);
        };
        earned = λ same.
            subst (λ n. x + 1 + base ≤ unmodified outcome n) (sym b.sent)
              (subst
                (λ o.
                  x + 1 + base ≤ unmodified outcome b.number + (if is_unmodified o then 1 else 0))
                (sym b.outcome_of) (ground (arith, same, e, grown)));
      }

  module _ {J : Type 0} (null : J) (text : List ℕ → J) (unmarshal : List ℕ → Option J)
      (marshal : J → Option (List ℕ)) where
    store-line :
        (key : String) (decoded : J) (expires : ℕ) (r : Reply) (o : Option (List ℕ)) (c : Client)
        → (store null text unmarshal marshal key decoded expires r o c).1.line ≡ c.line
    unfolding store
    store-line key decoded expires r none c = refl
    store-line key decoded expires r (some raw) c = refl

    finish_fresh-line :
        (key : String) (fallback : Option ℤ) (r : Reply) (c : Client)
        → (finish_fresh null text unmarshal marshal key fallback r c).1.line ≡ c.line
    unfolding finish_fresh
    finish_fresh-line key fallback r c = store-line key _ _ r _ c

    finish_get-Balanced :
        (key : String) (fallback : Option ℤ) (cached : Option CachedResponse) (r : Reply)
        (c : Client)
        → Due r c.line
        → Balanced (finish_get null text unmarshal marshal key fallback cached r c).1.line
    unfolding finish_get revalidate
    finish_get-Balanced key fallback none r c d =
        let stays = subst Balanced (sym (finish_fresh-line key fallback r c)) d.balanced in
        elim (Bool-cases (leb 400 r.status)) [
          | inl failed_so ↦ rw failed_so d.balanced
          | inr fine ↦ rw fine stays
        ]
    finish_get-Balanced key fallback (some old) r c d =
        let stays = subst Balanced (sym (finish_fresh-line key fallback r c)) d.balanced in
        elim (Bool-cases (r.status == 304)) [
          | inl same ↦ rw same (refunded-Balanced r c.line d same)
          | inr new ↦ elim (Bool-cases (leb 400 r.status)) [
            | inr fine ↦ rw (new, fine) stays
            | inl failed_so ↦ elim (Bool-cases (is_server_error r.status)) [
              | inl theirs ↦ rw (new, failed_so, theirs) d.balanced
              | inr ours ↦ rw (new, failed_so, ours) d.balanced
            ]
          ]
        ]

    pub settle-Balanced :
        (start x : ℕ) (key : String) (fallback : Option ℤ) (cached : Option CachedResponse)
        (cache : ResponseCache) (q : Answer × Line)
        → x + base ≤ unmodified outcome start
        → Paid (tokens + x * token) since q.1
        → IsTraced outcome start q
        → Balanced (settle null text unmarshal marshal key fallback cached cache q).1.line
    unfolding settle
    settle-Balanced start x key fallback cached cache (answered r, line) e paid traced =
        let d = traced-Due start r (answered r, line) x e paid traced refl in
        elim (Bool-cases r.complete) [
          | inl whole ↦
              simp whole (
                finish_get-Balanced key fallback cached r (record { line = line; cache = cache }) d)
          | inr torn ↦ rw torn d.balanced
        ]
    settle-Balanced start x key fallback cached cache (failed f, line) e paid traced = record {
      refunds = x;
      paid = paid;
      earned = omega (arith, e, unmodified_later outcome start line.sent traced.0);
    }
    settle-Balanced start x key fallback cached cache (out_of_fuel, line) e paid traced = record {
      refunds = x;
      paid = paid;
      earned = omega (arith, e, unmodified_later outcome start line.sent traced.0);
    }
