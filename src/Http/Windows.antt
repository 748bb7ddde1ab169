-- ===== src/Http/Windows.antt =====
-- internal/service/http/limit.go: how many requests of an address are let through in any minute.
use eve_online_mcp.Prelude.{
  ℕ, ◌+◌, ◌≤◌, ◌<◌, ◌≡◌, ◌∙◌, refl, subst, ap, String, Bool, false, ◌&&◌, List, [], ◌∷◌, ◌++◌,
  arith, if◌then◌else◌, leb, str_eq, str_eq_refl, str_eq_of_true, eq_iff, filter, length, count,
  Bool-cases, inl, inr,
}
use eve_online_mcp.Http.{
  public_rate_limit, Limiter, hits_of, set_hits, is_recent, allow, logged, serve_all,
}

-- A request of this address in the minute that ends at this time.
abbrev pub in_minute : String → ℕ → String × ℕ → Bool
in_minute ip end (a, at) = str_eq a ip && (leb at end && is_recent end at)

-- The requests come in the order of their times.
abbrev pub Rising : ℕ → List (String × ℕ) → Type 0
Rising last [] = Unit
Rising last ((ip, now) ∷ calls) = (last ≤ now) × Rising now calls

hits_of-set_hits :
    (ip a : String) (hits : List ℕ) (l : Limiter)
    → hits_of a (set_hits ip hits l) ≡ (if str_eq ip a then hits else hits_of a l)
unfolding hits_of set_hits
hits_of-set_hits ip a hits [] = refl
hits_of-set_hits ip a hits ((b, old) ∷ l) =
    ground (arith, eq_iff b ip, eq_iff ip a, eq_iff b a, hits_of-set_hits ip a hits l)

recent_later :
    (now end : ℕ) (hits : List ℕ)
    → now ≤ end
    → length (filter (is_recent end) hits) ≤ length (filter (is_recent now) hits)
recent_later now end [] h = omega arith
recent_later now end (t ∷ hits) h = ground (arith, h, recent_later now end hits h)

recent_twice :
    (now end : ℕ) (hits : List ℕ)
    → now ≤ end
    → filter (is_recent end) (filter (is_recent now) hits) ≡ filter (is_recent end) hits
recent_twice now end [] h = refl
recent_twice now end (t ∷ hits) h = ground (arith, h, recent_twice now end hits h)

length-filter-append :
    (p : ℕ → Bool) (hits : List ℕ) (t : ℕ)
    → length (filter p (hits ++ t ∷ [])) ≡ length (filter p hits) + (if p t then 1 else 0)
length-filter-append p [] t = ground arith
length-filter-append p (x ∷ hits) t = ground (arith, length-filter-append p hits t)

-- The limiter counts, from its last call on, what the log has.
record Represents (log : List (String × ℕ)) (last : ℕ) (l : Limiter) : Type 0 where
  counts :
      (ip : String) (end : ℕ)
      → last ≤ end
      → length (filter (is_recent end) (hits_of ip l)) ≡ count (in_minute ip end) log
  bounded : (ip : String) (end : ℕ) → count (in_minute ip end) log ≤ public_rate_limit

empty_hits : (ip : String) (end : ℕ) → length (filter (is_recent end) (hits_of ip [])) ≡ 0
unfolding hits_of
empty_hits ip end = refl

refused-Represents :
    (log : List (String × ℕ)) (last now : ℕ) (ip : String) (l : Limiter)
    → Represents log last l
    → last ≤ now
    → Represents log now (set_hits ip (filter (is_recent now) (hits_of ip l)) l)
refused-Represents log last now ip l v h = record {
  counts = λ a end e. ground (
    arith,
    eq_iff ip a,
    hits_of-set_hits ip a (filter (is_recent now) (hits_of ip l)) l,
    recent_twice now end (hits_of ip l) e,
    v.counts a end (omega (arith, h, e)),
  );
  bounded = v.bounded;
}

module _ (log : List (String × ℕ)) (last now : ℕ) (ip : String) (l : Limiter)
    (v : Represents log last l) (h : last ≤ now)
    (few : length (filter (is_recent now) (hits_of ip l)) < public_rate_limit) where
  abbrev kept : List ℕ
  kept = filter (is_recent now) (hits_of ip l)

  counts_own :
      (end : ℕ)
      → now ≤ end
      → length (filter (is_recent end) (hits_of ip (set_hits ip (kept ++ now ∷ []) l)))
        ≡ count (in_minute ip end) ((ip, now) ∷ log)
  counts_own end e =
      ap (λ (xs : List ℕ). length (filter (is_recent end) xs))
        (hits_of-set_hits ip ip (kept ++ now ∷ []) l
          ∙ ap (λ b. if b then kept ++ now ∷ [] else hits_of ip l) (str_eq_refl ip))
      ∙ length-filter-append (is_recent end) kept now
      ∙ ap (λ (xs : List ℕ). length xs + (if is_recent end now then 1 else 0))
          (recent_twice now end (hits_of ip l) e)
      ∙ ground (arith, str_eq_refl ip, v.counts ip end (omega (arith, h, e)), e)

  counts_other :
      (a : String) (end : ℕ)
      → str_eq ip a ≡ false
      → now ≤ end
      → length (filter (is_recent end) (hits_of a (set_hits ip (kept ++ now ∷ []) l)))
        ≡ count (in_minute a end) ((ip, now) ∷ log)
  counts_other a end other e = ground (
    arith,
    other,
    hits_of-set_hits ip a (kept ++ now ∷ []) l,
    v.counts a end (omega (arith, h, e)),
  )

  bounded_own : (end : ℕ) → count (in_minute ip end) ((ip, now) ∷ log) ≤ public_rate_limit
  bounded_own end = elim (Bool-cases (leb now end)) [
    | inl e ↦ ground (
      arith,
      e,
      v.counts ip end (ground (arith, h, e)),
      recent_later now end (hits_of ip l) (ground (arith, e)),
      few,
    )
    | inr before ↦ ground (arith, before, v.bounded ip end)
  ]

  admitted-Represents : Represents ((ip, now) ∷ log) now (set_hits ip (kept ++ now ∷ []) l)
  admitted-Represents = record {
    counts = λ a end e. elim (Bool-cases (str_eq ip a)) [
      | inl same ↦
          subst
            (λ (b : String).
              length (filter (is_recent end) (hits_of b (set_hits ip (kept ++ now ∷ []) l)))
              ≡ count (in_minute b end) ((ip, now) ∷ log))
            (str_eq_of_true ip a same) (counts_own end e)
      | inr other ↦ counts_other a end other e
    ];
    bounded = λ a end. elim (Bool-cases (str_eq ip a)) [
      | inl same ↦
          subst (λ (b : String). count (in_minute b end) ((ip, now) ∷ log) ≤ public_rate_limit)
            (str_eq_of_true ip a same) (bounded_own end)
      | inr other ↦ ground (arith, other, v.bounded a end)
    ];
  }

allow-Represents :
    (log : List (String × ℕ)) (last now : ℕ) (ip : String) (l : Limiter)
    → Represents log last l
    → last ≤ now
    → Represents (logged ip now (allow ip now l).0 log) now (allow ip now l).1
unfolding allow
allow-Represents log last now ip l v h =
    elim (Bool-cases (leb public_rate_limit (length (filter (is_recent now) (hits_of ip l))))) [
      | inl full ↦ rw full (refused-Represents log last now ip l v h)
      | inr room ↦ rw room (admitted-Represents log last now ip l v h (ground (arith, room)))
    ]

serve_all-bounded :
    (calls log : List (String × ℕ)) (last : ℕ) (l : Limiter)
    → Represents log last l
    → Rising last calls
    → (ip : String) (end : ℕ) → count (in_minute ip end) (serve_all calls l log) ≤ public_rate_limit
unfolding serve_all
serve_all-bounded [] log last l v r ip end = v.bounded ip end
serve_all-bounded ((a, now) ∷ calls) log last l v r ip end =
    serve_all-bounded calls (logged a now (allow a now l).0 log) now (allow a now l).1
      (allow-Represents log last now a l v r.0) r.1 ip end

-- Of any requests that come in the order of their times, at most sixty of one address are let
-- through in any minute.
pub public_rate_limited :
    (calls : List (String × ℕ)) (ip : String) (end : ℕ)
    → Rising 0 calls
    → count (in_minute ip end) (serve_all calls [] []) ≤ public_rate_limit
public_rate_limited calls ip end r = serve_all-bounded calls [] 0 [] none_yet r ip end
  where
    none_yet : Represents [] 0 []
    none_yet = record { counts = λ ip end e. empty_hits ip end; bounded = λ ip end. omega arith }
