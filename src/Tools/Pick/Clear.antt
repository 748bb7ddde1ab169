-- ===== src/Tools/Pick/Clear.antt =====
-- internal/usecase/eve: the loop over the names that a tool was given, and what it has when nothing
-- is left open.
use eve_online_mcp.Prelude.{
  ℕ, ◌≡◌, ◌∙◌, refl, sym, ap, subst, inl, inr, ◌⊎◌, String, Bool, true, false, ◌||◌, none, some,
  Option, List, [], ◌∷◌, ◌++◌, arith, All, In, any, Bool-cases, ◌==◌,
}
use eve_online_mcp.Write.Summary.{Args}
use eve_online_mcp.Esi.Lookup.{NameMatch, NameResolution, Resolutions, ambiguous, fold, resolved}
use eve_online_mcp.Tools.{Net}
use eve_online_mcp.Tools.Pick.{
  Picked, Resolved, nothing_picked, is_seen, pick_one, pick, judge_picked, judged,
  name_resolve_fail,
}

-- No id comes twice.
abbrev pub Distinct : List NameMatch → Type 0
Distinct [] = Unit
Distinct (m ∷ ms) = (is_seen ms m.id ≡ false) × Distinct ms

any-append :
    (p : NameMatch → Bool) (xs ys : List NameMatch) → any p (xs ++ ys) ≡ (any p xs || any p ys)
any-append p [] ys = refl
any-append p (x ∷ xs) ys = ground (arith, any-append p xs ys)

Distinct-append :
    (ms : List NameMatch) (m : NameMatch)
    → Distinct ms
    → is_seen ms m.id ≡ false
    → Distinct (ms ++ m ∷ [])
Distinct-append [] m h e = (refl, tt)
Distinct-append (x ∷ ms) m h e = (
  ground (arith, any-append (λ (n : NameMatch). n.id == x.id) ms (m ∷ []), h.0, e),
  Distinct-append ms m h.1 (ground (arith, e)),
)

-- Nothing is left open.
abbrev IsSettled : Picked → Type 0
IsSettled p = (p.unknown ≡ []) × (p.unsure ≡ [])

append-nil {ℓ} : {A : Type ℓ} (xs ys : List A) → xs ++ ys ≡ [] → xs ≡ []
append-nil [] ys h = refl
append-nil (x ∷ xs) ys h = ground (arith, h)

pick_one-IsSettled :
    (asked : String) (r : NameResolution) (o : Option NameMatch) (p : Picked)
    → IsSettled (pick_one asked r o p)
    → IsSettled p
unfolding pick_one
pick_one-IsSettled asked r none p h = (append-nil p.unknown (asked ∷ []) h.0, h.1)
pick_one-IsSettled asked r (some m) p h = elim (Bool-cases (ambiguous r)) [
  | inl unsure ↦ let k = rw unsure at h in (k.0, append-nil p.unsure (r ∷ []) k.1)
  | inr sure ↦ elim (Bool-cases (is_seen p.matches m.id)) [
    | inl seen ↦ rw (sure, seen) at h
    | inr fresh ↦ rw (sure, fresh) at h
  ]
]

-- What a settled step shows of its name, and of the matches that it has.
record Step (r : NameResolution) (o : Option NameMatch) (p q : Picked) : Type 0 where
  chosen : NameMatch
  found : o ≡ some chosen
  sure : ambiguous r ≡ false
  seen : is_seen q.matches chosen.id ≡ true
  kept : (id : ℕ) → is_seen p.matches id ≡ true → is_seen q.matches id ≡ true
  distinct : Distinct p.matches → Distinct q.matches
  new : (n : NameMatch) → In n q.matches → In n p.matches ⊎ (n ≡ chosen)

append-cons : (xs : List String) (x : String) → xs ++ x ∷ [] ≡ [] → ⊥
append-cons [] x e = ground (arith, e)
append-cons (y ∷ ys) x e = ground (arith, e)

append-cons_unsure : (xs : List NameResolution) (x : NameResolution) → xs ++ x ∷ [] ≡ [] → ⊥
append-cons_unsure [] x e = ground (arith, e)
append-cons_unsure (y ∷ ys) x e = ground (arith, e)

In-append : (n m : NameMatch) (xs : List NameMatch) → In n (xs ++ m ∷ []) → In n xs ⊎ (n ≡ m)
In-append n m [] (inl e) = inr e
In-append n m [] (inr i) = elim i [ ]
In-append n m (x ∷ xs) (inl e) = inl (inl e)
In-append n m (x ∷ xs) (inr i) = elim (In-append n m xs i) [ inl j ↦ inl (inr j) | inr e ↦ inr e ]

self_seen : (m : NameMatch) → is_seen (m ∷ []) m.id ≡ true
self_seen m = ground arith

pick_one-Step :
    (asked : String) (r : NameResolution) (o : Option NameMatch) (p : Picked)
    → IsSettled (pick_one asked r o p)
    → Step r o p (pick_one asked r o p)
unfolding pick_one
pick_one-Step asked r none p h = absurd (append-cons p.unknown asked h.0)
pick_one-Step asked r (some m) p h = elim (Bool-cases (ambiguous r)) [
  | inl unsure ↦ absurd (append-cons_unsure p.unsure r ((rw unsure at h).1))
  | inr sure ↦ elim (Bool-cases (is_seen p.matches m.id)) [
    | inl seen ↦
        rw (sure, seen)
          (record {
            chosen = m;
            found = refl;
            sure = sure;
            seen = seen;
            kept = λ id e. e;
            distinct = λ e. e;
            new = λ n i. inl i;
          })
    | inr fresh ↦
        let grown = λ (id : ℕ). any-append (λ (n : NameMatch). n.id == id) p.matches (m ∷ []) in
        rw (sure, fresh)
          (record {
            chosen = m;
            found = refl;
            sure = sure;
            seen = ground (arith, grown m.id);
            kept = λ id e. ground (arith, grown id, e);
            distinct = λ e. Distinct-append p.matches m e fresh;
            new = λ n i. In-append n m p.matches i;
          })
  ]
]

no_fail :
    (quote : String → String) (unknown : List String) (unsure : List NameResolution)
    → name_resolve_fail quote unknown unsure ≡ none
    → (unknown ≡ []) × (unsure ≡ [])
unfolding name_resolve_fail
no_fail quote [] [] h = (refl, refl)
no_fail quote [] (r ∷ unsure) h = ground (arith, h)
no_fail quote (n ∷ unknown) unsure h = ground (arith, h)

judged-found :
    (o : Option Args) (xs ys : List NameMatch)
    → judged o xs ≡ Resolved.found ys
    → (o ≡ none) × (xs ≡ ys)
judged-found none xs ys h = (refl, ground (arith, h))
judged-found (some answer) xs ys h = ground (arith, h)

judged-IsSettled :
    (net : Net) (p : Picked) (ms : List NameMatch)
    → judge_picked net p ≡ Resolved.found ms
    → IsSettled p × (p.matches ≡ ms)
unfolding judge_picked
judged-IsSettled net p ms h =
    let o = name_resolve_fail net.quote p.unknown p.unsure in
    let (none_open, same) = judged-found o p.matches ms h in
    (no_fail net.quote p.unknown p.unsure none_open, same)

module _ (lower : String → String) (found : Resolutions) where
  -- A name stands for one thing only, which is among the matches.
  pub record Named (ms : List NameMatch) (asked : String) : Type 0 where
    pub chosen : NameMatch
    pub resolved_to : (resolved lower found (fold lower asked)).chosen ≡ some chosen
    pub sure : ambiguous (resolved lower found (fold lower asked)) ≡ false
    pub listed : is_seen ms chosen.id ≡ true

  -- Each name stands for one thing only, nothing is listed twice, and nothing that was not asked for.
  pub record Clear (names : List String) (ms : List NameMatch) : Type 0 where
    pub named : All (Named ms) names
    pub distinct : Distinct ms
    pub asked :
        (m : NameMatch)
        → In m ms
        → (name : String) × (In name names
            × ((resolved lower found (fold lower name)).chosen ≡ some m))

  pick-IsSettled :
      (names : List String) (p : Picked) → IsSettled (pick lower names found p) → IsSettled p
  unfolding pick
  pick-IsSettled [] p h = h
  pick-IsSettled (asked ∷ names) p h =
      let r = resolved lower found (fold lower asked) in
      pick_one-IsSettled asked r r.chosen p (pick-IsSettled names (pick_one asked r r.chosen p) h)

  pick-kept :
      (names : List String) (p : Picked)
      → IsSettled (pick lower names found p)
      → (id : ℕ) → is_seen p.matches id ≡ true
      → is_seen (pick lower names found p).matches id ≡ true
  unfolding pick
  pick-kept [] p h id e = e
  pick-kept (asked ∷ names) p h id e =
      let r = resolved lower found (fold lower asked) in
      let q = pick_one asked r r.chosen p in
      let step = pick_one-Step asked r r.chosen p (pick-IsSettled names q h) in
      pick-kept names q h id (step.kept id e)

  pick-Named :
      (names : List String) (p : Picked)
      → IsSettled (pick lower names found p)
      → All (Named (pick lower names found p).matches) names
  unfolding pick
  pick-Named [] p h = tt
  pick-Named (asked ∷ names) p h =
      let r = resolved lower found (fold lower asked) in
      let q = pick_one asked r r.chosen p in
      let step = pick_one-Step asked r r.chosen p (pick-IsSettled names q h) in
      (
        record {
          chosen = step.chosen;
          resolved_to = step.found;
          sure = step.sure;
          listed = pick-kept names q h step.chosen.id step.seen;
        },
        pick-Named names q h,
      )

  pick-Distinct :
      (names : List String) (p : Picked)
      → IsSettled (pick lower names found p)
      → Distinct p.matches
      → Distinct (pick lower names found p).matches
  unfolding pick
  pick-Distinct [] p h e = e
  pick-Distinct (asked ∷ names) p h e =
      let r = resolved lower found (fold lower asked) in
      let q = pick_one asked r r.chosen p in
      let step = pick_one-Step asked r r.chosen p (pick-IsSettled names q h) in
      pick-Distinct names q h (step.distinct e)

  pick-asked :
      (names : List String) (p : Picked)
      → IsSettled (pick lower names found p)
      → (m : NameMatch) → In m (pick lower names found p).matches
      → In m p.matches
        ⊎ ((name : String) × (In name names
              × ((resolved lower found (fold lower name)).chosen ≡ some m)))
  unfolding pick
  pick-asked [] p h m i = inl i
  pick-asked (asked ∷ names) p h m i =
      let r = resolved lower found (fold lower asked) in
      let q = pick_one asked r r.chosen p in
      let step = pick_one-Step asked r r.chosen p (pick-IsSettled names q h) in
      elim (pick-asked names q h m i) [
        | inl j ↦ elim (step.new m j) [
          | inl k ↦ inl k
          | inr e ↦ inr (asked, (inl refl, step.found ∙ ap some (sym e)))
        ]
        | inr (name, (j, e)) ↦ inr (name, (inr j, e))
      ]

  -- When the names of a call come out, each of them stands for one thing only, which is listed, no
  -- thing is listed twice, and each that is listed was asked for.
  pub judge_picked-Clear :
      (net : Net) (names : List String) (ms : List NameMatch)
      → judge_picked net (pick lower names found nothing_picked) ≡ Resolved.found ms
      → Clear names ms
  judge_picked-Clear net names ms h =
      let p = pick lower names found nothing_picked in
      let (settled, same) = judged-IsSettled net p ms h in
      subst (Clear names) same (record {
        named = pick-Named names nothing_picked settled;
        distinct = pick-Distinct names nothing_picked settled tt;
        asked = λ m i. elim (pick-asked names nothing_picked settled m i) [
          | inl j ↦ elim j [ ]
          | inr e ↦ e
        ];
      })
