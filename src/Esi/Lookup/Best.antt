-- ===== src/Esi/Lookup/Best.antt =====
-- internal/adapter/esi/http/resolver.go, `pickNameResolutions`: what the sort of the matches puts
-- first.
use eve_online_mcp.Prelude.{
  ℕ, suc, ◌≡◌, ◌∙◌, refl, ap, subst, String, true, false, arith, List, [], ◌∷◌, length, All, In,
  inl, inr, ◌⊎◌, some, none, Bool-cases, str_eq, str_eq_refl, str_eq_of_true, trim_space, contains,
}
use eve_online_mcp.Esi.Lookup.{
  NameMatch, NameResolution, less, insert_match, sort_matches, resolution, fold, resolved,
  Resolutions, pick_name_resolutions,
}
use eve_online_mcp.Esi.Lookup.Order.{less-asym, less_trans, irreflexive}

module _ (rank : String → ℕ) where
  In-insert_match :
      (a m : NameMatch) (ms : List NameMatch) → (a ≡ m) ⊎ In a ms → In a (insert_match rank m ms)
  unfolding insert_match
  In-insert_match a m [] h = h
  In-insert_match a m (n ∷ ns) h = elim (Bool-cases (less rank n m)) [
    | inl later ↦ rw later (elim h [
      | inl e ↦ inr (In-insert_match a m ns (inl e))
      | inr i ↦ elim i [ inl e ↦ inl e | inr j ↦ inr (In-insert_match a m ns (inr j)) ]
    ])
    | inr here ↦ rw here h
  ]

  insert_match-In :
      (a m : NameMatch) (ms : List NameMatch) → In a (insert_match rank m ms) → (a ≡ m) ⊎ In a ms
  unfolding insert_match
  insert_match-In a m [] h = h
  insert_match-In a m (n ∷ ns) h = elim (Bool-cases (less rank n m)) [
    | inl later ↦ elim (rw later at h) [
      | inl e ↦ inr (inl e)
      | inr i ↦ elim (insert_match-In a m ns i) [ inl e ↦ inl e | inr j ↦ inr (inr j) ]
    ]
    | inr here ↦ rw here at h
  ]

  In-sort_matches : (a : NameMatch) (ms : List NameMatch) → In a ms → In a (sort_matches rank ms)
  unfolding sort_matches
  In-sort_matches a (m ∷ ms) (inl e) = In-insert_match a m (sort_matches rank ms) (inl e)
  In-sort_matches a (m ∷ ms) (inr i) =
      In-insert_match a m (sort_matches rank ms) (inr (In-sort_matches a ms i))
  In-sort_matches a [] h = elim h [ ]

  sort_matches-In : (a : NameMatch) (ms : List NameMatch) → In a (sort_matches rank ms) → In a ms
  unfolding sort_matches
  sort_matches-In a [] h = h
  sort_matches-In a (m ∷ ms) h = elim (insert_match-In a m (sort_matches rank ms) h) [
    | inl e ↦ inl e
    | inr i ↦ inr (sort_matches-In a ms i)
  ]

  length-insert_match :
      (m : NameMatch) (ms : List NameMatch) → length (insert_match rank m ms) ≡ suc (length ms)
  unfolding insert_match
  length-insert_match m [] = refl
  length-insert_match m (n ∷ ns) = ground (arith, length-insert_match m ns)

  length-sort_matches : (ms : List NameMatch) → length (sort_matches rank ms) ≡ length ms
  unfolding sort_matches
  length-sort_matches [] = refl
  length-sort_matches (m ∷ ms) =
      length-insert_match m (sort_matches rank ms) ∙ ap suc (length-sort_matches ms)

  -- No match of the list comes before its first one.
  abbrev Led : List NameMatch → Type 0
  Led [] = Unit
  Led (m ∷ ms) = All (λ n. less rank n m ≡ false) ms

  All-trans :
      (m n : NameMatch) (ms : List NameMatch)
      → less rank n m ≡ false
      → All (λ a. less rank a n ≡ false) ms
      → All (λ a. less rank a m ≡ false) ms
  All-trans m n [] e h = tt
  All-trans m n (a ∷ ms) e h = (less_trans rank a n m h.0 e, All-trans m n ms e h.1)

  All-insert_match :
      (m n : NameMatch) (ms : List NameMatch)
      → less rank n m ≡ false
      → All (λ a. less rank a m ≡ false) ms
      → All (λ a. less rank a m ≡ false) (insert_match rank n ms)
  unfolding insert_match
  All-insert_match m n [] e h = (e, tt)
  All-insert_match m n (a ∷ ms) e h = elim (Bool-cases (less rank a n)) [
    | inl later ↦ rw later (h.0, All-insert_match m n ms e h.1)
    | inr here ↦ rw here (e, h)
  ]

  insert_match-Led : (m : NameMatch) (ms : List NameMatch) → Led ms → Led (insert_match rank m ms)
  unfolding insert_match
  insert_match-Led m [] h = tt
  insert_match-Led m (n ∷ ns) h = elim (Bool-cases (less rank n m)) [
    | inl later ↦ rw later (All-insert_match n m ns (less-asym rank n m later) h)
    | inr here ↦ rw here (here, All-trans m n ns here h)
  ]

  sort_matches-Led : (ms : List NameMatch) → Led (sort_matches rank ms)
  unfolding sort_matches
  sort_matches-Led [] = tt
  sort_matches-Led (m ∷ ms) = insert_match-Led m (sort_matches rank ms) (sort_matches-Led ms)

  -- The choice among the matches of a name.
  pub record Best (ms : List NameMatch) (r : NameResolution) : Type 0 where
    pub some_match : r.chosen ≡ none → ms ≡ []
    pub member : (m : NameMatch) → r.chosen ≡ some m → In m ms
    pub least :
        (m : NameMatch) → r.chosen ≡ some m → (n : NameMatch) → In n ms → less rank n m ≡ false
    pub others : (m : NameMatch) → r.chosen ≡ some m → suc (length r.alternatives) ≡ length ms

  Led-least :
      (m n : NameMatch) (ms : List NameMatch)
      → All (λ a. less rank a m ≡ false) ms
      → (n ≡ m) ⊎ In n ms
      → less rank n m ≡ false
  Led-least m n ms h (inl e) = ap (λ a. less rank a m) e ∙ irreflexive rank m
  Led-least m n [] h (inr i) = elim i [ ]
  Led-least m n (a ∷ ms) h (inr (inl e)) = ap (λ b. less rank b m) e ∙ h.0
  Led-least m n (a ∷ ms) h (inr (inr i)) = Led-least m n ms h.1 (inr i)

  none_in : (ms : List NameMatch) → ((a : NameMatch) → In a ms → ⊥) → ms ≡ []
  none_in [] h = refl
  none_in (m ∷ ms) h = absurd (h m (inl refl))

  chosen_is : (P : NameMatch → Type 0) (m n : NameMatch) → some m ≡ some n → P m → P n
  chosen_is P m n e p = subst P (ground (arith, e)) p

  of_sorted :
      (query : String) (sorted ms : List NameMatch)
      → Led sorted
      → ((a : NameMatch) → In a sorted → In a ms)
      → ((a : NameMatch) → In a ms → In a sorted)
      → length sorted ≡ length ms
      → Best ms (resolution query sorted)
  unfolding resolution
  of_sorted query [] ms h back there size = record {
    some_match = λ e. none_in ms (λ a i. there a i);
    member = λ m e. ground (arith, e);
    least = λ m e n i. ground (arith, e);
    others = λ m e. ground (arith, e);
  }
  of_sorted query (a ∷ rest) ms h back there size = record {
    some_match = λ e. ground (arith, e);
    member = λ m e. chosen_is (λ b. In b ms) a m e (back a (inl refl));
    least =
        λ m e n i. chosen_is (λ b. less rank n b ≡ false) a m e (Led-least a n rest h (there n i));
    others = λ m e. size;
  }

  resolution-Best :
      (query : String) (ms : List NameMatch) → Best ms (resolution query (sort_matches rank ms))
  resolution-Best query ms =
      of_sorted query (sort_matches rank ms) ms (sort_matches-Led ms) (λ a. sort_matches-In a ms)
        (λ a. In-sort_matches a ms) (length-sort_matches ms)

  module _ (lower : String → String) (buckets : String → List NameMatch) where
    -- The entry of a name, if it has one, is the best choice for it.
    pick-keeps :
        (names : List String) (out : Resolutions) (wanted : String)
        → Best (buckets wanted) (resolved lower out wanted)
        → Best
            (buckets wanted)
            (resolved lower (pick_name_resolutions lower names buckets rank out) wanted)
    unfolding pick_name_resolutions resolved
    pick-keeps [] out wanted h = h
    pick-keeps (asked ∷ names) out wanted h =
        let query = trim_space asked in
        let key = fold lower asked in
        let r = resolution query (sort_matches rank (buckets key)) in
        pick-keeps names ((key, r) ∷ out) wanted (elim (Bool-cases (str_eq key wanted)) [
          | inl same ↦ rw same (
              subst (λ k. Best (buckets k) r) (str_eq_of_true key wanted same)
                (resolution-Best query (buckets key)))
          | inr other ↦ rw other h
        ])

    -- Every name that is asked for has an entry with the best choice among the matches of its key,
    -- which is the first by rank, category and id, and with as many others as there are beside it.
    pub pick_name_resolutions-Best :
        (names : List String) (asked : String) (out : Resolutions)
        → contains names asked ≡ true
        → Best
            (buckets (fold lower asked))
            (resolved lower (pick_name_resolutions lower names buckets rank out) (fold lower asked))
    unfolding pick_name_resolutions resolved contains
    pick_name_resolutions-Best [] asked out h = ground (arith, h)
    pick_name_resolutions-Best (name ∷ names) asked out h =
        let query = trim_space name in
        let key = fold lower name in
        let r = resolution query (sort_matches rank (buckets key)) in
        elim (Bool-cases (str_eq name asked)) [
          | inl same ↦
              let e = ap (fold lower) (str_eq_of_true name asked same) in
              pick-keeps names ((key, r) ∷ out) (fold lower asked) (
                subst (λ k. Best (buckets k) (resolved lower ((key, r) ∷ out) k)) e
                  (rw (str_eq_refl key) (resolution-Best query (buckets key))))
          | inr other ↦ pick_name_resolutions-Best names asked ((key, r) ∷ out) (rw other at h)
        ]
