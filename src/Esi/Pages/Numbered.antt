-- ===== src/Esi/Pages/Numbered.antt =====
-- internal/adapter/esi/http/pages.go, `GetAllPages`: the pages after the first are fetched side by
-- side, and come in any order.
use eve_online_mcp.Prelude.{
  ℕ, ◌+◌, ◌≡◌, refl, sym, ap, ◌∙◌, min, arith, Bool, ◌&&◌, Option, none, some, List, [], ◌∷◌, ◌++◌,
  if◌then◌else◌, ltb, leb, count, count-append, Bool-cases, inl, inr,
}
use mathlib.Core.List.{Permᴰ}
use eve_online_mcp.Esi.Client.{Result, Fetch, fetched, refused}

-- What the loop keeps while the pages arrive.
pub record Gathered (R : Type 0) : Type 0 where
  pub rows : List R
  pub oldest : ℕ
  pub all_cached : Bool

-- A page count that is missing is 1.
abbrev pub total_of : Option ℕ → ℕ
total_of none = 1
total_of (some n) = n

-- `slice` is `j.Slice`, with nothing where `isSlice` says no, and `data_of` the rows as JSON again.
-- `fetch` is `cachedGet` of a page by its number, whose answer is taken to be the same whenever it is
-- asked for, and `arrivals n` the pages from 2 to `n` in the order in which they arrive.
module _ {J R : Type 0} (slice : J → Option (List R)) (data_of : List R → J) where
  abbrev pub or_nothing : Option (List R) → List R
  or_nothing none = []
  or_nothing (some rows) = rows

  unfoldable pub gather : Result J → Gathered R → Gathered R
  gather g k = record {
    rows = k.rows ++ or_nothing (slice g.content);
    oldest = if ltb k.oldest g.age then g.age else k.oldest;
    all_cached = k.all_cached && g.from_cache;
  }

  -- The answer of one page, and then the others.
  unfoldable pub gathered :
      (Gathered R → Fetch (Gathered R)) → Gathered R → Fetch (Result J) → Fetch (Gathered R)
  unfolding gather
  gathered again k (refused e) = refused e
  gathered again k (fetched g) = again (gather g k)

  module _ (fetch : ℕ → Fetch (Result J)) where
    unfoldable pub receive : List ℕ → Gathered R → Fetch (Gathered R)
    unfolding gathered
    receive [] k = fetched k
    receive (page ∷ pages) k = gathered (receive pages) k (fetch page)

    unfoldable pub merged : Result J → ℕ → ℕ → Fetch (Gathered R) → Fetch (Result J)
    merged first total capped (refused e) = refused e
    merged first total capped (fetched k) = fetched (record {
      content = data_of k.rows;
      from_cache = k.all_cached;
      age = k.oldest;
      expires_at = first.expires_at;
      pages = some total;
      truncated = ltb capped total;
    })

    -- On what `slice` reads of the first page.
    unfoldable pub after_first : (ℕ → List ℕ) → ℕ → Result J → Option (List R) → Fetch (Result J)
    unfolding receive merged
    after_first arrivals max_pages first none = fetched first
    after_first arrivals max_pages first (some rows) =
        let total = total_of first.pages in
        let capped = min total max_pages in
        if leb total 1
        then fetched first
        else merged first total capped (
            receive (arrivals capped)
              (record { rows = rows; oldest = first.age; all_cached = first.from_cache }))

    unfoldable pub with_first : (ℕ → List ℕ) → ℕ → Fetch (Result J) → Fetch (Result J)
    unfolding after_first
    with_first arrivals max_pages (refused e) = refused e
    with_first arrivals max_pages (fetched first) =
        after_first arrivals max_pages first (slice first.content)

    unfoldable pub get_all_pages : (ℕ → List ℕ) → ℕ → Fetch (Result J)
    unfolding with_first
    get_all_pages arrivals max_pages = with_first arrivals max_pages (fetch 1)

    -- The rows of a page that pass a test.
    abbrev on_page : (R → Bool) → Fetch (Result J) → ℕ
    on_page p (refused e) = 0
    on_page p (fetched g) = count p (or_nothing (slice g.content))

    abbrev on_pages : (R → Bool) → List ℕ → ℕ
    on_pages p [] = 0
    on_pages p (page ∷ pages) = on_page p (fetch page) + on_pages p pages

    -- What was gathered is what there was and what the pages have.
    abbrev Gathers : (R → Bool) → ℕ → Gathered R → Fetch (Gathered R) → Type 0
    Gathers p n k r = (v : Gathered R) → r ≡ fetched v → count p v.rows ≡ count p k.rows + n

    gathered-Gathers :
        (p : R → Bool) (n : ℕ) (again : Gathered R → Fetch (Gathered R)) (k : Gathered R)
        (r : Fetch (Result J))
        → ((j : Gathered R) → Gathers p n j (again j))
        → Gathers p (on_page p r + n) k (gathered again k r)
    unfolding gathered gather
    gathered-Gathers p n again k (refused e) later v h = ground (arith, h)
    gathered-Gathers p n again k (fetched g) later v h =
        omega (arith, later (gather g k) v h, count-append p k.rows (or_nothing (slice g.content)))

    receive-Gathers :
        (p : R → Bool) (pages : List ℕ) (k : Gathered R)
        → Gathers p (on_pages p pages) k (receive pages k)
    unfolding receive
    receive-Gathers p [] k v h = ground (arith, h)
    receive-Gathers p (page ∷ pages) k v h =
        gathered-Gathers p (on_pages p pages) (receive pages) k (fetch page)
          (λ j u e. receive-Gathers p pages j u e) v h

    on_pages-Perm : (p : R → Bool) {xs ys : List ℕ} → Permᴰ xs ys → on_pages p xs ≡ on_pages p ys
    on_pages-Perm p Permᴰ.nil = refl
    on_pages-Perm p (Permᴰ.cons {l₁ = xs} {l₂ = ys} e rest) =
        omega (arith, ap (λ n. on_page p (fetch n)) e, on_pages-Perm p rest)
    on_pages-Perm p (Permᴰ.swap e f) =
        omega (arith, ap (λ n. on_page p (fetch n)) e, ap (λ n. on_page p (fetch n)) f)
    on_pages-Perm p (Permᴰ.trans d e) = on_pages-Perm p d ∙ on_pages-Perm p e

    abbrev pub rows_of : Result J → List R
    rows_of g = or_nothing (slice g.content)

    merged-rows :
        (p : R → Bool) (first g : Result J) (total capped n : ℕ) (k : Gathered R)
        (r : Fetch (Gathered R))
        → ((rows : List R) → slice (data_of rows) ≡ some rows)
        → Gathers p n k r
        → merged first total capped r ≡ fetched g
        → count p (rows_of g) ≡ count p k.rows + n
    unfolding merged
    merged-rows p first g total capped n k (refused e) reads sums h = ground (arith, h)
    merged-rows p first g total capped n k (fetched v) reads sums h =
        ap (λ r. on_page p r) (sym h)
        ∙ ap (λ o. count p (or_nothing o)) (reads v.rows)
        ∙ sums v refl

    after_first-order :
        (p : R → Bool) (arrivals others : ℕ → List ℕ) (max_pages : ℕ) (first g h : Result J)
        (o : Option (List R))
        → ((n : ℕ) → Permᴰ (arrivals n) (others n))
        → ((rows : List R) → slice (data_of rows) ≡ some rows)
        → after_first arrivals max_pages first o ≡ fetched g
        → after_first others max_pages first o ≡ fetched h
        → count p (rows_of g) ≡ count p (rows_of h)
    unfolding after_first
    after_first-order p arrivals others max_pages first g h none same reads e f =
        ap (λ r. on_page p r) (sym e ∙ f)
    after_first-order p arrivals others max_pages first g h (some rows) same reads e f =
        let total = total_of first.pages in
        let capped = min total max_pages in
        let k : Gathered R = record {
          rows = rows;
          oldest = first.age;
          all_cached = first.from_cache;
        } in
        elim (Bool-cases (leb total 1)) [
          | inl single ↦ ap (λ r. on_page p r) (sym (rw single at e) ∙ (rw single at f))
          | inr several ↦
              let a =
                merged-rows p first g total capped (on_pages p (arrivals capped)) k
                  (receive (arrivals capped) k) reads (receive-Gathers p (arrivals capped) k)
                  (rw several at e) in
              let b =
                merged-rows p first h total capped (on_pages p (others capped)) k
                  (receive (others capped) k) reads (receive-Gathers p (others capped) k)
                  (rw several at f) in
              omega (arith, a, b, on_pages-Perm p (same capped))
        ]

    with_first-order :
        (p : R → Bool) (arrivals others : ℕ → List ℕ) (max_pages : ℕ) (g h : Result J)
        (r : Fetch (Result J))
        → ((n : ℕ) → Permᴰ (arrivals n) (others n))
        → ((rows : List R) → slice (data_of rows) ≡ some rows)
        → with_first arrivals max_pages r ≡ fetched g
        → with_first others max_pages r ≡ fetched h
        → count p (rows_of g) ≡ count p (rows_of h)
    unfolding with_first
    with_first-order p arrivals others max_pages g h (refused x) same reads e f = ground (arith, e)
    with_first-order p arrivals others max_pages g h (fetched first) same reads e f =
        after_first-order p arrivals others max_pages first g h (slice first.content) same reads e f

    -- Two answers of `GetAllPages` for which the same pages came in two orders hold the same rows, each
    -- as often, if rows written as JSON are read back as they were.
    pub get_all_pages-order :
        (p : R → Bool) (arrivals others : ℕ → List ℕ) (max_pages : ℕ) (g h : Result J)
        → ((n : ℕ) → Permᴰ (arrivals n) (others n))
        → ((rows : List R) → slice (data_of rows) ≡ some rows)
        → get_all_pages arrivals max_pages ≡ fetched g
        → get_all_pages others max_pages ≡ fetched h
        → count p (rows_of g) ≡ count p (rows_of h)
    unfolding get_all_pages
    get_all_pages-order p arrivals others max_pages g h same reads e f =
        with_first-order p arrivals others max_pages g h (fetch 1) same reads e f
