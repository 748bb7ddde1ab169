-- ===== src/Esi/Pages/Once.antt =====
-- internal/adapter/esi/http/pages.go, `mergeCursorRows`: pages that overlap, and no row twice.
use eve_online_mcp.Prelude.{
  ℕ, zero, suc, ◌≤◌, ◌≡◌, refl, sym, ap, ◌∙◌, arith, Bool, true, false, Option, none, some, List,
  [], ◌∷◌, ◌++◌, if◌then◌else◌, ◌==◌, length, count, count-append, Bool-cases, Option-cases, inl,
  inr, max, ==_iff,
}
use eve_online_mcp.Esi.Client.{Result, Fetch, fetched, refused}
use eve_online_mcp.Esi.Pages.{
  CursorQuery, CursorWalk, has_seen, oldest_marker, merge_cursor_rows, noted, advance, judge_rows,
  judge_page, step_cursor, walk_on, walk_pages, start_walk, walked, get_cursor_pages,
}

module _ {J R : Type 0} (rows_of : J → List R) (marker : R → Option ℕ) where
  -- The row carries this marker.
  abbrev pub carries : ℕ → R → Bool
  carries m r = elim (marker r) [ none ↦ false | some n ↦ n == m ]

  -- A marker that the walk has seen is on one row, any other on none.
  abbrev Once : CursorWalk R → Type 0
  Once w = (m : ℕ) → count (carries m) w.rows ≤ (if has_seen w.seen m then 1 else 0)

  merge_cursor_rows-Once :
      (rows : List R) (next : Option ℕ) (w : CursorWalk R)
      → Once w
      → Once (merge_cursor_rows rows_of marker rows next w).1
  unfolding merge_cursor_rows
  merge_cursor_rows-Once [] next w h = h
  merge_cursor_rows-Once (r ∷ rows) next w h = elim (Option-cases (marker r)) [
    | inl e ↦
        let rest =
          merge_cursor_rows-Once rows next (record w { rows = w.rows ++ r ∷ [] })
            (λ m. ground (arith, e, h m, count-append (carries m) w.rows (r ∷ []))) in
        λ m. ground (arith, e, rest m)
    | inr (n, e) ↦ elim (Bool-cases (has_seen w.seen n)) [
      | inl seen ↦
          let rest = merge_cursor_rows-Once rows next w h in λ m. ground (arith, e, seen, rest m)
      | inr new ↦
          let rest =
            merge_cursor_rows-Once rows (oldest_marker next n)
              (record w { rows = w.rows ++ r ∷ []; seen = n ∷ w.seen })
              (λ m. elim (Bool-cases (n == m)) [
                | inl same ↦
                    let other_new = ap (has_seen w.seen) (sym ((==_iff n m).0 same)) ∙ new in
                    ground
                      (arith, e, h m, other_new, same, count-append (carries m) w.rows (r ∷ []))
                | inr other ↦
                    ground (arith, e, h m, other, count-append (carries m) w.rows (r ∷ []))
              ]) in
          λ m. ground (arith, e, new, rest m)
    ]
  ]

  advance-Once :
      (last : Bool) (n : ℕ) (o : Option ℕ × CursorWalk R)
      → Once o.1
      → Once (advance rows_of marker last n o).1
  unfolding advance
  advance-Once last n (next, w) h = λ m. ground (arith, h m)

  judge_rows-Once :
      (last : Bool) (rows : List R) (w : CursorWalk R)
      → Once w
      → Once (judge_rows rows_of marker last rows w).1
  unfolding judge_rows
  judge_rows-Once last rows w h =
      let d : CursorWalk R = record w { batch_size = max w.batch_size (length rows) } in
      let merged =
        advance-Once last (length rows) (merge_cursor_rows rows_of marker rows none d)
          (merge_cursor_rows-Once rows none d h) in
      λ m. ground (arith, h m, merged m)

  -- What a walk that ended has in hand.
  abbrev EndsOnce : {S : Type 0} → Fetch (CursorWalk R) × S → Type 0
  EndsOnce r = (v : CursorWalk R) → r.0 ≡ fetched v → Once v

  module _ {S : Type 0} (fetch : Option ℕ → S → Fetch (Result J) × S) where
    walk_on-Once :
        (again : CursorWalk R → S → Fetch (CursorWalk R) × S) (o : Bool × CursorWalk R) (s : S)
        → Once o.1
        → ((v : CursorWalk R) (t : S) → Once v → EndsOnce (again v t))
        → EndsOnce (walk_on rows_of marker fetch again (fetched o, s))
    unfolding walk_on
    walk_on-Once again (false, w) s h later v e = λ m. ground (arith, e, h m)
    walk_on-Once again (true, w) s h later v e = later w s h v e

    judge_page-Once :
        (again : CursorWalk R → S → Fetch (CursorWalk R) × S) (last : Bool) (w : CursorWalk R)
        (r : Fetch (Result J) × S)
        → Once w
        → ((v : CursorWalk R) (t : S) → Once v → EndsOnce (again v t))
        → EndsOnce (walk_on rows_of marker fetch again (judge_page rows_of marker last w r))
    unfolding judge_page walk_on noted
    judge_page-Once again last w (refused e, t) h later v x = ground (arith, x)
    judge_page-Once again last w (fetched g, t) h later v x =
        walk_on-Once again
          (judge_rows rows_of marker last (rows_of g.content) (noted rows_of marker g w)) t
          (judge_rows-Once last (rows_of g.content) (noted rows_of marker g w) h) later v x

    walk_pages-Once :
        (left : ℕ) (w : CursorWalk R) (s : S)
        → Once w
        → EndsOnce (walk_pages rows_of marker fetch left w s)
    unfolding walk_pages step_cursor
    walk_pages-Once zero w s h v e = λ m. ground (arith, e, h m)
    walk_pages-Once (suc left) w s h u e =
        judge_page-Once (walk_pages rows_of marker fetch left) (left == 0) w (fetch w.cursor s) h
          (λ v t k. walk_pages-Once left v t k) u e

    walked-Once :
        (r : Fetch (CursorWalk R) × S) (g : Result (List R)) (m : ℕ)
        → EndsOnce r
        → (walked rows_of marker r).0 ≡ fetched g
        → count (carries m) g.content ≤ 1
    walked-Once (refused e, s) g m h x = ground (arith, x)
    walked-Once (fetched w, s) g m h x = ground (arith, x, h w refl m)

    -- In an answer of `GetCursorPages`, however the pages overlap, at most one row carries a given marker.
    pub get_cursor_pages-Once :
        (q : CursorQuery) (s : S) (g : Result (List R)) (m : ℕ)
        → (get_cursor_pages rows_of marker fetch q s).0 ≡ fetched g
        → count (carries m) g.content ≤ 1
    unfolding get_cursor_pages
    get_cursor_pages-Once q s g m e =
        walked-Once
          (walk_pages rows_of marker fetch (max q.max_pages 1) (start_walk rows_of marker q) s) g m
          (walk_pages-Once (max q.max_pages 1) (start_walk rows_of marker q) s (λ n. omega arith)) e
