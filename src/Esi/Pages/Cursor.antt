-- ===== src/Esi/Pages/Cursor.antt =====
-- internal/adapter/esi/http/pages.go, `GetCursorPages`: which pages a walk asks for, and that no row
-- comes twice.
use eve_online_mcp.Prelude.{
  ℕ, zero, suc, ◌+◌, ◌≤◌, ◌≡◌, refl, sym, subst, ap, ◌∙◌, arith, Bool, true, false, Option, none,
  some, List, [], ◌∷◌, ◌++◌, ltb, ◌==◌, length, Bool-cases, Option-cases, inl, inr, max,
}
use eve_online_mcp.Esi.Client.{Result, Fetch, fetched, refused}
use eve_online_mcp.Esi.Pages.{
  CursorQuery, CursorWalk, oldest_marker, is_stuck, merge_cursor_rows, noted, advance, judge_rows,
  judge_page, step_cursor, walk_on, walk_pages, start_walk, walked, get_cursor_pages,
}

abbrev pub is_before : Option ℕ → Option ℕ → Bool
is_before none c = false
is_before (some m) none = true
is_before (some m) (some n) = ltb m n

-- The cursors that a walk asked with, the last one first: each is before the one that was asked
-- with before it, and only the first page may have had none.
abbrev pub Descends : List (Option ℕ) → Type 0
Descends [] = Unit {0}
Descends (c ∷ []) = Unit {0}
Descends (c ∷ d ∷ cursors) = (is_before c d ≡ true) × Descends (d ∷ cursors)

Descends-tail :
    (c : Option ℕ) (cursors : List (Option ℕ)) → Descends (c ∷ cursors) → Descends cursors
Descends-tail c [] h = tt
Descends-tail c (d ∷ cursors) h = h.1

-- A request that notes its cursor.
abbrev pub logged :
    {J S : Type 0}
    → (Option ℕ → S → Fetch (Result J) × S)
    → Option ℕ
    → S × List (Option ℕ)
    → Fetch (Result J) × (S × List (Option ℕ))
logged fetch c (s, log) = let (r, t) = fetch c s in (r, (t, c ∷ log))

is_stuck-is_before :
    (next cursor : Option ℕ) → is_stuck next cursor ≡ false → is_before next cursor ≡ true
is_stuck-is_before none cursor h = ground (arith, h)
is_stuck-is_before (some n) none h = refl
is_stuck-is_before (some n) (some m) h = ground (arith, h)

module _ {J R : Type 0} (rows_of : J → List R) (marker : R → Option ℕ) where
  merge_cursor_rows-cursor :
      (rows : List R) (next : Option ℕ) (w : CursorWalk R)
      → (merge_cursor_rows rows_of marker rows next w).1.cursor ≡ w.cursor
  unfolding merge_cursor_rows
  merge_cursor_rows-cursor [] next w = refl
  merge_cursor_rows-cursor (r ∷ rows) next w = elim (Option-cases (marker r)) [
    | inl e ↦
        ground (arith, e, merge_cursor_rows-cursor rows next (record w { rows = w.rows ++ r ∷ [] }))
    | inr (m, e) ↦ ground (
      arith,
      e,
      merge_cursor_rows-cursor rows next w,
      merge_cursor_rows-cursor rows (oldest_marker next m)
          (record w { rows = w.rows ++ r ∷ []; seen = m ∷ w.seen }),
    )
  ]

  advance-before :
      (last : Bool) (n : ℕ) (next : Option ℕ) (w v : CursorWalk R)
      → advance rows_of marker last n (next, w) ≡ (true, v)
      → is_before v.cursor w.cursor ≡ true
  unfolding advance
  advance-before last n next w v h = elim (Bool-cases (is_stuck next w.cursor)) [
    | inl stuck ↦ ground (arith, h, stuck)
    | inr moves ↦ ground (arith, h, moves, is_stuck-is_before next w.cursor moves)
  ]

  judge_rows-before :
      (last : Bool) (rows : List R) (w v : CursorWalk R)
      → judge_rows rows_of marker last rows w ≡ (true, v)
      → is_before v.cursor w.cursor ≡ true
  unfolding judge_rows
  judge_rows-before last rows w v h = elim (Bool-cases (length rows == 0)) [
    | inl empty ↦ ground (arith, h, empty)
    | inr more ↦
        let d : CursorWalk R = record w { batch_size = max w.batch_size (length rows) } in
        let (next, u) = merge_cursor_rows rows_of marker rows none d in
        ap (λ c. is_before v.cursor c) (sym (merge_cursor_rows-cursor rows none d))
        ∙ advance-before last (length rows) next u v (rw more at h)
  ]

  module _ {S : Type 0} (fetch : Option ℕ → S → Fetch (Result J) × S) where
    -- At most so many pages more, each before the ones before it.
    abbrev Follows : ℕ → List (Option ℕ) → Fetch (CursorWalk R) × (S × List (Option ℕ)) → Type 0
    Follows n log r = Descends r.1.1 × (length r.1.1 ≤ length log + n)

    walk : ℕ → CursorWalk R → S × List (Option ℕ) → Fetch (CursorWalk R) × (S × List (Option ℕ))
    unfolding walk_pages
    walk n = walk_pages rows_of marker (logged fetch) n

    walk_on-Follows :
        (n : ℕ) (w : CursorWalk R) (log : List (Option ℕ)) (o : Bool × CursorWalk R) (t : S)
        → Descends (w.cursor ∷ log)
        → ((v : CursorWalk R) → o ≡ (true, v) → is_before v.cursor w.cursor ≡ true)
        → ((v : CursorWalk R)
            → Descends (v.cursor ∷ w.cursor ∷ log)
            → Follows n (w.cursor ∷ log) (walk n v (t, w.cursor ∷ log)))
        → Follows
            (suc n)
            log
            (walk_on rows_of marker (logged fetch) (walk n) (fetched o, (t, w.cursor ∷ log)))
    unfolding walk_on
    walk_on-Follows n w log (false, v) t d moves again = (d, omega arith)
    walk_on-Follows n w log (true, v) t d moves again =
        let h = again v (moves v refl, d) in (h.0, omega (arith, h.1))

    judge_page-Follows :
        (n : ℕ) (w : CursorWalk R) (last : Bool) (log : List (Option ℕ)) (r : Fetch (Result J) × S)
        → Descends (w.cursor ∷ log)
        → ((v : CursorWalk R)
            → Descends (v.cursor ∷ w.cursor ∷ log)
            → Follows n (w.cursor ∷ log) (walk n v (r.1, w.cursor ∷ log)))
        → Follows (suc n) log (
            walk_on rows_of marker
              (logged fetch)
              (walk n)
              (judge_page rows_of marker last w (r.0, (r.1, w.cursor ∷ log))))
    unfolding judge_page walk_on noted
    judge_page-Follows n w last log (refused e, t) d again = (d, omega arith)
    judge_page-Follows n w last log (fetched g, t) d again =
        walk_on-Follows n w log
          (judge_rows rows_of marker last (rows_of g.content) (noted rows_of marker g w)) t d
          (λ v h. judge_rows-before last (rows_of g.content) (noted rows_of marker g w) v h) again

    walk-Follows :
        (n : ℕ) (w : CursorWalk R) (t : S) (log : List (Option ℕ))
        → Descends (w.cursor ∷ log)
        → Follows n log (walk n w (t, log))
    unfolding walk walk_pages step_cursor
    walk-Follows zero w t log d = (Descends-tail w.cursor log d, omega arith)
    walk-Follows (suc n) w t log d =
        judge_page-Follows n w (n == 0) log (fetch w.cursor t) d
          (λ v h. walk-Follows n v (fetch w.cursor t).1 (w.cursor ∷ log) h)

  walked-log : {S : Type 0} (r : Fetch (CursorWalk R) × S) → (walked rows_of marker r).1 ≡ r.1
  walked-log (refused e, s) = refl
  walked-log (fetched w, s) = refl

  -- `GetCursorPages` asks for at most as many pages as it was given leave for, and for one if that is
  -- none, and each page it asks for is before the one that it asked for last.
  pub get_cursor_pages-Descends :
      {S : Type 0} (fetch : Option ℕ → S → Fetch (Result J) × S) (q : CursorQuery) (s : S)
      → (let log = (get_cursor_pages rows_of marker (logged fetch) q (s, [])).1.1 in
          Descends log × (length log ≤ max q.max_pages 1))
  unfolding get_cursor_pages walk
  get_cursor_pages-Descends fetch q s =
      let h = walk-Follows fetch (max q.max_pages 1) (start_walk rows_of marker q) s [] tt in
      subst (λ log. Descends log × (length log ≤ max q.max_pages 1))
        (sym (
          ap (λ x. x.1)
            (walked-log (walk fetch (max q.max_pages 1) (start_walk rows_of marker q) (s, [])))))
        (h.0, omega (arith, h.1))
