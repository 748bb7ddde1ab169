-- ===== src/Esi/Pages.antt =====
-- internal/adapter/esi/http/pages.go: a list that ESI gives page by page, by number or by a cursor.
pub mod Cursor
pub mod Once
pub mod Numbered
use eve_online_mcp.Prelude.{
  ℕ, zero, suc, ◌+◌, ◌-◌, min, max, Bool, true, false, ◌&&◌, ◌||◌, not, Option, none, some, List,
  [], ◌∷◌, ◌++◌, if◌then◌else◌, ltb, leb, ◌==◌, length, any,
}
use eve_online_mcp.Esi.Client.{Result, Fetch, fetched, refused, CallError}

-- esi.CursorQuery, less the route, the character and the names of the parameters.
pub record CursorQuery : Type 0 where
  pub cursor : Option ℕ
  pub batch_size : ℕ
  pub max_pages : ℕ

-- cursorWalk, with `R` for a row.
pub record CursorWalk (R : Type 0) : Type 0 where
  pub cursor : Option ℕ
  pub batch_size : ℕ
  pub rows : List R
  pub seen : List ℕ
  pub oldest : ℕ
  pub expires_at : ℕ
  pub all_cached : Bool
  pub pages : ℕ
  pub truncated : Bool

abbrev pub has_seen : List ℕ → ℕ → Bool
has_seen seen m = any (λ n. n == m) seen

-- `nextCursor == nil || lessAny(marker, nextCursor)`
abbrev pub oldest_marker : Option ℕ → ℕ → Option ℕ
oldest_marker none m = some m
oldest_marker (some n) m = if ltb m n then some m else some n

-- The next cursor is missing, or not before the cursor.
abbrev pub is_stuck : Option ℕ → Option ℕ → Bool
is_stuck none cursor = true
is_stuck (some next) none = false
is_stuck (some next) (some cursor) = not (ltb next cursor)

-- `fetch` is `cachedGet` with the cursor, or the page, among its parameters, on a state `S`; `rows_of`
-- reads the rows of an answer and `marker` the field `cursorKey` of a row, an id, that is a number.
module _ {J R : Type 0} (rows_of : J → List R) (marker : R → Option ℕ) where
  unfoldable pub merge_cursor_rows : List R → Option ℕ → CursorWalk R → Option ℕ × CursorWalk R
  merge_cursor_rows [] next w = (next, w)
  merge_cursor_rows (r ∷ rows) next w = elim (marker r) [
    | none ↦ merge_cursor_rows rows next (record w { rows = w.rows ++ r ∷ [] })
    | some m ↦
        if has_seen w.seen m
        then merge_cursor_rows rows next w
        else merge_cursor_rows rows (oldest_marker next m)
            (record w { rows = w.rows ++ r ∷ []; seen = m ∷ w.seen })
  ]

  -- What `stepCursor` notes of an answer before it looks at the rows.
  unfoldable pub noted : Result J → CursorWalk R → CursorWalk R
  noted g w = record w {
    pages = suc w.pages;
    expires_at = if w.pages == 0 then g.expires_at else w.expires_at;
    all_cached = w.all_cached && g.from_cache;
    oldest = if ltb w.oldest g.age then g.age else w.oldest;
  }

  -- The end of `stepCursor`: whether the walk goes on, and the walk.
  unfoldable pub advance : Bool → ℕ → Option ℕ × CursorWalk R → Bool × CursorWalk R
  advance last count (next, w) =
      if ltb count w.batch_size
      then (false, w)
      else if last
      then (false, record w { truncated = true })
      else if is_stuck next w.cursor
      then (false, w)
      else (true, record w { cursor = next })

  unfoldable pub judge_rows : Bool → List R → CursorWalk R → Bool × CursorWalk R
  unfolding merge_cursor_rows advance
  judge_rows last rows w =
      if length rows == 0
      then (false, w)
      else advance last (length rows)
          (merge_cursor_rows rows none (record w { batch_size = max w.batch_size (length rows) }))

  unfoldable pub judge_page :
      {S : Type 0} → Bool → CursorWalk R → Fetch (Result J) × S → Fetch (Bool × CursorWalk R) × S
  unfolding noted judge_rows
  judge_page last w (refused e, s) = (refused e, s)
  judge_page last w (fetched g, s) = (fetched (judge_rows last (rows_of g.content) (noted g w)), s)

  abbrev pub start_walk : CursorQuery → CursorWalk R
  start_walk q = record {
    cursor = q.cursor;
    batch_size = max q.batch_size 1;
    rows = [];
    seen = [];
    oldest = 0;
    expires_at = 0;
    all_cached = true;
    pages = 0;
    truncated = false;
  }

  abbrev pub walk_result : CursorWalk R → Result (List R)
  walk_result w = record {
    content = w.rows;
    from_cache = w.all_cached;
    age = w.oldest;
    expires_at = w.expires_at;
    pages = some w.pages;
    truncated = w.truncated;
  }

  abbrev pub walked : {S : Type 0} → Fetch (CursorWalk R) × S → Fetch (Result (List R)) × S
  walked (refused e, s) = (refused e, s)
  walked (fetched w, s) = (fetched (walk_result w), s)

  module _ {S : Type 0} (fetch : Option ℕ → S → Fetch (Result J) × S) where
    unfoldable pub step_cursor : Bool → CursorWalk R → S → Fetch (Bool × CursorWalk R) × S
    unfolding judge_page
    step_cursor last w s = judge_page last w (fetch w.cursor s)

    unfoldable pub walk_on :
        (CursorWalk R → S → Fetch (CursorWalk R) × S)
        → Fetch (Bool × CursorWalk R) × S
        → Fetch (CursorWalk R) × S
    walk_on again (refused e, s) = (refused e, s)
    walk_on again (fetched (false, w), s) = (fetched w, s)
    walk_on again (fetched (true, w), s) = again w s

    -- The loop, with the number of pages that are left to it.
    unfoldable pub walk_pages : ℕ → CursorWalk R → S → Fetch (CursorWalk R) × S
    unfolding walk_on step_cursor
    walk_pages zero w s = (fetched w, s)
    walk_pages (suc left) w s = walk_on (walk_pages left) (step_cursor (left == 0) w s)

    unfoldable pub get_cursor_pages : CursorQuery → S → Fetch (Result (List R)) × S
    unfolding walk_pages
    get_cursor_pages q s = walked (walk_pages (max q.max_pages 1) (start_walk q) s)
