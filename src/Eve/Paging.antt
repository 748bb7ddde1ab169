-- ===== src/Eve/Paging.antt =====
-- internal/usecase/eve/common.go: a list of rows is shown a page at a time, with what a caller needs
-- to ask for the next one. A number that may be negative is 0 where it is, since it counts as 0.
pub mod All
use eve_online_mcp.Prelude.{
  ℕ, zero, suc, ◌+◌, ◌-◌, min, String, Bool, true, false, ◌&&◌, Option, none, some, List, [], ◌∷◌,
  if◌then◌else◌, ltb, leb, ◌==◌, length, take,
}

abbrev pub limit_default : ℕ
limit_default = 15

abbrev pub esi_cursor_page : ℕ
esi_cursor_page = 50

abbrev pub limit_or : ℕ → ℕ → ℕ
limit_or v default = if v == 0 then default else v

abbrev pub page_or : ℕ → ℕ
page_or n = if ltb n 1 then 1 else n

-- How the reader is told to see more: as the tool says, by a greater limit, or by an offset.
pub data Hint : Type 0 where
  given : String → Hint
  raise_limit : ℕ → Hint
  pass_offset : ℕ → ℕ → Hint

abbrev pub hint_or : Option String → Hint → Hint
hint_or none default = default
hint_or (some text) default = given text

unfoldable pub drop : {A : Type 0} → ℕ → List A → List A
drop zero xs = xs
drop (suc n) [] = []
drop (suc n) (x ∷ xs) = drop n xs

unfoldable pub last : {A : Type 0} → List A → Option A
last [] = none
last (x ∷ []) = some x
last (x ∷ y ∷ xs) = last (y ∷ xs)

-- limitedPage with its fields. `total` and `more` are there when rows were left out.
pub record LimitedPage (R : Type 0) : Type 0 where
  pub rows : List R
  pub returned : ℕ
  pub truncated : Bool
  pub total : Option ℕ
  pub more : Option Hint

pub record FoldedPage (R : Type 0) : Type 0 where
  pub rows : List R
  pub returned : ℕ
  pub truncated : Bool
  pub total : ℕ
  pub more : Option Hint

pub record CursorPage (R : Type 0) : Type 0 where
  pub page : LimitedPage R
  pub next_cursor : ℕ

pub record NumberedPage (R : Type 0) : Type 0 where
  pub limited : LimitedPage R
  pub page : ℕ
  pub total_pages : ℕ

module _ {R : Type 0} where
  unfoldable pub apply_limit : List R → ℕ → Option String → LimitedPage R
  apply_limit rows limit hint =
      let limit = limit_or limit limit_default in
      if leb (length rows) limit
      then record {
        rows = rows;
        returned = length rows;
        truncated = false;
        total = none;
        more = none;
      }
      else record {
        rows = take limit rows;
        returned = limit;
        truncated = true;
        total = some (length rows);
        more = some (hint_or hint (raise_limit limit));
      }

  abbrev pub key_or_zero : (R → ℕ) → Option R → ℕ
  key_or_zero key none = 0
  key_or_zero key (some r) = key r

  -- `key` reads the number that the cursor goes by; `esi` is the page that ESI gave.
  unfoldable pub next_cursor : (R → ℕ) → List R → ℕ → List R → ℕ
  unfolding last
  next_cursor key shown limit esi =
      if (length shown == limit_or limit limit_default) && ltb 0 (length shown)
      then key_or_zero key (last shown)
      else if leb esi_cursor_page (length esi) && ltb 0 (length esi)
      then key_or_zero key (last esi)
      else 0

  unfoldable pub page_by_cursor : (R → ℕ) → List R → ℕ → Option String → List R → CursorPage R
  unfolding apply_limit next_cursor
  page_by_cursor key shown limit hint esi =
      let clipped = apply_limit shown limit hint in
      record { page = clipped; next_cursor = next_cursor key clipped.rows limit esi }

  unfoldable pub page_by_number : List R → ℕ → ℕ → ℕ → NumberedPage R
  unfolding apply_limit
  page_by_number rows page total_pages limit = record {
    limited = apply_limit rows limit none;
    page = page_or page;
    total_pages = page_or total_pages;
  }

  unfoldable pub page_by_offset : List R → ℕ → ℕ → Option String → FoldedPage R
  unfolding drop
  page_by_offset rows offset limit hint =
      let total = length rows in
      let offset = min offset total in
      let limit = limit_or limit limit_default in
      let rest = drop offset rows in
      if ltb limit (length rest)
      then record {
        rows = take limit rest;
        returned = limit;
        truncated = true;
        total = total;
        more = some (hint_or hint (pass_offset (offset + limit) limit));
      }
      else record {
        rows = rest;
        returned = length rest;
        truncated = false;
        total = total;
        more = none;
      }
