-- ===== src/Eve/Paging/All.antt =====
-- internal/usecase/eve/common.go, `pageByOffset`: a reader who follows the offsets sees every row.
use eve_online_mcp.Prelude.{
  ℕ, zero, suc, ◌+◌, ◌-◌, ◌≤◌, ◌<◌, ◌≡◌, refl, sym, ap, ◌∙◌, min, arith, true, false, Option, none,
  some, List, [], ◌∷◌, ◌++◌, ltb, length, take, Bool-cases, inl, inr,
}
use eve_online_mcp.Eve.Paging.{
  Hint, pass_offset, limit_or, limit_default, drop, FoldedPage, page_by_offset,
}

-- The offset that a page names, if it names one.
abbrev pub offset_of : Option Hint → Option ℕ
offset_of (some (pass_offset offset limit)) = some offset
offset_of _ = none

later : (m n : ℕ) → suc (m + n) ≡ suc m + n
later m n = omega arith

module _ {R : Type 0} where
  take-drop : (n : ℕ) (xs : List R) → take n xs ++ drop n xs ≡ xs
  unfolding drop
  take-drop zero xs = refl
  take-drop (suc n) [] = refl
  take-drop (suc n) (x ∷ xs) = ap (λ l. x ∷ l) (take-drop n xs)

  drop-nil : (n : ℕ) → drop {A = R} n [] ≡ []
  unfolding drop
  drop-nil zero = refl
  drop-nil (suc n) = refl

  drop-drop : (m n : ℕ) (xs : List R) → drop n (drop m xs) ≡ drop (m + n) xs
  unfolding drop
  drop-drop zero n xs = ap (λ k. drop k xs) (omega arith)
  drop-drop (suc m) n [] = drop-nil n ∙ sym (drop-nil (suc m + n))
  drop-drop (suc m) n (x ∷ xs) = drop-drop m n xs ∙ ap (λ k. drop k (x ∷ xs)) (later m n)

  length-drop : (n : ℕ) (xs : List R) → length (drop n xs) ≡ length xs - n
  unfolding drop
  length-drop zero xs = omega arith
  length-drop (suc n) [] = omega arith
  length-drop (suc n) (x ∷ xs) = omega (arith, length-drop n xs)

  -- A reader who asks for the page at the offset that the last page named, so many times at most.
  pub read_on : ℕ → (ℕ → FoldedPage R) → ℕ → List R
  read_on zero page offset = []
  read_on (suc fuel) page offset = elim (offset_of (page offset).more) [
    | none ↦ (page offset).rows
    | some next ↦ (page offset).rows ++ read_on fuel page next
  ]

  read_on-next :
      (fuel : ℕ) (page : ℕ → FoldedPage R) (offset next : ℕ)
      → offset_of (page offset).more ≡ some next
      → read_on (suc fuel) page offset ≡ (page offset).rows ++ read_on fuel page next
  unfolding read_on
  read_on-next fuel page offset next e = ground (arith, e)

  read_on-last :
      (fuel : ℕ) (page : ℕ → FoldedPage R) (offset : ℕ)
      → offset_of (page offset).more ≡ none
      → read_on (suc fuel) page offset ≡ (page offset).rows
  unfolding read_on
  read_on-last fuel page offset e = ground (arith, e)

  page-cut :
      (rows : List R) (limit offset : ℕ)
      → offset ≤ length rows
      → ltb (limit_or limit limit_default) (length (drop offset rows)) ≡ true
      → (let p = page_by_offset rows offset limit none in
          (p.rows ≡ take (limit_or limit limit_default) (drop offset rows))
          × (offset_of p.more ≡ some (offset + limit_or limit limit_default)))
  unfolding page_by_offset
  page-cut rows limit offset inside cut =
      let here : min offset (length rows) ≡ offset = omega (arith, inside) in
      rw (here, cut) (refl, refl)

  page-whole :
      (rows : List R) (limit offset : ℕ)
      → offset ≤ length rows
      → ltb (limit_or limit limit_default) (length (drop offset rows)) ≡ false
      → (let p = page_by_offset rows offset limit none in
          (p.rows ≡ drop offset rows) × (offset_of p.more ≡ none))
  unfolding page_by_offset
  page-whole rows limit offset inside whole =
      let here : min offset (length rows) ≡ offset = omega (arith, inside) in
      rw (here, whole) (refl, refl)

  read_on-drop :
      (fuel : ℕ) (rows : List R) (limit offset : ℕ)
      → offset ≤ length rows
      → length rows < fuel + offset
      → read_on fuel (λ o. page_by_offset rows o limit none) offset ≡ drop offset rows
  read_on-drop zero rows limit offset inside enough = ground (arith, inside, enough)
  read_on-drop (suc fuel) rows limit offset inside enough =
      let page : ℕ → FoldedPage R = λ o. page_by_offset rows o limit none in
      let n = limit_or limit limit_default in
      let some_rows : 0 < n = ground arith in
      elim (Bool-cases (ltb n (length (drop offset rows)))) [
        | inl cut ↦
            let long : n < length rows - offset = ground (arith, cut, length-drop offset rows) in
            let (shown, next) = page-cut rows limit offset inside cut in
            let rest =
              read_on-drop fuel rows limit (offset + n) (omega (arith, long))
                (omega (arith, some_rows, enough)) in
            read_on-next fuel page offset (offset + n) next
            ∙ ap (λ l. l ++ read_on fuel page (offset + n)) shown
            ∙ ap (λ l. take n (drop offset rows) ++ l) (rest ∙ sym (drop-drop offset n rows))
            ∙ take-drop n (drop offset rows)
        | inr whole ↦
            let (shown, none_left) = page-whole rows limit offset inside whole in
            read_on-last fuel page offset none_left ∙ shown
      ]

  -- A reader who starts at the first row and follows the offsets that `pageByOffset` names, with
  -- whatever limit, sees every row once and in order, after at most as many pages as there are rows,
  -- and one.
  pub page_by_offset-all :
      (rows : List R) (limit : ℕ)
      → read_on (suc (length rows)) (λ o. page_by_offset rows o limit none) 0 ≡ rows
  unfolding drop
  page_by_offset-all rows limit =
      read_on-drop (suc (length rows)) rows limit 0 (omega arith) (omega arith)
