-- ===== src/Esi/Names/Named.antt =====
-- internal/adapter/esi/http/resolver.go, `Names`: every id that is asked for gets a name.
use eve_online_mcp.Prelude.{
  ℕ, ◌≡◌, refl, sym, ap, ◌∙◌, arith, String, Bool, true, false, ◌||◌, Option, List, [], ◌∷◌, ◌++◌,
  ◌==◌, ==_iff, length, any, find?, find?-holds, Bool-cases, Option-cases, inl, inr,
}
use eve_online_mcp.Esi.Names.{
  NameItem, NameCache, NameHit, has_id, get, move_to_front, unique_positive, fill_missing_names,
  add_unknown, fill_hit, names,
}

abbrev pub is_in : List ℕ → ℕ → Bool
is_in ids id = any (λ n. n == id) ids

abbrev pub is_named : List NameItem → ℕ → Bool
is_named out id = any (has_id id) out

empty-is_in : (ids : List ℕ) (id : ℕ) → (length ids == 0) ≡ true → is_in ids id ≡ false
empty-is_in [] id e = refl
empty-is_in (n ∷ ids) id e = ground (arith, e)

unique_positive-keeps :
    (seen ids : List ℕ) (id : ℕ)
    → (id == 0) ≡ false
    → is_in ids id ≡ true
    → (is_in seen id || is_in (unique_positive seen ids) id) ≡ true
unfolding unique_positive
unique_positive-keeps seen [] id positive h = ground (arith, h)
unique_positive-keeps seen (n ∷ ids) id positive h = ground (
  arith,
  h,
  positive,
  unique_positive-keeps seen ids id positive,
  unique_positive-keeps (n ∷ seen) ids id positive,
)

-- An id that was found or is missing.
abbrev was_met : NameHit → ℕ → Bool
was_met hit id = is_named hit.names id || is_in hit.missing id

is_in-append : (ids : List ℕ) (n id : ℕ) → is_in (ids ++ n ∷ []) id ≡ (is_in ids id || (n == id))
is_in-append [] n id = ground arith
is_in-append (m ∷ ids) n id = ground (arith, is_in-append ids n id)

get-was_met :
    (ids : List ℕ) (hit : NameHit) (c : NameCache) (id : ℕ)
    → (was_met hit id || is_in ids id) ≡ true
    → was_met (get ids hit c).0 id ≡ true
unfolding get
get-was_met [] hit c id h = ground (arith, h)
get-was_met (n ∷ ids) hit c id h = elim (Option-cases (find? (has_id n) c)) [
  | inl e ↦
      let rest =
        get-was_met ids (record hit { missing = hit.missing ++ n ∷ [] }) c id
          (ground (arith, h, is_in-append hit.missing n id)) in
      ground (arith, e, rest)
  | inr (i, e) ↦
      let same = find?-holds (has_id n) c e in
      let rest =
        get-was_met ids (record hit { names = i ∷ hit.names }) (move_to_front i c) id
          (ground (arith, h, same)) in
      ground (arith, e, rest)
]

module _ (bulk : List ℕ → Option (List NameItem)) (structure : ℕ → Option String)
    (unknown : ℕ → String) where
  add_unknown-named :
      (ids : List ℕ) (out : List NameItem) (id : ℕ)
      → (is_named out id || is_in ids id) ≡ true
      → is_named (add_unknown bulk structure unknown ids out) id ≡ true
  unfolding add_unknown
  add_unknown-named [] out id h = ground (arith, h)
  add_unknown-named (n ∷ ids) out id h = elim (Bool-cases (is_named out n)) [
    | inl named ↦
        let rest = add_unknown-named ids out id (elim (Bool-cases (n == id)) [
          | inl same ↦ ground (arith, ap (is_named out) (sym ((==_iff n id).0 same)) ∙ named)
          | inr other ↦ ground (arith, h, other)
        ]) in
        ground (arith, named, rest)
    | inr new ↦
        let rest =
          add_unknown-named ids (record { id = n; name = unknown n } ∷ out) id
            (ground (arith, h)) in
        ground (arith, new, rest)
  ]

  fill_hit-named :
      (as_character : Bool) (wanted : List ℕ) (hit : NameHit) (c : NameCache) (id : ℕ)
      → was_met hit id ≡ true
      → is_in wanted id ≡ true
      → is_named (fill_hit bulk structure unknown as_character wanted (hit, c)).0 id ≡ true
  unfolding fill_hit
  fill_hit-named as_character wanted hit c id met asked =
      elim (Bool-cases (length hit.missing == 0)) [
        | inl found ↦ ground (arith, found, met, empty-is_in hit.missing id found)
        | inr more ↦
            let out =
              (fill_missing_names bulk structure unknown as_character hit.missing
                (hit.names, c)).0 in
            ground (arith, more, add_unknown-named wanted out id (ground (arith, asked)))
      ]

  -- `Names` answers a name for every id that is asked for and is not 0, whatever the cache holds and
  -- whatever ESI answers.
  pub names-named :
      (as_character : Bool) (ids : List ℕ) (c : NameCache) (id : ℕ)
      → (id == 0) ≡ false
      → is_in ids id ≡ true
      → is_named (names bulk structure unknown as_character ids c).0 id ≡ true
  unfolding names
  names-named as_character ids c id positive asked =
      let wanted = unique_positive [] ids in
      let kept = unique_positive-keeps [] ids id positive asked in
      let start : NameHit = record { names = []; missing = [] } in
      let met = get-was_met wanted start c id (ground (arith, kept)) in
      let r = get wanted start c in
      let filled = fill_hit-named as_character wanted r.0 r.1 id met (ground (arith, kept)) in
      elim (Bool-cases (length wanted == 0)) [
        | inl empty ↦ ground (arith, empty, kept, empty-is_in wanted id empty)
        | inr some_ids ↦ ground (arith, some_ids, filled)
      ]
