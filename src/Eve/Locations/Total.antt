-- ===== src/Eve/Locations/Total.antt =====
-- internal/usecase/eve/common.go, `rootLocations`: it ends, on containers that hold each other too.
use eve_online_mcp.Prelude.{
  ℕ, zero, suc, ◌≤◌, ◌<◌, ◌≡◌, refl, sym, ap, ◌∙◌, subst, arith, Bool, true, false, not, Option,
  none, some, List, [], ◌∷◌, length, count, In, Bool-cases, Option-cases, inl, inr, ==_iff,
}
use eve_online_mcp.Eve.Locations.{
  Item, by_id, Roots, root_of, is_in, step, climb, mark, settle, resolve_all, root_locations,
}

-- The items that are off the chain.
abbrev free : List ℕ → List Item → ℕ
free chain items = count (λ i. not (is_in chain i.item_id)) items

free-le : (n : ℕ) (chain : List ℕ) (items : List Item) → free (n ∷ chain) items ≤ free chain items
free-le n chain [] = omega arith
free-le n chain (i ∷ items) = ground (arith, free-le n chain items)

free-less :
    (chain : List ℕ) (a : Item) (items : List Item)
    → In a items
    → is_in chain a.item_id ≡ false
    → free (a.item_id ∷ chain) items < free chain items
free-less chain a (i ∷ items) (inl e) new =
    let off : is_in chain i.item_id ≡ false = ap (λ x. is_in chain x.item_id) (sym e) ∙ new in
    let same : a.item_id ≡ i.item_id = ap (λ x. x.item_id) e in
    ground (arith, free-le a.item_id chain items, off, same)
free-less chain a (i ∷ items) (inr h) new = ground (arith, free-less chain a items h new)
free-less chain a [] h new = elim h [ ]

free-all : (items : List Item) → free [] items ≡ length items
free-all [] = refl
free-all (i ∷ items) = ground (arith, free-all items)

by_id-In : (items : List Item) (id : ℕ) (p : Item) → by_id items id ≡ some p → In p items
unfolding by_id
by_id-In [] id p h = ground (arith, h)
by_id-In (i ∷ items) id p h = elim (Option-cases (by_id items id)) [
  | inl e ↦ inl (ground (arith, h, e))
  | inr (q, e) ↦ inr (by_id-In items id p (ground (arith, h, e)))
]

-- A climb that ended.
abbrev Ends : Option (ℕ × List ℕ) → Type 0
Ends o = (p : ℕ × List ℕ) × (o ≡ some p)

step-Ends :
    (again : List ℕ → Item → Option (ℕ × List ℕ)) (chain : List ℕ) (current : Item)
    (root : Option ℕ) (parent : Option Item)
    → ((p : Item)
        → parent ≡ some p
        → is_in chain current.item_id ≡ false
        → Ends (again (current.item_id ∷ chain) p))
    → Ends (step again chain current root parent)
unfolding step
step-Ends again chain current (some r) parent later = ((r, chain), refl)
step-Ends again chain current none none later = ((current.location_id, chain), refl)
step-Ends again chain current none (some p) later =
    elim (Bool-cases (is_in chain current.item_id)) [
      | inl loop ↦ ((current.location_id, chain), rw loop refl)
      | inr new ↦ let (end, e) = later p refl new in (end, rw new e)
    ]

climb-Ends :
    (fuel : ℕ) (items : List Item) (roots : Roots) (chain : List ℕ) (current : Item)
    → In current items
    → free chain items < fuel
    → Ends (climb fuel items roots chain current)
unfolding climb
climb-Ends zero items roots chain current here enough = ground (arith, enough)
climb-Ends (suc fuel) items roots chain current here enough =
    step-Ends (climb fuel items roots) chain current (root_of roots current.item_id)
      (by_id items current.location_id)
      (λ p found new.
        climb-Ends fuel items roots (current.item_id ∷ chain) p
          (by_id-In items current.location_id p found)
          (omega (arith, free-less chain current items here new, enough)))

abbrev pub has_root : Roots → Item → Bool
has_root roots i = elim (root_of roots i.item_id) [ none ↦ false | some r ↦ true ]

mark-has_root :
    (chain : List ℕ) (r : ℕ) (roots : Roots) (i : Item)
    → has_root roots i ≡ true
    → has_root (mark chain r roots) i ≡ true
unfolding mark root_of
mark-has_root [] r roots i h = h
mark-has_root (n ∷ chain) r roots i h = ground (arith, mark-has_root chain r roots i h)

cons-has_root :
    (n r : ℕ) (roots : Roots) (i : Item)
    → has_root roots i ≡ true
    → has_root ((n, r) ∷ roots) i ≡ true
unfolding root_of
cons-has_root n r roots i h = ground (arith, h)

new-has_root : (r : ℕ) (roots : Roots) (i : Item) → has_root ((i.item_id, r) ∷ roots) i ≡ true
unfolding root_of
new-has_root r roots i = ground (arith, (==_iff i.item_id i.item_id).1 refl)

-- Roots for the items of a list, and for those that had one.
abbrev Resolves : Roots → List Item → Option Roots → Type 0
Resolves roots todo o =
    (all : Roots) × ((o ≡ some all)
      × (((i : Item) → has_root roots i ≡ true → has_root all i ≡ true)
          × ((i : Item) → In i todo → has_root all i ≡ true)))

resolve_all-Resolves :
    (items todo : List Item) (roots : Roots)
    → ((i : Item) → In i todo → In i items)
    → Resolves roots todo (resolve_all items todo roots)
unfolding resolve_all settle
resolve_all-Resolves items [] roots within = (roots, (refl, ((λ i h. h), λ i h. elim h [ ])))
resolve_all-Resolves items (i ∷ todo) roots within =
    let (p, e) =
      climb-Ends (suc (length items)) items roots [] i (within i (inl refl))
        (omega (arith, free-all items)) in
    let next : Roots = (i.item_id, p.0) ∷ mark p.1 p.0 roots in
    let (all, (same, (kept, got))) =
      resolve_all-Resolves items todo next (λ j h. within j (inr h)) in
    (
      all,
      (
        ap (λ o. settle (resolve_all items todo) i roots o) e ∙ same,
        (
          (λ j h. kept j (
              cons-has_root i.item_id p.0 (mark p.1 p.0 roots) j
                (mark-has_root p.1 p.0 roots j h))),
          λ j h. elim h [
            | inl this ↦ kept j (
                subst (λ x. has_root next x ≡ true) (sym this)
                  (new-has_root p.0 (mark p.1 p.0 roots) i))
            | inr rest ↦ got j rest
          ],
        ),
      ),
    )

-- `rootLocations` ends on any items, those that hold each other in a circle included: no inner loop
-- takes more steps than there are items, and one. It has a place for each of the items.
pub root_locations-total :
    (items : List Item)
    → (roots : Roots) × ((root_locations items ≡ some roots)
        × ((i : Item) → In i items → has_root roots i ≡ true))
unfolding root_locations
root_locations-total items =
    let (all, (same, (kept, got))) = resolve_all-Resolves items items [] (λ i h. h) in
    (all, (same, got))
