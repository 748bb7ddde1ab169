-- ===== src/Eve/Locations.antt =====
-- internal/usecase/eve/common.go, `rootLocations`: the place that a chain of containers stands in.
pub mod Total
use eve_online_mcp.Prelude.{
  ℕ, zero, suc, Bool, true, false, Option, none, some, List, [], ◌∷◌, if◌then◌else◌, ◌==◌, any,
  length,
}

-- What is read of an asset. A field that is missing is 0.
pub record Item : Type 0 where
  pub item_id : ℕ
  pub location_id : ℕ

-- The map `byID`: the last item of an id.
unfoldable pub by_id : List Item → ℕ → Option Item
by_id [] id = none
by_id (i ∷ items) id = elim (by_id items id) [
  | some later ↦ some later
  | none ↦ if i.item_id == id then some i else none
]

-- The map `roots`, what was put last first.
abbrev pub Roots : Type 0
Roots = List (ℕ × ℕ)

unfoldable pub root_of : Roots → ℕ → Option ℕ
root_of [] id = none
root_of ((n, r) ∷ roots) id = if n == id then some r else root_of roots id

abbrev pub is_in : List ℕ → ℕ → Bool
is_in chain id = any (λ n. n == id) chain

-- One step of the inner loop: the end, or what goes on with the parent.
unfoldable pub step :
    (List ℕ → Item → Option (ℕ × List ℕ))
    → List ℕ
    → Item
    → Option ℕ
    → Option Item
    → Option (ℕ × List ℕ)
step again chain current (some r) parent = some (r, chain)
step again chain current none none = some (current.location_id, chain)
step again chain current none (some parent) =
    if is_in chain current.item_id
    then some (current.location_id, chain)
    else again (current.item_id ∷ chain) parent

-- The inner loop on fuel: the place that was found, and the chain.
unfoldable pub climb : ℕ → List Item → Roots → List ℕ → Item → Option (ℕ × List ℕ)
unfolding step
climb zero items roots chain current = none
climb (suc fuel) items roots chain current =
    step (climb fuel items roots) chain current (root_of roots current.item_id)
      (by_id items current.location_id)

unfoldable pub mark : List ℕ → ℕ → Roots → Roots
mark [] r roots = roots
mark (n ∷ chain) r roots = (n, r) ∷ mark chain r roots

unfoldable pub settle : (Roots → Option Roots) → Item → Roots → Option (ℕ × List ℕ) → Option Roots
unfolding mark
settle again i roots none = none
settle again i roots (some (r, chain)) = again ((i.item_id, r) ∷ mark chain r roots)

-- The outer loop. The fuel is one more than there are items.
unfoldable pub resolve_all : List Item → List Item → Roots → Option Roots
unfolding settle climb
resolve_all items [] roots = some roots
resolve_all items (i ∷ todo) roots =
    settle (resolve_all items todo) i roots (climb (suc (length items)) items roots [] i)

unfoldable pub root_locations : List Item → Option Roots
unfolding resolve_all
root_locations items = resolve_all items items []
