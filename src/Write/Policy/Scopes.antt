-- ===== src/Write/Policy/Scopes.antt =====
-- What a grant has to hold: `MissingScopes` of write/policy.go.

use mathlib.Core.Logic.{◌↔◌}
use eve_online_mcp.Prelude.{
  ◌≡◌, refl, ◌∙◌, String, true, false, not, ◌&&◌, ◌||◌, List, [], ◌∷◌, arith, contains,
  insert_sorted, sort, eq_iff, str_eq,
}
use eve_online_mcp.Write.Policy.{requested_scopes, not_granted, missing_scopes}

contains-insert_sorted :
    (x s : String) (ts : List String)
    → contains (insert_sorted x ts) s ≡ (str_eq x s || contains ts s)
unfolding contains insert_sorted
contains-insert_sorted x s [] = refl
contains-insert_sorted x s (t ∷ ts) = ground (arith, contains-insert_sorted x s ts)

contains-sort : (s : String) (ts : List String) → contains (sort ts) s ≡ contains ts s
unfolding contains sort
contains-sort s [] = refl
contains-sort s (t ∷ ts) = ground (arith, contains-insert_sorted t s (sort ts), contains-sort s ts)

contains-not_granted :
    (granted scopes : List String) (s : String)
    → contains (not_granted granted scopes) s ≡ (contains scopes s && not (contains granted s))
unfolding contains not_granted
contains-not_granted granted [] s = refl
contains-not_granted granted (t ∷ scopes) s =
    ground (arith, contains-not_granted granted scopes s, eq_iff t s)

-- A scope is missing exactly when it is requested and was not granted.
pub contains-missing_scopes :
    (granted : List String) (s : String)
    → contains (missing_scopes granted) s
      ≡ (contains requested_scopes s && not (contains granted s))
unfolding missing_scopes
contains-missing_scopes granted s =
    contains-sort s (not_granted granted requested_scopes)
    ∙ contains-not_granted granted requested_scopes s

nil_of_contains : (ts : List String) → ((s : String) → contains ts s ≡ false) → ts ≡ []
unfolding contains
nil_of_contains [] h = refl
nil_of_contains (t ∷ ts) h = ground (arith, h t, eq_iff t t)

-- Nothing is missing exactly when every requested scope was granted.
pub missing_scopes-nil_iff :
    (granted : List String)
    → (missing_scopes granted ≡ [])
      ↔ ((s : String) → contains requested_scopes s ≡ true → contains granted s ≡ true)
unfolding contains
missing_scopes-nil_iff granted = (
  λ e s h. ground (arith, contains-missing_scopes granted s),
  λ h.
      nil_of_contains (missing_scopes granted)
        (λ s. ground (arith, contains-missing_scopes granted s, h s)),
)
