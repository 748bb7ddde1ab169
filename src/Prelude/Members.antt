-- ===== src/Prelude/Members.antt =====
-- Members of a list, and what selecting, sorting and mapping do to them.
use Prim.Native.Nat.{ℕ, zero, suc}
use mathlib.Core.Path.{◌≡◌, refl, sym, ap, ◌∙◌}
use mathlib.Core.Logic.{◌⊎◌, inl, inr}
use mathlib.Core.Bool.{Bool, true, false}
use mathlib.Core.List.{List, [], ◌∷◌, map}
use native.Mathlib.Omega.{arith}
use eve_online_mcp.Prelude.Tests.{leb, Bool-cases}
use eve_online_mcp.Prelude.Lists.{filter, any, remove_if, take, insert_by, sort_by}

module _ {A : Type 0} where
  abbrev pub In : A → List A → Type 0
  In a [] = ⊥
  In a (x ∷ xs) = (a ≡ x) ⊎ In a xs

  -- Rows that the key takes for the same are the same.
  abbrev pub Keyed : (A → A → Bool) → List A → Type 0
  Keyed same xs = (a b : A) → In a xs → In b xs → same a b ≡ true → a ≡ b

  pub In-any : (p : A → Bool) (xs : List A) → any p xs ≡ true → (a : A) × (In a xs × (p a ≡ true))
  In-any p [] h = ground (arith, h)
  In-any p (x ∷ xs) h = elim (Bool-cases (p x)) [
    | inl held ↦ (x, (inl refl, held))
    | inr unmet ↦ let (a, (i, e)) = In-any p xs (ground (arith, h, unmet)) in (a, (inr i, e))
  ]

  pub In-filter : (q : A → Bool) (a : A) (xs : List A) → In a (filter q xs) → In a xs
  In-filter q a [] h = h
  In-filter q a (x ∷ xs) h = elim (Bool-cases (q x)) [
    | inl held ↦ elim (rw held at h) [ inl e ↦ inl e | inr i ↦ inr (In-filter q a xs i) ]
    | inr unmet ↦ inr (In-filter q a xs (rw unmet at h))
  ]

  pub In-remove_if :
      (p : A → Bool) (a : A) (xs : List A) → In a xs → p a ≡ false → In a (remove_if p xs)
  In-remove_if p a [] h unmet = h
  In-remove_if p a (x ∷ xs) (inl e) unmet = rw (ap p (sym e) ∙ unmet) (inl e)
  In-remove_if p a (x ∷ xs) (inr i) unmet = elim (Bool-cases (p x)) [
    | inl held ↦ rw held (In-remove_if p a xs i unmet)
    | inr other ↦ rw other (inr (In-remove_if p a xs i unmet))
  ]

  pub In-take : (n : ℕ) (a : A) (xs : List A) → In a (take n xs) → In a xs
  In-take zero a xs h = elim h [ ]
  In-take (suc n) a [] h = h
  In-take (suc n) a (x ∷ xs) (inl e) = inl e
  In-take (suc n) a (x ∷ xs) (inr i) = inr (In-take n a xs i)

  pub In-insert_by :
      (key : A → ℕ) (a x : A) (xs : List A) → In a (insert_by key x xs) → (a ≡ x) ⊎ In a xs
  unfolding insert_by
  In-insert_by key a x [] h = h
  In-insert_by key a x (y ∷ ys) h = elim (Bool-cases (leb (key x) (key y))) [
    | inl before ↦ rw before at h
    | inr after ↦ elim (rw after at h) [
      | inl e ↦ inr (inl e)
      | inr i ↦ elim (In-insert_by key a x ys i) [ inl e ↦ inl e | inr j ↦ inr (inr j) ]
    ]
  ]

  pub In-sort_by : (key : A → ℕ) (a : A) (xs : List A) → In a (sort_by key xs) → In a xs
  unfolding sort_by
  In-sort_by key a [] h = h
  In-sort_by key a (x ∷ xs) h = elim (In-insert_by key a x (sort_by key xs) h) [
    | inl e ↦ inl e
    | inr i ↦ inr (In-sort_by key a xs i)
  ]

  pub In-map : (f : A → A) (a : A) (xs : List A) → In a xs → In (f a) (map f xs)
  In-map f a (x ∷ xs) (inl e) = inl (ap f e)
  In-map f a (x ∷ xs) (inr i) = inr (In-map f a xs i)
  In-map f a [] h = elim h [ ]
