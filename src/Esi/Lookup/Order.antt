-- ===== src/Esi/Lookup/Order.antt =====
-- internal/adapter/esi/http/resolver.go, `lessNameMatch`: a strict order of the matches.
use Prim.Native.Char.{code}
use Prim.Native.String.{compare, then}
use Prim.Native.String.compare as compare_text
use text.Mathlib.TextEquality.{codes_equal}
use eve_online_mcp.Prelude.{
  ℕ, ◌≡◌, ◌∙◌, refl, ap, String, Bool, true, false, ◌&&◌, ◌||◌, arith, ltb, ◌==◌, inl, inr,
  Bool-cases, eq_iff,
}
use eve_online_mcp.Esi.Lookup.{NameMatch, text_less, less}

abbrev is_lt : Prim.Native.Nat.Ordering → Bool
is_lt o = elim o [ Prim.Native.Nat.Ordering.lt ↦ true | _ ↦ false ]

then-lt :
    (m n : ℕ) (o : Prim.Native.Nat.Ordering)
    → is_lt (then (Prim.Native.Nat.compare m n) o) ≡ (ltb m n || ((m == n) && is_lt o))
then-lt m n o = ground arith

text_less-cons :
    (s t : String)
    → (c d : Prim.Native.Char.Char)
    → text_less (String.◌∷◌ c s) (String.◌∷◌ d t)
      ≡ (ltb (code c) (code d) || ((code c == code d) && text_less s t))
unfolding text_less
text_less-cons s t c d =
    ap is_lt (compare_text.cons-cons c d s t) ∙ then-lt (code c) (code d) (compare s t)

text_less-nil : (t : String) → text_less t "" ≡ false
unfolding text_less
text_less-nil String.[] = refl
text_less-nil (String.◌∷◌ c t) = ap is_lt (compare_text.cons-nil c t)

text_less-nil_cons : (c : Prim.Native.Char.Char) (t : String) → text_less "" (String.◌∷◌ c t) ≡ true
unfolding text_less
text_less-nil_cons c t = ap is_lt (compare_text.nil-cons c t)

text_less-asym : (s t : String) → text_less s t ≡ true → text_less t s ≡ false
text_less-asym String.[] t h = text_less-nil t
text_less-asym s String.[] h = ground (arith, text_less-nil s)
text_less-asym (String.◌∷◌ c s) (String.◌∷◌ d t) h =
    ground (arith, text_less-cons s t c d, text_less-cons t s d c, text_less-asym s t)

text_less_trans :
    (s t u : String) → text_less s t ≡ false → text_less t u ≡ false → text_less s u ≡ false
text_less_trans s t String.[] h k = text_less-nil s
text_less_trans s String.[] (String.◌∷◌ c u) h k = ground (arith, text_less-nil_cons c u)
text_less_trans String.[] (String.◌∷◌ c t) (String.◌∷◌ d u) h k =
    ground (arith, text_less-nil_cons c t)
text_less_trans (String.◌∷◌ c s) (String.◌∷◌ d t) (String.◌∷◌ e u) h k = ground (
  arith,
  text_less-cons s t c d,
  text_less-cons t u d e,
  text_less-cons s u c e,
  text_less_trans s t u,
)

same_code :
    (c d : Prim.Native.Char.Char)
    → ltb (code c) (code d) ≡ false
    → ltb (code d) (code c) ≡ false
    → c ≡ d
same_code c d h k = codes_equal c d (ground (arith, h, k))

text_less-antisym : (s t : String) → text_less s t ≡ false → text_less t s ≡ false → s ≡ t
text_less-antisym String.[] String.[] h k = refl
text_less-antisym String.[] (String.◌∷◌ c t) h k = ground (arith, text_less-nil_cons c t)
text_less-antisym (String.◌∷◌ c s) String.[] h k = ground (arith, text_less-nil_cons c s)
text_less-antisym (String.◌∷◌ c s) (String.◌∷◌ d t) h k =
    let p =
      same_code c d (ground (arith, text_less-cons s t c d))
        (ground (arith, text_less-cons t s d c)) in
    let q =
      text_less-antisym s t (ground (arith, text_less-cons s t c d, p))
        (ground (arith, text_less-cons t s d c, p)) in
    λ i. String.◌∷◌ (p i) (q i)

module _ (rank : String → ℕ) where
  pub less-asym : (a b : NameMatch) → less rank a b ≡ true → less rank b a ≡ false
  unfolding less
  less-asym a b h = ground (
    arith,
    eq_iff a.category b.category,
    eq_iff b.category a.category,
    text_less-asym a.category b.category,
  )

  pub less_trans :
      (a b c : NameMatch) → less rank a b ≡ false → less rank b c ≡ false → less rank a c ≡ false
  unfolding less
  less_trans a b c h k = ground (
    arith,
    eq_iff a.category b.category,
    eq_iff b.category c.category,
    eq_iff a.category c.category,
    text_less-asym a.category b.category,
    text_less-asym b.category c.category,
    text_less_trans a.category b.category c.category,
    text_less-antisym a.category b.category,
    text_less-antisym b.category c.category,
  )

  pub irreflexive : (a : NameMatch) → less rank a a ≡ false
  irreflexive a = elim (Bool-cases (less rank a a)) [ inl e ↦ less-asym a a e | inr e ↦ e ]
