-- ===== src/Base/Order.antt =====
-- The order of names by which results are sorted: Go compares strings byte by byte.
use Prim.Native.Char.{Char, code}
use Prim.Native.String.compare
use Prim.Native.String.{String, [], ◌∷◌, compare, then}
use Prim.Native.Nat.{ℕ, Ordering, compare as compare_ℕ}
use mathlib.Core.Path.{◌≡◌, refl, sym, subst}
use mathlib.Core.Logic.{◌⊎◌, inl, inr}
use mathlib.Core.Bool.{Bool, true, false}
use native.Mathlib.Omega.{arith}
use text.Mathlib.TextEquality.{path_by_compare}

abbrev pub before : String → String → Bool
before a b = elim (compare a b) [ Ordering.gt ↦ false | _ ↦ true ]

compare-cons :
    (c d : Char) (s t : String)
    → compare (c ∷ s) (d ∷ t) ≡ then (compare_ℕ (code c) (code d)) (compare s t)
compare-cons c d s t = λ i. compare.cons-cons c d s t i

compare-nil_cons : (d : Char) (t : String) → compare [] (d ∷ t) ≡ Ordering.lt
compare-nil_cons d t = λ i. compare.nil-cons d t i

compare-cons_nil : (d : Char) (t : String) → compare (d ∷ t) [] ≡ Ordering.gt
compare-cons_nil d t = λ i. compare.cons-nil d t i

compare-nil_nil : compare [] [] ≡ Ordering.eq
compare-nil_nil = λ i. compare.nil-nil i

then_trans :
    (a b c : ℕ) (x y z : Ordering)
    → (x ≡ Ordering.lt → y ≡ Ordering.lt → z ≡ Ordering.lt)
    → then (compare_ℕ a b) x ≡ Ordering.lt
    → then (compare_ℕ b c) y ≡ Ordering.lt
    → then (compare_ℕ a c) z ≡ Ordering.lt
then_trans a b c x y z f h k = ground (arith, f)

lt_trans :
    (s t u : String)
    → compare s t ≡ Ordering.lt
    → compare t u ≡ Ordering.lt
    → compare s u ≡ Ordering.lt
lt_trans [] [] u h k = k
lt_trans [] (d ∷ t) [] h k = ground (arith, compare-cons_nil d t)
lt_trans [] (d ∷ t) (e ∷ u) h k = compare-nil_cons e u
lt_trans (c ∷ s) [] u h k = ground (arith, compare-cons_nil c s)
lt_trans (c ∷ s) (d ∷ t) [] h k = ground (arith, compare-cons_nil d t)
lt_trans (c ∷ s) (d ∷ t) (e ∷ u) h k = rw (compare-cons c e s u) (
    then_trans (code c) (code d) (code e) (compare s t) (compare t u) (compare s u) (lt_trans s t u)
      (rw (compare-cons c d s t) at h) (rw (compare-cons d e t u) at k))

opposite : Ordering → Ordering
opposite Ordering.lt = Ordering.gt
opposite Ordering.eq = Ordering.eq
opposite Ordering.gt = Ordering.lt

then-opposite :
    (a b : ℕ) (x y : Ordering)
    → y ≡ opposite x
    → then (compare_ℕ b a) y ≡ opposite (then (compare_ℕ a b) x)
unfolding opposite
then-opposite a b x y h = ground arith

compare-opposite : (s t : String) → compare t s ≡ opposite (compare s t)
unfolding opposite
compare-opposite [] [] = rw compare-nil_nil refl
compare-opposite [] (d ∷ t) = rw (compare-nil_cons d t, compare-cons_nil d t) refl
compare-opposite (c ∷ s) [] = rw (compare-nil_cons c s, compare-cons_nil c s) refl
compare-opposite (c ∷ s) (d ∷ t) =
    rw (compare-cons d c t s, compare-cons c d s t)
      (then-opposite (code c) (code d) (compare s t) (compare t s) (compare-opposite s t))

Ordering-cases : (o : Ordering) → (o ≡ Ordering.lt) ⊎ ((o ≡ Ordering.eq) ⊎ (o ≡ Ordering.gt))
Ordering-cases Ordering.lt = inl refl
Ordering-cases Ordering.eq = inr (inl refl)
Ordering-cases Ordering.gt = inr (inr refl)

-- A name is strictly before another when that one is not before it or equal to it.
pub lt-before : (a b : String) → before b a ≡ false → compare a b ≡ Ordering.lt
unfolding opposite
lt-before a b h = ground (arith, compare-opposite a b)

pub before-lt : (a b : String) → compare a b ≡ Ordering.lt → before b a ≡ false
unfolding opposite
before-lt a b h = ground (arith, compare-opposite a b)

-- one of two names comes before the other
pub before_total : (a b : String) → before a b ≡ false → before b a ≡ true
unfolding opposite
before_total a b h = ground (arith, compare-opposite a b)

-- and only one, if they are not the same
pub before_antisym : (a b : String) → before a b ≡ true → before b a ≡ true → a ≡ b
unfolding opposite
before_antisym a b h k = elim (Ordering-cases (compare a b)) [
  | inl less ↦ absurd (ground (arith, compare-opposite a b))
  | inr (inl same) ↦ path_by_compare a b same
  | inr (inr more) ↦ absurd (ground arith)
]

pub before_trans : (a b c : String) → before a b ≡ true → before b c ≡ true → before a c ≡ true
before_trans a b c h k = elim (Ordering-cases (compare a b)) [
  | inl less ↦ elim (Ordering-cases (compare b c)) [
    | inl also ↦ rw (before, lt_trans a b c less also) refl
    | inr (inl same) ↦ subst (λ x. before a x ≡ true) (path_by_compare b c same) h
    | inr (inr more) ↦ absurd (ground arith)
  ]
  | inr (inl same) ↦ subst (λ x. before x c ≡ true) (sym (path_by_compare a b same)) k
  | inr (inr more) ↦ absurd (ground arith)
]
