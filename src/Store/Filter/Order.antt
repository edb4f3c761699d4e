-- ===== src/Store/Filter/Order.antt =====
-- The comparisons of a filter, on ints and on strings (graphengine/store/memory.go, compare).
use harness_go.Base.{
  ℕ, ◌<◌, ◌≤◌, ◌↔◌, ◌⊎◌, some_inj, ap, String, ◌≡◌, ◌≢◌, refl, true, false, not, none, some, arith,
  nat_beq, Bool-cases, inl, inr, eq_iff, ◌==◌,
}
use Prim.Native.String.{compare}
use Prim.Native.Nat.{Ordering}
use harness_go.Base.Order.{before, before_total, before_antisym, lt-before, before-lt}
use harness_go.Value.{Value, int, str}
use harness_go.Store.Filter.{
  Comparisons, biased, int_less, text_less, equal, less_than, greater_than, or_equal, negated,
  compare_by,
}

biased-inj :
    (a b : ℕ) → a < 18446744073709551616 → b < 18446744073709551616 → biased a ≡ biased b → a ≡ b
biased-inj a b h k e = omega arith

int_total :
    (a b : ℕ)
    → a < 18446744073709551616
    → b < 18446744073709551616
    → or_equal (int_less b a) (some (nat_beq a b)) ≡ some (not (int_less a b))
int_total a b h k = ground (arith, biased-inj a b h k)

int_total_up :
    (a b : ℕ)
    → a < 18446744073709551616
    → b < 18446744073709551616
    → or_equal (int_less a b) (some (nat_beq a b)) ≡ some (not (int_less b a))
int_total_up a b h k = ground (arith, biased-inj a b h k)

text_total : (a b : String) → or_equal (text_less b a) (some (a == b)) ≡ some (not (text_less a b))
text_total a b = elim (Bool-cases (before a b)) [
  | inr later ↦ rw (later, before_total a b later) refl
  | inl first ↦ elim (Bool-cases (before b a)) [
    | inl same ↦
        let equal_names = before_antisym a b first same in
        let shown : (a == b) ≡ true = ground (arith, eq_iff a b, equal_names) in
        rw (first, same, shown) refl
    | inr differ ↦
        let apart : (a == b) ≡ false = unequal first differ in rw (first, differ, apart) refl
  ]
]
  where
    unequal : before a b ≡ true → before b a ≡ false → (a == b) ≡ false
    unequal first differ = elim (Bool-cases (a == b)) [
      | inl e ↦ let path = (eq_iff a b).0 e in absurd (cc)
      | inr n ↦ n
    ]

-- two ints of 64 bits, or two strings
pub data Ordered : Value → Value → Type 0 where
  ints : (a b : ℕ) → a < 18446744073709551616 → b < 18446744073709551616 → Ordered (int a) (int b)
  texts : (a b : String) → Ordered (str a) (str b)

-- The order of the ints that two patterns of 64 bits hold: those from 2 ^ 63 on are negative.
abbrev pub IntLess : ℕ → ℕ → Type 0
IntLess a b =
    ((a < b) × (b < 9223372036854775808))
    ⊎ (((9223372036854775808 ≤ a) × (b < 9223372036854775808))
        ⊎ ((9223372036854775808 ≤ a) × (a < b)))

-- the order of ints, and that of strings
abbrev pub Less : Value → Value → Type 0
Less (int a) (int b) = IntLess a b
Less (str a) (str b) = compare a b ≡ Ordering.lt
Less _ _ = ⊥

int_less_iff :
    (a b : ℕ)
    → a < 18446744073709551616
    → b < 18446744073709551616
    → (some (int_less a b) ≡ some true) ↔ IntLess a b
int_less_iff a b h k =
    (λ e. let t = some_inj e in ground (arith, t), λ l. ap some (ground (arith, l)))

text_less_iff : (a b : String) → (some (text_less a b) ≡ some true) ↔ (compare a b ≡ Ordering.lt)
text_less_iff a b = (
  λ e. lt-before a b (let t = some_inj e in ground (arith, t)),
  λ l. let t = before-lt a b l in rw t refl,
)

int_equal_iff : (a b : ℕ) → (some (nat_beq a b) ≡ some true) ↔ (int a ≡ int b)
int_equal_iff a b = (
  λ e. let t = some_inj e in let same : a ≡ b = ground (arith, t) in ap int same,
  λ l.
      let same : a ≡ b = ap (λ v. elim v [ int n ↦ n | _ ↦ a ]) l in ap some (ground (arith, same)),
)

text_equal_iff : (a b : String) → (some (a == b) ≡ some true) ↔ (str a ≡ str b)
text_equal_iff a b = (
  λ e. ap str ((eq_iff a b).0 (some_inj e)),
  λ l. ap some ((eq_iff a b).1 (ap (λ v. elim v [ str t ↦ t | _ ↦ a ]) l)),
)

-- On two ints or two strings a filter follows their order, that of the signed ints and that of the
-- strings: "$lt" answers whether the first is less, "$gt" whether the second is, and "$eq" whether they
-- are the same; "$gte" answers the opposite of "$lt" and "$lte" the opposite of "$gt".
pub compare_by_order :
    (c : Comparisons) (a b : Value)
    → Ordered a b
    → ((compare_by c a "$lt" b ≡ some true) ↔ Less a b)
      × ((compare_by c a "$gt" b ≡ some true) ↔ Less b a)
      × ((compare_by c a "$eq" b ≡ some true) ↔ (a ≡ b))
      × (compare_by c a "$gte" b ≡ negated (compare_by c a "$lt" b))
      × (compare_by c a "$lte" b ≡ negated (compare_by c a "$gt" b))
      × (compare_by c a "$lt" b ≢ none)
      × (compare_by c a "$gt" b ≢ none)
unfolding compare_by equal less_than greater_than
compare_by_order c a b (ints x y h k) = (
  int_less_iff x y h k,
  int_less_iff y x k h,
  int_equal_iff x y,
  int_total x y h k,
  int_total_up x y h k,
  λ e. cc,
  λ e. cc,
)
compare_by_order c a b (texts x y) =
    let flipped : (x == y) ≡ (y == x) = ground (arith, eq_iff x y, eq_iff y x) in
    (
      text_less_iff x y,
      text_less_iff y x,
      text_equal_iff x y,
      text_total x y,
      rw flipped (text_total y x),
      λ e. cc,
      λ e. cc,
    )
