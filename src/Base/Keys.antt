-- ===== src/Base/Keys.antt =====
-- Lists of names as sets: membership, distinctness, and the sizes of subsets.
use Prim.Native.Nat.{suc, ◌≤◌}
use Prim.Native.String.{String}
use mathlib.Core.Path.{◌≡◌, refl, sym, ◌∙◌}
use mathlib.Core.Bool.{Bool, true, false, ◌||◌}
use mathlib.Core.List.{List, [], ◌∷◌, ◌++◌, append-nil}
use native.Mathlib.Omega.{arith}
use text.Mathlib.Text.{◌==◌}
use text.Mathlib.TextEquality.{eq_iff}
use harness_go.Base.Tests.{if◌then◌else◌}
use harness_go.Base.Lists.{length}
use harness_go.Base.Maps.{Dict, lookup, insert, insert_all, keys, is_some, or_else, lookup-insert}

-- whether `k` occurs in the list
unfoldable pub elem : String → List String → Bool
elem k [] = false
elem k (x ∷ xs) = x == k || elem k xs

-- no name occurs twice
abbrev pub Distinct : List String → Type 0
Distinct [] = Unit
Distinct (x ∷ xs) = (elem x xs ≡ false) × Distinct xs

-- every name of the first list occurs in the second
abbrev pub Subset : List String → List String → Type 0
Subset xs ys = (k : String) → elem k xs ≡ true → elem k ys ≡ true

without : String → List String → List String
without k [] = []
without k (x ∷ xs) = let rest = without k xs in if x == k then xs else x ∷ rest

length-without :
    (k : String) (xs : List String) → elem k xs ≡ true → suc (length (without k xs)) ≡ length xs
unfolding elem without
length-without k [] h = ground arith
length-without k (x ∷ xs) h = ground (arith, length-without k xs)

elem-without :
    (k j : String) (xs : List String)
    → (k == j) ≡ false
    → elem j xs ≡ true
    → elem j (without k xs) ≡ true
unfolding elem without
elem-without k j [] ne h = ground arith
elem-without k j (x ∷ xs) ne h =
    ground (arith, eq_iff x k, eq_iff x j, eq_iff k j, elem-without k j xs ne)

elem-ne :
    (k j : String) (xs : List String) → elem k xs ≡ false → elem j xs ≡ true → (k == j) ≡ false
elem-ne k j xs h m = ground (arith, eq_iff k j)

-- A list without repetition is no longer than a list that holds all its names.
pub length-le_of_Subset : (xs ys : List String) → Distinct xs → Subset xs ys → length xs ≤ length ys
length-le_of_Subset [] ys d s = omega arith
length-le_of_Subset (x ∷ xs) ys d s = omega (
  arith,
  length-le_of_Subset xs (without x ys) d.1
      (λ k m. elem-without x k ys (elem-ne x k xs d.0 m) (s k (tail_mem k m))),
  length-without x ys (s x head_mem),
)
  where
    tail_mem : (k : String) → elem k xs ≡ true → elem k (x ∷ xs) ≡ true
    tail_mem k m = unfold elem in ground (arith, m)

    head_mem : elem x (x ∷ xs) ≡ true
    head_mem = unfold elem in ground (arith, eq_iff x x)

module _ {ℓ} {V : Type ℓ} where
  pub elem-keys : (k : String) (m : Dict V) → elem k (keys m) ≡ is_some (lookup k m)
  unfolding elem keys lookup
  elem-keys k [] = refl
  elem-keys k ((j, v) ∷ m) = ground (arith, elem-keys k m)

  pub elem-keys-insert :
      (k j : String) (v : V) (m : Dict V)
      → elem j (keys (insert k v m)) ≡ (k == j || elem j (keys m))
  unfolding elem keys insert
  elem-keys-insert k j v [] = refl
  elem-keys-insert k j v ((i, w) ∷ m) =
      ground (arith, eq_iff i k, eq_iff i j, eq_iff k j, elem-keys-insert k j v m)

  pub Distinct-insert :
      (k : String) (v : V) (m : Dict V) → Distinct (keys m) → Distinct (keys (insert k v m))
  unfolding keys insert elem
  Distinct-insert k v [] d = ground arith
  Distinct-insert k v ((i, w) ∷ m) d =
      ground (arith, eq_iff i k, eq_iff k i, Distinct-insert k v m, elem-keys-insert k i v m)

  pub length-keys : (m : Dict V) → length (keys m) ≡ length m
  unfolding keys
  length-keys [] = refl
  length-keys ((i, w) ∷ m) = omega (arith, length-keys m)

pub elem-append : (k : String) (xs ys : List String) → elem k (xs ++ ys) ≡ (elem k xs || elem k ys)
unfolding elem
elem-append k [] ys = refl
elem-append k (x ∷ xs) ys = ground (arith, elem-append k xs ys)

-- A dictionary without repeated keys is rebuilt as it is by a loop that copies its entries.
module _ {ℓ} {V : Type ℓ} where
  append_assoc_one :
      (xs : Dict V) (e : String × V) (ys : Dict V) → (xs ++ e ∷ []) ++ ys ≡ xs ++ e ∷ ys
  append_assoc_one [] e ys = refl
  append_assoc_one (x ∷ xs) e ys = rw (append_assoc_one xs e ys)

  insert-fresh :
      (k : String) (v : V) (m : Dict V) → elem k (keys m) ≡ false → insert k v m ≡ m ++ (k, v) ∷ []
  unfolding insert keys elem
  insert-fresh k v [] h = refl
  insert-fresh k v ((i, w) ∷ m) h = ground (arith, insert-fresh k v m)

  keys-append : (m n : Dict V) → keys (m ++ n) ≡ keys m ++ keys n
  unfolding keys
  keys-append [] n = refl
  keys-append ((i, w) ∷ m) n = rw (keys-append m n)

  insert_all-append :
      (m done : Dict V)
      → Distinct (keys m)
      → ((k : String) → elem k (keys m) ≡ true → elem k (keys done) ≡ false)
      → insert_all m done ≡ done ++ m
  unfolding insert_all keys elem
  insert_all-append [] done d fresh = sym (append-nil done)
  insert_all-append ((k, v) ∷ m) done d fresh =
      rw (insert-fresh k v done (fresh k (ground (arith, eq_iff k k))))
        (insert_all-append m (done ++ (k, v) ∷ []) d.1 later ∙ append_assoc_one done (k, v) m)
    where
      later : (j : String) → elem j (keys m) ≡ true → elem j (keys (done ++ (k, v) ∷ [])) ≡ false
      later j h = rw (keys-append, elem-append) (ground (arith, fresh j, eq_iff k j, d.0))

  pub insert_all-nil : (m : Dict V) → Distinct (keys m) → insert_all m [] ≡ m
  unfolding keys elem
  insert_all-nil m d = insert_all-append m [] d (λ k h. refl)

  -- The entries of the copied dictionary win.
  pub lookup-insert_all :
      (k : String) (new m : Dict V)
      → Distinct (keys new)
      → lookup k (insert_all new m) ≡ or_else (lookup k new) (lookup k m)
  unfolding lookup insert_all keys
  lookup-insert_all k [] m d = refl
  lookup-insert_all k ((j, v) ∷ new) m d = ground (
    arith,
    lookup-insert_all k new (insert j v m) d.1,
    lookup-insert j k v m,
    d.0,
    elem-keys j new,
    eq_iff j k,
  )
