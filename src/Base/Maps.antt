-- ===== src/Base/Maps.antt =====
-- Go's `map[string]V` as an association list. A `range` loop visits the entries in list order,
-- which stands for the order that the runtime happens to choose.
use Prim.Native.String.{String}
use mathlib.Core.Path.{◌≡◌, refl}
use mathlib.Core.Bool.{Bool, true, false}
use mathlib.Core.Option.{Option, none, some}
use mathlib.Core.List.{List, [], ◌∷◌}
use native.Mathlib.Omega.{arith}
use text.Mathlib.Text.{◌==◌}
use text.Mathlib.TextEquality.{eq_iff}
use text.Mathlib.TextPositions.{eq_refl}
use harness_go.Base.Tests.{if◌then◌else◌}

abbrev pub Dict {ℓ} : Type ℓ → Type ℓ
Dict V = List (String × V)

abbrev pub is_some {ℓ} : {A : Type ℓ} → Option A → Bool
is_some none = false
is_some (some a) = true

abbrev pub get_or {ℓ} : {A : Type ℓ} → Option A → A → A
get_or none d = d
get_or (some a) d = a

abbrev pub or_else {ℓ} : {A : Type ℓ} → Option A → Option A → Option A
or_else none b = b
or_else (some a) b = some a

module _ {ℓ} {V : Type ℓ} where
  -- `v, ok := m[k]`
  unfoldable pub lookup : String → Dict V → Option V
  lookup name [] = none
  lookup name ((key, here) ∷ rest) = if key == name then some here else lookup name rest

  -- `m[k] = v`
  unfoldable pub insert : String → V → Dict V → Dict V
  insert name new [] = (name, new) ∷ []
  insert name new ((key, old) ∷ rest) =
      if key == name then (key, new) ∷ rest else (key, old) ∷ insert name new rest

  -- `delete(m, k)`
  unfoldable pub remove : String → Dict V → Dict V
  remove k [] = []
  remove k ((j, v) ∷ m) = let rest = remove k m in if j == k then rest else (j, v) ∷ rest

  -- the keys, in the order of the entries
  unfoldable pub keys : Dict V → List String
  keys [] = []
  keys ((j, v) ∷ m) = j ∷ keys m

  -- `for k, v := range new { m[k] = v }`
  unfoldable pub insert_all : Dict V → Dict V → Dict V
  insert_all [] m = m
  insert_all ((k, v) ∷ new) m = insert_all new (insert k v m)

  -- after `m[set] = v`, a read of `key`
  pub lookup-insert :
      (set key : String) (v : V) (m : Dict V)
      → lookup key (insert set v m) ≡ (if set == key then some v else lookup key m)
  unfolding lookup insert
  lookup-insert set key v [] = refl
  lookup-insert set key v ((first, w) ∷ rest) =
      ground
        (arith, lookup-insert set key v rest, eq_iff first key, eq_iff first set, eq_iff set key)

  pub lookup-remove :
      (k j : String) (m : Dict V) → lookup j (remove k m) ≡ (if k == j then none else lookup j m)
  unfolding lookup remove
  lookup-remove k j [] = ground arith
  lookup-remove k j ((i, w) ∷ m) =
      ground (arith, eq_iff k j, eq_iff i k, eq_iff i j, lookup-remove k j m)

  pub lookup-insert_self : (k : String) (v : V) (m : Dict V) → lookup k (insert k v m) ≡ some v
  lookup-insert_self k v m = simp (lookup-insert, eq_refl)

  -- Writing what is there already changes nothing.
  pub insert-same : (k : String) (v : V) (m : Dict V) → lookup k m ≡ some v → insert k v m ≡ m
  unfolding lookup insert
  insert-same k v [] h = ground arith
  insert-same k v ((j, w) ∷ m) h = ground (arith, insert-same k v m, eq_iff j k)
