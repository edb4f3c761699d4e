-- ===== src/Channels/Barrier/Sets.antt =====
-- The sets of names of a barrier: what `names_match_seen` decides, and what the loop of Update
-- adds (graphengine/channels/barrier.go).
use harness_go.Base.{
  String, ◌≡◌, refl, ◌↔◌, Bool, true, ◌||◌, Option, none, some, List, [], ◌∷◌, arith, eq_iff, inl,
  inr, Bool-cases, Dict, is_some, lookup, insert, keys, elem, Distinct, Subset, elem-keys,
  elem-keys-insert, Distinct-insert, length-keys, length-le_of_Subset, if◌then◌else◌, lookup-insert,
}
use harness_go.Value.{Value, as_str}
use harness_go.Errors.{Result}
use harness_go.Channels.Barrier.{flag, all_seen, name_set, names_match_seen, receive, receive_name}

-- The set of seen names of a barrier that waits for `names`: no name twice, only awaited names,
-- and only the flag `true`, which is all that the code ever stores.
pub record IsSeenSet (names seen : Dict Bool) : Type 0 where
  pub distinct : Distinct (keys seen)
  pub awaited : Subset (keys seen) (keys names)
  pub set : (k : String) → is_some (lookup k seen) ≡ flag seen k

all_seen-flag :
    (names seen : Dict Bool) (k : String)
    → all_seen names seen ≡ true
    → elem k (keys names) ≡ true
    → flag seen k ≡ true
unfolding all_seen keys elem
all_seen-flag [] seen k h m = ground arith
all_seen-flag ((j, b) ∷ names) seen k h m = ground (arith, eq_iff j k, all_seen-flag names seen k)

flag-all_seen :
    (names seen : Dict Bool)
    → ((k : String) → elem k (keys names) ≡ true → flag seen k ≡ true)
    → all_seen names seen ≡ true
unfolding all_seen keys elem
flag-all_seen [] seen h = refl
flag-all_seen ((j, b) ∷ names) seen h =
    ground (arith, h j, eq_iff j j, flag-all_seen names seen (λ k m. h k (ground arith)))

module _ (names seen : Dict Bool) (distinct : Distinct (keys names))
    (v : IsSeenSet names seen) where
  match-Subset : names_match_seen names seen ≡ true → Subset (keys names) (keys seen)
  unfolding names_match_seen
  match-Subset h k m = ground (arith, elem-keys k seen, v.set k, all_seen-flag names seen k)

  Subset-match : Subset (keys names) (keys seen) → names_match_seen names seen ≡ true
  unfolding names_match_seen
  Subset-match s = ground (
    arith,
    flag-all_seen names seen (λ k m. flag_of_elem k (s k m)),
    length-keys names,
    length-keys seen,
    length-le_of_Subset (keys names) (keys seen) distinct s,
    length-le_of_Subset (keys seen) (keys names) v.distinct v.awaited,
  )
    where
      flag_of_elem : (k : String) → elem k (keys seen) ≡ true → flag seen k ≡ true
      flag_of_elem k m = ground (arith, elem-keys k seen, v.set k)

  -- The barrier's test, which compares sizes first, holds exactly when all names have been seen.
  pub match_iff : (names_match_seen names seen ≡ true) ↔ Subset (keys names) (keys seen)
  match_iff = (match-Subset, Subset-match)

-- The names that a batch of values adds: those in front of the first fault.
abbrev pub accepted_one : Dict Bool → Option String → List String → List String
accepted_one names none rest = []
accepted_one names (some k) rest = if is_some (lookup k names) then k ∷ rest else []

abbrev pub accepted : Dict Bool → List Value → List String
accepted names [] = []
accepted names (v ∷ vs) = accepted_one names (as_str v) (accepted names vs)

-- Marking an awaited name as seen keeps the set well formed.
insert-IsSeenSet :
    (names seen : Dict Bool) (k : String)
    → is_some (lookup k names) ≡ true
    → IsSeenSet names seen
    → IsSeenSet names (insert k true seen)
unfolding flag
insert-IsSeenSet names seen k h v = record {
  distinct = Distinct-insert k true seen v.distinct;
  awaited = λ j m.
      ground (arith, elem-keys-insert k j true seen, elem-keys k names, eq_iff k j, v.awaited j);
  set = λ j. ground (arith, lookup-insert k j true seen, v.set j);
}

receive_name-IsSeenSet :
    (names : Dict Bool) (o : Option String) (rest : Dict Bool → Bool → Dict Bool × Result Bool)
    (keep : (s : Dict Bool) (u : Bool) → IsSeenSet names s → IsSeenSet names (rest s u).0)
    (seen : Dict Bool) (updated : Bool)
    → IsSeenSet names seen
    → IsSeenSet names (receive_name names o rest seen updated).0
unfolding receive_name
receive_name-IsSeenSet names none rest keep seen updated v = v
receive_name-IsSeenSet names (some k) rest keep seen updated v =
    elim (Bool-cases (is_some (lookup k names))) [
      | inl known ↦ elim (Bool-cases (flag seen k)) [
        | inl old ↦ rw (known, old) (keep seen updated v)
        | inr new ↦
            rw (known, new) (keep (insert k true seen) true (insert-IsSeenSet names seen k known v))
      ]
      | inr unknown ↦ rw unknown v
    ]

-- Whatever the values, also on an error: the set stays well formed.
pub receive-IsSeenSet :
    (names : Dict Bool) (vs : List Value) (seen : Dict Bool) (updated : Bool)
    → IsSeenSet names seen
    → IsSeenSet names (receive names vs seen updated).0
unfolding receive
receive-IsSeenSet names [] seen updated v = v
receive-IsSeenSet names (w ∷ vs) seen updated v =
    receive_name-IsSeenSet names (as_str w) (λ s u. receive names vs s u)
      (λ s u. receive-IsSeenSet names vs s u) seen updated v

receive_name-keys :
    (names : Dict Bool) (o : Option String) (rest : Dict Bool → Bool → Dict Bool × Result Bool)
    (later : List String) (k : String)
    (ih : (s : Dict Bool) (u : Bool)
      → IsSeenSet names s
      → elem k (keys (rest s u).0) ≡ (elem k (keys s) || elem k later))
    (seen : Dict Bool) (updated : Bool)
    → IsSeenSet names seen
    → elem k (keys (receive_name names o rest seen updated).0)
      ≡ (elem k (keys seen) || elem k (accepted_one names o later))
unfolding receive_name elem
receive_name-keys names none rest later k ih seen updated v = ground arith
receive_name-keys names (some j) rest later k ih seen updated v =
    elim (Bool-cases (is_some (lookup j names))) [
      | inl known ↦ elim (Bool-cases (flag seen j)) [
        | inl old ↦
            rw (known, old)
              (ground (arith, ih seen updated v, elem-keys j seen, v.set j, eq_iff j k))
        | inr new ↦
            rw (known, new)
              (ground (
                arith,
                ih (insert j true seen) true (insert-IsSeenSet names seen j known v),
                elem-keys-insert j k true seen,
              ))
      ]
      | inr unknown ↦ rw unknown (ground arith)
    ]

-- Exactly the names in front of the first fault are added, also on an error.
pub receive-keys :
    (names : Dict Bool) (vs : List Value) (seen : Dict Bool) (updated : Bool) (k : String)
    → IsSeenSet names seen
    → elem k (keys (receive names vs seen updated).0)
      ≡ (elem k (keys seen) || elem k (accepted names vs))
unfolding receive elem
receive-keys names [] seen updated k v = ground arith
receive-keys names (w ∷ vs) seen updated k v =
    receive_name-keys names (as_str w) (λ s u. receive names vs s u) (accepted names vs) k
      (λ s u. receive-keys names vs s u k) seen updated v

-- The constructor's loop over the awaited names builds a set of exactly those.
pub name_set-keys :
    (wait_for : List String) (m : Dict Bool) (k : String)
    → elem k (keys (name_set wait_for m)) ≡ (elem k (keys m) || elem k wait_for)
unfolding name_set elem
name_set-keys [] m k = ground arith
name_set-keys (j ∷ wait_for) m k =
    ground (arith, name_set-keys wait_for (insert j true m) k, elem-keys-insert j k true m)

pub name_set-Distinct :
    (wait_for : List String) (m : Dict Bool)
    → Distinct (keys m)
    → Distinct (keys (name_set wait_for m))
unfolding name_set
name_set-Distinct [] m d = d
name_set-Distinct (j ∷ wait_for) m d =
    name_set-Distinct wait_for (insert j true m) (Distinct-insert j true m d)
