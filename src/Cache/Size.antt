-- ===== src/Cache/Size.antt =====
-- How many entries a cache holds (graphengine/pregel/cache.go).
use harness_go.Base.{
  ℕ, zero, suc, ◌≤◌, ◌<◌, String, ◌≡◌, refl, ap, subst, ◌∙◌, is_some, Bool, true, false, ◌||◌, ◌⊎◌,
  inl, inr, Option, none, some, List, [], ◌∷◌, arith, Dict, lookup, insert, remove, keys, elem,
  elem-keys, elem-keys-insert, length, ltb, leb, nat_beq, ◌==◌, eq_iff, if◌then◌else◌, Bool-cases,
  Option-cases,
}
use harness_go.Value.{Value, add_int}
use harness_go.Clock.{Duration}
use harness_go.Cache.{
  CacheEntry, EvictionPolicy, evict_lru, evict_lfu, evict_random, MemoryCache, new_memory_cache,
  least_recent, least_frequent, victim, evict, expired, new_entry, get, set, delete, clear,
}

module _ {ℓ} {V : Type ℓ} where
  length-insert : (k : String) (v : V) (m : Dict V) → length (insert k v m) ≤ suc (length m)
  unfolding insert
  length-insert k v [] = omega arith
  length-insert k v ((j, w) ∷ m) = ground (arith, length-insert k v m)

  length-insert_same :
      (k : String) (v : V) (m : Dict V) → elem k (keys m) ≡ true → length (insert k v m) ≡ length m
  unfolding insert elem keys
  length-insert_same k v [] h = ground arith
  length-insert_same k v ((j, w) ∷ m) h = ground (arith, length-insert_same k v m)

  length-remove_le : (k : String) (m : Dict V) → length (remove k m) ≤ length m
  unfolding remove
  length-remove_le k [] = omega arith
  length-remove_le k ((j, w) ∷ m) = ground (arith, length-remove_le k m)

  length-remove :
      (k : String) (m : Dict V) → elem k (keys m) ≡ true → length (remove k m) < length m
  unfolding remove elem keys
  length-remove k [] h = ground arith
  length-remove k ((j, w) ∷ m) h = ground (arith, length-remove_le k m, length-remove k m)

  elem-keys-remove :
      (k j : String) (m : Dict V) → elem j (keys m) ≡ false → elem j (keys (remove k m)) ≡ false
  unfolding remove elem keys
  elem-keys-remove k j [] h = refl
  elem-keys-remove k j ((i, w) ∷ m) h = ground (arith, elem-keys-remove k j m)

-- A loop ends with a key of the map, or with the one it was given.
abbrev OneOf : Dict CacheEntry → String → String → Type 0
OneOf m k x = (x ≡ k) ⊎ (elem x (keys m) ≡ true)

OneOf-take :
    (j : String) (e : CacheEntry) (m : Dict CacheEntry) (k x : String)
    → OneOf m j x
    → OneOf ((j, e) ∷ m) k x
unfolding elem keys
OneOf-take j e m k x (inl same) = inr (ground (arith, eq_iff j x))
OneOf-take j e m k x (inr there) = inr (ground arith)

OneOf-skip :
    (j : String) (e : CacheEntry) (m : Dict CacheEntry) (k x : String)
    → OneOf m k x
    → OneOf ((j, e) ∷ m) k x
unfolding elem keys
OneOf-skip j e m k x (inl same) = inl same
OneOf-skip j e m k x (inr there) = inr (ground arith)

OneOf-if :
    (b : Bool) (m : Dict CacheEntry) (k x y : String)
    → OneOf m k x
    → OneOf m k y
    → OneOf m k (if b then x else y)
OneOf-if true m k x y h g = h
OneOf-if false m k x y h g = g

least_recent-OneOf :
    (m : Dict CacheEntry) (oldest : ℕ) (k : String) → OneOf m k (least_recent m oldest k)
unfolding least_recent
least_recent-OneOf [] oldest k = inl refl
least_recent-OneOf ((j, e) ∷ m) oldest k =
    OneOf-if (nat_beq oldest 0 || ltb e.last_access oldest) ((j, e) ∷ m) k
      (least_recent m e.last_access j) (least_recent m oldest k)
      (OneOf-take j e m k (least_recent m e.last_access j) (least_recent-OneOf m e.last_access j))
      (OneOf-skip j e m k (least_recent m oldest k) (least_recent-OneOf m oldest k))

least_frequent-OneOf :
    (m : Dict CacheEntry) (least : Option ℕ) (k : String) → OneOf m k (least_frequent m least k)
unfolding least_frequent
least_frequent-OneOf [] least k = inl refl
least_frequent-OneOf ((j, e) ∷ m) none k =
    OneOf-take j e m k (least_frequent m (some e.hits) j) (least_frequent-OneOf m (some e.hits) j)
least_frequent-OneOf ((j, e) ∷ m) (some h) k =
    OneOf-if (ltb e.hits h) ((j, e) ∷ m) k (least_frequent m (some e.hits) j)
      (least_frequent m (some h) k)
      (OneOf-take j e m k (least_frequent m (some e.hits) j)
        (least_frequent-OneOf m (some e.hits) j))
      (OneOf-skip j e m k (least_frequent m (some h) k) (least_frequent-OneOf m (some h) k))

OneOf-first :
    (j : String) (e : CacheEntry) (m : Dict CacheEntry) (x : String)
    → OneOf m j x
    → elem x (keys ((j, e) ∷ m)) ≡ true
unfolding elem keys
OneOf-first j e m x (inl same) = ground (arith, eq_iff j x)
OneOf-first j e m x (inr there) = ground arith

-- Each policy chooses an entry, if there is one.
victim-key :
    (p : EvictionPolicy) (j : String) (e : CacheEntry) (m : Dict CacheEntry)
    → elem (victim p ((j, e) ∷ m)) (keys ((j, e) ∷ m)) ≡ true
unfolding least_recent least_frequent
victim-key evict_random j e m = OneOf-first j e m j (inl refl)
victim-key evict_lru j e m =
    OneOf-first j e m (least_recent m e.last_access j) (least_recent-OneOf m e.last_access j)
victim-key evict_lfu j e m =
    OneOf-first j e m (least_frequent m (some e.hits) j) (least_frequent-OneOf m (some e.hits) j)

-- no entry stands under the empty key
abbrev Named : Dict CacheEntry → Type 0
Named m = elem "" (keys m) ≡ false

elem-ne_empty :
    (k : String) (ks : List String) → elem k ks ≡ true → elem "" ks ≡ false → (k == "") ≡ false
unfolding elem
elem-ne_empty k ks h n = ground (arith, eq_iff k "")

victim_in :
    (p : EvictionPolicy) (m : Dict CacheEntry) → 1 ≤ length m → elem (victim p m) (keys m) ≡ true
victim_in p [] h = absurd (omega arith)
victim_in p ((j, e) ∷ m) h = victim-key p j e m

length-evict :
    (c : MemoryCache)
    → Named c.entries
    → 1 ≤ length c.entries
    → length (evict c).entries < length c.entries
unfolding evict
length-evict c n h =
    let there = victim_in c.eviction c.entries h in
    let named = elem-ne_empty (victim c.eviction c.entries) (keys c.entries) there n in
    rw named (length-remove (victim c.eviction c.entries) c.entries there)

evict-keeps :
    (c : MemoryCache)
    → Named c.entries
    → Named (evict c).entries
      × (length (evict c).entries ≤ length c.entries)
      × ((evict c).max_size ≡ c.max_size)
unfolding evict
evict-keeps c n = elim (Bool-cases (victim c.eviction c.entries == "")) [
  | inl absent ↦ rw absent (n, omega arith, refl)
  | inr there ↦ rw there (
    elem-keys-remove (victim c.eviction c.entries) "" c.entries n,
    length-remove_le (victim c.eviction c.entries) c.entries,
    refl,
  )
]

-- the entries that a cache of some size can hold: one at least
abbrev pub room : ℕ → ℕ
room zero = 1
room (suc n) = suc n

pub record IsBounded (c : MemoryCache) : Type 0 where
  named : Named c.entries
  few : length c.entries ≤ room c.max_size

Named-insert :
    (k : String) (e : CacheEntry) (m : Dict CacheEntry)
    → (k == "") ≡ false
    → Named m
    → Named (insert k e m)
Named-insert k e m ne n = rw (elem-keys-insert k "" e m, ne) n

insert-IsBounded :
    (c : MemoryCache) (k : String) (e : CacheEntry)
    → (k == "") ≡ false
    → Named c.entries
    → suc (length c.entries) ≤ room c.max_size
    → IsBounded (record c { entries = insert k e c.entries })
insert-IsBounded c k e ne n h = record {
  named = Named-insert k e c.entries ne n;
  few = omega (arith, length-insert k e c.entries);
}

le_room : (n : ℕ) → n ≤ room n
le_room zero = omega arith
le_room (suc n) = omega arith

zero_le_room : (n : ℕ) → 0 ≤ room n
zero_le_room n = omega arith

one_le_room : (n : ℕ) → 1 ≤ room n
one_le_room zero = omega arith
one_le_room (suc n) = omega arith

-- An eviction makes room for one entry.
evict_makes_room :
    (c : MemoryCache) → IsBounded c → suc (length (evict c).entries) ≤ room (evict c).max_size
evict_makes_room c h =
    let kept = evict-keeps c h.named in
    let some_room = one_le_room c.max_size in
    let same = ap room kept.2 in
    let few = h.few in
    elim (Bool-cases (nat_beq (length c.entries) 0)) [
      | inl none_left ↦
          let zero_left : length c.entries ≡ 0 = ground arith in let le = kept.1 in omega arith
      | inr more ↦
          let pos : 1 ≤ length c.entries = ground arith in
          let lt = length-evict c h.named pos in omega arith
    ]

set-IsBounded :
    (now : ℕ) (c : MemoryCache) (k : String) (v : Value) (ttl : Duration)
    → (k == "") ≡ false
    → IsBounded c
    → IsBounded (set now c k v ttl)
unfolding set
set-IsBounded now c k v ttl ne h = elim (Bool-cases (leb c.max_size (length c.entries))) [
  | inl full ↦ rw full (
      insert-IsBounded (evict c) k (new_entry now v ttl) ne (evict-keeps c h.named).0
        (evict_makes_room c h))
  | inr space ↦ rw space (insert-IsBounded c k (new_entry now v ttl) ne h.named (space_left space))
]
  where
    space_left :
        leb c.max_size (length c.entries) ≡ false → suc (length c.entries) ≤ room c.max_size
    space_left less = let le = le_room c.max_size in ground arith

get-IsBounded : (now : ℕ) (c : MemoryCache) (k : String) → IsBounded c → IsBounded (get now c k).0
unfolding get
get-IsBounded now c k h = elim (Option-cases (lookup k c.entries)) [
  | inl absent ↦ rw absent h
  | inr (e, there) ↦ rw there (elim (Bool-cases (expired now e)) [
    | inl past ↦ rw past h
    | inr live ↦ rw live (hit e there)
  ])
]
  where
    hit :
        (e : CacheEntry)
        → lookup k c.entries ≡ some e
        → IsBounded (record c {
          entries = insert k (record e { hits = add_int e.hits 1; last_access = now }) c.entries;
        })
    hit e there =
        let found : elem k (keys c.entries) ≡ true = elem-keys k c.entries ∙ ap is_some there in
        let touched = record e { hits = add_int e.hits 1; last_access = now } in
        record {
          named =
              Named-insert k touched c.entries (elem-ne_empty k (keys c.entries) found h.named)
                h.named;
          few = omega (arith, length-insert_same k touched c.entries found, h.few);
        }

delete-IsBounded : (c : MemoryCache) (k : String) → IsBounded c → IsBounded (delete c k)
unfolding delete
delete-IsBounded c k h = record {
  named = elem-keys-remove k "" c.entries h.named;
  few = omega (arith, length-remove_le k c.entries, h.few);
}

clear-IsBounded : (c : MemoryCache) → IsBounded (clear c)
unfolding clear elem keys
clear-IsBounded c = record { named = refl; few = zero_le_room c.max_size }

pub data Op : Type 0 where
  get_op : ℕ → String → Op
  set_op : ℕ → String → Value → Duration → Op
  delete_op : String → Op
  clear_op : Op

-- a run of calls
unfoldable pub run : List Op → MemoryCache → MemoryCache
unfolding get set delete clear
run [] c = c
run (get_op now k ∷ ops) c = run ops (get now c k).0
run (set_op now k v ttl ∷ ops) c = run ops (set now c k v ttl)
run (delete_op k ∷ ops) c = run ops (delete c k)
run (clear_op ∷ ops) c = run ops (clear c)

-- no call sets the empty key
abbrev pub SetsNames : List Op → Type 0
SetsNames [] = Unit
SetsNames (set_op now k v ttl ∷ ops) = ((k == "") ≡ false) × SetsNames ops
SetsNames (get_op now k ∷ ops) = SetsNames ops
SetsNames (delete_op k ∷ ops) = SetsNames ops
SetsNames (clear_op ∷ ops) = SetsNames ops

run-IsBounded :
    (ops : List Op) (c : MemoryCache) → SetsNames ops → IsBounded c → IsBounded (run ops c)
unfolding run
run-IsBounded [] c n h = h
run-IsBounded (get_op now k ∷ ops) c n h =
    run-IsBounded ops (get now c k).0 n (get-IsBounded now c k h)
run-IsBounded (set_op now k v ttl ∷ ops) c n h =
    run-IsBounded ops (set now c k v ttl) n.1 (set-IsBounded now c k v ttl n.0 h)
run-IsBounded (delete_op k ∷ ops) c n h = run-IsBounded ops (delete c k) n (delete-IsBounded c k h)
run-IsBounded (clear_op ∷ ops) c n h = run-IsBounded ops (clear c) n (clear-IsBounded c)

new-IsBounded : (max_size : ℕ) (p : EvictionPolicy) → IsBounded (new_memory_cache max_size p)
unfolding new_memory_cache elem keys
new-IsBounded max_size p = record { named = refl; few = zero_le_room max_size }

max_size-evict : (c : MemoryCache) → (evict c).max_size ≡ c.max_size
unfolding evict
max_size-evict c = ground arith

max_size-get : (now : ℕ) (c : MemoryCache) (k : String) → (get now c k).0.max_size ≡ c.max_size
unfolding get
max_size-get now c k = ground arith

max_size-set :
    (now : ℕ) (c : MemoryCache) (k : String) (v : Value) (ttl : Duration)
    → (set now c k v ttl).max_size ≡ c.max_size
unfolding set
max_size-set now c k v ttl = elim (Bool-cases (leb c.max_size (length c.entries))) [
  | inl full ↦ rw full (max_size-evict c)
  | inr space ↦ rw space refl
]

max_size-run : (ops : List Op) (c : MemoryCache) → (run ops c).max_size ≡ c.max_size
unfolding run delete clear
max_size-run [] c = refl
max_size-run (get_op now k ∷ ops) c = max_size-run ops (get now c k).0 ∙ max_size-get now c k
max_size-run (set_op now k v ttl ∷ ops) c =
    max_size-run ops (set now c k v ttl) ∙ max_size-set now c k v ttl
max_size-run (delete_op k ∷ ops) c = max_size-run ops (delete c k)
max_size-run (clear_op ∷ ops) c = max_size-run ops (clear c)

-- After any run of calls on a new cache, none of which sets the empty key, the cache holds at most
-- as many entries as its size allows, and one if its size is 0, whatever the policy.
pub length-run :
    (max_size : ℕ) (p : EvictionPolicy) (ops : List Op)
    → SetsNames ops
    → length (run ops (new_memory_cache max_size p)).entries ≤ room max_size
unfolding new_memory_cache
length-run max_size p ops n =
    subst (λ size. length (run ops (new_memory_cache max_size p)).entries ≤ room size)
      (max_size-run ops (new_memory_cache max_size p))
      (IsBounded.few (run-IsBounded ops (new_memory_cache max_size p) n (new-IsBounded max_size p)))
