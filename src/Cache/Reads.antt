-- ===== src/Cache/Reads.antt =====
-- What is read from a MemoryCache, and the two implementations of the interface Cache
-- (graphengine/pregel/cache.go).
use harness_go.Base.{
  ℕ, zero, suc, String, ◌≡◌, refl, sym, subst, Bool, true, not, Option, none, some, List, [], ◌∷◌,
  arith, Dict, lookup, insert, remove, map, All, length, leb, ◌==◌, eq_iff, lookup-insert_self,
  if◌then◌else◌, Bool-cases, Option-cases, inl, inr,
}
use harness_go.Value.{Value, add_int}
use harness_go.Errors.{Result}
use harness_go.Clock.{Duration, pos, negsuc, is_positive, add_time}
use harness_go.Cache.{
  CacheEntry, EvictionPolicy, MemoryCache, new_memory_cache, victim, evict, expired, get, set,
  delete, clear, new_entry,
}
use harness_go.Cache.Executor.{Cache, CachePolicy, cache_key, Call, execute_all, execute_all-map}

abbrev pub Holding : (String → Value → Type 0) → Dict CacheEntry → Type 0
Holding P = All (λ p. P p.0 p.1.value)

Holding-insert :
    (P : String → Value → Type 0) (k : String) (e : CacheEntry) (m : Dict CacheEntry)
    → Holding P m
    → P k e.value
    → Holding P (insert k e m)
unfolding insert
Holding-insert P k e [] h p = (p, tt)
Holding-insert P k e ((j, x) ∷ m) h p = elim (Bool-cases (j == k)) [
  | inl same ↦ rw same (subst (λ n. P n e.value) (sym ((eq_iff j k).0 same)) p, h.1)
  | inr other ↦ rw other (h.0, Holding-insert P k e m h.1 p)
]

Holding-remove :
    (P : String → Value → Type 0) (k : String) (m : Dict CacheEntry)
    → Holding P m
    → Holding P (remove k m)
unfolding remove
Holding-remove P k [] h = tt
Holding-remove P k ((j, x) ∷ m) h = elim (Bool-cases (j == k)) [
  | inl same ↦ rw same (Holding-remove P k m h.1)
  | inr other ↦ rw other (h.0, Holding-remove P k m h.1)
]

Holding-lookup :
    (P : String → Value → Type 0) (k : String) (e : CacheEntry) (m : Dict CacheEntry)
    → Holding P m
    → lookup k m ≡ some e
    → P k e.value
unfolding lookup
Holding-lookup P k e [] h l = cc
Holding-lookup P k e ((j, x) ∷ m) h l = elim (Bool-cases (j == k)) [
  | inl same ↦
      let here : some x ≡ some e = rw same at l in
      let it : x ≡ e = cc in
      let n = (eq_iff j k).0 same in subst (λ y. P k y.value) it (subst (λ i. P i x.value) n h.0)
  | inr other ↦ Holding-lookup P k e m h.1 (rw other at l)
]

pub get-Holding :
    (P : String → Value → Type 0) (now : ℕ) (c : MemoryCache) (k : String)
    → Holding P c.entries
    → Holding P (get now c k).0.entries × ((v : Value) → (get now c k).1 ≡ some v → P k v)
unfolding get
get-Holding P now c k h = elim (Option-cases (lookup k c.entries)) [
  | inl absent ↦ rw absent (h, λ v e. cc)
  | inr (e, there) ↦ rw there (elim (Bool-cases (expired now e)) [
    | inl past ↦ rw past (h, λ v g. cc)
    | inr live ↦
        let held = Holding-lookup P k e c.entries h there in
        rw live (
          Holding-insert P k (record e { hits = add_int e.hits 1; last_access = now }) c.entries h
              held,
          λ v g. let same : e.value ≡ v = cc in subst (λ y. P k y) same held,
        )
  ])
]

evict-Holding :
    (P : String → Value → Type 0) (c : MemoryCache)
    → Holding P c.entries
    → Holding P (evict c).entries
unfolding evict
evict-Holding P c h = elim (Bool-cases (victim c.eviction c.entries == "")) [
  | inl absent ↦ rw absent h
  | inr there ↦ rw there (Holding-remove P (victim c.eviction c.entries) c.entries h)
]

pub set-Holding :
    (P : String → Value → Type 0) (now : ℕ) (c : MemoryCache) (k : String) (v : Value)
    (ttl : Duration)
    → Holding P c.entries
    → P k v
    → Holding P (set now c k v ttl).entries
unfolding set
set-Holding P now c k v ttl h p = elim (Bool-cases (leb c.max_size (length c.entries))) [
  | inl full ↦
      rw full (Holding-insert P k (new_entry now v ttl) (evict c).entries (evict-Holding P c h) p)
  | inr space ↦ rw space (Holding-insert P k (new_entry now v ttl) c.entries h p)
]

abbrev pub memory_cache : Cache MemoryCache
memory_cache = record {
  find = get;
  store = set;
  forget = delete;
  wipe = clear;
  Each = λ P c. Holding P c.entries;
  find_keeps = λ P now c k h. (get-Holding P now c k h).0;
  find_gives = λ P now c k v h e. (get-Holding P now c k h).1 v e;
  store_keeps = λ P now c k v ttl h p. set-Holding P now c k v ttl h p;
}

pub nothing_found : (P : String → Value → Type 0) (k : String) (v : Value) → none ≡ some v → P k v
nothing_found P k v h = cc

-- NoopCache, which has no state
abbrev pub noop_cache : Cache Unit
noop_cache = record {
  find = λ now s k. (s, none);
  store = λ now s k v ttl. s;
  forget = λ s k. s;
  wipe = λ s. s;
  Each = λ P s. Unit;
  find_keeps = λ P now s k h. tt;
  find_gives = λ P now s k v h e. nothing_found P k v e;
  store_keeps = λ P now s k v ttl h p. tt;
}

-- Behind a new memory cache of any size and policy, the calls answer what the functions answer, if
-- two calls with the same key have the same answer.
pub execute_all_transparent :
    (max_size : ℕ) (eviction : EvictionPolicy) (policy : Option CachePolicy) (hash : Value → String)
    (fn : String → Value → Result Value) (calls : List Call)
    → ((n m : String) (x y : Value)
        → cache_key policy hash n x ≡ cache_key policy hash m y
        → fn n x ≡ fn m y)
    → execute_all memory_cache policy hash fn calls (new_memory_cache max_size eviction)
      ≡ map (λ c. fn c.node_name c.input) calls
unfolding new_memory_cache
execute_all_transparent max_size eviction policy hash fn calls same_key =
    execute_all-map memory_cache policy hash fn same_key calls (new_memory_cache max_size eviction)
      tt

-- whether a time to live, counted from a time, covers another
abbrev pub covers : ℕ → Duration → ℕ → Bool
covers now ttl t = if is_positive ttl then leb t (add_time now ttl) else true

expired-covers :
    (now t : ℕ) (v : Value) (ttl : Duration)
    → expired t (new_entry now v ttl) ≡ not (covers now ttl t)
expired-covers now t v (pos zero) = refl
expired-covers now t v (pos (suc d)) = ground arith
expired-covers now t v (negsuc d) = refl

lookup-set :
    (now : ℕ) (c : MemoryCache) (k : String) (v : Value) (ttl : Duration)
    → lookup k (set now c k v ttl).entries ≡ some (new_entry now v ttl)
unfolding set
lookup-set now c k v ttl = elim (Bool-cases (leb c.max_size (length c.entries))) [
  | inl full ↦ rw full (lookup-insert_self k (new_entry now v ttl) (evict c).entries)
  | inr space ↦ rw space (lookup-insert_self k (new_entry now v ttl) c.entries)
]

-- A value that is set is found until its time to live has passed, or for ever if that is not
-- positive, also in a full cache.
pub get-set :
    (now t : ℕ) (c : MemoryCache) (k : String) (v : Value) (ttl : Duration)
    → (get t (set now c k v ttl) k).1 ≡ (if covers now ttl t then some v else none)
unfolding get
get-set now t c k v ttl = rw (lookup-set now c k v ttl, expired-covers now t v ttl) (ground arith)
