-- ===== src/Cache.antt =====
-- graphengine/pregel/cache.go: MemoryCache, and CachedExecutor over it. The lock is left out, and
-- the key that is made from a hash of the JSON text of the input is a parameter.
pub mod Size
pub mod Reads
pub mod Executor
mod Tests
use harness_go.Base.{
  ℕ, String, Bool, not, ◌&&◌, ◌||◌, Option, none, some, [], ◌∷◌, ◌==◌, Dict, lookup, insert, remove,
  length, ltb, leb, nat_beq, if◌then◌else◌,
}
use harness_go.Value.{Value, add_int}
use harness_go.Clock.{Duration, is_positive, add_time}

pub record CacheEntry : Type 0 where
  pub value : Value
  pub expiration : ℕ
  pub last_access : ℕ
  pub hits : ℕ

pub data EvictionPolicy : Type 0 where
  evict_lru evict_lfu evict_random : EvictionPolicy

pub record MemoryCache : Type 0 where
  pub entries : Dict CacheEntry
  pub max_size : ℕ
  pub eviction : EvictionPolicy

-- NewMemoryCache, with a size that is not negative
unfoldable pub new_memory_cache : ℕ → EvictionPolicy → MemoryCache
new_memory_cache max_size eviction = record {
  entries = [];
  max_size = max_size;
  eviction = eviction;
}

-- whether an entry has expired: a zero expiration is none
abbrev pub expired : ℕ → CacheEntry → Bool
expired now e = not (nat_beq e.expiration 0) && ltb e.expiration now

abbrev get_entry : ℕ → String → MemoryCache → Option CacheEntry → MemoryCache × Option Value
get_entry now key c none = (c, none)
get_entry now key c (some e) = if expired now e then (c, none) else (
  record c {
    entries = insert key (record e { hits = add_int e.hits 1; last_access = now }) c.entries;
  },
  some e.value,
)

-- Get, which counts the hit
unfoldable pub get : ℕ → MemoryCache → String → MemoryCache × Option Value
unfolding lookup insert
get now c key = get_entry now key c (lookup key c.entries)

-- the loop of evict for EvictLRU; `oldest` is zero until an entry is met
unfoldable pub least_recent : Dict CacheEntry → ℕ → String → String
least_recent [] oldest chosen = chosen
least_recent ((k, e) ∷ m) oldest chosen =
    let take = least_recent m e.last_access k in
    let skip = least_recent m oldest chosen in
    if nat_beq oldest 0 || ltb e.last_access oldest then take else skip

-- the loop of evict for EvictLFU; `least` is none for -1. The hits are compared as 64-bit patterns,
-- which no count of hits in practice tells from integers.
unfoldable pub least_frequent : Dict CacheEntry → Option ℕ → String → String
least_frequent [] least chosen = chosen
least_frequent ((k, e) ∷ m) none chosen = least_frequent m (some e.hits) k
least_frequent ((k, e) ∷ m) (some h) chosen =
    let take = least_frequent m (some e.hits) k in
    let skip = least_frequent m (some h) chosen in if ltb e.hits h then take else skip

-- the first entry that the range loop meets
abbrev first_key : Dict CacheEntry → String
first_key [] = ""
first_key ((k, e) ∷ m) = k

abbrev pub victim : EvictionPolicy → Dict CacheEntry → String
victim evict_lru m = least_recent m 0 ""
victim evict_lfu m = least_frequent m none ""
victim evict_random m = first_key m

-- evict; an empty key stands for no victim
unfoldable pub evict : MemoryCache → MemoryCache
unfolding least_recent least_frequent remove
evict c =
    let key = victim c.eviction c.entries in
    if key == "" then c else record c { entries = remove key c.entries }

abbrev pub new_entry : ℕ → Value → Duration → CacheEntry
new_entry now value ttl = record {
  value = value;
  expiration = if is_positive ttl then add_time now ttl else 0;
  last_access = now;
  hits = 0;
}

-- Set
unfoldable pub set : ℕ → MemoryCache → String → Value → Duration → MemoryCache
unfolding evict insert
set now c key value ttl =
    let room = if leb c.max_size (length c.entries) then evict c else c in
    record room { entries = insert key (new_entry now value ttl) room.entries }

-- Delete
unfoldable pub delete : MemoryCache → String → MemoryCache
unfolding remove
delete c key = record c { entries = remove key c.entries }

-- Clear
unfoldable pub clear : MemoryCache → MemoryCache
clear c = record c { entries = [] }
