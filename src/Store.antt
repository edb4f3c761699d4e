-- ===== src/Store.antt =====
-- graphengine/store/memory.go: InMemoryStore, with its values, their times to live and the sweep of
-- the expired ones. The lock is left out.
pub mod Namespaces
pub mod Filter
pub mod Search
pub mod Batch
pub mod Sweep
pub mod Expiry
pub mod Listing
pub mod Replay
pub mod Closed
mod Tests
mod SearchTests
use harness_go.Base.{
  ℕ, String, Bool, true, false, ◌&&◌, ◌||◌, Option, none, some, List, [], ◌∷◌, ◌++◌, ◌==◌, Dict,
  lookup, insert, insert_all, remove, get_or, length, ltb, leb, join_at, contains, if◌then◌else◌,
}
use Prim.Native.String
use harness_go.Value.{Value, float_type, as_str, slice, items, is_nil}
use harness_go.Errors.{Err, plain, Result, ok, err}
use harness_go.Clock.{Duration, is_positive, add_time, in_time}

pub record IndexConfig : Type 0 where
  pub dims : ℕ
  pub embed : Value
  pub fields : List String

pub record InMemoryStore : Type 0 where
  pub data_ : Dict (Dict (Dict Value))
  pub ttl : Dict ℕ
  pub indexes : Dict (Dict (List Value))
  pub index_configs : Dict IndexConfig
  pub closed : Bool

unfoldable pub new_in_memory_store : InMemoryStore
new_in_memory_store = record {
  data_ = [];
  ttl = [];
  indexes = [];
  index_configs = [];
  closed = false;
}

abbrev pub store_closed : Err
store_closed = plain ("store is closed" ∷ [])

-- nsKey and fullKey
unfoldable pub ns_key : List String → String
unfolding join_at
ns_key namespace = join_at "|" namespace

unfoldable pub full_key : String → String → String
full_key ns key = String.◌++◌ ns (String.◌∷◌ ":" key)

-- checkTTL
unfoldable pub check_ttl : ℕ → InMemoryStore → String → Bool
unfolding lookup
check_ttl now s full = in_time now (lookup full s.ttl)

-- copyValue, a loop over the entries of the map
unfoldable pub copy_value : Dict Value → Dict Value
unfolding insert_all
copy_value value = insert_all value []

abbrev pub copied : Option (Dict Value) → Option (Dict Value)
copied none = none
copied (some v) = some (copy_value v)

abbrev value_in : Option (Dict (Dict Value)) → String → Bool → Option (Dict Value)
value_in none key live = none
value_in (some m) key live = if live then copied (lookup key m) else none

-- the body of Get, for a namespace's joined name
unfoldable pub read : ℕ → InMemoryStore → String → String → Option (Dict Value)
unfolding lookup check_ttl full_key copy_value
read now s ns key = value_in (lookup ns s.data_) key (check_ttl now s (full_key ns key))

-- Get; none is a nil map
unfoldable pub get : ℕ → InMemoryStore → List String → String → Result (Option (Dict Value))
unfolding ns_key read
get now s namespace key =
    if s.closed then err store_closed else ok (read now s (ns_key namespace) key)

-- what every writing method does first
abbrev pub when_open : InMemoryStore → InMemoryStore → InMemoryStore × Option Err
when_open s done = if s.closed then (s, some store_closed) else (done, none)

-- `s.data[nsKey]`, which a write makes if it is missing
unfoldable pub write_value :
    String → String → Dict Value → Dict (Dict (Dict Value)) → Dict (Dict (Dict Value))
unfolding lookup insert copy_value
write_value ns key value m = insert ns (insert key (copy_value value) (get_or (lookup ns m) [])) m

-- Put
unfoldable pub put : InMemoryStore → List String → String → Dict Value → InMemoryStore × Option Err
unfolding ns_key write_value
put s namespace key value =
    when_open s (record s { data_ = write_value (ns_key namespace) key value s.data_ })

abbrev delete_in : Option (Dict (Dict Value)) → InMemoryStore → String → String → InMemoryStore
delete_in none s ns key = s
delete_in (some m) s ns key = record s {
  data_ = insert ns (remove key m) s.data_;
  ttl = remove (full_key ns key) s.ttl;
}

unfoldable pub delete_value : InMemoryStore → String → String → InMemoryStore
unfolding lookup insert remove full_key
delete_value s ns key = delete_in (lookup ns s.data_) s ns key

-- Delete
unfoldable pub delete : InMemoryStore → List String → String → InMemoryStore × Option Err
unfolding ns_key delete_value
delete s namespace key = when_open s (delete_value s (ns_key namespace) key)

-- PutOperation, and the loop of BatchPut
pub record PutOperation : Type 0 where
  pub namespace : List String
  pub key : String
  pub value : Dict Value

unfoldable pub write_values :
    List PutOperation → Dict (Dict (Dict Value)) → Dict (Dict (Dict Value))
unfolding ns_key write_value
write_values [] m = m
write_values (op ∷ ops) m = write_values ops (write_value (ns_key op.namespace) op.key op.value m)

-- BatchPut
unfoldable pub batch_put : InMemoryStore → List PutOperation → InMemoryStore × Option Err
unfolding write_values
batch_put s ops = when_open s (record s { data_ = write_values ops s.data_ })

-- SetTTL
unfoldable pub set_ttl :
    ℕ → InMemoryStore → List String → String → Duration → InMemoryStore × Option Err
unfolding ns_key full_key insert
set_ttl now s namespace key d = when_open s (
    if is_positive d
    then record s { ttl = insert (full_key (ns_key namespace) key) (add_time now d) s.ttl }
    else s)

-- Clear leaves the indexes and the flag as they are, and works on a closed store too.
unfoldable pub clear : InMemoryStore → InMemoryStore
clear s = record s { data_ = []; ttl = [] }

-- Close
unfoldable pub close : InMemoryStore → InMemoryStore
close s = record s { closed = true }

-- matchQuery; the lower case of a text is the standard library's: a parameter.
unfoldable pub match_query : (String → String) → Dict Value → String → Bool
match_query lower [] query = false
match_query lower ((k, v) ∷ value) query =
    let rest = match_query lower value query in
    elim (as_str v) [ none ↦ rest | some text ↦ contains (lower text) (lower query) || rest ]

-- The loop of Search and List: the live entries that pass the test, up to the limit; a limit of 0
-- stands for any that is not positive.
module _ {ℓ} {A : Type ℓ} (accepts : String → Dict Value → Bool) (row : String → Dict Value → A)
    (limit : ℕ) where
  unfoldable pub scan : Dict (Dict Value) → List A → List A
  scan [] found = found
  scan ((key, value) ∷ m) found =
      let more = found ++ row key value ∷ [] in
      let rest_more = scan m more in
      let rest = scan m found in
      if accepts key value
      then (if ltb 0 limit && leb limit (length more) then more else rest_more)
      else rest

  abbrev pub scan_in : Option (Dict (Dict Value)) → Option (List A)
  scan_in none = none
  scan_in (some m) = some (scan m [])

-- Search; none is a nil slice
unfoldable pub search :
    (String → String)
    → ℕ
    → InMemoryStore
    → List String
    → String
    → ℕ
    → Result (Option (List (Dict Value)))
unfolding ns_key scan check_ttl full_key match_query copy_value lookup
search lower now s namespace query limit =
    if s.closed
    then err store_closed
    else ok (
        scan_in
          (λ key value.
            check_ttl now s (full_key (ns_key namespace) key)
            && (query == "" || match_query lower value query))
          (λ key value. copy_value value) limit (lookup (ns_key namespace) s.data_))

-- List
unfoldable pub list_keys : ℕ → InMemoryStore → List String → ℕ → Result (Option (List String))
unfolding ns_key scan check_ttl full_key lookup
list_keys now s namespace limit =
    if s.closed
    then err store_closed
    else ok (
        scan_in (λ key value. check_ttl now s (full_key (ns_key namespace) key)) (λ key value. key)
          limit (lookup (ns_key namespace) s.data_))

pub record Item : Type 0 where
  pub value : Dict Value
  pub key : String
  pub namespace : List String
  pub created_at : ℕ
  pub updated_at : ℕ
  pub expires_at : Option ℕ

abbrev pub item_of : ℕ → InMemoryStore → List String → String → Option (Dict Value) → Option Item
item_of now s namespace key none = none
item_of now s namespace key (some v) = some record {
  value = v;
  key = key;
  namespace = namespace;
  created_at = now;
  updated_at = now;
  expires_at = lookup (full_key (ns_key namespace) key) s.ttl;
}

-- GetItem, whose argument refreshTTL the code does not read
unfoldable pub get_item : ℕ → InMemoryStore → List String → String → Result (Option Item)
unfolding ns_key read full_key lookup
get_item now s namespace key =
    if s.closed
    then err store_closed
    else ok (item_of now s namespace key (read now s (ns_key namespace) key))

-- the argument `index` of PutItem
pub data Index : Type 0 where
  no_index : Index
  by_config : IndexConfig → Index
  by_fields : List String → Index
  by_flag : Bool → Index
  other_index : Index

-- `v.([]float64)`
abbrev pub as_floats : Value → Option (List Value)
as_floats (slice float_type vs) = some (items vs)
as_floats _ = none

abbrev first_of : Option (List Value) → Option (List Value) → Option (List Value)
first_of none rest = rest
first_of (some e) rest = some e

-- the loop over the fields of the index
unfoldable pub embedding : Dict Value → List String → Option (List Value)
unfolding lookup
embedding value [] = none
embedding value (f ∷ fs) =
    first_of (elim (lookup f value) [ none ↦ none | some v ↦ as_floats v ]) (embedding value fs)

abbrev keep_embedding : String → String → Option (List Value) → InMemoryStore → InMemoryStore
keep_embedding ns key none s = s
keep_embedding ns key (some e) s = record s {
  indexes = insert ns (insert key e (get_or (lookup ns s.indexes) [])) s.indexes;
}

abbrev configured : String → IndexConfig → InMemoryStore → InMemoryStore
configured ns c s = record s { index_configs = insert ns c s.index_configs }

abbrev on_fields : List String → IndexConfig
on_fields fs = record { dims = 0; embed = Value.nil; fields = fs }

unfoldable pub put_index : String → String → Dict Value → Index → InMemoryStore → InMemoryStore
unfolding embedding insert lookup
put_index ns key value no_index s = s
put_index ns key value other_index s = s
put_index ns key value (by_config c) s =
    if is_nil c.embed
    then configured ns c s
    else keep_embedding ns key (embedding value c.fields) (configured ns c s)
put_index ns key value (by_fields []) s = s
put_index ns key value (by_fields (f ∷ fs)) s = configured ns (on_fields (f ∷ fs)) s
put_index ns key value (by_flag b) s =
    if b then configured ns (on_fields ("embedding" ∷ [])) s else s

abbrev pub keep_ttl : ℕ → String → Option Duration → InMemoryStore → InMemoryStore
keep_ttl now full none s = s
keep_ttl now full (some d) s = record s { ttl = insert full (add_time now d) s.ttl }

-- PutItem
unfoldable pub put_item :
    ℕ
    → InMemoryStore
    → List String
    → String
    → Dict Value
    → Index
    → Option Duration
    → InMemoryStore × Option Err
unfolding ns_key write_value put_index full_key insert
put_item now s namespace key value index ttl =
    let ns = ns_key namespace in
    when_open s (
      put_index ns key value index (
        keep_ttl now (full_key ns key) ttl (record s { data_ = write_value ns key value s.data_ })))
