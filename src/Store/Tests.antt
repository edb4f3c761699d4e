-- ===== src/Store/Tests.antt =====
-- Concrete uses of the store (graphengine/store/memory.go).
use harness_go.Base.{
  String, ◌≡◌, refl, true, false, none, some, List, [], ◌∷◌, arith, Dict, lookup, elem, split_at,
  keys, insert,
}
use harness_go.Value.{Value, str}
use harness_go.Errors.{ok}
use harness_go.Store.{
  InMemoryStore, new_in_memory_store, ns_key, full_key, copied, get, put, search, list_keys,
}
use harness_go.Store.Sweep.{within, sweep, get-sweep}
use harness_go.Store.Expiry.{expired_put_lost, expired_key_returns}
use harness_go.Store.Listing.{list_keys-get}
use harness_go.Store.Replay.{put_op, delete_op, replay, run, get-run}

abbrev note : Dict Value
note = ("text", str "hello") ∷ []

abbrev users : List String
users = "app" ∷ "users" ∷ []

-- a store with one value, whose time to live ends at 5
abbrev one_value : String → InMemoryStore
one_value key = record {
  data_ = ("app|users", (key, note) ∷ []) ∷ [];
  ttl = (full_key "app|users" key, 5) ∷ [];
  indexes = [];
  index_configs = [];
  closed = false;
}

get-run_example :
    get 3
      (run
        (put_op users "ann" note ∷ put_op users "bob" note ∷ delete_op users "bob" ∷ [])
        new_in_memory_store)
      users
      "ann"
    ≡ ok (
        copied (
          replay
            (put_op users "ann" note ∷ put_op users "bob" note ∷ delete_op users "bob" ∷ [])
            (λ ns k. none)
            (ns_key users)
            "ann"))
get-run_example =
    get-run (put_op users "ann" note ∷ put_op users "bob" note ∷ delete_op users "bob" ∷ []) 3 users
      "ann"

get-sweep_example :
    get 9 (sweep 7 (one_value "ann")) users "ann" ≡ get 9 (one_value "ann") users "ann"
unfolding full_key split_at keys elem
get-sweep_example =
    get-sweep 7 9 (one_value "ann") users "ann" (omega arith) (refl, tt) ((λ h. refl), tt)

expired_put_lost_example : get 6 (put (one_value "ann") users "ann" note).0 users "ann" ≡ ok none
unfolding lookup full_key ns_key
expired_put_lost_example =
    expired_put_lost 6 5 (one_value "ann") users "ann" note refl refl (omega arith)

expired_key_returns_example :
    (get 6 (one_value "id:1") users "id:1" ≡ ok none)
    × (get 6 (sweep 6 (one_value "id:1")) users "id:1"
        ≡ ok (copied (within (lookup (ns_key users) (one_value "id:1").data_) "id:1")))
unfolding full_key split_at ns_key
expired_key_returns_example =
    expired_key_returns 6 5 (one_value "id:1") users "id:1" refl refl (omega arith)
      (λ h. omega arith)

list_keys-get_example : elem "ann" ("ann" ∷ []) ≡ true
unfolding list_keys get insert
list_keys-get_example =
    list_keys-get 3 (one_value "ann") users "ann" ("ann" ∷ []) (some note) refl refl

-- what comes back is the value itself
returned_whole : get 6 (sweep 6 (one_value "id:1")) users "id:1" ≡ ok (some note)
unfolding get sweep insert
returned_whole = refl

found_by_text : search (λ s. s) 3 (one_value "ann") users "ell" 0 ≡ ok (some (note ∷ []))
unfolding search insert
found_by_text = refl
