-- ===== src/Store/SearchTests.antt =====
-- Concrete searches and batches of a store (graphengine/store/memory.go).
use harness_go.Base.{
  true, Option, ◌++◌, ℕ, ◌≤◌, ◌↔◌, insert, insert_all, String, ◌≡◌, ◌≢◌, refl, false, none, some,
  List, [], ◌∷◌, arith, Dict, lookup, length, nat_beq, ltb, join_at, contains,
}
use harness_go.Value.{Value, int, dict, of_fields}
use harness_go.Errors.{Result, ok}
use harness_go.Store.Namespaces.{MatchCondition}
use harness_go.Store.{InMemoryStore, copy_value, read, write_value, ns_key, full_key, check_ttl}
use harness_go.Store.Filter.{
  Comparisons, negated, compare_by, equal, less_than, greater_than, match_operators, match_filter,
}
use harness_go.Store.Filter.Order.{Less, ints, compare_by_order}
use harness_go.Store.Search.{SearchItem, Measures, item_at, scan_items, search_items}
use harness_go.Store.Batch.{
  Op, Reply, get_op, put_op, search_op, list_namespaces_op, one, many, nothing, blocked, finished,
  run_op, run_ops, batch,
}
use harness_go.Store.Batch.Separate.{separately, batch-separately}
use harness_go.Store.Search.Found.{Each, Found, search_items-Found}

abbrev comparisons : Comparisons
comparisons = record {
  float_less = ltb;
  float_equal = nat_beq;
  other_equal = λ a b. some false;
  matches = λ p text. some (contains text p);
}

abbrev measures : Measures
measures = record {
  comparisons = comparisons;
  lower = λ s. s;
  cosine_similarity = λ a b. 0;
  sort_by_score = λ xs. xs;
}

abbrev aged : ℕ → Dict Value
aged n = ("age", int n) ∷ []

abbrev users : List String
users = "app" ∷ "users" ∷ []

abbrev three : InMemoryStore
three = record {
  data_ = ("app|users", ("ann", aged 41) ∷ ("bob", aged 17) ∷ ("cid", aged 30) ∷ []) ∷ [];
  ttl = [];
  indexes = [];
  index_configs = [];
  closed = false;
}

abbrev adult : Dict Value
adult = ("age", dict (of_fields (("$gte", int 18) ∷ ("$ne", int 30) ∷ []))) ∷ []

abbrev ann : SearchItem
ann = record { item = item_at 0 three users "app|users" "ann" (aged 41); score = none }

abbrev minus_one : Value
minus_one = int 18446744073709551615

three-adults :
    search_items measures 0 three users none (some adult) 5 0 ≡ some (ok (some (ann ∷ [])))
unfolding search_items scan_items match_filter match_operators compare_by equal less_than
    greater_than lookup ns_key join_at check_ttl full_key
three-adults = refl

search_items-Found_example :
    Each (Found measures 0 three users none (some adult)) (ann ∷ [])
    × (1 ≤ 5 → length (ann ∷ []) ≤ 5)
unfolding lookup
search_items-Found_example =
    search_items-Found measures 0 three users none (some adult) 5 0 (ann ∷ []) refl three-adults

-- the int -1 against the int 1
compare_by_order_example :
    ((compare_by comparisons minus_one "$lt" (int 1) ≡ some true) ↔ Less minus_one (int 1))
    × ((compare_by comparisons minus_one "$gt" (int 1) ≡ some true) ↔ Less (int 1) minus_one)
    × ((compare_by comparisons minus_one "$eq" (int 1) ≡ some true) ↔ (minus_one ≡ int 1))
    × (compare_by comparisons minus_one "$gte" (int 1)
        ≡ negated (compare_by comparisons minus_one "$lt" (int 1)))
    × (compare_by comparisons minus_one "$lte" (int 1)
        ≡ negated (compare_by comparisons minus_one "$gt" (int 1)))
    × (compare_by comparisons minus_one "$lt" (int 1) ≢ none)
    × (compare_by comparisons minus_one "$gt" (int 1) ≢ none)
compare_by_order_example =
    compare_by_order comparisons minus_one (int 1)
      (ints 18446744073709551615 1 (omega arith) (omega arith))

abbrev three_ops : List Op
three_ops =
    put_op users "dan" (aged 50) none
    ∷ search_op users (some adult) 1 0 none
    ∷ get_op users "dan"
    ∷ []

-- the second operation sees what the first one wrote
dan-found :
    (elim (batch measures 0 three three_ops) [ finished s rs ↦ rs | _ ↦ [] ])
    ≡ ok nothing ∷ ok (many (some (aged 41 ∷ []))) ∷ ok (one (some (aged 50))) ∷ []
unfolding batch run_ops run_op scan_items match_filter match_operators compare_by equal less_than
    greater_than lookup insert insert_all ns_key join_at check_ttl full_key copy_value read
    write_value
dan-found = refl

-- A batch with a ListNamespacesOp waits for its own lock.
names-blocked :
    batch measures 0 three (get_op users "ann" ∷ list_namespaces_op [] none 0 0 ∷ []) ≡ blocked
unfolding batch run_ops run_op
names-blocked = refl

batch-separately_example :
    (batch measures 0 three three_ops ≡ separately measures 0 three three_ops)
    × ((t : InMemoryStore) (rs : List (Result Reply)) (conditions : List MatchCondition)
          (max_depth : Option ℕ) (limit offset : ℕ) (rest : List Op)
        → separately measures 0 three three_ops ≡ finished t rs
        → batch measures 0 three
            (three_ops ++ list_namespaces_op conditions max_depth limit offset ∷ rest)
          ≡ blocked)
unfolding lookup
batch-separately_example = batch-separately measures 0 three three_ops refl (tt, (refl, (tt, tt)))
