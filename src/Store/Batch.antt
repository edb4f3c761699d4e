-- ===== src/Store/Batch.antt =====
-- graphengine/store/memory.go: Batch, which runs operations under one lock. The index of a put and the
-- embedding of a search are not read by the code.
pub mod Separate
use harness_go.Base.{
  ℕ, String, Option, none, some, List, [], ◌∷◌, Dict, lookup, insert, if◌then◌else◌,
}
use harness_go.Value.{Value}
use harness_go.Errors.{Err, plain, Result, ok, err}
use harness_go.Clock.{Duration}
use harness_go.Store.{
  InMemoryStore, ns_key, full_key, check_ttl, copy_value, match_query, read, write_value, keep_ttl,
  store_closed,
}
use harness_go.Store.Namespaces.{MatchCondition}
use harness_go.Store.Filter.{match_filter}
use harness_go.Store.Search.{Measures, accepts, scan_items, search_entries}

-- the types that Batch switches on, and any other
pub data Op : Type 0 where
  get_op : List String → String → Op
  put_op : List String → String → Dict Value → Option Duration → Op
  search_op : List String → Option (Dict Value) → ℕ → ℕ → Option String → Op
  list_namespaces_op : List MatchCondition → Option ℕ → ℕ → ℕ → Op
  other_op : Op

-- what a Result holds
pub data Reply : Type 0 where
  nothing : Reply
  one : Option (Dict Value) → Reply
  many : Option (List (Dict Value)) → Reply
  names : List (List String) → Reply

-- What an operation does: it replies, it panics, or it waits for ever.
pub data Outcome : Type 0 where
  replies : Result Reply → Outcome
  panics waits : Outcome

abbrev pub found_values : Option (Result (Option (List (Dict Value)))) → Outcome
found_values none = panics
found_values (some (err e)) = replies (err e)
found_values (some (ok o)) = replies (ok (many o))

abbrev search_values :
    Measures
    → ℕ
    → InMemoryStore
    → List String
    → Option (Dict Value)
    → ℕ
    → ℕ
    → Option String
    → Option (Result (Option (List (Dict Value))))
search_values m now s prefix filter limit offset query =
    search_entries
      (λ entries.
        scan_items (accepts m now s prefix query filter) (λ key value. copy_value value) limit
          entries [])
      offset (lookup (ns_key prefix) s.data_)

-- One operation of a batch. ListNamespaces asks for the lock that Batch holds.
unfoldable pub run_op : Measures → ℕ → InMemoryStore → Op → InMemoryStore × Outcome
unfolding ns_key full_key read write_value insert lookup copy_value scan_items check_ttl match_query
    match_filter
run_op m now s (get_op namespace key) = (s, replies (ok (one (read now s (ns_key namespace) key))))
run_op m now s (put_op namespace key value ttl) = (
  keep_ttl now (full_key (ns_key namespace) key) ttl
      (record s { data_ = write_value (ns_key namespace) key value s.data_ }),
  replies (ok nothing),
)
run_op m now s (search_op prefix filter limit offset query) =
    (s, found_values (search_values m now s prefix filter limit offset query))
run_op m now s (list_namespaces_op conditions max_depth limit offset) = (s, waits)
run_op m now s other_op = (s, replies (err (plain ("unknown operation type" ∷ []))))

-- a batch that has come to its end, with its results, and one that has not
pub data Batched : Type 0 where
  finished : InMemoryStore → List (Result Reply) → Batched
  refused : Err → Batched
  panicked blocked : Batched

abbrev pub with_reply : Result Reply → Batched → Batched
with_reply r (finished s rs) = finished s (r ∷ rs)
with_reply r (refused e) = refused e
with_reply r panicked = panicked
with_reply r blocked = blocked

abbrev pub after_op : InMemoryStore × Outcome → (InMemoryStore → Batched) → Batched
after_op (s, replies r) rest = with_reply r (rest s)
after_op (s, panics) rest = panicked
after_op (s, waits) rest = blocked

unfoldable pub run_ops : Measures → ℕ → InMemoryStore → List Op → Batched
unfolding run_op
run_ops m now s [] = finished s []
run_ops m now s (op ∷ ops) = after_op (run_op m now s op) (λ s'. run_ops m now s' ops)

-- Batch
unfoldable pub batch : Measures → ℕ → InMemoryStore → List Op → Batched
unfolding run_ops
batch m now s ops = if s.closed then refused store_closed else run_ops m now s ops
