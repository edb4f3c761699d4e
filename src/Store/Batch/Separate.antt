-- ===== src/Store/Batch/Separate.antt =====
-- A batch against its operations one by one (graphengine/store/memory.go).
use harness_go.Base.{
  ℕ, zero, suc, String, ◌≡◌, refl, sym, ap, ◌∙◌, Bool, true, false, ◌&&◌, Option, none, some, List,
  [], ◌∷◌, ◌++◌, arith, Dict, lookup, length, ltb, Bool-cases, inl, inr, if◌then◌else◌,
}
use harness_go.Value.{Value}
use harness_go.Errors.{Err, plain, Result, ok, err}
use harness_go.Store.{InMemoryStore, ns_key, copy_value, store_closed, get, put_item, no_index}
use harness_go.Store.Namespaces.{MatchCondition, list_namespaces, page, drop}
use harness_go.Store.Search.{
  SearchItem, Measures, accepts, row, add_row, scan_items, from_offset, search_entries,
  embedding_of, search_with, search_items,
}
use harness_go.Store.Search.Found.{Each}
use harness_go.Store.Batch.{
  Op, get_op, put_op, search_op, list_namespaces_op, other_op, Reply, nothing, one, names, blocked,
  panicked, Outcome, replies, panics, waits, found_values, run_op, Batched, finished, refused,
  with_reply, after_op, run_ops, batch,
}

abbrev value_of : SearchItem → Dict Value
value_of x = x.item.value

abbrev values_of : List SearchItem → List (Dict Value)
values_of [] = []
values_of (x ∷ xs) = value_of x ∷ values_of xs

abbrev values_in : Option (List SearchItem) → Option (List (Dict Value))
values_in none = none
values_in (some xs) = some (values_of xs)

abbrev result_values :
    Option (Result (Option (List SearchItem))) → Option (Result (Option (List (Dict Value))))
result_values none = none
result_values (some (err e)) = some (err e)
result_values (some (ok o)) = some (ok (values_in o))

-- The operation by a method of its own: Get, PutItem without an index, SearchItems, of which the values
-- are kept, or ListNamespaces; an operation of another type is an error.
abbrev got : Result (Option (Dict Value)) → Result Reply
got (err e) = err e
got (ok o) = ok (one o)

abbrev listed : Result (List (List String)) → Result Reply
listed (err e) = err e
listed (ok ns) = ok (names ns)

abbrev stored : InMemoryStore × Option Err → InMemoryStore × Outcome
stored (s, none) = (s, replies (ok nothing))
stored (s, some e) = (s, replies (err e))

unfoldable pub separate_op : Measures → ℕ → InMemoryStore → Op → InMemoryStore × Outcome
unfolding get put_item search_items list_namespaces
separate_op m now s (get_op namespace key) = (s, replies (got (get now s namespace key)))
separate_op m now s (put_op namespace key value ttl) =
    stored (put_item now s namespace key value no_index ttl)
separate_op m now s (search_op prefix filter limit offset query) =
    (s, found_values (result_values (search_items m now s prefix query filter limit offset)))
separate_op m now s (list_namespaces_op conditions max_depth limit offset) =
    (s, replies (listed (list_namespaces s conditions max_depth limit offset)))
separate_op m now s other_op = (s, replies (err (plain ("unknown operation type" ∷ []))))

unfoldable pub separately : Measures → ℕ → InMemoryStore → List Op → Batched
unfolding separate_op
separately m now s [] = finished s []
separately m now s (op ∷ ops) = after_op (separate_op m now s op) (λ s'. separately m now s' ops)

values_of-append : (xs ys : List SearchItem) → values_of (xs ++ ys) ≡ values_of xs ++ values_of ys
values_of-append [] ys = refl
values_of-append (x ∷ xs) ys = ap (λ r. value_of x ∷ r) (values_of-append xs ys)

length-values_of : (xs : List SearchItem) → length (values_of xs) ≡ length xs
length-values_of [] = refl
length-values_of (x ∷ xs) = omega (arith, length-values_of xs)

drop-values_of : (n : ℕ) (xs : List SearchItem) → drop n (values_of xs) ≡ values_of (drop n xs)
drop-values_of zero xs = refl
drop-values_of (suc n) [] = refl
drop-values_of (suc n) (x ∷ xs) = drop-values_of n xs

page-values_of :
    (offset : ℕ) (xs : List SearchItem)
    → page 0 offset (values_of xs) ≡ values_of (page 0 offset xs)
page-values_of offset xs = elim (Bool-cases (ltb 0 offset && ltb offset (length xs))) [
  | inl within ↦ rw (length-values_of xs, within) (drop-values_of offset xs)
  | inr outside ↦ rw (length-values_of xs, outside) refl
]

add_row-values :
    (o : Option Bool) (full : Bool) (more : List SearchItem)
    (rest_more rest : Option (List SearchItem))
    → add_row o full (values_of more) (values_in rest_more) (values_in rest)
      ≡ values_in (add_row o full more rest_more rest)
add_row-values none full more rest_more rest = refl
add_row-values (some false) full more rest_more rest = refl
add_row-values (some true) true more rest_more rest = refl
add_row-values (some true) false more rest_more rest = refl

module _ (test : String → Dict Value → Option Bool) (row_of : String → Dict Value → SearchItem)
    (limit : ℕ) where
  scan_items-values :
      (m : Dict (Dict Value)) (xs : List SearchItem)
      → scan_items test (λ key value. value_of (row_of key value)) limit m (values_of xs)
        ≡ values_in (scan_items test row_of limit m xs)
  unfolding scan_items
  scan_items-values [] xs = refl
  scan_items-values ((key, value) ∷ m) xs =
      rw
        (
          sym (values_of-append xs (row_of key value ∷ [])),
          length-values_of (xs ++ row_of key value ∷ []),
          scan_items-values m (xs ++ row_of key value ∷ []),
          scan_items-values m xs,
        )
        (add_row-values (test key value) _ (xs ++ row_of key value ∷ []) _ _)

entries-values :
    (m : Measures) (now : ℕ) (s : InMemoryStore) (prefix : List String)
    (filter : Option (Dict Value)) (limit offset : ℕ) (query : Option String)
    (o : Option (Dict (Dict Value)))
    → search_entries
        (λ entries.
          scan_items
            (accepts m now s prefix query filter)
            (λ key value. copy_value value)
            limit
            entries
            [])
        offset
        o
      ≡ result_values (
          search_entries
            (λ entries.
              scan_items (accepts m now s prefix query filter) (row now s prefix) limit entries [])
            offset
            o)
entries-values m now s prefix filter limit offset query none = refl
entries-values m now s prefix filter limit offset query (some entries) =
    ap (from_offset offset)
      (scan_items-values (accepts m now s prefix query filter) (row now s prefix) limit entries [])
    ∙ paged (scan_items (accepts m now s prefix query filter) (row now s prefix) limit entries [])
  where
    paged :
        (o : Option (List SearchItem))
        → from_offset offset (values_in o) ≡ result_values (from_offset offset o)
    paged none = refl
    paged (some xs) = ap (λ ys. some (ok (some ys))) (page-values_of offset xs)

-- The operation can do in a batch what it does by itself: it does not list the namespaces, and the
-- filter of a search holds no embedding.
abbrev pub Separable : Op → Type 0
Separable (get_op namespace key) = Unit
Separable (put_op namespace key value ttl) = Unit
Separable (search_op prefix filter limit offset query) = embedding_of filter ≡ none
Separable (list_namespaces_op conditions max_depth limit offset) = ⊥
Separable other_op = Unit

search_items-open :
    (m : Measures) (now : ℕ) (s : InMemoryStore) (prefix : List String)
    (filter : Option (Dict Value)) (limit offset : ℕ) (query : Option String)
    → s.closed ≡ false
    → embedding_of filter ≡ none
    → search_items m now s prefix query filter limit offset
      ≡ search_with m now s prefix query filter limit offset none
unfolding search_items
search_items-open m now s prefix filter limit offset query is_open h =
    let found = search_with m now s prefix query filter limit offset in
    ap (λ (b : Bool). if b then some (err store_closed) else found (embedding_of filter)) is_open
    ∙ ap found h

run_op-separate :
    (m : Measures) (now : ℕ) (s : InMemoryStore) (op : Op)
    → s.closed ≡ false
    → Separable op
    → run_op m now s op ≡ separate_op m now s op
unfolding run_op separate_op get put_item search_items
run_op-separate m now s (get_op namespace key) is_open h = rw is_open refl
run_op-separate m now s (put_op namespace key value ttl) is_open h = rw is_open refl
run_op-separate m now s (search_op prefix filter limit offset query) is_open h =
    ap (λ r. (s, found_values r))
      (entries-values m now s prefix filter limit offset query (lookup (ns_key prefix) s.data_)
        ∙ sym (
            ap result_values
              (search_items-open m now s prefix filter limit offset query is_open h)))
run_op-separate m now s (list_namespaces_op conditions max_depth limit offset) is_open h = absurd h
run_op-separate m now s other_op is_open h = refl

run_op-closed :
    (m : Measures) (now : ℕ) (s : InMemoryStore) (op : Op) → (run_op m now s op).0.closed ≡ s.closed
unfolding run_op
run_op-closed m now s (get_op namespace key) = refl
run_op-closed m now s (put_op namespace key value none) = refl
run_op-closed m now s (put_op namespace key value (some d)) = refl
run_op-closed m now s (search_op prefix filter limit offset query) = refl
run_op-closed m now s (list_namespaces_op conditions max_depth limit offset) = refl
run_op-closed m now s other_op = refl

after_op-ap :
    (step : InMemoryStore × Outcome) (f g : InMemoryStore → Batched)
    → f step.0 ≡ g step.0
    → after_op step f ≡ after_op step g
after_op-ap (s, replies r) f g h = ap (with_reply r) h
after_op-ap (s, panics) f g h = refl
after_op-ap (s, waits) f g h = refl

run_ops-separately :
    (m : Measures) (now : ℕ) (s : InMemoryStore) (ops : List Op)
    → s.closed ≡ false
    → Each Separable ops
    → run_ops m now s ops ≡ separately m now s ops
unfolding run_ops separately
run_ops-separately m now s [] is_open h = refl
run_ops-separately m now s (op ∷ ops) is_open h =
    after_op-ap (run_op m now s op) _ _
      (run_ops-separately m now (run_op m now s op).0 ops (run_op-closed m now s op ∙ is_open) h.1)
    ∙ ap (λ step. after_op step (λ s'. separately m now s' ops))
        (run_op-separate m now s op is_open h.0)

with_reply-finished :
    (r : Result Reply) (b : Batched) (s : InMemoryStore) (rs : List (Result Reply))
    → with_reply r b ≡ finished s rs
    → (t : InMemoryStore) × (qs : List (Result Reply)) × (b ≡ finished t qs)
with_reply-finished r (finished t qs) s rs h = (t, qs, refl)
with_reply-finished r (refused e) s rs h = absurd cc
with_reply-finished r panicked s rs h = absurd cc
with_reply-finished r blocked s rs h = absurd cc

after_op-blocked :
    (step : InMemoryStore × Outcome) (f g : InMemoryStore → Batched) (s : InMemoryStore)
    (rs : List (Result Reply))
    → ((t : InMemoryStore) (qs : List (Result Reply))
        → f step.0 ≡ finished t qs
        → g step.0 ≡ blocked)
    → after_op step f ≡ finished s rs
    → after_op step g ≡ blocked
after_op-blocked (t, replies r) f g s rs k h =
    let (u, qs, done) = with_reply-finished r (f t) s rs h in ap (with_reply r) (k u qs done)
after_op-blocked (t, panics) f g s rs k h = absurd cc
after_op-blocked (t, waits) f g s rs k h = absurd cc

module _ (m : Measures) (now : ℕ) (conditions : List MatchCondition) (max_depth : Option ℕ)
    (limit offset : ℕ) (rest : List Op) where
  run_ops-blocked :
      (s : InMemoryStore) (ops : List Op) (t : InMemoryStore) (rs : List (Result Reply))
      → run_ops m now s ops ≡ finished t rs
      → run_ops m now s (ops ++ list_namespaces_op conditions max_depth limit offset ∷ rest)
        ≡ blocked
  unfolding run_ops run_op
  run_ops-blocked s [] t rs h = refl
  run_ops-blocked s (op ∷ ops) t rs h =
      after_op-blocked (run_op m now s op) _ _ t rs (run_ops-blocked (run_op m now s op).0 ops) h

batch-open :
    (m : Measures) (now : ℕ) (s : InMemoryStore) (ops : List Op)
    → s.closed ≡ false
    → batch m now s ops ≡ run_ops m now s ops
unfolding batch
batch-open m now s ops is_open =
    ap (λ (b : Bool). if b then refused store_closed else run_ops m now s ops) is_open

-- A batch on an open store, none of whose operations lists the namespaces and none of whose filters
-- holds an embedding, leaves the store and gives the results that its operations leave and give by Get,
-- by PutItem without an index and by SearchItems one after the other, and it panics where they do. If
-- these come to their end, then the same operations followed by one that lists the namespaces, and by
-- any others, wait for ever in a batch.
pub batch-separately :
    (m : Measures) (now : ℕ) (s : InMemoryStore) (ops : List Op)
    → s.closed ≡ false
    → Each Separable ops
    → (batch m now s ops ≡ separately m now s ops)
      × ((t : InMemoryStore) (rs : List (Result Reply)) (conditions : List MatchCondition)
            (max_depth : Option ℕ) (limit offset : ℕ) (rest : List Op)
          → separately m now s ops ≡ finished t rs
          → batch m now s (ops ++ list_namespaces_op conditions max_depth limit offset ∷ rest)
            ≡ blocked)
batch-separately m now s ops is_open h =
    let same = run_ops-separately m now s ops is_open h in
    (
      batch-open m now s ops is_open ∙ same,
      λ t rs conditions max_depth limit offset rest done.
          batch-open m now s _ is_open
          ∙ run_ops-blocked m now conditions max_depth limit offset rest s ops t rs (same ∙ done),
    )
