-- ===== src/Store/Search.antt =====
-- graphengine/store/memory.go: SearchItems and searchByEmbedding. The cosine of two embeddings and
-- sort.Slice are parameters, and a limit or an offset of 0 stands for any that is not positive.
pub mod Found
use harness_go.Base.{
  ℕ, String, Bool, true, false, ◌&&◌, ◌||◌, Option, none, some, List, [], ◌∷◌, ◌++◌, ◌==◌, Dict,
  lookup, length, ltb, leb, split_at, if◌then◌else◌,
}
use harness_go.Value.{Value}
use harness_go.Errors.{Result, ok, err}
use harness_go.Store.{
  InMemoryStore, Item, ns_key, full_key, check_ttl, copy_value, match_query, as_floats,
  store_closed,
}
use harness_go.Store.Namespaces.{page}
use harness_go.Store.Filter.{Comparisons, match_filter}

pub record SearchItem : Type 0 where
  pub item : Item
  pub score : Option ℕ

pub record Measures : Type 0 where
  pub comparisons : Comparisons
  pub lower : String → String
  pub cosine_similarity : List Value → List Value → ℕ
  pub sort_by_score : List SearchItem → List SearchItem

-- the item of an entry
abbrev pub item_at : ℕ → InMemoryStore → List String → String → String → Dict Value → Item
item_at now s namespace ns key value = record {
  value = copy_value value;
  key = key;
  namespace = namespace;
  created_at = now;
  updated_at = now;
  expires_at = lookup (full_key ns key) s.ttl;
}

abbrev pub query_matches : Measures → Option String → Dict Value → Bool
query_matches m none value = true
query_matches m (some query) value = query == "" || match_query m.lower value query

abbrev pub filter_matches : Measures → Option (Dict Value) → Dict Value → Option Bool
filter_matches m none value = some true
filter_matches m (some filter) value = match_filter m.comparisons value filter

-- whether an entry is found; none where the filter panics
abbrev pub accepts :
    Measures
    → ℕ
    → InMemoryStore
    → List String
    → Option String
    → Option (Dict Value)
    → String
    → Dict Value
    → Option Bool
accepts m now s namespace query filter key value =
    if check_ttl now s (full_key (ns_key namespace) key)
    then (if query_matches m query value then filter_matches m filter value else some false)
    else some false

abbrev pub row : ℕ → InMemoryStore → List String → String → Dict Value → SearchItem
row now s namespace key value = record {
  item = item_at now s namespace (ns_key namespace) key value;
  score = none;
}

-- the loop of SearchItems; what it makes of an entry is an argument
module _ {A : Type 0} where
  abbrev pub add_row :
      Option Bool → Bool → List A → Option (List A) → Option (List A) → Option (List A)
  add_row none full more rest_more rest = none
  add_row (some false) full more rest_more rest = rest
  add_row (some true) full more rest_more rest = if full then some more else rest_more

  unfoldable pub scan_items :
      (String → Dict Value → Option Bool)
      → (String → Dict Value → A)
      → ℕ
      → Dict (Dict Value)
      → List A
      → Option (List A)
  scan_items test row_of limit [] results = some results
  scan_items test row_of limit ((key, value) ∷ m) results =
      let more = results ++ row_of key value ∷ [] in
      add_row (test key value) (ltb 0 limit && leb limit (length more)) more
        (scan_items test row_of limit m more) (scan_items test row_of limit m results)

  abbrev pub from_offset : ℕ → Option (List A) → Option (Result (Option (List A)))
  from_offset offset none = none
  from_offset offset (some results) = some (ok (some (page 0 offset results)))

  abbrev pub search_entries :
      (Dict (Dict Value) → Option (List A))
      → ℕ
      → Option (Dict (Dict Value))
      → Option (Result (Option (List A)))
  search_entries loop offset none = some (ok none)
  search_entries loop offset (some m) = from_offset offset (loop m)

-- searchByEmbedding
abbrev pub scored_if : Bool → SearchItem → List SearchItem → List SearchItem
scored_if live found rest = if live then found ∷ rest else rest

abbrev score_entry :
    Measures
    → ℕ
    → InMemoryStore
    → String
    → List Value
    → String
    → List Value
    → Option (Dict Value)
    → List SearchItem
    → List SearchItem
score_entry m now s ns query key embedding none rest = rest
score_entry m now s ns query key embedding (some value) rest =
    scored_if (check_ttl now s (full_key ns key))
      (record {
        item = item_at now s (split_at "|" ns) ns key value;
        score = some (m.cosine_similarity query embedding);
      })
      rest

abbrev entry_in : Option (Dict (Dict Value)) → String → Option (Dict Value)
entry_in none key = none
entry_in (some m) key = lookup key m

unfoldable pub score_entries :
    Measures → ℕ → InMemoryStore → String → List Value → Dict (List Value) → List SearchItem
unfolding lookup check_ttl full_key copy_value split_at
score_entries m now s ns query [] = []
score_entries m now s ns query ((key, embedding) ∷ index) =
    score_entry m now s ns query key embedding (entry_in (lookup ns s.data_) key)
      (score_entries m now s ns query index)

unfoldable pub search_by_embedding :
    Measures → ℕ → InMemoryStore → String → List Value → ℕ → Option (List SearchItem)
unfolding lookup score_entries
search_by_embedding m now s ns query limit = elim (lookup ns s.indexes) [
  | none ↦ none
  | some index ↦ some (page limit 0 (m.sort_by_score (score_entries m now s ns query index)))
]

abbrev pub paged_embedding : ℕ → Option (List SearchItem) → Option (List SearchItem)
paged_embedding offset none = none
paged_embedding offset (some results) = some (page 0 offset results)

-- `filter["$embedding"].([]float64)`
abbrev pub embedding_of : Option (Dict Value) → Option (List Value)
embedding_of none = none
embedding_of (some filter) = elim (lookup "$embedding" filter) [
  | none ↦ none
  | some v ↦ as_floats v
]

abbrev pub search_with :
    Measures
    → ℕ
    → InMemoryStore
    → List String
    → Option String
    → Option (Dict Value)
    → ℕ
    → ℕ
    → Option (List Value)
    → Option (Result (Option (List SearchItem)))
search_with m now s namespace query filter limit offset none =
    search_entries
      (λ entries.
        scan_items (accepts m now s namespace query filter) (row now s namespace) limit entries [])
      offset (lookup (ns_key namespace) s.data_)
search_with m now s namespace query filter limit offset (some embedding) =
    some
      (ok (paged_embedding offset (search_by_embedding m now s (ns_key namespace) embedding limit)))

-- SearchItems; none is a panic in the filter, and a none inside is a nil slice
unfoldable pub search_items :
    Measures
    → ℕ
    → InMemoryStore
    → List String
    → Option String
    → Option (Dict Value)
    → ℕ
    → ℕ
    → Option (Result (Option (List SearchItem)))
unfolding ns_key scan_items check_ttl full_key match_query match_filter copy_value lookup
    search_by_embedding
search_items m now s namespace query filter limit offset =
    if s.closed
    then some (err store_closed)
    else search_with m now s namespace query filter limit offset (embedding_of filter)
