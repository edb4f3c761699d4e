-- ===== src/Store/Search/Found.antt =====
-- What SearchItems finds by a query and a filter (graphengine/store/memory.go).
use harness_go.Base.{
  ℕ, zero, suc, ◌⊎◌, ◌≤◌, ◌<◌, String, ◌≡◌, refl, sym, subst, ap, ◌∙◌, Bool, true, false, ◌&&◌,
  Option, none, some, List, [], ◌∷◌, ◌++◌, arith, Dict, lookup, length, length-append, ltb,
  Bool-cases, inl, inr, some_inj, if◌then◌else◌,
}
use harness_go.Value.{Value}
use harness_go.Errors.{Result, ok, err}
use harness_go.Store.{InMemoryStore, ns_key, full_key, check_ttl, store_closed}
use harness_go.Store.Namespaces.{page, drop}
use harness_go.Store.Search.{
  SearchItem, Measures, item_at, query_matches, filter_matches, accepts, row, add_row, scan_items,
  from_offset, search_entries, embedding_of, search_with, search_items,
}

-- an entry of a dictionary
pub data Entry (key : String) (value : Dict Value) : Dict (Dict Value) → Type 0 where
  here : {m : Dict (Dict Value)} → Entry key value ((key, value) ∷ m)
  there :
      {other : String × Dict Value} {m : Dict (Dict Value)}
      → Entry key value m
      → Entry key value (other ∷ m)

abbrev pub Each {ℓ} : {A : Type ℓ} → (A → Type 0) → List A → Type 0
Each P [] = Unit
Each P (x ∷ xs) = P x × Each P xs

module _ {ℓ} {A : Type ℓ} (P : A → Type 0) where
  Each-append : (xs ys : List A) → Each P xs → Each P ys → Each P (xs ++ ys)
  Each-append [] ys h k = k
  Each-append (x ∷ xs) ys h k = (h.0, Each-append xs ys h.1 k)

  Each-drop : (n : ℕ) (xs : List A) → Each P xs → Each P (drop n xs)
  Each-drop zero xs h = h
  Each-drop (suc n) [] h = h
  Each-drop (suc n) (x ∷ xs) h = Each-drop n xs h.1

  Each-page : (offset : ℕ) (xs : List A) → Each P xs → Each P (page 0 offset xs)
  Each-page offset xs h = elim (Bool-cases (ltb 0 offset && ltb offset (length xs))) [
    | inl within ↦ rw within (Each-drop offset xs h)
    | inr outside ↦ rw outside h
  ]

add_row-cases :
    (o : Option Bool) (full : Bool) (more : List SearchItem)
    (rest_more rest : Option (List SearchItem)) (found : List SearchItem)
    → add_row o full more rest_more rest ≡ some found
    → (rest ≡ some found)
      ⊎ ((o ≡ some true)
          × (((full ≡ true) × (more ≡ found)) ⊎ ((full ≡ false) × (rest_more ≡ some found))))
add_row-cases none full more rest_more rest found h = absurd cc
add_row-cases (some false) full more rest_more rest found h = inl h
add_row-cases (some true) true more rest_more rest found h = inr (refl, inl (refl, some_inj h))
add_row-cases (some true) false more rest_more rest found h = inr (refl, inr (refl, h))

-- The scan of the entries, and how long its results are.
module _ (test : String → Dict Value → Option Bool) (row_of : String → Dict Value → SearchItem)
    (limit : ℕ) where
  -- a result comes from an entry that passes the test
  abbrev From : Dict (Dict Value) → SearchItem → Type 0
  From all x =
      (key : String) × (value : Dict Value) × Entry key value all
      × (test key value ≡ some true)
      × (x ≡ row_of key value)

  scan_items-From :
      (all m : Dict (Dict Value)) (results found : List SearchItem)
      → ((key : String) (value : Dict Value) → Entry key value m → Entry key value all)
      → Each (From all) results
      → scan_items test row_of limit m results ≡ some found
      → Each (From all) found
  unfolding scan_items
  scan_items-From all [] results found inside so_far h = subst (Each (From all)) (some_inj h) so_far
  scan_items-From all ((key, value) ∷ m) results found inside so_far h =
      let more = results ++ row_of key value ∷ [] in
      let next = λ (k : String) (v : Dict Value) (e : Entry k v m). inside k v (there e) in
      elim (add_row-cases (test key value) _ more _ _ found h) [
        | inl skipped ↦ scan_items-From all m results found next so_far skipped
        | inr (passes, rest) ↦
            let with_this =
              Each-append (From all) results (row_of key value ∷ []) so_far
                ((key, value, inside key value here, passes, refl), tt) in
            elim rest [
              | inl (full, done) ↦ subst (Each (From all)) done with_this
              | inr (room, later) ↦ scan_items-From all m more found next with_this later
            ]
      ]

  length-scan_items :
      (m : Dict (Dict Value)) (results found : List SearchItem)
      → 1 ≤ limit
      → length results < limit
      → scan_items test row_of limit m results ≡ some found
      → length found ≤ limit
  unfolding scan_items
  length-scan_items [] results found pos small h =
      subst (λ xs. length xs ≤ limit) (some_inj h) (omega arith)
  length-scan_items ((key, value) ∷ m) results found pos small h =
      let more = results ++ row_of key value ∷ [] in
      let sum = length-append results (row_of key value ∷ []) in
      elim (add_row-cases (test key value) _ more _ _ found h) [
        | inl skipped ↦ length-scan_items m results found pos small skipped
        | inr (passes, rest) ↦ elim rest [
          | inl (full, done) ↦ subst (λ xs. length xs ≤ limit) done (omega arith)
          | inr (room, later) ↦ length-scan_items m more found pos (ground arith) later
        ]
      ]

-- The item is of a live value of the namespace that the query and the filter match.
pub record Found (m : Measures) (now : ℕ) (s : InMemoryStore) (namespace : List String)
    (query : Option String) (filter : Option (Dict Value)) (x : SearchItem) : Type 0 where
  entries : Dict (Dict Value)
  value : Dict Value
  filed : lookup (ns_key namespace) s.data_ ≡ some entries
  entry : Entry x.item.key value entries
  live : check_ttl now s (full_key (ns_key namespace) x.item.key) ≡ true
  asked : query_matches m query value ≡ true
  matched : filter_matches m filter value ≡ some true
  content : x.item ≡ item_at now s namespace (ns_key namespace) x.item.key value

accepted :
    (m : Measures) (now : ℕ) (s : InMemoryStore) (namespace : List String) (query : Option String)
    (filter : Option (Dict Value)) (key : String) (value : Dict Value)
    → accepts m now s namespace query filter key value ≡ some true
    → (check_ttl now s (full_key (ns_key namespace) key) ≡ true)
      × (query_matches m query value ≡ true)
      × (filter_matches m filter value ≡ some true)
accepted m now s namespace query filter key value h =
    both (check_ttl now s (full_key (ns_key namespace) key)) (query_matches m query value)
      (filter_matches m filter value) h
  where
    both :
        (live asked : Bool) (matched : Option Bool)
        → (if live then (if asked then matched else some false) else some false) ≡ some true
        → (live ≡ true) × (asked ≡ true) × (matched ≡ some true)
    both true true matched k = (refl, refl, k)
    both true false matched k = absurd cc
    both false asked matched k = absurd cc

length-page : {A : Type 0} (offset : ℕ) (xs : List A) → length (page 0 offset xs) ≤ length xs
length-page {A = A} offset xs = elim (Bool-cases (ltb 0 offset && ltb offset (length xs))) [
  | inl within ↦ rw within (length-drop offset xs)
  | inr outside ↦ rw outside (omega arith)
]
  where
    length-drop : (n : ℕ) (ys : List A) → length (drop n ys) ≤ length ys
    length-drop zero ys = omega arith
    length-drop (suc n) [] = omega arith
    length-drop (suc n) (y ∷ ys) = let less = length-drop n ys in omega arith

-- what a search gives, without its wrapping
results_of : Option (Result (Option (List SearchItem))) → List SearchItem
results_of (some (ok (some xs))) = xs
results_of _ = []

opened :
    (closed : Bool) (r : Option (Result (Option (List SearchItem)))) (found : List SearchItem)
    → (if closed then some (err store_closed) else r) ≡ some (ok (some found))
    → r ≡ some (ok (some found))
opened true r found h = absurd cc
opened false r found h = h

from_offset-some :
    (offset : ℕ) (o : Option (List SearchItem)) (found : List SearchItem)
    → from_offset offset o ≡ some (ok (some found))
    → (xs : List SearchItem) × (o ≡ some xs) × (page 0 offset xs ≡ found)
unfolding results_of
from_offset-some offset none found h = absurd cc
from_offset-some offset (some xs) found h = (xs, refl, ap results_of h)

module _ (m : Measures) (now : ℕ) (s : InMemoryStore) (namespace : List String)
    (query : Option String) (filter : Option (Dict Value)) (limit offset : ℕ) where
  From-Found :
      (entries : Dict (Dict Value)) (xs : List SearchItem)
      → lookup (ns_key namespace) s.data_ ≡ some entries
      → Each (From (accepts m now s namespace query filter) (row now s namespace) limit entries) xs
      → Each (Found m now s namespace query filter) xs
  From-Found entries [] filed h = tt
  From-Found entries (x ∷ xs) filed h =
      let (key, value, entry, passes, same) = h.0 in
      let (live, asked, matched) = accepted m now s namespace query filter key value passes in
      (
        subst (Found m now s namespace query filter) (sym same) (record {
          entries = entries;
          value = value;
          filed = filed;
          entry = entry;
          live = live;
          asked = asked;
          matched = matched;
          content = refl;
        }),
        From-Found entries xs filed h.1,
      )

  entries-Found :
      (o : Option (Dict (Dict Value))) (found : List SearchItem)
      → lookup (ns_key namespace) s.data_ ≡ o
      → search_entries
          (λ entries.
            scan_items
              (accepts m now s namespace query filter)
              (row now s namespace)
              limit
              entries
              [])
          offset
          o
        ≡ some (ok (some found))
      → Each (Found m now s namespace query filter) found × (1 ≤ limit → length found ≤ limit)
  entries-Found none found filed h = absurd cc
  entries-Found (some entries) found filed h =
      let test = accepts m now s namespace query filter in
      let (xs, scanned, paged) = from_offset-some offset _ found h in
      let all =
        scan_items-From test (row now s namespace) limit entries entries [] xs (λ k v e. e) tt
          scanned in
      (
        subst (Each (Found m now s namespace query filter)) paged (
            Each-page (Found m now s namespace query filter) offset xs
              (From-Found entries xs filed all)),
        λ pos.
            let few =
              length-scan_items test (row now s namespace) limit entries [] xs pos (omega arith)
                scanned in
            let fewer = length-page offset xs in
            subst (λ ys. length ys ≤ limit) paged (omega arith),
      )

  -- What SearchItems gives without an embedding are live values of the namespace that the query and the
  -- filter match, and with a limit above 0 they are at most that many, whatever the offset.
  pub search_items-Found :
      (found : List SearchItem)
      → embedding_of filter ≡ none
      → search_items m now s namespace query filter limit offset ≡ some (ok (some found))
      → Each (Found m now s namespace query filter) found × (1 ≤ limit → length found ≤ limit)
  unfolding search_items
  search_items-Found found plain h = entries-Found (lookup (ns_key namespace) s.data_) found refl (
      sym (ap (search_with m now s namespace query filter limit offset) plain)
      ∙ opened s.closed _ found h)
