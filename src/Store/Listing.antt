-- ===== src/Store/Listing.antt =====
-- What List and Search give (graphengine/store/memory.go).
use harness_go.Base.{
  ℕ, ◌≤◌, ◌<◌, String, ◌≡◌, refl, sym, subst, ◌∙◌, ap, Bool, true, false, ◌&&◌, ◌||◌, Option, none,
  some, List, [], ◌∷◌, ◌++◌, arith, Dict, lookup, length, length-append, elem, elem-append, is_some,
  ltb, leb, eq_iff, ◌==◌, Bool-cases, inl, inr,
}
use harness_go.Value.{Value}
use harness_go.Errors.{ok, err, Ensures}
use harness_go.Store.{
  InMemoryStore, ns_key, full_key, check_ttl, scan, scan_in, copied, read, copy_value, match_query,
  store_closed, get, search, list_keys,
}
use harness_go.Store.Sweep.{within, get-read, read-within}

module _ {ℓ} {A : Type ℓ} (accepts : String → Dict Value → Bool) (row : String → Dict Value → A)
    (limit : ℕ) where
  scan-bounded :
      (m : Dict (Dict Value)) (found : List A)
      → 1 ≤ limit
      → length found < limit
      → length (scan accepts row limit m found) ≤ limit
  unfolding scan
  scan-bounded [] found h b = omega arith
  scan-bounded ((key, value) ∷ m) found h b =
      let more = found ++ row key value ∷ [] in
      let sum = length-append found (row key value ∷ []) in
      elim (Bool-cases (accepts key value)) [
        | inr skipped ↦ rw skipped (scan-bounded m found h b)
        | inl taken ↦ elim (Bool-cases (ltb 0 limit && leb limit (length more))) [
          | inl full ↦ rw (taken, full) (omega arith)
          | inr room ↦ rw (taken, room) (scan-bounded m more h (ground arith))
        ]
      ]

-- Without a limit, the keys that are accepted.
elem-scan :
    (accepts : String → Bool) (k : String) (m : Dict (Dict Value)) (found : List String)
    → elem k (scan (λ key value. accepts key) (λ key value. key) 0 m found)
      ≡ (elem k found || (accepts k && is_some (lookup k m)))
unfolding scan lookup elem
elem-scan accepts k [] found = ground arith
elem-scan accepts k ((key, value) ∷ m) found = elim (Bool-cases (accepts key)) [
  | inl taken ↦
      rw (taken, elem-scan accepts k m (found ++ key ∷ []), elem-append k found (key ∷ []))
        (ground (arith, eq_iff key k))
  | inr skipped ↦ rw (skipped, elem-scan accepts k m found) (ground (arith, eq_iff key k))
]

abbrev pub BoundedBy {ℓ} : {A : Type ℓ} → ℕ → Option (List A) → Type 0
BoundedBy limit none = Unit
BoundedBy limit (some found) = length found ≤ limit

scan_in-bounded {ℓ} :
    {A : Type ℓ} (accepts : String → Dict Value → Bool) (row : String → Dict Value → A) (limit : ℕ)
    (o : Option (Dict (Dict Value)))
    → 1 ≤ limit
    → BoundedBy limit (scan_in accepts row limit o)
scan_in-bounded accepts row limit none h = tt
scan_in-bounded accepts row limit (some m) h = scan-bounded accepts row limit m [] h (omega arith)

-- With a limit above 0, Search finds at most that many values.
pub length-search :
    (lower : String → String) (now limit : ℕ) (s : InMemoryStore) (namespace : List String)
    (query : String)
    → 1 ≤ limit
    → Ensures (BoundedBy limit) (search lower now s namespace query limit)
unfolding search
length-search lower now limit s namespace query h = elim (Bool-cases s.closed) [
  | inl shut ↦ rw shut tt
  | inr is_open ↦ rw is_open (
      scan_in-bounded
        (λ key value.
          check_ttl now s (full_key (ns_key namespace) key)
          && (query == "" || match_query lower value query))
        (λ key value. copy_value value) limit (lookup (ns_key namespace) s.data_) h)
]

listed_exactly :
    (accepts : String → Bool) (key : String) (o : Option (Dict (Dict Value))) (ks : List String)
    → scan_in (λ k value. accepts k) (λ k value. k) 0 o ≡ some ks
    → elem key ks ≡ (accepts key && is_some (within o key))
unfolding elem
listed_exactly accepts key none ks h = cc
listed_exactly accepts key (some m) ks h =
    let same : scan (λ k value. accepts k) (λ k value. k) 0 m [] ≡ ks = cc in
    subst (λ x. elem key x ≡ (accepts key && is_some (lookup key m))) same
      (elem-scan accepts key m [])

is_some-copied : (o : Option (Dict Value)) → is_some (copied o) ≡ is_some o
is_some-copied none = refl
is_some-copied (some v) = refl

-- what a success gives
given {ℓ} : {A : Type ℓ} {a b : A} → ok a ≡ ok b → a ≡ b
given {A = A} {a = a} h = ap (λ r. elim r [ ok x ↦ x | err e ↦ a ]) h

list_keys-open :
    (now : ℕ) (s : InMemoryStore) (namespace : List String)
    → s.closed ≡ false
    → list_keys now s namespace 0
      ≡ ok (
          scan_in
            (λ k value. check_ttl now s (full_key (ns_key namespace) k))
            (λ k value. k)
            0
            (lookup (ns_key namespace) s.data_))
unfolding list_keys
list_keys-open now s namespace h = rw h refl

list_keys-closed :
    (now : ℕ) (s : InMemoryStore) (namespace : List String)
    → s.closed ≡ true
    → list_keys now s namespace 0 ≡ err store_closed
unfolding list_keys
list_keys-closed now s namespace h = rw h refl

found_live :
    (now : ℕ) (s : InMemoryStore) (ns key : String)
    → (check_ttl now s (full_key ns key) && is_some (within (lookup ns s.data_) key))
      ≡ is_some (read now s ns key)
unfolding check_ttl
found_live now s ns key =
    rw (read-within now s ns key) (ground (arith, is_some-copied (within (lookup ns s.data_) key)))

-- Without a limit, List gives a key exactly when Get finds a value for it.
pub list_keys-get :
    (now : ℕ) (s : InMemoryStore) (namespace : List String) (key : String) (ks : List String)
    (found : Option (Dict Value))
    → list_keys now s namespace 0 ≡ ok (some ks)
    → get now s namespace key ≡ ok found
    → elem key ks ≡ is_some found
list_keys-get now s namespace key ks found h g = elim (Bool-cases s.closed) [
  | inl shut ↦ absurd (not_closed shut)
  | inr is_open ↦
      listed_exactly (λ k. check_ttl now s (full_key (ns_key namespace) k)) key
        (lookup (ns_key namespace) s.data_) ks
        (given (sym (list_keys-open now s namespace is_open) ∙ h))
      ∙ found_live now s (ns_key namespace) key
      ∙ ap is_some (given (sym (get-read now s namespace key is_open) ∙ g))
]
  where
    not_closed : s.closed ≡ true → ⊥
    not_closed shut = let bad = list_keys-closed now s namespace shut in ground (arith, h)
