-- ===== src/Store/Namespaces.antt =====
-- graphengine/store/memory.go: ListNamespaces. The namespaces are known by their joined names, which
-- are split again.
use harness_go.Base.{
  ℕ, zero, suc, ◌-◌, ◌≤◌, String, ◌≡◌, refl, ap, sym, subst, Bool, true, false, ◌&&◌, Option, none,
  some, List, [], ◌∷◌, ◌++◌, ◌==◌, arith, Dict, lookup, insert, is_some, length, take, ltb, leb,
  split_at, join_at, if◌then◌else◌, Bool-cases, inl, inr,
}
use harness_go.Value.{Value}
use harness_go.Errors.{Result, ok, err, Ensures}
use harness_go.Store.{InMemoryStore, store_closed}

pub record MatchCondition : Type 0 where
  pub match_type : String
  pub path : List String

-- the loop over a path, when the namespace is at least as long
abbrev begins_with : List String → List String → Bool
begins_with [] namespace = true
begins_with (p ∷ ps) [] = false
begins_with (p ∷ ps) (n ∷ namespace) = n == p && begins_with ps namespace

abbrev pub drop {ℓ} : {A : Type ℓ} → ℕ → List A → List A
drop zero xs = xs
drop (suc n) [] = []
drop (suc n) (x ∷ xs) = drop n xs

-- the loop of matchNamespaceConditions
abbrev match_each : List String → List MatchCondition → Bool
match_each namespace [] = false
match_each namespace (c ∷ cs) =
    let rest = match_each namespace cs in
    let short = ltb (length namespace) (length c.path) in
    if c.match_type == "prefix"
    then (if short then false else begins_with c.path namespace)
    else if c.match_type == "suffix"
    then (if short
        then false
        else begins_with c.path (drop (length namespace - length c.path) namespace))
    else rest

abbrev pub match_conditions : List String → List MatchCondition → Bool
match_conditions namespace [] = true
match_conditions namespace (c ∷ cs) = match_each namespace (c ∷ cs)

-- the prefixes of a namespace, under their joined names; `front` has been passed
unfoldable pub add_prefixes : List String → List String → Dict (List String) → Dict (List String)
unfolding lookup insert join_at
add_prefixes front [] set = set
add_prefixes front (part ∷ parts) set =
    let here = front ++ part ∷ [] in
    let name = join_at "|" here in
    let kept = add_prefixes here parts set in
    let added = add_prefixes here parts (insert name here set) in
    if is_some (lookup name set) then kept else added

unfoldable pub namespace_set : Dict (Dict (Dict Value)) → Dict (List String) → Dict (List String)
unfolding add_prefixes split_at
namespace_set [] set = set
namespace_set ((ns, m) ∷ rest) set = namespace_set rest (add_prefixes [] (split_at "|" ns) set)

abbrev pub filtered : List MatchCondition → Dict (List String) → List (List String)
filtered conditions [] = []
filtered conditions ((name, namespace) ∷ set) =
    let rest = filtered conditions set in
    if match_conditions namespace conditions then namespace ∷ rest else rest

abbrev pub at_depth : Option ℕ → List (List String) → List (List String)
at_depth none namespaces = namespaces
at_depth (some d) [] = []
at_depth (some d) (n ∷ namespaces) =
    let rest = at_depth (some d) namespaces in if leb (length n) d then n ∷ rest else rest

-- The offset and the limit; 0 stands for any that is not positive.
abbrev pub page {ℓ} : {A : Type ℓ} → ℕ → ℕ → List A → List A
page limit offset xs =
    let from = if ltb 0 offset && ltb offset (length xs) then drop offset xs else xs in
    if ltb 0 limit && ltb limit (length from) then take limit from else from

-- ListNamespaces
unfoldable pub list_namespaces :
    InMemoryStore → List MatchCondition → Option ℕ → ℕ → ℕ → Result (List (List String))
unfolding namespace_set
list_namespaces s conditions max_depth limit offset =
    if s.closed
    then err store_closed
    else ok
        (page limit offset (at_depth max_depth (filtered conditions (namespace_set s.data_ []))))

page_far {ℓ} :
    {A : Type ℓ} (limit offset : ℕ) (xs : List A)
    → length xs ≤ offset
    → page limit offset xs ≡ page limit 0 xs
page_far limit offset xs h =
    let past : (ltb 0 offset && ltb offset (length xs)) ≡ false = ground arith in rw past refl

-- An offset behind the end takes the list from its start again: it gives what no offset gives.
pub page_past_end :
    (s : InMemoryStore) (conditions : List MatchCondition) (max_depth : Option ℕ) (limit offset : ℕ)
    (all : List (List String))
    → list_namespaces s conditions max_depth 0 0 ≡ ok all
    → length all ≤ offset
    → list_namespaces s conditions max_depth limit offset
      ≡ list_namespaces s conditions max_depth limit 0
unfolding list_namespaces
page_past_end s conditions max_depth limit offset all h le = elim (Bool-cases s.closed) [
  | inl shut ↦ rw shut refl
  | inr is_open ↦
      let xs = at_depth max_depth (filtered conditions (namespace_set s.data_ [])) in
      let same : ok xs ≡ ok all = rw is_open at h in
      rw is_open
        (ap ok (page_far limit offset xs (subst (Ensures (λ a. length a ≤ offset)) (sym same) le)))
]
