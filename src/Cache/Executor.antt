-- ===== src/Cache/Executor.antt =====
-- graphengine/pregel/cache.go: the interface Cache, its two implementations MemoryCache and
-- NoopCache, and CachedExecutor, which uses any of them.
use harness_go.Base.{ℕ, String, ◌≡◌, refl, sym, ◌∙◌, Option, none, some, List, [], ◌∷◌, map}
use harness_go.Value.{Value}
use harness_go.Errors.{Result, ok, err}
use harness_go.Clock.{Duration, pos}

-- The interface, with what a client relies on: whatever holds of the values that a cache has been
-- given, by their keys, holds of those that it gives.
pub record Cache (S : Type 0) : Type 1 where
  pub find : ℕ → S → String → S × Option Value
  pub store : ℕ → S → String → Value → Duration → S
  pub forget : S → String → S
  pub wipe : S → S
  pub Each : (String → Value → Type 0) → S → Type 0
  pub find_keeps :
      (P : String → Value → Type 0) (now : ℕ) (s : S) (key : String)
      → Each P s
      → Each P (find now s key).0
  pub find_gives :
      (P : String → Value → Type 0) (now : ℕ) (s : S) (key : String) (v : Value)
      → Each P s
      → (find now s key).1 ≡ some v
      → P key v
  pub store_keeps :
      (P : String → Value → Type 0) (now : ℕ) (s : S) (key : String) (v : Value) (ttl : Duration)
      → Each P s
      → P key v
      → Each P (store now s key v ttl)

-- CachePolicy of graphengine/types/types.go
pub record CachePolicy : Type 0 where
  pub key_func : Option (Value → String)
  pub ttl : Option Duration

-- the key without a policy's function: the node's name and a hash of the JSON text of the input
unfoldable pub generate_cache_key : (Value → String) → String → Value → String
generate_cache_key hash node_name input =
    Prim.Native.String.◌++◌ node_name (Prim.Native.String.◌++◌ ":" (hash input))

abbrev pub key_by : Option (Value → String) → (Value → String) → String → Value → String
key_by none hash node_name input = generate_cache_key hash node_name input
key_by (some key_func) hash node_name input = key_func input

abbrev pub cache_key : Option CachePolicy → (Value → String) → String → Value → String
cache_key none hash node_name input = generate_cache_key hash node_name input
cache_key (some policy) hash node_name input = key_by policy.key_func hash node_name input

abbrev ttl_or_none : Option Duration → Duration
ttl_or_none none = pos 0
ttl_or_none (some d) = d

abbrev pub policy_ttl : Option CachePolicy → Duration
policy_ttl none = pos 0
policy_ttl (some policy) = ttl_or_none policy.ttl

-- one call: when it looks in the cache, when it caches, the node and the input
pub record Call : Type 0 where
  pub now : ℕ
  pub later : ℕ
  pub node_name : String
  pub input : Value

module _ {S : Type 0} (cache : Cache S) (policy : Option CachePolicy) (hash : Value → String) where
  -- the result of the function is cached, at a later time
  abbrev computed : ℕ → String → S → Result Value → S × Result Value
  computed now key s (err e) = (s, err e)
  computed now key s (ok v) = (cache.store now s key v (policy_ttl policy), ok v)

  abbrev answered : ℕ → String → Result Value → S × Option Value → S × Result Value
  answered later key result (s, none) = computed later key s result
  answered later key result (s, some v) = (s, ok v)

  -- Execute; `result` is what the function answers if it is called.
  abbrev pub execute_with : ℕ → ℕ → S → String → Result Value → S × Result Value
  execute_with now later s key result = answered later key result (cache.find now s key)

  unfoldable pub execute : (Value → Result Value) → ℕ → ℕ → S → String → Value → S × Result Value
  unfolding generate_cache_key
  execute fn now later s node_name input =
      execute_with now later s (cache_key policy hash node_name input) (fn input)

  -- the calls of an engine, one after the other, with the cache that they share
  unfoldable pub execute_all : (String → Value → Result Value) → List Call → S → List (Result Value)
  unfolding execute
  execute_all fn [] s = []
  execute_all fn (c ∷ cs) s =
      let r = execute (fn c.node_name) c.now c.later s c.node_name c.input in
      r.1 ∷ execute_all fn cs r.0

  -- What the cache holds for a key is what the functions answer for every input with that key.
  abbrev pub Correct : (String → Value → Result Value) → String → Value → Type 0
  Correct fn key v =
      (node : String) (input : Value)
      → cache_key policy hash node input ≡ key
      → fn node input ≡ ok v

  module _ (fn : String → Value → Result Value)
      (same_key : (n m : String) (x y : Value)
        → cache_key policy hash n x ≡ cache_key policy hash m y
        → fn n x ≡ fn m y) where
    answered_right :
        (later : ℕ) (node : String) (input : Value) (r : S × Option Value)
        → cache.Each (Correct fn) r.0
        → ((v : Value) → r.1 ≡ some v → Correct fn (cache_key policy hash node input) v)
        → cache.Each
            (Correct fn)
            (answered later (cache_key policy hash node input) (fn node input) r).0
          × ((answered later (cache_key policy hash node input) (fn node input) r).1
              ≡ fn node input)
    answered_right later node input (s, some v) h g = (h, sym (g v refl node input refl))
    answered_right later node input (s, none) h g = filled (fn node input) refl
      where
        filled :
            (result : Result Value)
            → fn node input ≡ result
            → cache.Each (Correct fn) (computed later (cache_key policy hash node input) s result).0
              × ((computed later (cache_key policy hash node input) s result).1 ≡ result)
        filled (err e) same = (h, refl)
        filled (ok v) same = (
          cache.store_keeps (Correct fn) later s (cache_key policy hash node input) v
              (policy_ttl policy) h (λ n x k. same_key n node x input k ∙ same),
          refl,
        )

    execute-Correct :
        (now later : ℕ) (s : S) (node : String) (input : Value)
        → cache.Each (Correct fn) s
        → cache.Each (Correct fn) (execute (fn node) now later s node input).0
          × ((execute (fn node) now later s node input).1 ≡ fn node input)
    unfolding execute
    execute-Correct now later s node input h =
        answered_right later node input (cache.find now s (cache_key policy hash node input))
          (cache.find_keeps (Correct fn) now s (cache_key policy hash node input) h)
          (λ v e. cache.find_gives (Correct fn) now s (cache_key policy hash node input) v h e)

    -- Behind a cache of any kind whose values are correct, the calls answer what the functions
    -- answer, if two calls with the same key have the same answer.
    pub execute_all-map :
        (calls : List Call) (s : S)
        → cache.Each (Correct fn) s
        → execute_all fn calls s ≡ map (λ c. fn c.node_name c.input) calls
    unfolding execute_all
    execute_all-map [] s h = refl
    execute_all-map (c ∷ cs) s h =
        let one = execute-Correct c.now c.later s c.node_name c.input h in
        rw
          (
            one.1,
            execute_all-map cs (execute (fn c.node_name) c.now c.later s c.node_name c.input).0
                one.0,
          )
          refl
