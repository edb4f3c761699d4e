-- ===== src/Cache/Tests.antt =====
-- Concrete uses of the cache (graphengine/pregel/cache.go).
use harness_go.Base.{◌≤◌, String, ◌≡◌, refl, none, some, List, [], ◌∷◌, map, length, Option}
use harness_go.Value.{Value, str, int, as_str}
use harness_go.Errors.{Result, ok}
use harness_go.Clock.{pos}
use harness_go.Cache.{evict_lru, new_memory_cache, get}
use harness_go.Cache.Size.{Op, set_op, get_op, run, room, length-run}
use harness_go.Cache.Executor.{CachePolicy, Call, execute_all}
use harness_go.Cache.Reads.{memory_cache, execute_all_transparent}

abbrev calls_of_cache : List Op
calls_of_cache =
    set_op 1 "a" (int 1) (pos 0)
    ∷ get_op 2 "a"
    ∷ set_op 3 "b" (int 2) (pos 0)
    ∷ set_op 4 "c" (int 3) (pos 0)
    ∷ []

length-run_example : length (run calls_of_cache (new_memory_cache 2 evict_lru)).entries ≤ room 2
length-run_example = length-run 2 evict_lru calls_of_cache (refl, (refl, (refl, tt)))

-- The entry whose last access is the oldest is evicted.
keeps_recent : (get 5 (run calls_of_cache (new_memory_cache 2 evict_lru)) "b").1 ≡ some (int 2)
unfolding get run new_memory_cache
keeps_recent = refl

abbrev text_of : Option String → String
text_of none = ""
text_of (some s) = s

-- a policy whose key is the input itself
abbrev by_input : CachePolicy
by_input = record { key_func = some (λ v. text_of (as_str v)); ttl = none }

abbrev constant : String → Value → Result Value
constant node v = ok (int 7)

abbrev two_calls : List Call
two_calls =
    record { now = 1; later = 2; node_name = "n"; input = str "x" }
    ∷ record { now = 3; later = 4; node_name = "n"; input = str "y" }
    ∷ []

execute_all_transparent_example :
    execute_all memory_cache
      (some by_input)
      (λ v. "h")
      constant
      two_calls
      (new_memory_cache 1 evict_lru)
    ≡ map (λ c. constant c.node_name c.input) two_calls
execute_all_transparent_example =
    execute_all_transparent 1 evict_lru (some by_input) (λ v. "h") constant two_calls
      (λ n m x y same. refl)
