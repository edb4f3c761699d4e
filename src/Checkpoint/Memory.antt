-- ===== src/Checkpoint/Memory.antt =====
-- graphengine/checkpoint/memory.go: MemorySaver. The time of an entry is left out, the fresh
-- identifier of an entry is an argument, and so is the copy of a value by its JSON text.
pub mod RoundTrip
pub mod Listing
use harness_go.Base.{
  ℕ, zero, suc, ◌-◌, String, ◌||◌, Option, none, some, List, [], ◌∷◌, ◌++◌, ◌==◌, Dict, lookup,
  insert, get_or, last?, length, leb, ltb, nat_beq, if◌then◌else◌,
}
use harness_go.Value.{Value, as_str}
use harness_go.Errors.{Err, plain, Result, ok, err}
use harness_go.Checkpoint.Copy.{deep_copy_map}

pub record Entry : Type 0 where
  pub id : String
  pub thread_id : String
  pub checkpoint : Dict Value
  pub metadata : Dict Value
  pub parent_id : String

pub record MemorySaver : Type 0 where
  pub checkpoints : Dict (Dict Value)
  pub versions : Dict (List Entry)

unfoldable pub new_memory_saver : MemorySaver
new_memory_saver = record { checkpoints = []; versions = [] }

-- `config[key].(string)`
abbrev text_in : Option Value → Option String
text_in none = none
text_in (some v) = as_str v

unfoldable pub text_at : String → Dict Value → Option String
unfolding lookup
text_at key config = text_in (lookup key config)

abbrev pub thread_key : String
thread_key = "thread_id"

abbrev pub checkpoint_key : String
checkpoint_key = "checkpoint_id"

-- `s.versions[threadID]`, which is empty for a thread that is not there
unfoldable pub entries_of : MemorySaver → String → List Entry
unfolding lookup
entries_of s thread = get_or (lookup thread s.versions) []

-- the loop that looks for an identifier
unfoldable pub find_entry : String → List Entry → Option Entry
find_entry id [] = none
find_entry id (e ∷ es) = if e.id == id then some e else find_entry id es

module _ (json_copy : Value → Value) where
  abbrev copied : Option Entry → Option (Dict Value)
  copied none = none
  copied (some e) = some (deep_copy_map json_copy e.checkpoint)

  abbrev found_or_error : String → Option Entry → Result (Option (Dict Value))
  found_or_error id none = err (plain ("checkpoint not found" ∷ id ∷ []))
  found_or_error id (some e) = ok (some (deep_copy_map json_copy e.checkpoint))

  -- the entry of a thread that is asked for, or the latest
  abbrev pub get_from : List Entry → Option String → Result (Option (Dict Value))
  get_from es none = ok (copied (last? es))
  get_from es (some id) = found_or_error id (find_entry id es)

  abbrev pub get_of : MemorySaver → Option String → Option String → Result (Option (Dict Value))
  get_of s none id = err (plain ("thread_id is required" ∷ []))
  get_of s (some thread) id = get_from (entries_of s thread) id

  -- Get; a thread without checkpoints gives none
  unfoldable pub get : MemorySaver → Dict Value → Result (Option (Dict Value))
  unfolding text_at entries_of find_entry deep_copy_map
  get s config = get_of s (text_at thread_key config) (text_at checkpoint_key config)

  abbrev pub new_entry : String → String → Dict Value → Dict Value → Entry
  new_entry fresh thread config checkpoint = record {
    id = get_or (text_at checkpoint_key config) fresh;
    thread_id = thread;
    checkpoint = deep_copy_map json_copy checkpoint;
    metadata = deep_copy_map json_copy config;
    parent_id = get_or (text_at "parent_checkpoint_id" config) "";
  }

  abbrev pub put_in :
      Option String → String → MemorySaver → Dict Value → Dict Value → MemorySaver × Option Err
  put_in none fresh s config checkpoint = (s, some (plain ("thread_id is required" ∷ [])))
  put_in (some thread) fresh s config checkpoint = (
    record {
      checkpoints = insert thread (deep_copy_map json_copy checkpoint) s.checkpoints;
      versions =
          insert thread (entries_of s thread ++ new_entry fresh thread config checkpoint ∷ [])
            s.versions;
    },
    none,
  )

  -- Put
  unfoldable pub put : String → MemorySaver → Dict Value → Dict Value → MemorySaver × Option Err
  unfolding text_at entries_of deep_copy_map insert
  put fresh s config checkpoint = put_in (text_at thread_key config) fresh s config checkpoint

-- GetState gives the stored maps themselves, and none for a thread without checkpoints.
abbrev state_of : Entry → Dict Value × Dict Value
state_of e = (e.checkpoint, e.metadata)

abbrev latest_state : Option Entry → Option (Dict Value × Dict Value)
latest_state none = none
latest_state (some e) = some (state_of e)

abbrev found_state : String → Option Entry → Result (Option (Dict Value × Dict Value))
found_state id none = err (plain ("checkpoint not found" ∷ id ∷ []))
found_state id (some e) = ok (some (state_of e))

abbrev state_from : List Entry → Option String → Result (Option (Dict Value × Dict Value))
state_from es none = ok (latest_state (last? es))
state_from es (some id) = found_state id (find_entry id es)

abbrev state_in :
    MemorySaver → Option String → Option String → Result (Option (Dict Value × Dict Value))
state_in s none id = err (plain ("thread_id is required" ∷ []))
state_in s (some thread) id = state_from (entries_of s thread) id

unfoldable pub get_state : MemorySaver → Dict Value → Result (Option (Dict Value × Dict Value))
unfolding text_at entries_of find_entry
get_state s config = state_in s (text_at thread_key config) (text_at checkpoint_key config)

-- the loop of List: from the last entry down to the index `low`; `i` entries are in front
abbrev pub entry_at : List Entry → ℕ → List Entry → List Entry
entry_at [] i rest = rest
entry_at (e ∷ es) zero rest = e ∷ rest
entry_at (e ∷ es) (suc i) rest = entry_at es i rest

unfoldable pub list_down : List Entry → ℕ → ℕ → List Entry
list_down es low zero = []
list_down es low (suc i) =
    let rest = list_down es low i in if leb low i then entry_at es i rest else []

-- List, with a limit that is not negative; 0 is no limit. The rows of the result are the entries.
abbrev pub list_from : Option String → MemorySaver → ℕ → Result (List Entry)
list_from none s limit = err (plain ("thread_id is required" ∷ []))
list_from (some thread) s limit =
    let es = entries_of s thread in
    let n = if nat_beq limit 0 || ltb (length es) limit then length es else limit in
    ok (list_down es (length es - n) (length es))

unfoldable pub list_entries : MemorySaver → Dict Value → ℕ → Result (List Entry)
unfolding text_at entries_of list_down
list_entries s config limit = list_from (text_at thread_key config) s limit
