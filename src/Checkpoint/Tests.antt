-- ===== src/Checkpoint/Tests.antt =====
-- Concrete uses of the memory saver (graphengine/checkpoint/memory.go).
use harness_go.Base.{◌≡◌, ◌≤◌, refl, true, none, some, [], ◌∷◌, Dict, lookup, insert, length, arith}
use harness_go.Value.{
  Value, nil, missing, bool, int, float, str, list, dict, flags, overwrite, getter, type_value,
  slice, table, struct, struct_pointer, of_fields,
}
use harness_go.Errors.{ok}
use harness_go.Checkpoint.Copy.{deep_copy, deep_copy_map}
use harness_go.Checkpoint.Memory.{
  Entry, MemorySaver, new_memory_saver, text_at, thread_key, checkpoint_key, entries_of, find_entry,
  get, put, list_entries, new_entry,
}
use harness_go.Checkpoint.Memory.RoundTrip.{get-put_latest}
use harness_go.Checkpoint.Memory.Listing.{length-list_entries}

-- a copy that keeps texts and truth values and nothing else
abbrev plain_copy : Value → Value
plain_copy (bool b) = bool b
plain_copy (str s) = str s
plain_copy _ = nil

plain_copy-again : (v : Value) → deep_copy plain_copy (plain_copy v) ≡ plain_copy v
unfolding deep_copy
plain_copy-again (bool b) = refl
plain_copy-again (str s) = refl
plain_copy-again nil = refl
plain_copy-again missing = refl
plain_copy-again (int n) = refl
plain_copy-again (float x) = refl
plain_copy-again (list vs) = refl
plain_copy-again (dict fs) = refl
plain_copy-again (flags m) = refl
plain_copy-again (overwrite v) = refl
plain_copy-again (getter v) = refl
plain_copy-again (type_value t) = refl
plain_copy-again (slice t vs) = refl
plain_copy-again (table t fs) = refl
plain_copy-again (struct n fs) = refl
plain_copy-again (struct_pointer n fs) = refl

abbrev thread : Dict Value
thread = ("thread_id", str "t") ∷ []

abbrev other_thread : Dict Value
other_thread = ("thread_id", str "u") ∷ []

abbrev first_id : Dict Value
first_id = ("thread_id", str "t") ∷ ("checkpoint_id", str "one") ∷ []

abbrev state : Dict Value
state = ("name", str "x") ∷ ("inner", dict (of_fields (("on", bool true) ∷ []))) ∷ []

abbrev saved : MemorySaver
saved = (put plain_copy "id" new_memory_saver first_id state).0

thread-latest : text_at checkpoint_key thread ≡ none
unfolding text_at lookup
thread-latest = refl

first-text : text_at thread_key first_id ≡ some "t"
unfolding text_at lookup
first-text = refl

first-id : text_at checkpoint_key first_id ≡ some "one"
unfolding text_at lookup
first-id = refl

thread-text : text_at thread_key thread ≡ some "t"
unfolding text_at lookup
thread-text = refl

get-put_latest_example :
    get plain_copy (put plain_copy "id" saved thread state).0 thread
    ≡ ok (some (deep_copy_map plain_copy state))
get-put_latest_example =
    get-put_latest plain_copy "id" saved thread state "t" thread thread-text thread-text
      thread-latest plain_copy-again

other-text : text_at thread_key other_thread ≡ some "u"
unfolding text_at lookup
other-text = refl

nothing-saved : find_entry "one" (entries_of new_memory_saver "t") ≡ none
unfolding find_entry entries_of new_memory_saver lookup
nothing-saved = refl

abbrev first_entry : Entry
first_entry = new_entry plain_copy "id" "t" first_id state

first-found : find_entry "one" (entries_of saved "t") ≡ some first_entry
unfolding put find_entry entries_of new_memory_saver lookup insert text_at deep_copy_map
first-found = refl

saved-listed : list_entries saved thread 0 ≡ ok (first_entry ∷ [])
unfolding list_entries put entries_of new_memory_saver lookup insert text_at deep_copy_map
saved-listed = refl

saved-limited : list_entries saved thread 1 ≡ ok (first_entry ∷ [])
unfolding list_entries put entries_of new_memory_saver lookup insert text_at deep_copy_map
saved-limited = refl

length-list_entries_example : length (first_entry ∷ []) ≤ 1
length-list_entries_example =
    length-list_entries saved thread 1 (first_entry ∷ []) (omega arith) saved-limited
