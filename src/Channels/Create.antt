-- ===== src/Channels/Create.antt =====
-- CreateReducerChannel of graphengine/channels/reducer.go: the channel for a field of the state
-- schema. The addition of floats is the machine's: a parameter.
use harness_go.Base.{ℕ, String, ◌≡◌, refl, true, Option, none, some, [], ◌∷◌, insert_all}
use harness_go.Value.{
  GoType, int_type, float_type, slice_of, map_of, Value, type_value, struct, no_fields, dict,
  fields, of_fields, list, of_items,
}
use harness_go.Channels.LastValue.{new_last_value}
use harness_go.Channels.Aggregate
use harness_go.Channels.Aggregate.{is_overwrite, new_binary_operator_aggregate, rtype_struct}
use harness_go.Channels.Reducers.{int_add, list_append}
use harness_go.Channels.Plain.{Plain, last, aggregate}
use harness_go.Channels.Channel.{
  Reducer, Channel, of_plain, new_reducer_channel, with_key, update, checkpoint, is_available,
}

-- the operator for a map
unfoldable pub merge_operator : Value → Value → Value
unfolding insert_all
merge_operator (dict old) (dict new) =
    dict (of_fields (insert_all (fields new) (insert_all (fields old) [])))
merge_operator a b = b

abbrev wrap_if : Option Reducer → Channel → Channel
wrap_if none c = c
wrap_if (some f) c = new_reducer_channel c f

-- The type value itself is handed to the constructor as the channel's type.
unfoldable pub channel_of_kind : (ℕ → ℕ → ℕ) → GoType → Plain
unfolding new_binary_operator_aggregate new_last_value list_append int_add merge_operator
channel_of_kind float_add (slice_of t) =
    aggregate (new_binary_operator_aggregate (type_value (slice_of t)) list_append)
channel_of_kind float_add (map_of t) =
    aggregate (new_binary_operator_aggregate (type_value (map_of t)) merge_operator)
channel_of_kind float_add int_type =
    aggregate (new_binary_operator_aggregate (type_value int_type) (int_add float_add))
channel_of_kind float_add float_type =
    aggregate (new_binary_operator_aggregate (type_value float_type) (int_add float_add))
channel_of_kind float_add t = last (new_last_value (type_value t))

unfoldable pub create_reducer_channel : (ℕ → ℕ → ℕ) → String → GoType → Option Reducer → Channel
unfolding channel_of_kind with_key new_reducer_channel
create_reducer_channel float_add field_name t reducer =
    wrap_if reducer (with_key (of_plain (channel_of_kind float_add t)) field_name)

-- The channel for a slice field starts with the zero value of the struct behind `reflect.Type`, not
-- with an empty slice: it is available before any write, and a first value that does not overwrite
-- is put in a list behind that struct.
pub slice_channel_start :
    (float_add : ℕ → ℕ → ℕ) (field_name : String) (t : GoType) (v : Value)
    → is_overwrite v ≡ none
    → (is_available (create_reducer_channel float_add field_name (slice_of t) none) ≡ true)
      × (checkpoint
            (update (create_reducer_channel float_add field_name (slice_of t) none) (v ∷ [])).0
          ≡ list (of_items (struct rtype_struct no_fields ∷ v ∷ [])))
unfolding create_reducer_channel is_available update checkpoint Aggregate.update
slice_channel_start float_add field_name t v h = (refl, rw h refl)
