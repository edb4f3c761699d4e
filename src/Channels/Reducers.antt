-- ===== src/Channels/Reducers.antt =====
-- The operators of graphengine/channels/binop.go and the reducers of
-- graphengine/channels/reducer.go. The addition of floats and `fmt.Sprint` are the machine's and
-- the standard library's: parameters.
pub mod Laws
use Prim.Native.String.{◌++◌ as text_append}
use harness_go.Base.{ℕ, String, [], ◌∷◌, ◌++◌, insert_all}
use harness_go.Value.{
  Value, nil, int, float, str, list, dict, items, of_items, fields, of_fields, add_int,
}

-- StringConcat
unfoldable pub string_concat : (Value → String) → Value → Value → Value
string_concat sprint (str a) (str b) = str (text_append a b)
string_concat sprint a b = str (text_append (sprint a) (sprint b))

-- IntAdd
unfoldable pub int_add : (ℕ → ℕ → ℕ) → Value → Value → Value
int_add float_add (int a) (int b) = int (add_int a b)
int_add float_add (float a) (float b) = float (float_add a b)
int_add float_add a b = a

-- ListAppend
unfoldable pub list_append : Value → Value → Value
list_append (list us) (list vs) = list (of_items (items us ++ items vs))
list_append (list us) b = list (of_items (items us ++ b ∷ []))
list_append a b = list (of_items (a ∷ b ∷ []))

-- AddReducer
unfoldable pub add_reducer : (ℕ → ℕ → ℕ) → Value → Value → Value
add_reducer float_add nil u = u
add_reducer float_add (int a) (int b) = int (add_int a b)
add_reducer float_add (float a) (float b) = float (float_add a b)
add_reducer float_add c u = u

-- AppendReducer
unfoldable pub append_reducer : Value → Value → Value
append_reducer nil u = list (of_items (u ∷ []))
append_reducer (list vs) u = list (of_items (items vs ++ u ∷ []))
append_reducer c u = list (of_items (c ∷ u ∷ []))

-- MergeReducer
unfoldable pub merge_reducer : Value → Value → Value
unfolding insert_all
merge_reducer nil u = u
merge_reducer (dict old) (dict new) =
    dict (of_fields (insert_all (fields new) (insert_all (fields old) [])))
merge_reducer c u = u
