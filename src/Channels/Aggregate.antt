-- ===== src/Channels/Aggregate.antt =====
-- graphengine/channels/binop.go: the channel that folds a binary operator over its updates.
pub mod Fold
use harness_go.Base.{
  ℕ, Bool, true, false, not, Option, none, some, List, [], ◌∷◌, Dict, lookup, nat_beq, length,
  if◌then◌else◌,
}
use harness_go.Value.{
  GoType, bool_type, int_type, float_type, string_type, any_type, slice_of, map_of, pointer_to,
  struct_type, Value, nil, missing, bool, int, float, str, list, dict, flags, overwrite, getter,
  type_value, slice, table, struct, struct_pointer, no_items, no_fields, fields, is_missing,
}
use harness_go.Errors.{Result, ok, err, empty_channel, invalid_update}
use harness_go.Channels.Common.{BaseChannel, new_base}

pub record BinaryOperatorAggregate : Type 0 where
  pub base : BaseChannel
  pub value : Value
  pub operator : Value → Value → Value

-- The number of the struct type `reflect.rtype`, to which a `reflect.Type` points, and the numbers
-- of two struct types of the program.
abbrev pub rtype_struct : ℕ
rtype_struct = 0

abbrev missing_struct : ℕ
missing_struct = 1

abbrev overwrite_struct : ℕ
overwrite_struct = 2

abbrev getter_struct : ℕ
getter_struct = 3

-- `reflect.TypeOf`, at a value that is not the untyped nil
unfoldable pub type_of : Value → GoType
type_of nil = any_type
type_of missing = pointer_to (struct_type missing_struct)
type_of (bool b) = bool_type
type_of (int n) = int_type
type_of (float x) = float_type
type_of (str s) = string_type
type_of (list vs) = slice_of any_type
type_of (dict fs) = map_of any_type
type_of (flags m) = map_of bool_type
type_of (overwrite v) = pointer_to (struct_type overwrite_struct)
type_of (getter v) = pointer_to (struct_type getter_struct)
type_of (type_value t) = pointer_to (struct_type rtype_struct)
type_of (slice t vs) = slice_of t
type_of (table t fs) = map_of t
type_of (struct n fs) = struct_type n
type_of (struct_pointer n fs) = pointer_to (struct_type n)

-- An empty slice or map, or `reflect.Zero`; the fields of a zero struct are not told.
unfoldable pub zero_of : GoType → Value
zero_of bool_type = bool false
zero_of int_type = int 0
zero_of float_type = float 0
zero_of string_type = str ""
zero_of any_type = nil
zero_of (slice_of any_type) = list no_items
zero_of (slice_of t) = slice t no_items
zero_of (map_of any_type) = dict no_fields
zero_of (map_of bool_type) = flags []
zero_of (map_of t) = table t no_fields
zero_of (pointer_to t) = nil
zero_of (struct_type n) = struct n no_fields

-- `rt.Elem()` of a pointer
abbrev element : GoType → GoType
element (pointer_to t) = t
element t = t

unfoldable pub create_zero_value : Value → Value
unfolding type_of zero_of
create_zero_value nil = missing
create_zero_value v = zero_of (element (type_of v))

unfoldable pub new_binary_operator_aggregate :
    Value → (Value → Value → Value) → BinaryOperatorAggregate
unfolding create_zero_value
new_binary_operator_aggregate typ operator = record {
  base = new_base typ;
  value = create_zero_value typ;
  operator = operator;
}

unfoldable pub get : BinaryOperatorAggregate → Result Value
get c = if is_missing c.value then err empty_channel else ok c.value

unfoldable pub is_available : BinaryOperatorAggregate → Bool
is_available c = not (is_missing c.value)

-- a map that holds the one key "__overwrite__"
abbrev overwrite_entry : Dict Value → Option Value
overwrite_entry m = if nat_beq (length m) 1 then lookup "__overwrite__" m else none

-- isOverwrite: `*types.Overwrite` has no method GetValue, so it is not recognised.
unfoldable pub is_overwrite : Value → Option Value
unfolding lookup
is_overwrite (getter v) = some v
is_overwrite (dict fs) = overwrite_entry (fields fs)
is_overwrite _ = none

-- The loop of Update. `rest` is the loop over the values that follow.
abbrev aggregate_one :
    (Value → Value → Value)
    → Option Value
    → Value
    → (Value → Bool → Value × Result Bool)
    → Value
    → Bool
    → Value × Result Bool
aggregate_one op (some w) v rest value seen =
    if seen
    then (value, err (invalid_update ("Can receive only one Overwrite value per super-step." ∷ [])))
    else rest w true
aggregate_one op none v rest value seen = rest (if seen then value else op value v) seen

unfoldable pub aggregate : (Value → Value → Value) → List Value → Value → Bool → Value × Result Bool
unfolding is_overwrite
aggregate op [] value seen = (value, ok true)
aggregate op (v ∷ vs) value seen =
    aggregate_one op (is_overwrite v) v (λ w s. aggregate op vs w s) value seen

unfoldable pub update : BinaryOperatorAggregate → List Value → BinaryOperatorAggregate × Result Bool
unfolding aggregate
update c [] = (c, ok false)
update c (v ∷ vs) =
    let (value, r) =
      if is_missing c.value
      then aggregate c.operator vs v false
      else aggregate c.operator (v ∷ vs) c.value false in
    (record c { value = value }, r)

unfoldable pub copy : BinaryOperatorAggregate → BinaryOperatorAggregate
unfolding new_binary_operator_aggregate
copy c =
    let n = new_binary_operator_aggregate c.base.typ c.operator in
    record n { base = record (n.base) { key = c.base.key }; value = c.value }

unfoldable pub checkpoint : BinaryOperatorAggregate → Value
checkpoint c = c.value

unfoldable pub from_checkpoint : BinaryOperatorAggregate → Value → BinaryOperatorAggregate
unfolding new_binary_operator_aggregate
from_checkpoint c cp =
    let n = new_binary_operator_aggregate c.base.typ c.operator in
    let n' = record n { base = record (n.base) { key = c.base.key } } in
    if is_missing cp then n' else record n' { value = cp }
