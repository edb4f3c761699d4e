-- ===== src/Checkpoint/Copy.antt =====
-- graphengine/checkpoint/checkpoint.go, deepCopy: a copy through maps and lists. Any other value is
-- copied by way of its JSON text, which is the standard library's: a parameter.
use harness_go.Base.{◌≡◌, refl, ap, Dict}
use harness_go.Value.{
  Value, Items, Fields, nil, missing, bool, int, float, str, list, dict, flags, overwrite, getter,
  type_value, slice, table, struct, struct_pointer, no_items, item, no_fields, field, fields,
  of_fields,
}

module _ (json_copy : Value → Value) where
  unfoldable mutual
    pub deep_copy : Value → Value
    deep_copy nil = nil
    deep_copy (dict fs) = dict (copy_fields fs)
    deep_copy (list vs) = list (copy_items vs)
    deep_copy v = json_copy v

    pub copy_items : Items → Items
    copy_items no_items = no_items
    copy_items (item v vs) = item (deep_copy v) (copy_items vs)

    pub copy_fields : Fields → Fields
    copy_fields no_fields = no_fields
    copy_fields (field k v fs) = field k (deep_copy v) (copy_fields fs)

  unfoldable pub deep_copy_map : Dict Value → Dict Value
  unfolding copy_fields
  deep_copy_map m = fields (copy_fields (of_fields m))

  module _ (again : (v : Value) → deep_copy (json_copy v) ≡ json_copy v) where
    mutual
      unfolding deep_copy copy_items copy_fields

      copy_value_twice : (v : Value) → deep_copy (deep_copy v) ≡ deep_copy v
      copy_value_twice nil = refl
      copy_value_twice (dict fs) = ap dict (copy_fields_twice fs)
      copy_value_twice (list vs) = ap list (copy_items_twice vs)
      copy_value_twice missing = again missing
      copy_value_twice (bool b) = again (bool b)
      copy_value_twice (int n) = again (int n)
      copy_value_twice (float x) = again (float x)
      copy_value_twice (str s) = again (str s)
      copy_value_twice (flags m) = again (flags m)
      copy_value_twice (overwrite v) = again (overwrite v)
      copy_value_twice (getter v) = again (getter v)
      copy_value_twice (type_value t) = again (type_value t)
      copy_value_twice (slice t vs) = again (slice t vs)
      copy_value_twice (table t fs) = again (table t fs)
      copy_value_twice (struct n fs) = again (struct n fs)
      copy_value_twice (struct_pointer n fs) = again (struct_pointer n fs)

      copy_items_twice : (vs : Items) → copy_items (copy_items vs) ≡ copy_items vs
      copy_items_twice no_items = refl
      copy_items_twice (item v vs) =
          let head = copy_value_twice v in let tail = copy_items_twice vs in cc

      pub copy_fields_twice : (fs : Fields) → copy_fields (copy_fields fs) ≡ copy_fields fs
      copy_fields_twice no_fields = refl
      copy_fields_twice (field k v fs) =
          let head = copy_value_twice v in let tail = copy_fields_twice fs in cc
