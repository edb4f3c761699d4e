-- ===== src/Value.antt =====
-- The dynamic values that the engine handles: Go's `interface{}`, with the dynamic types that the
-- source switches on, and the sentinel of graphengine/channels/base.go.
use harness_go.Base.{
  ℕ, ◌+◌, ◌%◌, ◌^◌, String, ◌≡◌, refl, ap, Bool, true, false, Option, none, some, List, [], ◌∷◌,
  Dict,
}

-- The types that `reflect` tells apart. A struct type is known by a number.
pub data GoType : Type 0 where
  bool_type int_type float_type string_type any_type : GoType
  slice_of : GoType → GoType
  map_of : GoType → GoType  -- map[string]T
  pointer_to : GoType → GoType
  struct_type : ℕ → GoType

mutual
  -- An `int` and a `float64` are the patterns of 64 bits that the machine holds.
  pub data Value : Type 0 where
    nil : Value
    missing : Value  -- *missingSentinel
    bool : Bool → Value
    int : ℕ → Value
    float : ℕ → Value
    str : String → Value
    list : Items → Value  -- []interface{}
    dict : Fields → Value  -- map[string]interface{}
    flags : List (String × Bool) → Value  -- map[string]bool
    overwrite : Value → Value  -- *types.Overwrite
    getter : Value → Value  -- a type with the method GetValue
    type_value : GoType → Value  -- a reflect.Type
    slice : GoType → Items → Value  -- any other slice type
    table : GoType → Fields → Value  -- any other map type, its keys printed by %v
    struct : ℕ → Fields → Value  -- a struct value and its exported fields
    struct_pointer : ℕ → Fields → Value

  pub data Items : Type 0 where
    no_items : Items
    item : Value → Items → Items

  pub data Fields : Type 0 where
    no_fields : Fields
    field : String → Value → Fields → Fields

abbrev pub items : Items → List Value
items no_items = []
items (item v vs) = v ∷ items vs

abbrev pub of_items : List Value → Items
of_items [] = no_items
of_items (v ∷ vs) = item v (of_items vs)

abbrev pub fields : Fields → Dict Value
fields no_fields = []
fields (field k v fs) = (k, v) ∷ fields fs

abbrev pub of_fields : Dict Value → Fields
of_fields [] = no_fields
of_fields ((k, v) ∷ m) = field k v (of_fields m)

pub items-of_items : (vs : List Value) → items (of_items vs) ≡ vs
items-of_items [] = refl
items-of_items (v ∷ vs) = ap (λ r. v ∷ r) (items-of_items vs)

pub fields-of_fields : (m : Dict Value) → fields (of_fields m) ≡ m
fields-of_fields [] = refl
fields-of_fields ((k, v) ∷ m) = ap (λ r. (k, v) ∷ r) (fields-of_fields m)

pub of_fields-fields : (fs : Fields) → of_fields (fields fs) ≡ fs
of_fields-fields no_fields = refl
of_fields-fields (field k v fs) = ap (λ r. field k v r) (of_fields-fields fs)

-- IsMissing
abbrev pub is_missing : Value → Bool
is_missing missing = true
is_missing _ = false

abbrev pub is_nil : Value → Bool
is_nil nil = true
is_nil _ = false

-- The type assertions `v.(T)`.
abbrev pub as_str : Value → Option String
as_str (str s) = some s
as_str _ = none

abbrev pub as_list : Value → Option (List Value)
as_list (list vs) = some (items vs)
as_list _ = none

abbrev pub as_dict : Value → Option (Dict Value)
as_dict (dict fs) = some (fields fs)
as_dict _ = none

abbrev pub as_flags : Value → Option (Dict Bool)
as_flags (flags m) = some m
as_flags _ = none

abbrev pub as_bool : Value → Option Bool
as_bool (bool b) = some b
as_bool _ = none

-- `int` addition wraps round.
abbrev pub add_int : ℕ → ℕ → ℕ
add_int a b = (a + b) % 2 ^ 64
