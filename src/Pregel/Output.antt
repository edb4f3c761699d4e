-- ===== src/Pregel/Output.antt =====
-- graphengine/pregel/engine.go: what becomes of a node's output: its form as a map, the mapping of
-- its fields, and its merge into the last state.
pub mod Nested
use Prim.Native.Char.{Char, code}
use Prim.Native.String
use harness_go.Base.{
  String, Bool, true, false, not, ◌&&◌, Option, none, some, List, [], ◌∷◌, ◌==◌, Dict, lookup,
  insert, insert_all, get_or, nat_beq, leb, if◌then◌else◌,
}
use harness_go.Value.{
  Value, nil, missing, bool, int, float, str, list, dict, flags, overwrite, getter, type_value,
  slice, table, struct, struct_pointer, fields, of_fields, as_dict, is_nil,
}
use harness_go.Errors.{plain, Result, ok, err}
use harness_go.Graph.{FieldMapping}

-- toSnakeCase. A name is walked letter by letter; `first` tells the first one. The lower case of a
-- letter is the standard library's: a parameter.
unfoldable pub snake_letters : (Char → Char) → Bool → String → String
snake_letters lower first String.[] = String.[]
snake_letters lower first (String.◌∷◌ c s) =
    let rest = String.◌∷◌ (lower c) (snake_letters lower false s) in
    if not first && leb b'A' (code c) && leb (code c) b'Z'
    then String.◌∷◌ (lower "_") rest
    else rest

unfoldable pub to_snake_case : (Char → Char) → String → String
unfolding snake_letters
to_snake_case lower s = snake_letters lower true s

-- the loop over the exported fields of a struct
unfoldable pub snake_fields : (Char → Char) → Dict Value → Dict Value → Dict Value
unfolding to_snake_case insert
snake_fields lower [] m = m
snake_fields lower ((name, v) ∷ fs) m =
    snake_fields lower fs (insert (to_snake_case lower name) v m)

abbrev flag_entries : Dict Bool → Dict Value
flag_entries [] = []
flag_entries ((k, b) ∷ m) = (k, bool b) ∷ flag_entries m

-- toMap; the structs behind the sentinel, a type value and a getter have no exported field.
unfoldable pub to_map : (Char → Char) → Value → Result (Dict Value)
unfolding snake_fields
to_map lower nil = err (plain ("nil value" ∷ []))
to_map lower (dict fs) = ok (fields fs)
to_map lower (struct n fs) = ok (snake_fields lower (fields fs) [])
to_map lower (struct_pointer n fs) = ok (snake_fields lower (fields fs) [])
to_map lower (overwrite v) = ok (snake_fields lower (("Value", v) ∷ []) [])
to_map lower missing = ok []
to_map lower (getter v) = ok []
to_map lower (type_value t) = ok []
to_map lower (flags m) = ok (flag_entries m)
to_map lower (table t fs) = ok (fields fs)
to_map lower (bool b) = ok (("__root__", bool b) ∷ [])
to_map lower (int n) = ok (("__root__", int n) ∷ [])
to_map lower (float x) = ok (("__root__", float x) ∷ [])
to_map lower (str s) = ok (("__root__", str s) ∷ [])
to_map lower (list vs) = ok (("__root__", list vs) ∷ [])
to_map lower (slice t vs) = ok (("__root__", slice t vs) ∷ [])

-- mergeStates, where neither state is nil
abbrev merge_maps : Option (Dict Value) → Option (Dict Value) → Value → Value
merge_maps (some old) (some new) other = dict (of_fields (insert_all new (insert_all old [])))
merge_maps (some old) none other = other
merge_maps none new other = other

unfoldable pub merge_states : Value → Value → Value
unfolding insert_all
merge_states existing new =
    if is_nil existing
    then new
    else if is_nil new
    then existing
    else merge_maps (as_dict existing) (as_dict new) new

-- `strings.Split(path, ".")`; `word` is the part that has been read, and comes back whole.
abbrev pub push_letter : Char → List String → List String
push_letter c [] = String.◌∷◌ c String.[] ∷ []
push_letter c (w ∷ ws) = String.◌∷◌ c w ∷ ws

unfoldable pub split_dots : String → List String
split_dots String.[] = "" ∷ []
split_dots (String.◌∷◌ c s) =
    let rest = split_dots s in if nat_beq (code c) b'.' then "" ∷ rest else push_letter c rest

-- the loop of getNestedField
abbrev step_into : (Value → Value) → Option (Dict Value) → String → Value
step_into walk none part = nil
step_into walk (some m) part =
    let v = get_or (lookup part m) nil in if is_nil v then nil else walk v

unfoldable pub walk : List String → Value → Value
unfolding lookup
walk [] cur = cur
walk (part ∷ parts) cur = step_into (λ v. walk parts v) (as_dict cur) part

unfoldable pub get_nested_field : Dict Value → String → Value
unfolding walk split_dots
get_nested_field m path =
    if path == "" then dict (of_fields m) else walk (split_dots path) (dict (of_fields m))

-- The loop of setNestedField and the write behind it. Where a value on the way is no map, the loop
-- goes on in a new map that nothing holds, so the write is lost.
abbrev descend : (Dict Value → Dict Value) → Option Value → String → Dict Value → Dict Value
descend set none part m = insert part (dict (of_fields (set []))) m
descend set (some (dict fs)) part m = insert part (dict (of_fields (set (fields fs)))) m
descend set (some other) part m = m

unfoldable pub set_at : List String → Value → Dict Value → Dict Value
unfolding insert lookup
set_at [] v m = m
set_at (part ∷ []) v m = insert part v m
set_at (part ∷ next ∷ parts) v m =
    descend (λ sub. set_at (next ∷ parts) v sub) (lookup part m) part m

-- `none` is the panic of a value that is set at the root and is no map.
abbrev set_root : Option (Dict Value) → Dict Value → Option (Dict Value)
set_root none m = none
set_root (some new) m = some (insert_all new m)

unfoldable pub set_nested_field : Dict Value → String → Value → Option (Dict Value)
unfolding set_at split_dots insert_all
set_nested_field m path v =
    if path == "" then set_root (as_dict v) m else some (set_at (split_dots path) v m)

-- the loop of applyFieldMapping; `rest` is the loop over the mappings that follow
abbrev map_rest : Option (Dict Value) → (Dict Value → Option (Dict Value)) → Option (Dict Value)
map_rest none rest = none
map_rest (some r) rest = rest r

abbrev map_one :
    Value → Dict Value → String → (Dict Value → Option (Dict Value)) → Option (Dict Value)
map_one v result to rest =
    if is_nil v then rest result else map_rest (set_nested_field result to v) rest

unfoldable pub map_fields : Dict Value → List FieldMapping → Dict Value → Option (Dict Value)
unfolding get_nested_field set_nested_field
map_fields output [] result = some result
map_fields output (m ∷ ms) result =
    map_one (get_nested_field output m.from) result m.to (λ r. map_fields output ms r)

unfoldable pub apply_field_mapping : Dict Value → List FieldMapping → Option (Dict Value)
unfolding map_fields
apply_field_mapping output [] = some output
apply_field_mapping output (m ∷ ms) = map_fields output (m ∷ ms) []
