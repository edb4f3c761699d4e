-- ===== src/Store/Filter.antt =====
-- graphengine/store/memory.go: matchFilter and the comparisons that it makes. A comparison is none
-- where == panics, on two maps or two slices of the same type. The comparison of floats, of pointers
-- and of structs and the matching of patterns are parameters.
pub mod Order
use harness_go.Base.{
  ℕ, ◌+◌, ◌%◌, String, Bool, true, false, not, Option, none, some, List, [], ◌∷◌, ◌==◌, Dict,
  lookup, ltb, nat_beq, if◌then◌else◌,
}
use harness_go.Base.Order.{before}
use harness_go.Value.{
  Value, nil, missing, bool, int, float, str, list, dict, flags, overwrite, getter, type_value,
  slice, table, struct, struct_pointer, items, fields, is_nil,
}

pub record Comparisons : Type 0 where
  pub float_less : ℕ → ℕ → Bool
  pub float_equal : ℕ → ℕ → Bool
  pub other_equal : Value → Value → Option Bool
  pub matches : String → String → Option Bool  -- none for a pattern that does not compile

-- `<` on int, which holds 64 bits
abbrev pub biased : ℕ → ℕ
biased n = (n + 9223372036854775808) % 18446744073709551616

abbrev pub int_less : ℕ → ℕ → Bool
int_less a b = ltb (biased a) (biased b)

-- `<` on string
abbrev pub text_less : String → String → Bool
text_less a b = not (before b a)

abbrev same_bool : Bool → Bool → Bool
same_bool true b = b
same_bool false b = not b

-- what == gives for a value whose type cannot be compared
abbrev uncomparable : Bool → Option Bool
uncomparable same_type = if same_type then none else some false

-- equal
unfoldable pub equal : Comparisons → Value → Value → Option Bool
equal c nil b = some (is_nil b)
equal c (bool x) b = elim b [ bool y ↦ some (same_bool x y) | _ ↦ some false ]
equal c (int x) b = elim b [ int y ↦ some (nat_beq x y) | _ ↦ some false ]
equal c (float x) b = elim b [ float y ↦ some (c.float_equal x y) | _ ↦ some false ]
equal c (str x) b = elim b [ str y ↦ some (x == y) | _ ↦ some false ]
equal c (list x) b = uncomparable (elim b [ list y ↦ true | _ ↦ false ])
equal c (dict x) b = uncomparable (elim b [ dict y ↦ true | _ ↦ false ])
equal c (flags x) b = uncomparable (elim b [ flags y ↦ true | _ ↦ false ])
equal c missing b = c.other_equal missing b
equal c (overwrite x) b = c.other_equal (overwrite x) b
equal c (getter x) b = c.other_equal (getter x) b
equal c (type_value x) b = c.other_equal (type_value x) b
equal c (slice t x) b = c.other_equal (slice t x) b
equal c (table t x) b = c.other_equal (table t x) b
equal c (struct n x) b = c.other_equal (struct n x) b
equal c (struct_pointer n x) b = c.other_equal (struct_pointer n x) b

-- lessThan
unfoldable pub less_than : Comparisons → Value → Value → Bool
less_than c (int x) b = elim b [ int y ↦ int_less x y | _ ↦ false ]
less_than c (float x) b = elim b [ float y ↦ c.float_less x y | _ ↦ false ]
less_than c (str x) b = elim b [ str y ↦ text_less x y | _ ↦ false ]
less_than c _ b = false

-- greaterThan
unfoldable pub greater_than : Comparisons → Value → Value → Bool
greater_than c (int x) b = elim b [ int y ↦ int_less y x | _ ↦ false ]
greater_than c (float x) b = elim b [ float y ↦ c.float_less y x | _ ↦ false ]
greater_than c (str x) b = elim b [ str y ↦ text_less y x | _ ↦ false ]
greater_than c _ b = false

-- `||` and `!` on a comparison that may panic
abbrev pub or_equal : Bool → Option Bool → Option Bool
or_equal here rest = if here then some true else rest

abbrev pub negated : Option Bool → Option Bool
negated none = none
negated (some b) = some (not b)

abbrev or_else_in : Option Bool → Option Bool → Option Bool
or_else_in none rest = none
or_else_in (some true) rest = some true
or_else_in (some false) rest = rest

unfoldable pub in_list : Comparisons → Value → List Value → Option Bool
unfolding equal
in_list c value [] = some false
in_list c value (v ∷ vs) = or_else_in (equal c value v) (in_list c value vs)

-- inArray
unfoldable pub in_array : Comparisons → Value → Value → Option Bool
unfolding in_list
in_array c value array = elim array [ list vs ↦ in_list c value (items vs) | _ ↦ some false ]

abbrev matched : Option Bool → Bool
matched none = false
matched (some b) = b

-- regexMatch
unfoldable pub regex_match : Comparisons → Value → Value → Bool
regex_match c value pattern = elim value [
  | str text ↦ elim pattern [ str p ↦ matched (c.matches p text) | _ ↦ false ]
  | _ ↦ false
]

-- compare
unfoldable pub compare_by : Comparisons → Value → String → Value → Option Bool
unfolding equal less_than greater_than in_array regex_match
compare_by c field op v =
    if op == "$eq"
    then equal c field v
    else if op == "$ne"
    then negated (equal c field v)
    else if op == "$gt"
    then some (greater_than c field v)
    else if op == "$gte"
    then or_equal (greater_than c field v) (equal c field v)
    else if op == "$lt"
    then some (less_than c field v)
    else if op == "$lte"
    then or_equal (less_than c field v) (equal c field v)
    else if op == "$in"
    then in_array c field v
    else if op == "$nin"
    then negated (in_array c field v)
    else if op == "$regex"
    then some (regex_match c field v)
    else some false

-- one condition of a loop that returns at the first that fails
abbrev pub and_then : Option Bool → Option Bool → Option Bool
and_then none rest = none
and_then (some true) rest = rest
and_then (some false) rest = some false

unfoldable pub match_operators : Comparisons → Value → Dict Value → Option Bool
unfolding compare_by
match_operators c field [] = some true
match_operators c field ((op, v) ∷ m) =
    and_then (compare_by c field op v) (match_operators c field m)

abbrev by_condition : Comparisons → Value → Value → Option Bool
by_condition c field (dict operators) = match_operators c field (fields operators)
by_condition c field condition = compare_by c field "$eq" condition

abbrev match_condition : Comparisons → Option Value → Value → Option Bool
match_condition c none condition = some false
match_condition c (some field) condition = by_condition c field condition

-- matchFilter
unfoldable pub match_filter : Comparisons → Dict Value → Dict Value → Option Bool
unfolding lookup match_operators compare_by
match_filter c value [] = some true
match_filter c value ((field, condition) ∷ filter) =
    and_then (match_condition c (lookup field value) condition) (match_filter c value filter)
