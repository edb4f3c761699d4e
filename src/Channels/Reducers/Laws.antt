-- ===== src/Channels/Reducers/Laws.antt =====
-- The algebra of the operators and reducers of graphengine/channels: what makes the order in which
-- a step's writes are combined matter or not.
use mathlib.Core.List.{append-nil, append_assoc}
use harness_go.Base.{
  ℕ, String, ◌≡◌, refl, ap, ◌∙◌, List, [], ◌∷◌, ◌++◌, arith, Dict, lookup, or_else, Distinct, keys,
  insert_all-nil, lookup-insert_all,
}
use harness_go.Value.{
  Value, int, list, dict, of_items, items-of_items, of_fields, fields-of_fields, fields,
}
use harness_go.Channels.Reducers.{int_add, list_append, append_reducer, merge_reducer}
use harness_go.Channels.Aggregate.Fold.{fold}

-- IntAdd on three integers gives the same word in either grouping and in either order.
pub int_add_laws :
    (float_add : ℕ → ℕ → ℕ) (a b c : ℕ)
    → (int_add float_add (int_add float_add (int a) (int b)) (int c)
        ≡ int_add float_add (int a) (int_add float_add (int b) (int c)))
      × (int_add float_add (int a) (int b) ≡ int_add float_add (int b) (int a))
unfolding int_add
int_add_laws float_add a b c = (ap int (omega arith), ap int (omega arith))

abbrev pub joined : List (List Value) → List Value
joined [] = []
joined (vs ∷ rest) = vs ++ joined rest

abbrev pub as_list_values : List (List Value) → List Value
as_list_values [] = []
as_list_values (vs ∷ rest) = list (of_items vs) ∷ as_list_values rest

list_append-lists :
    (us vs : List Value)
    → list_append (list (of_items us)) (list (of_items vs)) ≡ list (of_items (us ++ vs))
unfolding list_append
list_append-lists us vs = rw (items-of_items us, items-of_items vs) refl

append_reducer-list :
    (us : List Value) (v : Value)
    → append_reducer (list (of_items us)) v ≡ list (of_items (us ++ v ∷ []))
unfolding append_reducer
append_reducer-list us v = rw (items-of_items us) refl

-- Folding ListAppend over lists puts them, in order, behind the list that was there.
pub list_append-fold :
    (old : List Value) (batches : List (List Value))
    → fold list_append (list (of_items old)) (as_list_values batches)
      ≡ list (of_items (old ++ joined batches))
list_append-fold old [] = rw append-nil refl
list_append-fold old (vs ∷ rest) =
    ap (λ t. fold list_append t (as_list_values rest)) (list_append-lists old vs)
    ∙ list_append-fold (old ++ vs) rest
    ∙ ap (λ t. list (of_items t)) (append_assoc old vs (joined rest))

-- Folding AppendReducer over any values puts each of them behind the list that was there, a list
-- as one item.
pub append_reducer-fold :
    (old vs : List Value)
    → fold append_reducer (list (of_items old)) vs ≡ list (of_items (old ++ vs))
append_reducer-fold old [] = rw append-nil refl
append_reducer-fold old (v ∷ vs) =
    ap (λ t. fold append_reducer t vs) (append_reducer-list old v)
    ∙ append_reducer-fold (old ++ v ∷ []) vs
    ∙ ap (λ t. list (of_items t)) (append_assoc old (v ∷ []) vs)

abbrev pub entries : Value → Dict Value
entries (dict fs) = fields fs
entries _ = []

-- Merging one map into another: a key of the update has the update's value, and any other key has
-- the value that it had.
pub lookup-merge_reducer :
    (old new : Dict Value) (k : String)
    → Distinct (keys old)
    → Distinct (keys new)
    → lookup k (entries (merge_reducer (dict (of_fields old)) (dict (of_fields new))))
      ≡ or_else (lookup k new) (lookup k old)
unfolding merge_reducer
lookup-merge_reducer old new k dold dnew =
    rw (fields-of_fields old, fields-of_fields new, insert_all-nil old dold)
      (rw fields-of_fields (lookup-insert_all k new old dnew))
