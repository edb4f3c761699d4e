-- ===== src/Channels/Aggregate/Fold.antt =====
-- What an aggregate holds after an update (graphengine/channels/binop.go): the fold of the values
-- in front of the first overwrite, or the overwriting value.
use harness_go.Base.{
  ◌≡◌, refl, sym, ap, ◌∙◌, map, inl, inr, Bool, true, false, Option, none, some, List, [], ◌∷◌,
  Option-cases, Bool-cases,
}
use harness_go.Value.{Value, overwrite, is_missing}
use harness_go.Errors.{Result, ok, err, invalid_update}
use harness_go.Channels.Aggregate.{
  BinaryOperatorAggregate, is_overwrite, aggregate, update, is_available,
}

-- the values in front of the first overwrite
abbrev plain_one : Option Value → Value → List Value → List Value
plain_one none v rest = v ∷ rest
plain_one (some w) v rest = []

abbrev pub plain_prefix : List Value → List Value
plain_prefix [] = []
plain_prefix (v ∷ vs) = plain_one (is_overwrite v) v (plain_prefix vs)

-- the values that overwrite
abbrev overwriting_one : Option Value → List Value → List Value
overwriting_one none rest = rest
overwriting_one (some w) rest = w ∷ rest

abbrev pub overwriting : List Value → List Value
overwriting [] = []
overwriting (v ∷ vs) = overwriting_one (is_overwrite v) (overwriting vs)

abbrev pub fold : (Value → Value → Value) → Value → List Value → Value
fold op acc [] = acc
fold op acc (v ∷ vs) = fold op (op acc v) vs

abbrev pub too_many : Result Bool
too_many = err (invalid_update ("Can receive only one Overwrite value per super-step." ∷ []))

-- what the fold and the overwriting values leave
abbrev pub outcome : Value → List Value → Value × Result Bool
outcome folded [] = (folded, ok true)
outcome folded (w ∷ []) = (w, ok true)
outcome folded (w ∷ w' ∷ ws) = (w, too_many)

-- after an overwrite: another one is a fault, and other values are passed over
abbrev after_overwrite : Value → List Value → Value × Result Bool
after_overwrite value [] = (value, ok true)
after_overwrite value (w ∷ ws) = (value, too_many)

aggregate_seen :
    (op : Value → Value → Value) (vs : List Value) (value : Value)
    → aggregate op vs value true ≡ after_overwrite value (overwriting vs)
unfolding aggregate
aggregate_seen op [] value = refl
aggregate_seen op (v ∷ vs) value = elim (Option-cases (is_overwrite v)) [
  | inl e ↦ rw e (aggregate_seen op vs value)
  | inr (w, e) ↦ rw e refl
]

outcome-after :
    (folded w : Value) (ws : List Value) → outcome folded (w ∷ ws) ≡ after_overwrite w ws
outcome-after folded w [] = refl
outcome-after folded w (w' ∷ ws) = refl

-- The loop computes the outcome that the description gives.
pub aggregate_lem :
    (op : Value → Value → Value) (vs : List Value) (value : Value)
    → aggregate op vs value false ≡ outcome (fold op value (plain_prefix vs)) (overwriting vs)
unfolding aggregate
aggregate_lem op [] value = refl
aggregate_lem op (v ∷ vs) value = elim (Option-cases (is_overwrite v)) [
  | inl e ↦ rw e (aggregate_lem op vs (op value v))
  | inr (w, e) ↦ rw e (aggregate_seen op vs w ∙ sym (outcome-after value w (overwriting vs)))
]

-- An aggregate that holds a value folds in the values in front of the first overwrite, unless one
-- value overwrites: then that value stays, and with more than one the first stays with an error.
pub update-fold :
    (c : BinaryOperatorAggregate) (v : Value) (vs : List Value)
    → is_available c ≡ true
    → ((update c (v ∷ vs)).0.value, (update c (v ∷ vs)).1)
      ≡ outcome (fold c.operator c.value (plain_prefix (v ∷ vs))) (overwriting (v ∷ vs))
unfolding update is_available
update-fold c v vs h = elim (Bool-cases (is_missing c.value)) [
  | inl e ↦ absurd (cc)
  | inr e ↦ rw e (aggregate_lem c.operator (v ∷ vs) c.value)
]

plain_prefix-overwrite :
    (vs : List Value)
    → (plain_prefix (map overwrite vs) ≡ map overwrite vs) × (overwriting (map overwrite vs) ≡ [])
unfolding is_overwrite
plain_prefix-overwrite [] = (refl, refl)
plain_prefix-overwrite (v ∷ vs) = let ih = plain_prefix-overwrite vs in (rw ih.0, ih.1)

-- Values in the wrapper `*types.Overwrite` overwrite nothing: an aggregate that holds a value hands
-- each wrapper to its operator, however many there are, and reports no fault.
pub overwrite_not_seen :
    (c : BinaryOperatorAggregate) (v : Value) (vs : List Value)
    → is_available c ≡ true
    → ((update c (map overwrite (v ∷ vs))).0.value
        ≡ fold c.operator c.value (map overwrite (v ∷ vs)))
      × ((update c (map overwrite (v ∷ vs))).1 ≡ ok true)
overwrite_not_seen c v vs h =
    let same : outcome (fold c.operator c.value (plain_prefix (map overwrite (v ∷ vs))))
          (overwriting (map overwrite (v ∷ vs)))
        ≡ (fold c.operator c.value (map overwrite (v ∷ vs)), ok true) =
      rw ((plain_prefix-overwrite (v ∷ vs)).0, (plain_prefix-overwrite (v ∷ vs)).1) refl in
    let all = update-fold c (overwrite v) (map overwrite vs) h ∙ same in
    (ap (λ (t : Value × Result Bool). t.0) all, ap (λ (t : Value × Result Bool). t.1) all)
