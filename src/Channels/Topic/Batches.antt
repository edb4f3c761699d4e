-- ===== src/Channels/Topic/Batches.antt =====
-- What a topic holds after any batches of updates (graphengine/channels/topic.go).
use mathlib.Core.List.{append-nil, append_assoc}
use harness_go.Base.{
  ◌≡◌, refl, sym, ◌∙◌, true, false, List, [], ◌∷◌, ◌++◌, arith, Bool-cases, inl, inr, not, ◌&&◌,
  ◌||◌, ltb, length, if◌then◌else◌,
}
use harness_go.Value.{Value}
use harness_go.Errors.{ok}
use harness_go.Channels.Topic.{Topic, flatten, is_available, update}

abbrev pub updates : Topic → List (List Value) → Topic
updates c [] = c
updates c (vs ∷ batches) = updates (update c vs).0 batches

abbrev pub joined : List (List Value) → List Value
joined [] = []
joined (vs ∷ batches) = flatten vs ++ joined batches

values_when_empty : (kept flat : List Value) → ltb 0 (length flat) ≡ false → kept ++ flat ≡ kept
values_when_empty kept [] h = append-nil kept
values_when_empty kept (v ∷ vs) h = ground arith

update-values :
    (c : Topic) (vs : List Value)
    → (update c vs).0.values ≡ (if c.accumulate then c.values else []) ++ flatten vs
unfolding update
update-values c vs = elim (Bool-cases (ltb 0 (length (flatten vs)))) [
  | inl h ↦ rw h refl
  | inr h ↦ rw h (sym (values_when_empty (if c.accumulate then c.values else []) (flatten vs) h))
]

accumulate-update : (c : Topic) (vs : List Value) → (update c vs).0.accumulate ≡ c.accumulate
unfolding update
accumulate-update c vs = ground arith

-- An accumulating topic holds what it held, followed by all that the batches brought, in order.
pub updates_accumulate :
    (c : Topic) (batches : List (List Value))
    → c.accumulate ≡ true
    → (updates c batches).values ≡ c.values ++ joined batches
updates_accumulate c [] h = sym (append-nil c.values)
updates_accumulate c (vs ∷ batches) h =
    updates_accumulate (update c vs).0 batches (accumulate-update c vs ∙ h)
    ∙ rw (update-values c vs, h) (append_assoc c.values (flatten vs) (joined batches))

-- A topic that does not accumulate holds what the last batch brought, and nothing older.
pub updates_last :
    (c : Topic) (batches : List (List Value)) (vs : List Value)
    → c.accumulate ≡ false
    → (updates c (batches ++ vs ∷ [])).values ≡ flatten vs
updates_last c [] vs h = rw (update-values c vs, h) refl
updates_last c (us ∷ batches) vs h =
    updates_last (update c us).0 batches vs (accumulate-update c us ∙ h)

-- A batch is reported as an update exactly when it brings a value or clears one.
pub update_reported :
    (c : Topic) (vs : List Value)
    → (update c vs).1 ≡ ok (ltb 0 (length (flatten vs)) || (not c.accumulate && is_available c))
unfolding update is_available
update_reported c vs = ground arith
