-- ===== src/Channels/Channel/Reduce.antt =====
-- A reducer round a LastValue (graphengine/channels/reducer.go): any number of values in a step.
use harness_go.Base.{◌≡◌, refl, true, List, ◌∷◌, Bool-cases, inl, inr, if◌then◌else◌}
use harness_go.Value.{Value, is_missing}
use harness_go.Errors.{ok}
use harness_go.Channels.LastValue
use harness_go.Channels.LastValue.{LastValue}
use harness_go.Channels.Plain
use harness_go.Channels.Plain.{Plain, last}
use harness_go.Channels.Channel.{
  Reducer, of_plain, new_reducer_channel, combine, update_through, update,
}

-- A LastValue refuses two values in a step. With a reducer round it, it takes any number: the
-- step's values are folded in order, starting from the value that was there or from the first.
pub reducer_update :
    (c : LastValue) (f : Reducer) (v : Value) (vs : List Value)
    → update (new_reducer_channel (of_plain (last c)) f) (v ∷ vs) ≡ (
      new_reducer_channel
          (of_plain (
            last
              (record c { value = combine f (if is_missing c.value then v else f c.value v) vs })))
          f,
      ok true,
    )
unfolding new_reducer_channel update update_through Plain.get Plain.update LastValue.get
    LastValue.update
reducer_update c f v vs = elim (Bool-cases (is_missing c.value)) [
  | inl e ↦ rw e refl
  | inr e ↦ rw e refl
]
