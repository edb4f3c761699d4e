-- ===== src/Channels/Tests.antt =====
-- Concrete runs of the channels, the reducers and the registry (graphengine/channels).
use harness_go.Base.{
  String, ◌≡◌, refl, ◌↔◌, true, false, none, some, List, [], ◌∷◌, ◌++◌, Dict, lookup, keys, elem,
  Distinct, Subset, insert,
}
use harness_go.Value.{Value, nil, int, str, list, of_items}
use harness_go.Channels.Common.{new_base}
use harness_go.Channels.LastValue.{new_last_value}
use harness_go.Channels.Topic
use harness_go.Channels.Topic.{Topic, new_topic}
use harness_go.Channels.Topic.Batches
use harness_go.Channels.Topic.Batches.{joined, updates_accumulate}
use harness_go.Channels.Barrier
use harness_go.Channels.Barrier.{NamedBarrierValue, new_named_barrier_value, name_set}
use harness_go.Channels.Barrier.Rounds.{
  IsValid, new-IsValid, updates, updates-IsValid, received, round-available, consume_once,
}
use harness_go.Channels.LastValueAfterFinish.{LastValueAfterFinish}
use harness_go.Channels.Aggregate
use harness_go.Channels.Aggregate.{BinaryOperatorAggregate, is_overwrite}
use harness_go.Channels.Aggregate.Fold.{fold, outcome, plain_prefix, overwriting, update-fold}
use harness_go.Channels.Reducers.{list_append, append_reducer}
use harness_go.Channels.Reducers.Laws
use harness_go.Channels.Reducers
use harness_go.Channels.Reducers.Laws.{list_append-fold, append_reducer-fold}
use harness_go.Channels.Plain
use harness_go.Channels.Plain.{Plain, last, barrier}
use harness_go.Channels.Channel
use harness_go.Channels.Channel.{Channel, of_plain, new_reducer_channel}
use harness_go.Channels.Registry.{Registry, update_channels}
use harness_go.Channels.Registry.Laws.{updated, update_channels_all}
use harness_go.Channels.Restore.{from_checkpoint-checkpoint}

-- a barrier for two names, of which the second comes after a value that is refused
abbrev both : List String
both = "a" ∷ "b" ∷ []

abbrev arrivals : List (List Value)
arrivals = (str "a" ∷ []) ∷ (int 7 ∷ str "b" ∷ []) ∷ (str "b" ∷ str "a" ∷ []) ∷ []

round-available_example :
    (Barrier.is_available (updates (new_named_barrier_value nil both) arrivals) ≡ true)
    ↔ Subset both (received (name_set both []) arrivals)
round-available_example = round-available nil both arrivals

abbrev full : NamedBarrierValue
full = updates (new_named_barrier_value nil both) arrivals

full-IsValid : IsValid full
full-IsValid = updates-IsValid (new_named_barrier_value nil both) arrivals (new-IsValid nil both)

full-consumed : (Barrier.consume full).1 ≡ true
unfolding Barrier.consume Barrier.update new_named_barrier_value insert lookup
full-consumed = refl

consume_once_example : Barrier.consume (Barrier.consume full).0 ≡ ((Barrier.consume full).0, false)
consume_once_example = consume_once full

-- a registry with a plain channel and one with a reducer
abbrev plain_channel : Channel
plain_channel = of_plain (last (new_last_value nil))

abbrev reduced_channel : Channel
reduced_channel = new_reducer_channel plain_channel append_reducer

abbrev two_channels : Registry
two_channels = ("log", reduced_channel) ∷ ("now", plain_channel) ∷ ("spare", plain_channel) ∷ []

abbrev log_values : List Value
log_values = int 1 ∷ int 2 ∷ []

abbrev step_writes : Dict (List Value)
step_writes = ("now", int 3 ∷ []) ∷ ("log", log_values) ∷ []

step_writes-Distinct : Distinct (keys step_writes)
unfolding keys elem
step_writes-Distinct = (refl, (refl, tt))

two_channels-Distinct : Distinct (keys two_channels)
unfolding keys elem
two_channels-Distinct = (refl, (refl, (refl, tt)))

step_writes-ok : (update_channels step_writes two_channels).1 ≡ none
unfolding update_channels new_reducer_channel new_last_value Channel.update
step_writes-ok = refl

log-written : lookup "log" step_writes ≡ some log_values
unfolding lookup
log-written = refl

spare-not_written : elem "spare" (keys step_writes) ≡ false
unfolding keys elem
spare-not_written = refl

update_channels_all_example :
    (c : Channel) × (lookup "log" two_channels ≡ some c)
    × (lookup "log" (update_channels step_writes two_channels).0 ≡ some (updated c log_values))
update_channels_all_example =
    update_channels_all step_writes two_channels "log" log_values step_writes-Distinct
      step_writes-ok log-written

-- topics of both kinds, and batches with a list that is spread
abbrev history : Topic
history = new_topic nil true

abbrev latest : Topic
latest = new_topic nil false

abbrev batches : List (List Value)
batches = (int 1 ∷ list (of_items (int 2 ∷ int 3 ∷ [])) ∷ []) ∷ [] ∷ (int 4 ∷ []) ∷ []

history-accumulates : history.accumulate ≡ true
unfolding new_topic
history-accumulates = refl

latest-forgets : latest.accumulate ≡ false
unfolding new_topic
latest-forgets = refl

updates_accumulate_example :
    (Topic.Batches.updates history batches).values ≡ history.values ++ joined batches
updates_accumulate_example = updates_accumulate history batches history-accumulates

-- an aggregate that appends to a list
abbrev gathered : BinaryOperatorAggregate
gathered = record {
  base = new_base nil;
  value = list (of_items (int 1 ∷ []));
  operator = append_reducer;
}

gathered-available : Aggregate.is_available gathered ≡ true
unfolding Aggregate.is_available
gathered-available = refl

abbrev overwritten : List Value
overwritten = Value.getter (int 9) ∷ int 3 ∷ []

update-fold_example :
    (
      (Aggregate.update gathered (int 2 ∷ overwritten)).0.value,
      (Aggregate.update gathered (int 2 ∷ overwritten)).1,
    )
    ≡ outcome
        (fold append_reducer gathered.value (plain_prefix (int 2 ∷ overwritten)))
        (overwriting (int 2 ∷ overwritten))
update-fold_example = update-fold gathered (int 2) overwritten gathered-available

list_append-fold_example :
    fold list_append (list (of_items (int 1 ∷ []))) (list (of_items (int 2 ∷ int 3 ∷ [])) ∷ [])
    ≡ list (of_items ((int 1 ∷ []) ++ Reducers.Laws.joined ((int 2 ∷ int 3 ∷ []) ∷ [])))
list_append-fold_example = list_append-fold (int 1 ∷ []) ((int 2 ∷ int 3 ∷ []) ∷ [])

append_reducer-fold_example :
    fold append_reducer (list (of_items (int 1 ∷ []))) (int 2 ∷ str "x" ∷ [])
    ≡ list (of_items ((int 1 ∷ []) ++ int 2 ∷ str "x" ∷ []))
append_reducer-fold_example = append_reducer-fold (int 1 ∷ []) (int 2 ∷ str "x" ∷ [])

abbrev old_fields : Dict Value
old_fields = ("a", int 1) ∷ ("b", int 2) ∷ []

abbrev new_fields : Dict Value
new_fields = ("b", int 3) ∷ ("c", int 4) ∷ []

old_fields-Distinct : Distinct (keys old_fields)
unfolding keys elem
old_fields-Distinct = (refl, (refl, tt))

new_fields-Distinct : Distinct (keys new_fields)
unfolding keys elem
new_fields-Distinct = (refl, (refl, tt))

from_checkpoint-checkpoint_example :
    Plain.from_checkpoint (barrier full) (Plain.checkpoint (barrier full))
    ≡ Plain.copy (barrier full)
from_checkpoint-checkpoint_example =
    from_checkpoint-checkpoint (barrier full)
      (full-IsValid.seen_set.distinct, full-IsValid.distinct)

abbrev finished_value : LastValueAfterFinish
finished_value = record { base = new_base nil; value = int 5; finished = true }

five-plain : is_overwrite (int 5) ≡ none
unfolding is_overwrite
five-plain = refl
