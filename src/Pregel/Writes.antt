-- ===== src/Pregel/Writes.antt =====
-- graphengine/pregel/engine.go, applyWrites: what the results of a step do to the channels and to
-- their versions. A panic of a field mapping is told as an error. The sort by name is `sort.Slice`;
-- where two results have the same name, which the engine never makes, it may choose either order.
pub mod InStep
pub mod Counts
pub mod Order
use Prim.Native.Char.{Char}
use harness_go.Base.Order.{before}
use harness_go.Base.{
  String, Bool, true, false, ◌&&◌, Option, none, some, List, [], ◌∷◌, ◌++◌, Dict, lookup, insert,
  get_or, keys, elem, if◌then◌else◌,
}
use harness_go.Value.{Value, overwrite, is_nil}
use harness_go.Errors.{Err, plain, wrap, Result, ok, err}
use harness_go.Graph.{StateGraph, Node, FieldMapping}
use harness_go.Checkpoint.{
  PendingWrite, Versions, version_of, bump, mark, Checkpoint, increment_channel, mark_seen,
  add_pending_write,
}
use harness_go.Channels.Channel
use harness_go.Channels.Channel.{Channel, try_set_version}
use harness_go.Channels.Registry.{Registry}
use harness_go.Pregel.Output.{to_map, apply_field_mapping}
use harness_go.Pregel.Schedule.{get_node, add_name}

pub record TaskResult : Type 0 where
  pub name : String
  pub output : Value
  pub error : Option Err

-- sort.Slice by name
abbrev pub place : TaskResult → List TaskResult → List TaskResult
place r [] = r ∷ []
place r (q ∷ qs) = if before r.name q.name then r ∷ q ∷ qs else q ∷ place r qs

unfoldable pub sort_results : List TaskResult → List TaskResult
sort_results [] = []
sort_results (r ∷ rs) = place r (sort_results rs)

-- writesByChannel and pendingWrites
pub record Collected : Type 0 where
  pub writes : Dict (List Value)
  pub pending : Dict PendingWrite

-- the check for the wrapper `*types.Overwrite`
abbrev pub unwrap : Value → Value × Bool
unwrap (overwrite v) = (v, true)
unwrap v = (v, false)

-- the body of the loop over the writes of a node
unfoldable pub collect_value : String → String → Value × Bool → Collected → Collected
unfolding insert lookup
collect_value node key (v, ow) c = record {
  writes = insert key (get_or (lookup key c.writes) [] ++ v ∷ []) c.writes;
  pending = insert key (record { channel = key; value = v; overwrite = ow; node = node }) c.pending;
}

unfoldable pub collect_entries : String → Dict Value → Collected → Collected
unfolding collect_value
collect_entries node [] c = c
collect_entries node ((key, v) ∷ entries) c =
    collect_entries node entries (if is_nil v then c else collect_value node key (unwrap v) c)

-- the mapping of the fields of an output, if its node has one
abbrev mapped_by : Dict Value → List FieldMapping → Option (Dict Value)
mapped_by output [] = some output
mapped_by output (m ∷ ms) = apply_field_mapping output (m ∷ ms)

abbrev pub map_output : Option Node → Dict Value → Option (Dict Value)
map_output none output = some output
map_output (some n) output = mapped_by output n.field_mapping

abbrev pub collect_mapped :
    String → Option (Dict Value) → (Collected → Result Collected) → Collected → Result Collected
collect_mapped name none rest c = err (plain ("panic: interface conversion" ∷ []))
collect_mapped name (some output) rest c = rest (collect_entries name output c)

abbrev pub collect_output :
    String
    → Option Node
    → Result (Dict Value)
    → (Collected → Result Collected)
    → Collected
    → Result Collected
collect_output name found (err e) rest c = err (wrap ("failed to convert output to map" ∷ []) e)
collect_output name found (ok output) rest c = collect_mapped name (map_output found output) rest c

abbrev pub collect_one :
    (Char → Char)
    → StateGraph
    → TaskResult
    → Option Err
    → (Collected → Result Collected)
    → Collected
    → Result Collected
collect_one lower g r (some e) rest c = rest c
collect_one lower g r none rest c =
    if is_nil r.output
    then rest c
    else collect_output r.name (get_node g r.name) (to_map lower r.output) rest c

-- the loop over the results
unfoldable pub collect : (Char → Char) → StateGraph → List TaskResult → Collected → Result Collected
unfolding collect_entries to_map get_node apply_field_mapping
collect lower g [] c = ok c
collect lower g (r ∷ rs) c = collect_one lower g r r.error (λ c'. collect lower g rs c') c

-- the part of the engine's state that the writes of a step change
pub record RunState : Type 0 where
  pub registry : Registry
  pub channel_versions : Versions
  pub versions_seen : Dict Versions
  pub current_checkpoint : Option Checkpoint

abbrev pub on_checkpoint : (Checkpoint → Checkpoint) → Option Checkpoint → Option Checkpoint
on_checkpoint f none = none
on_checkpoint f (some c) = some (f c)

-- the loop that filters the nil values of a channel
unfoldable pub without_nil : List Value → List Value
without_nil [] = []
without_nil (v ∷ vs) = let rest = without_nil vs in if is_nil v then rest else v ∷ rest

-- A channel whose update tells of a change, and that is available, gets a new version.
unfoldable pub new_version : String → Channel → RunState → RunState
unfolding bump version_of try_set_version increment_channel insert
new_version name c s =
    let versions = bump name s.channel_versions in
    record s {
      registry = insert name (try_set_version c (version_of versions name)) s.registry;
      channel_versions = versions;
      current_checkpoint = on_checkpoint (λ cp. increment_channel cp name) s.current_checkpoint;
    }

-- a run of the loop over channels: the state, and the channels that were updated or the error
abbrev pub Written : Type 0
Written = RunState × Result (List String)

abbrev pub settle :
    String
    → Channel × Result Bool
    → (RunState → List String → Written)
    → RunState
    → List String
    → Written
settle name (c, err e) rest s updated = (
  record s { registry = insert name c s.registry },
  err (wrap ("failed to update channel" ∷ name ∷ []) e),
)
settle name (c, ok changed) rest s updated =
    if changed && Channel.is_available c
    then rest (new_version name c s) (add_name name updated)
    else rest (record s { registry = insert name c s.registry }) updated

abbrev pub write_channel :
    Option Channel
    → String
    → List Value
    → (RunState → List String → Written)
    → RunState
    → List String
    → Written
write_channel none name vs rest s updated = rest s updated
write_channel (some c) name vs rest s updated =
    settle name (Channel.update c (without_nil vs)) rest s updated

unfoldable pub write_channels : Dict (List Value) → RunState → List String → Written
unfolding lookup insert elem Channel.update Channel.is_available without_nil new_version
write_channels [] s updated = (s, ok updated)
write_channels ((name, vs) ∷ writes) s updated =
    write_channel (lookup name s.registry) name vs (λ s' u. write_channels writes s' u) s updated

-- the loop that stores the pending writes
unfoldable pub store_pending : Dict PendingWrite → RunState → RunState
unfolding add_pending_write
store_pending [] s = s
store_pending ((key, w) ∷ pending) s = store_pending pending (record s {
  current_checkpoint = on_checkpoint (λ c. add_pending_write c w) s.current_checkpoint;
})

-- markSeen
unfoldable pub mark_channel_seen : String → String → RunState → RunState
unfolding mark mark_seen
mark_channel_seen node channel s = record s {
  versions_seen = mark s.channel_versions node channel s.versions_seen;
  current_checkpoint = on_checkpoint (λ c. mark_seen c node channel) s.current_checkpoint;
}

abbrev pub mark_all : String → List String → RunState → RunState
mark_all node [] s = s
mark_all node (ch ∷ chs) s = mark_all node chs (mark_channel_seen node ch s)

-- the loop over the written names that are among the triggers
unfoldable pub mark_triggered : List String → List String → List String → RunState → RunState
unfolding elem mark_channel_seen
mark_triggered [] triggers updated s = s
mark_triggered (name ∷ names) triggers updated s =
    mark_triggered names triggers updated
      (if elem name triggers then mark_all name updated s else s)

abbrev pub finish_writes : Collected → List String → Written → Written
finish_writes c triggers (s, err e) = (s, err e)
finish_writes c triggers (s, ok updated) =
    (mark_triggered (keys c.writes) triggers updated (store_pending c.pending s), ok updated)

abbrev pub write_collected : List String → Result Collected → RunState → Written
write_collected triggers (err e) s = (s, err e)
write_collected triggers (ok c) s = finish_writes c triggers (write_channels c.writes s [])

abbrev pub nothing_collected : Collected
nothing_collected = record { writes = []; pending = [] }

unfoldable pub apply_writes :
    (Char → Char) → StateGraph → List TaskResult → List String → RunState → Written
unfolding sort_results collect write_channels store_pending mark_triggered keys
apply_writes lower g results triggers s =
    write_collected triggers (collect lower g (sort_results results) nothing_collected) s
