-- ===== src/Pregel/Writes/InStep.antt =====
-- The engine and its checkpoint count the versions of the channels side by side
-- (graphengine/pregel/engine.go, applyWrites).
use Prim.Native.Char.{Char}
use harness_go.Base.{
  String, ◌≡◌, refl, ap, Bool, ◌&&◌, Option, none, some, List, [], ◌∷◌, Dict, lookup, insert, keys,
  elem, Bool-cases, Option-cases, inl, inr, if◌then◌else◌,
}
use harness_go.Value.{Value}
use harness_go.Errors.{Result, ok, err}
use harness_go.Graph.{StateGraph}
use harness_go.Checkpoint.{
  PendingWrite, Versions, bump, Checkpoint, increment_channel, mark_seen, add_pending_write, mark,
}
use harness_go.Channels.Channel
use harness_go.Channels.Channel.{Channel}
use harness_go.Pregel.Schedule.{add_name}
use harness_go.Pregel.Writes.{
  TaskResult, RunState, Written, Collected, collect, sort_results, nothing_collected, without_nil,
  new_version, settle, write_channels, store_pending, mark_channel_seen, mark_all, mark_triggered,
  finish_writes, write_collected, apply_writes, on_checkpoint,
}

-- The checkpoint, if there is one, has the versions that the engine has.
abbrev pub AgreesWith : Option Checkpoint → Versions → Dict Versions → Type 0
AgreesWith none versions seen = Unit
AgreesWith (some c) versions seen = (c.channel_versions ≡ versions) × (c.versions_seen ≡ seen)

abbrev pub IsInStep : RunState → Type 0
IsInStep s = AgreesWith s.current_checkpoint s.channel_versions s.versions_seen

agree-increment :
    (name : String) (o : Option Checkpoint) (versions : Versions) (nodes : Dict Versions)
    → AgreesWith o versions nodes
    → AgreesWith (on_checkpoint (λ c. increment_channel c name) o) (bump name versions) nodes
unfolding increment_channel
agree-increment name none versions nodes h = tt
agree-increment name (some c) versions nodes h = (ap (bump name) h.0, h.1)

agree-mark :
    (node channel : String) (o : Option Checkpoint) (versions : Versions) (nodes : Dict Versions)
    → AgreesWith o versions nodes
    → AgreesWith
        (on_checkpoint (λ c. mark_seen c node channel) o)
        versions
        (mark versions node channel nodes)
unfolding mark_seen
agree-mark node channel none versions nodes h = tt
agree-mark node channel (some c) versions nodes h = (h.0, rw (h.0, h.1) refl)

agree-pending :
    (w : PendingWrite) (o : Option Checkpoint) (versions : Versions) (nodes : Dict Versions)
    → AgreesWith o versions nodes
    → AgreesWith (on_checkpoint (λ c. add_pending_write c w) o) versions nodes
unfolding add_pending_write
agree-pending w none versions nodes h = tt
agree-pending w (some c) versions nodes h = h

new_version-IsInStep :
    (name : String) (c : Channel) (s : RunState) → IsInStep s → IsInStep (new_version name c s)
unfolding new_version
new_version-IsInStep name c s h =
    agree-increment name s.current_checkpoint s.channel_versions s.versions_seen h

settle-IsInStep :
    (name : String) (u : Channel × Result Bool) (rest : RunState → List String → Written)
    (keep : (s : RunState) (ns : List String) → IsInStep s → IsInStep (rest s ns).0) (s : RunState)
    (updated : List String)
    → IsInStep s
    → IsInStep (settle name u rest s updated).0
settle-IsInStep name (c, err e) rest keep s updated h = h
settle-IsInStep name (c, ok changed) rest keep s updated h =
    elim (Bool-cases (changed && Channel.is_available c)) [
      | inl new ↦
          rw new
            (keep (new_version name c s) (add_name name updated) (new_version-IsInStep name c s h))
      | inr old ↦ rw old (keep (record s { registry = insert name c s.registry }) updated h)
    ]

write_channels-IsInStep :
    (writes : Dict (List Value)) (s : RunState) (updated : List String)
    → IsInStep s
    → IsInStep (write_channels writes s updated).0
unfolding write_channels
write_channels-IsInStep [] s updated h = h
write_channels-IsInStep ((name, vs) ∷ writes) s updated h =
    elim (Option-cases (lookup name s.registry)) [
      | inl e ↦ rw e (write_channels-IsInStep writes s updated h)
      | inr (c, e) ↦ rw e (
          settle-IsInStep name (Channel.update c (without_nil vs))
            (λ s' u. write_channels writes s' u) (λ s' u. write_channels-IsInStep writes s' u) s
            updated h)
    ]

store_pending-IsInStep :
    (pending : Dict PendingWrite) (s : RunState) → IsInStep s → IsInStep (store_pending pending s)
unfolding store_pending
store_pending-IsInStep [] s h = h
store_pending-IsInStep ((key, w) ∷ pending) s h =
    store_pending-IsInStep pending _
      (agree-pending w s.current_checkpoint s.channel_versions s.versions_seen h)

mark_all-IsInStep :
    (node : String) (chs : List String) (s : RunState) → IsInStep s → IsInStep (mark_all node chs s)
unfolding mark_channel_seen
mark_all-IsInStep node [] s h = h
mark_all-IsInStep node (ch ∷ chs) s h =
    mark_all-IsInStep node chs (mark_channel_seen node ch s)
      (agree-mark node ch s.current_checkpoint s.channel_versions s.versions_seen h)

mark_triggered-IsInStep :
    (names triggers updated : List String) (s : RunState)
    → IsInStep s
    → IsInStep (mark_triggered names triggers updated s)
unfolding mark_triggered
mark_triggered-IsInStep [] triggers updated s h = h
mark_triggered-IsInStep (name ∷ names) triggers updated s h =
    mark_triggered-IsInStep names triggers updated
      (if elem name triggers then mark_all name updated s else s)
      (elim (Bool-cases (elem name triggers)) [
        | inl due ↦ rw due (mark_all-IsInStep name updated s h)
        | inr idle ↦ rw idle h
      ])

finish_writes-IsInStep :
    (c : Collected) (triggers : List String) (w : Written)
    → IsInStep w.0
    → IsInStep (finish_writes c triggers w).0
unfolding keys
finish_writes-IsInStep c triggers (s, err e) h = h
finish_writes-IsInStep c triggers (s, ok updated) h =
    mark_triggered-IsInStep (keys c.writes) triggers updated (store_pending c.pending s)
      (store_pending-IsInStep c.pending s h)

write_collected-IsInStep :
    (triggers : List String) (r : Result Collected) (s : RunState)
    → IsInStep s
    → IsInStep (write_collected triggers r s).0
write_collected-IsInStep triggers (err e) s h = h
write_collected-IsInStep triggers (ok c) s h =
    finish_writes-IsInStep c triggers (write_channels c.writes s [])
      (write_channels-IsInStep c.writes s [] h)

-- The writes of a step keep the checkpoint's versions, of the channels and of what each node has
-- seen, equal to the engine's, also when they end with an error.
pub apply_writes-IsInStep :
    (lower : Char → Char) (g : StateGraph) (results : List TaskResult) (triggers : List String)
    (s : RunState)
    → IsInStep s
    → IsInStep (apply_writes lower g results triggers s).0
unfolding apply_writes
apply_writes-IsInStep lower g results triggers s h =
    write_collected-IsInStep triggers (collect lower g (sort_results results) nothing_collected) s h
