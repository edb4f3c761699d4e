-- ===== src/Pregel/Writes/Counts.antt =====
-- How the writes of a step count the versions of the channels (graphengine/pregel/engine.go,
-- applyWrites).
use Prim.Native.Char.{Char}
use harness_go.Base.{
  ℕ, String, ◌≡◌, refl, ap, ◌∙◌, subst, Bool, true, false, ◌&&◌, ◌||◌, Option, none, some, List, [],
  ◌∷◌, arith, Dict, lookup, insert, keys, elem, elem-append, Distinct, Distinct-insert, Bool-cases,
  Option-cases, inl, inr, ◌==◌, eq_iff, eq_refl, if◌then◌else◌,
}
use harness_go.Value.{Value, add_int, is_nil}
use harness_go.Errors.{Err, Result, ok, err, Ensures}
use harness_go.Graph.{StateGraph, Node}
use harness_go.Checkpoint.{PendingWrite, Versions, version_of}
use harness_go.Checkpoint.Seen.{version_of-bump}
use harness_go.Channels.Channel
use harness_go.Channels.Channel.{Channel}
use harness_go.Pregel.Schedule.{add_name, get_node}
use harness_go.Pregel.Output.{to_map}
use harness_go.Pregel.Writes.{
  TaskResult, RunState, Written, Collected, collect, sort_results, nothing_collected, without_nil,
  new_version, settle, write_channels, store_pending, mark_channel_seen, mark_all, mark_triggered,
  finish_writes, write_collected, apply_writes, collect_entries, collect_value, collect_one,
  collect_output, collect_mapped, unwrap, map_output,
}

-- one more for a channel that was updated
abbrev pub counted : Versions → List String → String → ℕ
counted before updated k =
    if elem k updated then add_int (version_of before k) 1 else version_of before k

-- the state has counted the updated channels, from the versions that there were before
abbrev HasCounted : Versions → RunState → List String → Type 0
HasCounted before s updated =
    (k : String) → version_of s.channel_versions k ≡ counted before updated k

abbrev pub CountsAll : Versions → Written → Type 0
CountsAll before (s, err e) = Unit
CountsAll before (s, ok updated) = HasCounted before s updated

-- no name of the first list is in the second
abbrev Fresh : List String → List String → Type 0
Fresh names updated = (k : String) → elem k names ≡ true → elem k updated ≡ false

elem-add_name :
    (k name : String) (set : List String) → elem k (add_name name set) ≡ (name == k || elem k set)
unfolding elem
elem-add_name k name set = elim (Bool-cases (elem name set)) [
  | inl old ↦ rw old (ground (arith, eq_iff name k))
  | inr new ↦ rw new (elem-append k set (name ∷ []) ∙ ground arith)
]

new_version-HasCounted :
    (before : Versions) (name : String) (c : Channel) (s : RunState) (updated : List String)
    → elem name updated ≡ false
    → HasCounted before s updated
    → HasCounted before (new_version name c s) (add_name name updated)
unfolding new_version
new_version-HasCounted before name c s updated fresh h k = ground (
  arith,
  version_of-bump name k s.channel_versions,
  elem-add_name k name updated,
  h k,
  eq_iff name k,
)

settle-counts :
    (before : Versions) (name : String) (later : List String) (u : Channel × Result Bool)
    (rest : RunState → List String → Written)
    (keep : (s : RunState) (ns : List String)
      → Fresh later ns
      → HasCounted before s ns
      → CountsAll before (rest s ns))
    (s : RunState) (updated : List String)
    → elem name later ≡ false
    → Fresh (name ∷ later) updated
    → HasCounted before s updated
    → CountsAll before (settle name u rest s updated)
unfolding elem
settle-counts before name later (c, err e) rest keep s updated d f h = tt
settle-counts before name later (c, ok changed) rest keep s updated d f h =
    elim (Bool-cases (changed && Channel.is_available c)) [
      | inl new ↦ rw new (
          keep (new_version name c s) (add_name name updated)
            (λ k m. ground (arith, elem-add_name k name updated, f k, eq_iff name k))
            (new_version-HasCounted before name c s updated (f name (ground (arith, eq_refl name)))
              h))
      | inr old ↦ rw old (
          keep (record s { registry = insert name c s.registry }) updated
            (λ k m. f k (ground arith)) h)
    ]

write_channels-counts :
    (before : Versions) (writes : Dict (List Value)) (s : RunState) (updated : List String)
    → Distinct (keys writes)
    → Fresh (keys writes) updated
    → HasCounted before s updated
    → CountsAll before (write_channels writes s updated)
unfolding write_channels keys elem
write_channels-counts before [] s updated d f h = h
write_channels-counts before ((name, vs) ∷ writes) s updated d f h =
    elim (Option-cases (lookup name s.registry)) [
      | inl e ↦
          rw e (write_channels-counts before writes s updated d.1 (λ k m. f k (ground arith)) h)
      | inr (c, e) ↦ rw e (
          settle-counts before name (keys writes) (Channel.update c (without_nil vs))
            (λ s' u. write_channels writes s' u)
            (λ s' u. write_channels-counts before writes s' u d.1) s updated d.0 f h)
    ]

-- the writes are grouped by channel
abbrev IsGrouped : Collected → Type 0
IsGrouped c = Distinct (keys c.writes)

collect_value-IsGrouped :
    (node key : String) (u : Value × Bool) (c : Collected)
    → IsGrouped c
    → IsGrouped (collect_value node key u c)
unfolding collect_value
collect_value-IsGrouped node key (v, ow) c h = Distinct-insert key _ c.writes h

collect_entries-IsGrouped :
    (node : String) (entries : Dict Value) (c : Collected)
    → IsGrouped c
    → IsGrouped (collect_entries node entries c)
unfolding collect_entries
collect_entries-IsGrouped node [] c h = h
collect_entries-IsGrouped node ((key, v) ∷ entries) c h =
    collect_entries-IsGrouped node entries
      (if is_nil v then c else collect_value node key (unwrap v) c)
      (elim (Bool-cases (is_nil v)) [
        | inl none_there ↦ rw none_there h
        | inr there ↦ rw there (collect_value-IsGrouped node key (unwrap v) c h)
      ])

abbrev AllGrouped : Result Collected → Type 0
AllGrouped = Ensures IsGrouped

collect_mapped-IsGrouped :
    (name : String) (o : Option (Dict Value)) (rest : Collected → Result Collected)
    (keep : (c : Collected) → IsGrouped c → AllGrouped (rest c)) (c : Collected)
    → IsGrouped c
    → AllGrouped (collect_mapped name o rest c)
collect_mapped-IsGrouped name none rest keep c h = tt
collect_mapped-IsGrouped name (some output) rest keep c h =
    keep (collect_entries name output c) (collect_entries-IsGrouped name output c h)

collect_output-IsGrouped :
    (name : String) (found : Option Node) (r : Result (Dict Value))
    (rest : Collected → Result Collected)
    (keep : (c : Collected) → IsGrouped c → AllGrouped (rest c)) (c : Collected)
    → IsGrouped c
    → AllGrouped (collect_output name found r rest c)
collect_output-IsGrouped name found (err e) rest keep c h = tt
collect_output-IsGrouped name found (ok output) rest keep c h =
    collect_mapped-IsGrouped name (map_output found output) rest keep c h

collect_one-IsGrouped :
    (lower : Char → Char) (g : StateGraph) (r : TaskResult) (e : Option Err)
    (rest : Collected → Result Collected)
    (keep : (c : Collected) → IsGrouped c → AllGrouped (rest c)) (c : Collected)
    → IsGrouped c
    → AllGrouped (collect_one lower g r e rest c)
collect_one-IsGrouped lower g r (some e) rest keep c h = keep c h
collect_one-IsGrouped lower g r none rest keep c h = elim (Bool-cases (is_nil r.output)) [
  | inl silent ↦ rw silent (keep c h)
  | inr spoken ↦
      rw spoken
        (collect_output-IsGrouped r.name (get_node g r.name) (to_map lower r.output) rest keep c h)
]

collect-IsGrouped :
    (lower : Char → Char) (g : StateGraph) (rs : List TaskResult) (c : Collected)
    → IsGrouped c
    → AllGrouped (collect lower g rs c)
unfolding collect
collect-IsGrouped lower g [] c h = h
collect-IsGrouped lower g (r ∷ rs) c h =
    collect_one-IsGrouped lower g r r.error (λ c'. collect lower g rs c')
      (λ c'. collect-IsGrouped lower g rs c') c h

versions-store_pending :
    (pending : Dict PendingWrite) (s : RunState)
    → (store_pending pending s).channel_versions ≡ s.channel_versions
unfolding store_pending
versions-store_pending [] s = refl
versions-store_pending ((key, w) ∷ pending) s = versions-store_pending pending _

versions-mark_all :
    (node : String) (chs : List String) (s : RunState)
    → (mark_all node chs s).channel_versions ≡ s.channel_versions
unfolding mark_channel_seen
versions-mark_all node [] s = refl
versions-mark_all node (ch ∷ chs) s = versions-mark_all node chs _

versions-mark_triggered :
    (names triggers updated : List String) (s : RunState)
    → (mark_triggered names triggers updated s).channel_versions ≡ s.channel_versions
unfolding mark_triggered
versions-mark_triggered [] triggers updated s = refl
versions-mark_triggered (name ∷ names) triggers updated s =
    versions-mark_triggered names triggers updated _ ∙ elim (Bool-cases (elem name triggers)) [
      | inl due ↦ rw due (versions-mark_all name updated s)
      | inr idle ↦ rw idle refl
    ]

finish_writes-counts :
    (before : Versions) (c : Collected) (triggers : List String) (w : Written)
    → CountsAll before w
    → CountsAll before (finish_writes c triggers w)
unfolding keys
finish_writes-counts before c triggers (s, err e) h = tt
finish_writes-counts before c triggers (s, ok updated) h = λ k.
    ap (λ m. version_of m k)
      (versions-mark_triggered (keys c.writes) triggers updated (store_pending c.pending s)
        ∙ versions-store_pending c.pending s)
    ∙ h k

write_collected-counts :
    (triggers : List String) (r : Result Collected) (s : RunState)
    → AllGrouped r
    → CountsAll s.channel_versions (write_collected triggers r s)
unfolding elem
write_collected-counts triggers (err e) s h = tt
write_collected-counts triggers (ok c) s h =
    finish_writes-counts s.channel_versions c triggers (write_channels c.writes s [])
      (write_channels-counts s.channel_versions c.writes s [] h (λ k m. refl) (λ k. refl))

-- When the writes of a step succeed, each channel that is reported as updated has its version
-- incremented once, however many nodes wrote to it, and every other channel keeps its version.
pub version_of-apply_writes :
    (lower : Char → Char) (g : StateGraph) (results : List TaskResult) (triggers : List String)
    (s after : RunState) (updated : List String) (k : String)
    → apply_writes lower g results triggers s ≡ (after, ok updated)
    → version_of after.channel_versions k ≡ (
        if elem k updated
        then add_int (version_of s.channel_versions k) 1
        else version_of s.channel_versions k)
unfolding apply_writes keys
version_of-apply_writes lower g results triggers s after updated k h =
    subst (CountsAll s.channel_versions) h
      (write_collected-counts triggers (collect lower g (sort_results results) nothing_collected) s
        (collect-IsGrouped lower g (sort_results results) nothing_collected tt))
      k
