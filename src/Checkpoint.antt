-- ===== src/Checkpoint.antt =====
-- graphengine/checkpoint/checkpoint.go: the record of a checkpoint, with the versions of the
-- channels and the versions that each node has seen. Times and the other metadata are left
-- out; a fresh identifier is an argument.
pub mod Seen
pub mod Copy
pub mod Memory
pub mod Manager
mod Tests
mod ManagerTests
use harness_go.Base.{
  ℕ, String, Bool, false, Option, none, some, List, [], ◌∷◌, ◌++◌, Dict, lookup, insert, get_or,
  nat_beq,
}
use harness_go.Value.{Value, add_int}

pub record PendingWrite : Type 0 where
  pub channel : String
  pub value : Value
  pub overwrite : Bool
  pub node : String

-- a `map[string]int`, and its value at a key
abbrev pub Versions : Type 0
Versions = Dict ℕ

unfoldable pub version_of : Versions → String → ℕ
unfolding lookup
version_of m k = get_or (lookup k m) 0

-- `m[k]++`
unfoldable pub bump : String → Versions → Versions
unfolding version_of insert
bump k m = insert k (add_int (version_of m k) 1) m

-- what a node has seen, as a nested map; a node that is missing has seen nothing
unfoldable pub seen_by : Dict Versions → String → Versions
unfolding lookup
seen_by seen node = get_or (lookup node seen) []

-- MarkSeen and markSeen, on the maps that both keep
unfoldable pub mark : Versions → String → String → Dict Versions → Dict Versions
unfolding seen_by version_of insert
mark versions node channel seen =
    insert node (insert channel (version_of versions channel) (seen_by seen node)) seen

-- HasSeen and hasSeen, on the maps that both keep
abbrev is_current : Option ℕ → ℕ → Bool
is_current none now = false
is_current (some then_) now = nat_beq then_ now

abbrev seen_channel : Option Versions → Versions → String → Bool
seen_channel none versions channel = false
seen_channel (some m) versions channel = is_current (lookup channel m) (version_of versions channel)

unfoldable pub seen : Versions → Dict Versions → String → String → Bool
unfolding lookup version_of
seen versions nodes node channel = seen_channel (lookup node nodes) versions channel

pub record Checkpoint : Type 0 where
  pub id : String
  pub version : ℕ
  pub parent_id : String
  pub channel_versions : Versions
  pub versions_seen : Dict Versions
  pub state : Dict Value
  pub pending_writes : List PendingWrite
  pub thread_id : String
  pub step : ℕ

unfoldable pub new_checkpoint : String → String → ℕ → Checkpoint
new_checkpoint id thread_id step = record {
  id = id;
  version = 0;
  parent_id = "";
  channel_versions = [];
  versions_seen = [];
  state = [];
  pending_writes = [];
  thread_id = thread_id;
  step = step;
}

unfoldable pub increment_channel : Checkpoint → String → Checkpoint
unfolding bump
increment_channel c channel = record c { channel_versions = bump channel c.channel_versions }

unfoldable pub mark_seen : Checkpoint → String → String → Checkpoint
unfolding mark
mark_seen c node channel = record c {
  versions_seen = mark c.channel_versions node channel c.versions_seen;
}

unfoldable pub has_seen : Checkpoint → String → String → Bool
unfolding seen
has_seen c node channel = seen c.channel_versions c.versions_seen node channel

unfoldable pub add_pending_write : Checkpoint → PendingWrite → Checkpoint
add_pending_write c w = record c { pending_writes = c.pending_writes ++ w ∷ [] }

unfoldable pub clear_pending_writes : Checkpoint → Checkpoint
clear_pending_writes c = record c { pending_writes = [] }
