-- ===== src/Checkpoint/ManagerTests.antt =====
-- Concrete uses of the checkpoint manager (graphengine/checkpoint/checkpoint.go).
use harness_go.Base.{
  ◌≡◌, ◌≤◌, refl, false, none, some, List, [], ◌∷◌, arith, lookup, last?, length, ◌==◌, or_else,
  Bool-cases, inl, inr,
}
use harness_go.Value.{Value, int, add_int}
use harness_go.Checkpoint.{Checkpoint, PendingWrite, new_checkpoint, version_of}
use harness_go.Checkpoint.Manager.{
  RunnableConfig, CheckpointManager, thread, save, clone, child, load, put_writes, version_conflict,
}
use harness_go.Checkpoint.Manager.Chain.{AreChains, put_writes-AreChains, save-AreChains}
use harness_go.Checkpoint.Manager.Saves.{save-bounded, save-load}
use harness_go.Checkpoint.Manager.Lookups.{
  copied_value, last_written, version_after, load-put_writes,
}

abbrev same_value : Value → Value
same_value v = v

abbrev root : Checkpoint
root = new_checkpoint "c0" "t" 0

-- a manager of one checkpoint
abbrev with_root : CheckpointManager
with_root = record { checkpoints = ("t", root ∷ []) ∷ []; max_versions = 2; active_writes = [] }

abbrev of_thread : RunnableConfig
of_thread = record { thread_id = "t"; configurable = [] }

abbrev writes : List PendingWrite
writes = record { channel = "n"; value = int 5; overwrite = false; node = "a" } ∷ []

with_root-AreChains : AreChains with_root
unfolding thread lookup
with_root-AreChains id = elim (Bool-cases ("t" == id)) [
  | inl same ↦ rw same tt
  | inr other ↦ rw other tt
]

put_writes-AreChains_example :
    AreChains (put_writes same_value "c1" with_root of_thread writes "task").0
put_writes-AreChains_example =
    put_writes-AreChains same_value "c1" with_root of_thread writes "task" with_root-AreChains

abbrev next_one : Checkpoint
next_one = record {
  id = "c1";
  version = 1;
  parent_id = "c0";
  channel_versions = [];
  versions_seen = [];
  state = [];
  pending_writes = [];
  thread_id = "t";
  step = 1;
}

save-AreChains_example : AreChains (save with_root next_one).0
unfolding thread lookup new_checkpoint
save-AreChains_example =
    save-AreChains with_root next_one with_root-AreChains (omega arith) (λ latest e. (cc, refl))

save-bounded_example :
    (length (thread (save with_root next_one).0 "t") ≤ 2)
    × (last? (thread (save with_root next_one).0 "t") ≡ some next_one)
    × (("t" == "u") ≡ false → thread (save with_root next_one).0 "u" ≡ thread with_root "u")
unfolding save new_checkpoint
save-bounded_example = save-bounded with_root next_one "u" (omega arith) refl

abbrev loaded_root : Checkpoint
loaded_root = clone same_value "c9" root

save-load_example :
    ((save with_root loaded_root).1 ≡ some (version_conflict loaded_root))
    × ((save with_root (record loaded_root { version = add_int 0 1 })).1 ≡ none)
unfolding load clone new_checkpoint
save-load_example = save-load same_value "c9" "t" with_root loaded_root refl refl refl (omega arith)

abbrev written : Checkpoint
written = clone same_value "c2" (child same_value "c1" writes root)

load-put_writes_example :
    (lookup "n" written.state
      ≡ copied_value same_value
          (or_else (last_written "n" writes) (copied_value same_value (lookup "n" root.state))))
    × (version_of written.channel_versions "n"
        ≡ version_after "n" writes (version_of root.channel_versions "n"))
unfolding put_writes load clone child new_checkpoint
load-put_writes_example =
    load-put_writes same_value "c1" "c2" with_root of_thread writes "task" root written "n" refl
      refl refl

-- PutWrites does not trim the thread.
three_kept :
    length (
      thread
        (put_writes same_value "c2"
          (put_writes same_value "c1" with_root of_thread writes "t").0
          of_thread
          writes
          "t").0
        "t")
    ≡ 3
unfolding put_writes thread new_checkpoint
three_kept = refl
