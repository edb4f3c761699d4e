-- ===== src/Checkpoint/Manager.antt =====
-- graphengine/checkpoint/checkpoint.go: Clone and CheckpointManager. The locks are left out; the
-- fresh identifiers that a call makes are a function from their number in the call. The maps that
-- Clone copies entry by entry are the same maps here, but for the copies of the state's values.
pub mod Chain
pub mod Saves
pub mod Lookups
use harness_go.Base.{
  ℕ, zero, suc, ◌+◌, ◌-◌, ◌^◌, ◌%◌, String, Bool, false, not, ◌&&◌, ◌||◌, Option, none, some, List,
  [], ◌∷◌, ◌++◌, ◌==◌, Dict, lookup, insert, remove, get_or, last?, length, nat_beq, ltb,
  if◌then◌else◌,
}
use harness_go.Value.{Value, str, add_int}
use harness_go.Errors.{Err, plain, Result, ok, err}
use harness_go.Checkpoint.{Checkpoint, PendingWrite, increment_channel}
use harness_go.Checkpoint.Copy.{deep_copy_map}

-- the parts of types.RunnableConfig that the manager uses
pub record RunnableConfig : Type 0 where
  pub thread_id : String
  pub configurable : Dict Value

pub record PutWrites : Type 0 where
  pub writes : List PendingWrite
  pub task_id : String

pub record CheckpointTuple : Type 0 where
  pub config : RunnableConfig
  pub checkpoint : Option Checkpoint
  pub parent_config : Option RunnableConfig

pub record CheckpointManager : Type 0 where
  pub checkpoints : Dict (List Checkpoint)
  pub max_versions : ℕ
  pub active_writes : Dict PutWrites

-- NewCheckpointManager; 0 stands for any number that is not positive.
unfoldable pub new_checkpoint_manager : ℕ → CheckpointManager
new_checkpoint_manager max_versions = record {
  checkpoints = [];
  max_versions = if nat_beq max_versions 0 then 100 else max_versions;
  active_writes = [];
}

-- `int` subtraction of 1, which wraps round
abbrev pub one_before : ℕ → ℕ
one_before v = (v + (2 ^ 64 - 1)) % 2 ^ 64

-- `cm.checkpoints[threadID]`
unfoldable pub thread : CheckpointManager → String → List Checkpoint
unfolding lookup
thread m id = get_or (lookup id m.checkpoints) []

abbrev pub drop : ℕ → List Checkpoint → List Checkpoint
drop zero cs = cs
drop (suc n) [] = []
drop (suc n) (c ∷ cs) = drop n cs

-- VersionConflictError, with its parts unprinted
abbrev pub version_conflict : Checkpoint → Err
version_conflict c = plain ("version conflict" ∷ c.id ∷ c.thread_id ∷ [])

-- whether the checkpoint is a child of the latest one with another version than the next
abbrev pub conflicts : Checkpoint → Option Checkpoint → Bool
conflicts c none = false
conflicts c (some latest) =
    not (c.parent_id == "")
    && (latest.id == c.parent_id && not (nat_beq latest.version (one_before c.version)))

-- the newest checkpoints, as many as are kept
abbrev pub trim : ℕ → List Checkpoint → List Checkpoint
trim limit cs = if ltb limit (length cs) then drop (length cs - limit) cs else cs

-- Save
unfoldable pub save : CheckpointManager → Checkpoint → CheckpointManager × Option Err
unfolding thread insert
save m c =
    let cs = thread m c.thread_id in
    if conflicts c (last? cs) then (m, some (version_conflict c)) else (
      record m {
        checkpoints = insert c.thread_id (trim m.max_versions (cs ++ c ∷ [])) m.checkpoints;
      },
      none,
    )

-- whether another task is writing
abbrev pub taken : Option PutWrites → String → Bool
taken none task_id = false
taken (some w) task_id = not (w.task_id == task_id)

abbrev pub task_of : Option PutWrites → String
task_of none = ""
task_of (some w) = w.task_id

-- the loop over the checkpoints of a thread
unfoldable pub find_by : (Checkpoint → Bool) → List Checkpoint → Option Checkpoint
find_by test [] = none
find_by test (c ∷ cs) = if test c then some c else find_by test cs

-- the loops over all the threads
unfoldable pub find_id : String → Dict (List Checkpoint) → Option Checkpoint
unfolding find_by
find_id id [] = none
find_id id ((t, cs) ∷ threads) = elim (find_by (λ c. c.id == id) cs) [
  | none ↦ find_id id threads
  | some c ↦ some c
]

-- the limit of List and GetLineage; 0 stands for any that is not positive.
abbrev pub capped : ℕ → ℕ → ℕ
capped limit n = if nat_beq limit 0 || ltb n limit then n else limit

-- a configuration that names a checkpoint
abbrev pub names_checkpoint : String → String → RunnableConfig
names_checkpoint id checkpoint_id = record {
  thread_id = id;
  configurable = ("checkpoint_id", str checkpoint_id) ∷ [];
}

abbrev pub named : String → Option Checkpoint → Option RunnableConfig
named id none = none
named id (some c) = some (names_checkpoint id c.id)

-- the checkpoint in front of the last one
abbrev pub before_last : List Checkpoint → Option Checkpoint
before_last [] = none
before_last (c ∷ []) = none
before_last (c ∷ d ∷ []) = some c
before_last (c ∷ d ∷ e ∷ cs) = before_last (d ∷ e ∷ cs)

-- the loop of GetTupleByVersion, with the checkpoint in front
unfoldable pub find_version :
    ℕ → Option Checkpoint → List Checkpoint → Option (Checkpoint × Option Checkpoint)
find_version version parent [] = none
find_version version parent (c ∷ cs) =
    if nat_beq c.version version then some (c, parent) else find_version version (some c) cs

module _ (json_copy : Value → Value) where
  -- Clone
  unfoldable pub clone : String → Checkpoint → Checkpoint
  unfolding deep_copy_map
  clone fresh c = record c { id = fresh; parent_id = c.id; state = deep_copy_map json_copy c.state }

  -- the loop over the writes
  unfoldable pub apply_writes_to : List PendingWrite → Checkpoint → Checkpoint
  unfolding insert increment_channel
  apply_writes_to [] c = c
  apply_writes_to (w ∷ ws) c =
      apply_writes_to ws
        (increment_channel (record c { state = insert w.channel w.value c.state }) w.channel)

  -- the new checkpoint of PutWrites
  unfoldable pub child : String → List PendingWrite → Checkpoint → Checkpoint
  unfolding clone apply_writes_to
  child fresh writes current =
      apply_writes_to writes (record (clone fresh current) {
        version = add_int current.version 1;
        parent_id = current.id;
      })

  abbrev pub put_on :
      String
      → CheckpointManager
      → String
      → List PendingWrite
      → String
      → Option Checkpoint
      → CheckpointManager × Option Err
  put_on fresh m id writes task_id none = (m, some (plain ("no checkpoint found" ∷ id ∷ [])))
  put_on fresh m id writes task_id (some current) =
      let active = lookup current.id m.active_writes in
      if taken active task_id
      then (m, some (plain ("conflicting writes" ∷ current.id ∷ task_of active ∷ [])))
      else (
        record m {
          checkpoints = insert id (thread m id ++ child fresh writes current ∷ []) m.checkpoints;
          active_writes =
              remove current.id
                (insert current.id (record { writes = writes; task_id = task_id }) m.active_writes);
        },
        none,
      )

  -- PutWrites
  unfoldable pub put_writes :
      String
      → CheckpointManager
      → RunnableConfig
      → List PendingWrite
      → String
      → CheckpointManager × Option Err
  unfolding thread insert remove lookup child
  put_writes fresh m config writes task_id =
      if config.thread_id == ""
      then (m, some (plain ("thread ID is required" ∷ [])))
      else put_on fresh m config.thread_id writes task_id (last? (thread m config.thread_id))

  abbrev pub cloned : String → Option Checkpoint → Option Checkpoint
  cloned fresh none = none
  cloned fresh (some c) = some (clone fresh c)

  -- Load; none is a nil checkpoint.
  unfoldable pub load : String → CheckpointManager → String → Option Checkpoint
  unfolding thread clone
  load fresh m id = cloned fresh (last? (thread m id))

  abbrev found_or : Err → String → Option Checkpoint → Result Checkpoint
  found_or e fresh none = err e
  found_or e fresh (some c) = ok (clone fresh c)

  -- LoadByCheckpointID
  unfoldable pub load_by_checkpoint_id : String → CheckpointManager → String → Result Checkpoint
  unfolding find_id clone
  load_by_checkpoint_id fresh m id =
      found_or (plain ("checkpoint not found" ∷ id ∷ [])) fresh (find_id id m.checkpoints)

  -- GetVersion
  unfoldable pub get_version : String → CheckpointManager → String → ℕ → Result Checkpoint
  unfolding thread find_by clone
  get_version fresh m id version =
      found_or (plain ("version not found" ∷ [])) fresh
        (find_by (λ c. nat_beq c.version version) (thread m id))

  abbrev clones : (ℕ → String) → ℕ → List Checkpoint → List Checkpoint
  clones fresh i [] = []
  clones fresh i (c ∷ cs) = clone (fresh i) c ∷ clones fresh (suc i) cs

  -- List: the newest checkpoints, from the oldest of them on
  unfoldable pub list_checkpoints : (ℕ → String) → CheckpointManager → String → ℕ → List Checkpoint
  unfolding thread clone
  list_checkpoints fresh m id limit =
      let cs = thread m id in clones fresh 0 (drop (length cs - capped limit (length cs)) cs)

  -- GetTuple; the parent is cloned too, and the clone's identifier is the one that is named.
  unfoldable pub get_tuple :
      (ℕ → String) → CheckpointManager → RunnableConfig → Result CheckpointTuple
  unfolding thread clone
  get_tuple fresh m config =
      if config.thread_id == ""
      then err (plain ("thread ID is required" ∷ []))
      else ok (record {
        config = config;
        checkpoint = cloned (fresh 0) (last? (thread m config.thread_id));
        parent_config =
            named config.thread_id (cloned (fresh 1) (before_last (thread m config.thread_id)));
      })

  abbrev tuple_or_error :
      (ℕ → String)
      → RunnableConfig
      → Option (Checkpoint × Option Checkpoint)
      → Result CheckpointTuple
  tuple_or_error fresh config none = err (plain ("version not found" ∷ []))
  tuple_or_error fresh config (some (c, parent)) = ok (record {
    config = config;
    checkpoint = some (clone (fresh 0) c);
    parent_config = named config.thread_id (cloned (fresh 1) parent);
  })

  -- GetTupleByVersion
  unfoldable pub get_tuple_by_version :
      (ℕ → String) → CheckpointManager → RunnableConfig → ℕ → Result CheckpointTuple
  unfolding thread clone find_version
  get_tuple_by_version fresh m config version =
      if config.thread_id == ""
      then err (plain ("thread ID is required" ∷ []))
      else tuple_or_error fresh config (find_version version none (thread m config.thread_id))

  -- the loop of GetLineage; `skip` checkpoints are passed over first
  abbrev lineage_from :
      (ℕ → String) → String → ℕ → ℕ → Option Checkpoint → List Checkpoint → List CheckpointTuple
  lineage_from fresh id skip i parent [] = []
  lineage_from fresh id (suc skip) i parent (c ∷ cs) = lineage_from fresh id skip i (some c) cs
  lineage_from fresh id zero i parent (c ∷ cs) =
      record {
        config = names_checkpoint id (clone (fresh i) c).id;
        checkpoint = some (clone (fresh i) c);
        parent_config = named id parent;
      }
      ∷ lineage_from fresh id zero (suc i) (some c) cs

  -- GetLineage
  unfoldable pub get_lineage : (ℕ → String) → CheckpointManager → String → ℕ → List CheckpointTuple
  unfolding thread clone
  get_lineage fresh m id limit =
      let cs = thread m id in lineage_from fresh id (length cs - capped limit (length cs)) 0 none cs

-- the first checkpoint with the identifier is taken out
unfoldable pub without_id : String → List Checkpoint → Option (List Checkpoint)
without_id id [] = none
without_id id (c ∷ cs) =
    let rest = without_id id cs in
    if c.id == id then some cs else (elim rest [ none ↦ none | some ds ↦ some (c ∷ ds) ])

unfoldable pub delete_in : String → Dict (List Checkpoint) → Option (Dict (List Checkpoint))
unfolding without_id
delete_in id [] = none
delete_in id ((t, cs) ∷ threads) =
    let rest = delete_in id threads in
    elim (without_id id cs) [
      | none ↦ (elim rest [ none ↦ none | some more ↦ some ((t, cs) ∷ more) ])
      | some ds ↦ some ((t, ds) ∷ threads)
    ]

abbrev deleted :
    CheckpointManager → String → Option (Dict (List Checkpoint)) → CheckpointManager × Option Err
deleted m id none = (m, some (plain ("checkpoint not found" ∷ id ∷ [])))
deleted m id (some threads) = (record m { checkpoints = threads }, none)

-- Delete
unfoldable pub delete : CheckpointManager → String → CheckpointManager × Option Err
unfolding delete_in
delete m id = deleted m id (delete_in id m.checkpoints)

-- ClearThread and ClearAll
unfoldable pub clear_thread : CheckpointManager → String → CheckpointManager
unfolding remove
clear_thread m id = record m { checkpoints = remove id m.checkpoints }

unfoldable pub clear_all : CheckpointManager → CheckpointManager
clear_all m = record m { checkpoints = [] }
