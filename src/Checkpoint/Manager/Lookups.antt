-- ===== src/Checkpoint/Manager/Lookups.antt =====
-- What Load finds after PutWrites (graphengine/checkpoint/checkpoint.go).
use harness_go.Base.{
  ℕ, String, ◌≡◌, refl, sym, ap, ◌∙◌, Bool, true, false, Option, none, some, List, [], ◌∷◌, ◌++◌,
  arith, ◌==◌, eq_iff, eq_refl, Dict, lookup, insert, lookup-insert, remove, last?, last?-append,
  or_else, if◌then◌else◌, Bool-cases, some_inj, inl, inr,
}
use harness_go.Value.{Value, add_int}
use harness_go.Errors.{Err, plain}
use harness_go.Checkpoint.{Checkpoint, PendingWrite, increment_channel, version_of}
use harness_go.Checkpoint.Seen.{version_of-bump}
use harness_go.Checkpoint.Copy.{deep_copy, deep_copy_map}
use harness_go.Checkpoint.Manager.{
  RunnableConfig, CheckpointManager, thread, taken, apply_writes_to, child, clone, cloned, load,
  put_on, put_writes,
}
use harness_go.Checkpoint.Manager.Chain.{thread-insert}

abbrev no_thread : Err
no_thread = plain ("thread ID is required" ∷ [])

-- the last value that is written to a channel
abbrev pub last_written : String → List PendingWrite → Option Value
last_written k [] = none
last_written k (w ∷ ws) =
    or_else (last_written k ws) (if w.channel == k then some w.value else none)

-- a version after the writes to a channel
abbrev pub version_after : String → List PendingWrite → ℕ → ℕ
version_after k [] v = v
version_after k (w ∷ ws) v =
    let next = version_after k ws (add_int v 1) in
    let same = version_after k ws v in if w.channel == k then next else same

or_else-if :
    (o : Option Value) (b : Bool) (v : Value) (p : Option Value)
    → or_else o (if b then some v else p) ≡ or_else (or_else o (if b then some v else none)) p
or_else-if none true v p = refl
or_else-if none false v p = refl
or_else-if (some x) true v p = refl
or_else-if (some x) false v p = refl

module _ (json_copy : Value → Value) where
  abbrev pub copied_value : Option Value → Option Value
  copied_value none = none
  copied_value (some v) = some (deep_copy json_copy v)

  lookup-deep_copy_map :
      (k : String) (m : Dict Value)
      → lookup k (deep_copy_map json_copy m) ≡ copied_value (lookup k m)
  unfolding lookup deep_copy_map
  lookup-deep_copy_map k [] = refl
  lookup-deep_copy_map k ((j, v) ∷ m) = elim (Bool-cases (j == k)) [
    | inl same ↦ rw same refl
    | inr other ↦ rw other (lookup-deep_copy_map k m)
  ]

  moved :
      (k : String) (w : PendingWrite) (ws : List PendingWrite) (c : Checkpoint)
      → version_after k ws (
          if w.channel == k
          then add_int (version_of c.channel_versions w.channel) 1
          else version_of c.channel_versions k)
        ≡ version_after k (w ∷ ws) (version_of c.channel_versions k)
  moved k w ws c = elim (Bool-cases (w.channel == k)) [
    | inl same ↦ rw same (
        ap (λ n. version_after k ws (add_int (version_of c.channel_versions n) 1))
          ((eq_iff w.channel k).0 same))
    | inr other ↦ rw other refl
  ]

  lookup-apply_writes_to :
      (k : String) (ws : List PendingWrite) (c : Checkpoint)
      → (lookup k (apply_writes_to json_copy ws c).state
          ≡ or_else (last_written k ws) (lookup k c.state))
        × (version_of (apply_writes_to json_copy ws c).channel_versions k
            ≡ version_after k ws (version_of c.channel_versions k))
  unfolding apply_writes_to increment_channel
  lookup-apply_writes_to k [] c = (refl, refl)
  lookup-apply_writes_to k (w ∷ ws) c =
      let next =
        increment_channel (record c { state = insert w.channel w.value c.state }) w.channel in
      let rest = lookup-apply_writes_to k ws next in
      (
        rest.0
            ∙ ap (or_else (last_written k ws)) (lookup-insert w.channel k w.value c.state)
            ∙ or_else-if (last_written k ws) (w.channel == k) w.value (lookup k c.state),
        rest.1
            ∙ ap (version_after k ws) (version_of-bump w.channel k c.channel_versions)
            ∙ moved k w ws c,
      )

  put_on-thread :
      (fresh : String) (m : CheckpointManager) (id : String) (writes : List PendingWrite)
      (task : String) (current : Checkpoint)
      → (put_on json_copy fresh m id writes task (some current)).1 ≡ none
      → last? (thread (put_on json_copy fresh m id writes task (some current)).0 id)
        ≡ some (child json_copy fresh writes current)
  put_on-thread fresh m id writes task current h =
      elim (Bool-cases (taken (lookup current.id m.active_writes) task)) [
        | inl busy ↦ absurd (refused busy)
        | inr free ↦
            let added = thread m id ++ child json_copy fresh writes current ∷ [] in
            rw free (
              ap last? (
                thread-insert m id id added m.max_versions (
                  remove current.id (
                    insert current.id (record { writes = writes; task_id = task }) m.active_writes))
                ∙ ap (λ b. if b then added else thread m id) (eq_refl id))
              ∙ last?-append (thread m id) (child json_copy fresh writes current))
      ]
    where
      refused : taken (lookup current.id m.active_writes) task ≡ true → ⊥
      refused busy = ground (arith, h, busy)

  -- the thread after a PutWrites that succeeds
  put_writes-thread :
      (fresh : String) (m : CheckpointManager) (config : RunnableConfig)
      (writes : List PendingWrite) (task : String) (current : Checkpoint)
      → last? (thread m config.thread_id) ≡ some current
      → (put_writes json_copy fresh m config writes task).1 ≡ none
      → last? (thread (put_writes json_copy fresh m config writes task).0 config.thread_id)
        ≡ some (child json_copy fresh writes current)
  put_writes-thread fresh m config writes task current l h =
      elim (Bool-cases (config.thread_id == "")) [
        | inl unnamed ↦ absurd (refused (ap (λ r. r.1) (put_writes-unnamed unnamed)))
        | inr named ↦
            let step = put_writes-named named in
            ap (λ r. last? (thread r.0 config.thread_id)) step
            ∙ put_on-thread fresh m config.thread_id writes task current
                (ap (λ r. r.1) (sym step) ∙ h)
      ]
    where
      put_writes-unnamed :
          (config.thread_id == "") ≡ true
          → put_writes json_copy fresh m config writes task ≡ (m, some no_thread)
      put_writes-unnamed e = unfold put_writes in rw e refl

      put_writes-named :
          (config.thread_id == "") ≡ false
          → put_writes json_copy fresh m config writes task
            ≡ put_on json_copy fresh m config.thread_id writes task (some current)
      put_writes-named e =
          unfold put_writes in rw (e) (ap (put_on json_copy fresh m config.thread_id writes task) l)

      refused : (put_writes json_copy fresh m config writes task).1 ≡ some no_thread → ⊥
      refused e = cc

  -- After a PutWrites that succeeds, Load gives a checkpoint that has, for every channel, a copy of
  -- the last value that was written to it or, if none was, of the value that it had; its version of
  -- the channel counts the writes.
  pub load-put_writes :
      (fresh again : String) (m : CheckpointManager) (config : RunnableConfig)
      (writes : List PendingWrite) (task : String) (current loaded : Checkpoint) (k : String)
      → last? (thread m config.thread_id) ≡ some current
      → (put_writes json_copy fresh m config writes task).1 ≡ none
      → load json_copy again (put_writes json_copy fresh m config writes task).0 config.thread_id
        ≡ some loaded
      → (lookup k loaded.state
          ≡ copied_value (or_else (last_written k writes) (copied_value (lookup k current.state))))
        × (version_of loaded.channel_versions k
            ≡ version_after k writes (version_of current.channel_versions k))
  unfolding load clone child
  load-put_writes fresh again m config writes task current loaded k l h e =
      let there = put_writes-thread fresh m config writes task current l h in
      let made = child json_copy fresh writes current in
      let same : clone json_copy again made ≡ loaded =
        some_inj (sym (ap (cloned json_copy again) there) ∙ e) in
      let written = lookup-apply_writes_to k writes (record (clone json_copy fresh current) {
        version = add_int current.version 1;
        parent_id = current.id;
      }) in
      (
        ap (λ c. lookup k c.state) (sym same)
            ∙ lookup-deep_copy_map k made.state
            ∙ ap copied_value (
                written.0
                ∙ ap (or_else (last_written k writes)) (lookup-deep_copy_map k current.state)),
        ap (λ c. version_of c.channel_versions k) (sym same) ∙ written.1,
      )
