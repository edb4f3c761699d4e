-- ===== src/Checkpoint/Manager/Chain.antt =====
-- The lineage of a thread (graphengine/checkpoint/checkpoint.go): each checkpoint names the one in
-- front of it as its parent, and has the next version.
use harness_go.Base.{
  ℕ, zero, suc, ◌+◌, ◌-◌, ◌<◌, ◌^◌, ◌%◌, String, ◌≡◌, refl, sym, subst, ap, ◌∙◌, true, false,
  Option, none, some, List, [], ◌∷◌, ◌++◌, arith, ◌==◌, eq_iff, Dict, lookup, insert, lookup-insert,
  last?, length, nat_beq, ltb, if◌then◌else◌, Bool-cases, some_inj, inl, inr,
}
use harness_go.Value.{Value, add_int}
use harness_go.Checkpoint.{Checkpoint, PendingWrite, increment_channel}
use harness_go.Checkpoint.Manager.{
  RunnableConfig, PutWrites, CheckpointManager, one_before, thread, drop, conflicts, trim, save,
  apply_writes_to, child, clone, taken, put_on, put_writes,
}

-- a checkpoint behind another one
pub record Follows (c d : Checkpoint) : Type 0 where
  parent : d.parent_id ≡ c.id
  next : d.version ≡ add_int c.version 1

abbrev pub IsChain : List Checkpoint → Type 0
IsChain [] = Unit
IsChain (c ∷ []) = Unit
IsChain (c ∷ d ∷ cs) = Follows c d × IsChain (d ∷ cs)

IsChain-tail : (c : Checkpoint) (cs : List Checkpoint) → IsChain (c ∷ cs) → IsChain cs
IsChain-tail c [] h = tt
IsChain-tail c (d ∷ cs) h = h.1

IsChain-drop : (n : ℕ) (cs : List Checkpoint) → IsChain cs → IsChain (drop n cs)
IsChain-drop zero cs h = h
IsChain-drop (suc n) [] h = tt
IsChain-drop (suc n) (c ∷ cs) h = IsChain-drop n cs (IsChain-tail c cs h)

pub IsChain-trim : (limit : ℕ) (cs : List Checkpoint) → IsChain cs → IsChain (trim limit cs)
IsChain-trim limit cs h = elim (Bool-cases (ltb limit (length cs))) [
  | inl long ↦ rw long (IsChain-drop (length cs - limit) cs h)
  | inr short ↦ rw short h
]

IsChain-snoc :
    (cs : List Checkpoint) (d : Checkpoint)
    → IsChain cs
    → ((c : Checkpoint) → last? cs ≡ some c → Follows c d)
    → IsChain (cs ++ d ∷ [])
IsChain-snoc [] d h f = tt
IsChain-snoc (c ∷ []) d h f = (f c refl, tt)
IsChain-snoc (c ∷ e ∷ cs) d h f = (h.0, IsChain-snoc (e ∷ cs) d h.1 f)

kept-apply_writes_to :
    (json_copy : Value → Value) (ws : List PendingWrite) (c : Checkpoint)
    → ((apply_writes_to json_copy ws c).parent_id ≡ c.parent_id)
      × ((apply_writes_to json_copy ws c).version ≡ c.version)
      × ((apply_writes_to json_copy ws c).thread_id ≡ c.thread_id)
unfolding apply_writes_to increment_channel
kept-apply_writes_to json_copy [] c = (refl, refl, refl)
kept-apply_writes_to json_copy (w ∷ ws) c = kept-apply_writes_to json_copy ws _

child-Follows :
    (json_copy : Value → Value) (fresh : String) (ws : List PendingWrite) (c : Checkpoint)
    → Follows c (child json_copy fresh ws c)
unfolding child clone
child-Follows json_copy fresh ws c =
    let kept = kept-apply_writes_to json_copy ws _ in record { parent = kept.0; next = kept.1 }

pub thread-insert :
    (m : CheckpointManager) (id other : String) (cs : List Checkpoint) (n : ℕ) (w : Dict PutWrites)
    → thread
        (record { checkpoints = insert id cs m.checkpoints; max_versions = n; active_writes = w })
        other
      ≡ (if id == other then cs else thread m other)
unfolding thread
thread-insert m id other cs n w = rw (lookup-insert id other cs m.checkpoints) (ground arith)

-- every thread is a chain
abbrev pub AreChains : CheckpointManager → Type 0
AreChains m = (id : String) → IsChain (thread m id)

replaced :
    (m : CheckpointManager) (id : String) (cs : List Checkpoint) (n : ℕ) (w : Dict PutWrites)
    → AreChains m
    → IsChain cs
    → AreChains
        (record { checkpoints = insert id cs m.checkpoints; max_versions = n; active_writes = w })
replaced m id cs n w h k other = elim (Bool-cases (id == other)) [
  | inl same ↦
      subst IsChain
        (sym (thread-insert m id other cs n w ∙ ap (λ b. if b then cs else thread m other) same)) k
  | inr differs ↦
      subst IsChain
        (sym (thread-insert m id other cs n w ∙ ap (λ b. if b then cs else thread m other) differs))
        (h other)
]

put_on-AreChains :
    (json_copy : Value → Value) (fresh : String) (m : CheckpointManager) (id : String)
    (ws : List PendingWrite) (task : String) (o : Option Checkpoint)
    → AreChains m
    → last? (thread m id) ≡ o
    → AreChains (put_on json_copy fresh m id ws task o).0
put_on-AreChains json_copy fresh m id ws task none h e = h
put_on-AreChains json_copy fresh m id ws task (some current) h e =
    elim (Bool-cases (taken (lookup current.id m.active_writes) task)) [
      | inl busy ↦ rw busy h
      | inr free ↦ rw free (
          replaced m id (thread m id ++ child json_copy fresh ws current ∷ []) _ _ h (
            IsChain-snoc (thread m id) (child json_copy fresh ws current) (h id) (λ c k.
              subst (λ x. Follows x (child json_copy fresh ws current)) (some_inj (sym e ∙ k))
                (child-Follows json_copy fresh ws current))))
    ]

-- PutWrites keeps every thread a chain, in which each checkpoint names the one in front of it as its
-- parent and has the next version, whether it succeeds or not.
pub put_writes-AreChains :
    (json_copy : Value → Value) (fresh : String) (m : CheckpointManager) (config : RunnableConfig)
    (writes : List PendingWrite) (task_id : String)
    → AreChains m
    → AreChains (put_writes json_copy fresh m config writes task_id).0
unfolding put_writes
put_writes-AreChains json_copy fresh m config writes task_id h =
    elim (Bool-cases (config.thread_id == "")) [
      | inl unnamed ↦ rw unnamed h
      | inr named ↦ rw named (
          put_on-AreChains json_copy fresh m config.thread_id writes task_id
            (last? (thread m config.thread_id)) h refl)
    ]

next_version : (v w : ℕ) → w < 2 ^ 64 → nat_beq v (one_before w) ≡ true → w ≡ add_int v 1
next_version v w h e = let same : v ≡ (w + (2 ^ 64 - 1)) % 2 ^ 64 = ground arith in omega arith

agrees :
    (c : Checkpoint) (o : Option Checkpoint) (latest : Checkpoint)
    → conflicts c o ≡ false
    → o ≡ some latest
    → (c.parent_id == "") ≡ false
    → c.parent_id ≡ latest.id
    → c.version < 2 ^ 64
    → Follows latest c
agrees c none latest h e n p v = absurd cc
agrees c (some other) latest h e n p v =
    let same : other ≡ latest = some_inj e in
    let it : conflicts c (some latest) ≡ false = subst (λ x. conflicts c (some x) ≡ false) same h in
    let named : (latest.id == c.parent_id) ≡ true = (eq_iff latest.id c.parent_id).1 (sym p) in
    let fits : nat_beq latest.version (one_before c.version) ≡ true =
      ground (arith, it, named, n) in
    record { parent = p; next = next_version latest.version c.version v fits }

-- Save keeps every thread a chain, in which each checkpoint names the one in front of it as its parent
-- and has the next version, if the new one, where its thread is not empty, names the latest one there
-- as its parent, by an identifier that is not empty; the version of the new one is an int of 64 bits.
pub save-AreChains :
    (m : CheckpointManager) (c : Checkpoint)
    → AreChains m
    → c.version < 2 ^ 64
    → ((latest : Checkpoint)
        → last? (thread m c.thread_id) ≡ some latest
        → (c.parent_id ≡ latest.id) × ((c.parent_id == "") ≡ false))
    → AreChains (save m c).0
unfolding save
save-AreChains m c h v p = elim (Bool-cases (conflicts c (last? (thread m c.thread_id)))) [
  | inl clash ↦ rw clash h
  | inr fine ↦ rw fine (
      replaced m c.thread_id (trim m.max_versions (thread m c.thread_id ++ c ∷ [])) m.max_versions
        m.active_writes h
        (IsChain-trim m.max_versions (thread m c.thread_id ++ c ∷ []) (
          IsChain-snoc (thread m c.thread_id) c (h c.thread_id) (λ latest e.
            agrees c (last? (thread m c.thread_id)) latest fine e (p latest e).1 (p latest e).0
              v))))
]
