-- ===== src/Checkpoint/Manager/Saves.antt =====
-- What Save accepts, and how much a thread keeps (graphengine/checkpoint/checkpoint.go).
use harness_go.Base.{
  ℕ, zero, suc, ◌+◌, ◌-◌, ◌≤◌, ◌<◌, ◌^◌, ◌%◌, String, ◌≡◌, ◌≢◌, refl, sym, ap, ◌∙◌, true, false,
  Option, none, some, List, [], ◌∷◌, ◌++◌, arith, ◌==◌, eq_iff, eq_refl, insert, last?,
  last?-append, length, length-append, nat_beq, ltb, if◌then◌else◌, Bool-cases, some_inj, inl, inr,
}
use harness_go.Value.{Value, add_int}
use harness_go.Checkpoint.{Checkpoint}
use harness_go.Checkpoint.Manager.{
  CheckpointManager, one_before, thread, drop, conflicts, version_conflict, trim, save, clone,
  cloned, load,
}
use harness_go.Checkpoint.Manager.Chain.{thread-insert}

length-drop : (n : ℕ) (cs : List Checkpoint) → length (drop n cs) ≡ length cs - n
length-drop zero cs = omega arith
length-drop (suc n) [] = omega arith
length-drop (suc n) (c ∷ cs) = omega (arith, length-drop n cs)

length-trim : (limit : ℕ) (cs : List Checkpoint) → length (trim limit cs) ≤ limit
length-trim limit cs = elim (Bool-cases (ltb limit (length cs))) [
  | inl long ↦ rw long (omega (arith, length-drop (length cs - limit) cs))
  | inr short ↦ rw short (ground arith)
]

-- the two outcomes of Save
saved : CheckpointManager → Checkpoint → CheckpointManager
saved m c = record m {
  checkpoints =
      insert c.thread_id (trim m.max_versions (thread m c.thread_id ++ c ∷ [])) m.checkpoints;
}

save-fine :
    (m : CheckpointManager) (c : Checkpoint)
    → conflicts c (last? (thread m c.thread_id)) ≡ false
    → save m c ≡ (saved m c, none)
unfolding save saved
save-fine m c h = rw h refl

save-clash :
    (m : CheckpointManager) (c : Checkpoint)
    → conflicts c (last? (thread m c.thread_id)) ≡ true
    → save m c ≡ (m, some (version_conflict c))
unfolding save
save-clash m c h = rw h refl

last?-drop :
    (n : ℕ) (cs : List Checkpoint) (c : Checkpoint)
    → n ≤ length cs
    → last? (drop n (cs ++ c ∷ [])) ≡ some c
last?-drop zero cs c h = last?-append cs c
last?-drop (suc n) [] c h = absurd (omega arith)
last?-drop (suc n) (x ∷ cs) c h = last?-drop n cs c (omega arith)

last?-trim :
    (limit : ℕ) (cs : List Checkpoint) (c : Checkpoint)
    → 1 ≤ limit
    → last? (trim limit (cs ++ c ∷ [])) ≡ some c
last?-trim limit cs c h = elim (Bool-cases (ltb limit (length (cs ++ c ∷ [])))) [
  | inl long ↦
      let sum = length-append cs (c ∷ []) in
      rw long (last?-drop (length (cs ++ c ∷ []) - limit) cs c (omega arith))
  | inr short ↦ rw short (last?-append cs c)
]

-- A Save that succeeds leaves at most as many checkpoints in the thread as the manager keeps, the
-- new one the last of them, and every other thread as it is.
pub save-bounded :
    (m : CheckpointManager) (c : Checkpoint) (other : String)
    → 1 ≤ m.max_versions
    → (save m c).1 ≡ none
    → (length (thread (save m c).0 c.thread_id) ≤ m.max_versions)
      × (last? (thread (save m c).0 c.thread_id) ≡ some c)
      × ((c.thread_id == other) ≡ false → thread (save m c).0 other ≡ thread m other)
unfolding saved
save-bounded m c other few h = elim (Bool-cases (conflicts c (last? (thread m c.thread_id)))) [
  | inl clash ↦ absurd (refused (ap (λ r. r.1) (save-clash m c clash)))
  | inr fine ↦
      let kept = trim m.max_versions (thread m c.thread_id ++ c ∷ []) in
      let here = thread-insert m c.thread_id c.thread_id kept m.max_versions m.active_writes in
      let there = thread-insert m c.thread_id other kept m.max_versions m.active_writes in
      rw (save-fine m c fine, here, eq_refl c.thread_id)
        (
          length-trim m.max_versions (thread m c.thread_id ++ c ∷ []),
          last?-trim m.max_versions (thread m c.thread_id) c few,
          λ ne. there ∙ ap (λ b. if b then kept else thread m other) ne,
        )
]
  where
    refused : (save m c).1 ≡ some (version_conflict c) → ⊥
    refused e = cc

latest_of :
    (json_copy : Value → Value) (fresh id : String) (m : CheckpointManager) (c : Checkpoint)
    (o : Option Checkpoint)
    → last? (thread m id) ≡ o
    → load json_copy fresh m id ≡ some c
    → (latest : Checkpoint) × (last? (thread m id) ≡ some latest)
      × (c.parent_id ≡ latest.id)
      × (c.version ≡ latest.version)
unfolding load clone
latest_of json_copy fresh id m c none e h = absurd cc
latest_of json_copy fresh id m c (some latest) e h =
    let same : clone json_copy fresh latest ≡ c =
      some_inj (sym (ap (cloned json_copy fresh) e) ∙ h) in
    (latest, e, ap (λ x. x.parent_id) (sym same), ap (λ x. x.version) (sym same))

same_version : (v : ℕ) → v < 2 ^ 64 → nat_beq v (one_before v) ≡ false
same_version v h = let differs : v ≢ (v + (2 ^ 64 - 1)) % 2 ^ 64 = omega arith in ground arith

version_after : (v : ℕ) → v < 2 ^ 64 → nat_beq v (one_before (add_int v 1)) ≡ true
version_after v h =
    let same : v ≡ ((v + 1) % 2 ^ 64 + (2 ^ 64 - 1)) % 2 ^ 64 = omega arith in ground arith

-- A checkpoint that is loaded from its thread and saved as it is, is refused, since it has not the
-- next version; with the next version it is accepted.
pub save-load :
    (json_copy : Value → Value) (fresh id : String) (m : CheckpointManager) (c : Checkpoint)
    → load json_copy fresh m id ≡ some c
    → c.thread_id ≡ id
    → (c.parent_id == "") ≡ false
    → c.version < 2 ^ 64
    → ((save m c).1 ≡ some (version_conflict c))
      × ((save m (record c { version = add_int c.version 1 })).1 ≡ none)
save-load json_copy fresh id m c h t named v =
    let found = latest_of json_copy fresh id m c (last? (thread m id)) refl h in
    let latest = found.0 in
    let last : last? (thread m c.thread_id) ≡ some latest =
      ap (λ n. last? (thread m n)) t ∙ found.1 in
    let parent : (latest.id == c.parent_id) ≡ true =
      (eq_iff latest.id c.parent_id).1 (sym found.2) in
    let version = found.3 in
    let clash : conflicts c (some latest) ≡ true =
      ground (arith, same_version c.version v, version, parent, named) in
    let fine : conflicts (record c { version = add_int c.version 1 }) (some latest) ≡ false =
      ground (arith, version_after c.version v, version, parent, named) in
    (
      ap (λ r. r.1) (save-clash m c (ap (conflicts c) last ∙ clash)),
      ap (λ r. r.1)
          (save-fine m (record c { version = add_int c.version 1 })
            (ap (conflicts (record c { version = add_int c.version 1 })) last ∙ fine)),
    )
