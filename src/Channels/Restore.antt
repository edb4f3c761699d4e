-- ===== src/Channels/Restore.antt =====
-- A channel against its checkpoint: FromCheckpoint of graphengine/channels/*.go.
use harness_go.Base.{
  ◌≡◌, refl, ap, ◌⊎◌, inl, inr, Dict, nat_beq, length, Bool, true, false, not, [], ◌∷◌, arith,
  Distinct, keys, insert_all-nil,
}
use harness_go.Value.{Value, missing, items-of_items, is_missing}
use harness_go.Channels.Common.{BaseChannel}
use harness_go.Channels.LastValueAfterFinish
use harness_go.Channels.LastValueAfterFinish.{LastValueAfterFinish}
use harness_go.Channels.Barrier
use harness_go.Channels.BarrierAfterFinish
use harness_go.Channels.Barrier.{NamedBarrierValue}
use harness_go.Channels.BarrierAfterFinish.{NamedBarrierValueAfterFinish}
use harness_go.Channels.Aggregate.{create_zero_value}
use harness_go.Channels.Plain.{
  Plain, last, any, ephemeral, untracked, topic, barrier, barrier_finish, last_finish, aggregate,
  copy, checkpoint, from_checkpoint,
}

-- What the round trip needs: the seen names of a barrier are a set, as its updates keep them; a
-- LastValueAfterFinish has not finished; an aggregate without a value has no zero value either.
abbrev pub IsRestorable : Plain → Type 0
IsRestorable (barrier c) = Distinct (keys c.seen) × Distinct (keys c.names)
IsRestorable (barrier_finish c) = Distinct (keys c.seen) × Distinct (keys c.names)
IsRestorable (last_finish c) = c.finished ≡ false
IsRestorable (aggregate c) = (is_missing c.value ≡ false) ⊎ (create_zero_value c.base.typ ≡ missing)
IsRestorable _ = Unit

empty_or_not : (m : Dict Bool) → (m ≡ []) ⊎ (nat_beq (length m) 0 ≡ false)
empty_or_not [] = inl refl
empty_or_not (e ∷ m) = inr (ground arith)

module _ (b : BaseChannel) (names seen : Dict Bool) (dn : Distinct (keys names)) where
  restore_barrier :
      Distinct (keys seen)
      → let c : NamedBarrierValue = record { base = b; names = names; seen = seen } in
        Barrier.from_checkpoint c (Barrier.checkpoint c) ≡ Barrier.copy c
  unfolding Barrier.from_checkpoint Barrier.checkpoint Barrier.copy
  restore_barrier ds = elim (empty_or_not seen) [
    | inl e ↦ rw e refl
    | inr h ↦ rw (h, insert_all-nil names dn, insert_all-nil seen ds, insert_all-nil seen ds) refl
  ]

  restore_barrier_finish :
      (finished : Bool)
      → let c : NamedBarrierValueAfterFinish = record {
        base = b;
        names = names;
        seen = seen;
        finished = finished;
      } in
        BarrierAfterFinish.from_checkpoint c (BarrierAfterFinish.checkpoint c)
        ≡ BarrierAfterFinish.copy c
  unfolding BarrierAfterFinish.from_checkpoint BarrierAfterFinish.checkpoint BarrierAfterFinish.copy
  restore_barrier_finish true = elim (empty_or_not seen) [ inl e ↦ rw e refl | inr h ↦ rw h refl ]
  restore_barrier_finish false = elim (empty_or_not seen) [ inl e ↦ rw e refl | inr h ↦ rw h refl ]

-- Restoring a channel from its own checkpoint gives what Copy gives: the same key and contents.
pub from_checkpoint-checkpoint :
    (p : Plain) → IsRestorable p → from_checkpoint p (checkpoint p) ≡ copy p
unfolding from_checkpoint checkpoint copy
from_checkpoint-checkpoint (last c) h = ground arith
from_checkpoint-checkpoint (any c) h = ground arith
from_checkpoint-checkpoint (ephemeral c) h = ground arith
from_checkpoint-checkpoint (untracked c) h = refl
from_checkpoint-checkpoint (topic c) h = rw items-of_items
from_checkpoint-checkpoint (barrier c) h =
    ap barrier (restore_barrier c.base c.names c.seen h.1 h.0)
from_checkpoint-checkpoint (barrier_finish c) h =
    ap barrier_finish (restore_barrier_finish c.base c.names c.seen h.1 c.finished)
from_checkpoint-checkpoint (last_finish c) h = ground arith
from_checkpoint-checkpoint (aggregate c) h = ground arith

-- A LastValueAfterFinish that is restored from any checkpoint is not available, finished or not
-- when the checkpoint was taken; once it is finished it is available if the checkpoint held a value.
pub restored_until_finish :
    (c : LastValueAfterFinish) (cp : Value)
    → (LastValueAfterFinish.is_available (LastValueAfterFinish.from_checkpoint c cp) ≡ false)
      × (LastValueAfterFinish.is_available
            (LastValueAfterFinish.finish (LastValueAfterFinish.from_checkpoint c cp)).0
          ≡ not (is_missing cp))
unfolding LastValueAfterFinish.is_available LastValueAfterFinish.from_checkpoint
    LastValueAfterFinish.finish
restored_until_finish c cp = (ground arith, ground arith)
