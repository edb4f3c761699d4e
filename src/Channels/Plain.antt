-- ===== src/Channels/Plain.antt =====
-- The interface `Channel` of graphengine/channels/base.go over the types that implement it by
-- themselves. A method's call is the call of the type's own method.
use harness_go.Base.{Bool, List}
use harness_go.Value.{Value}
use harness_go.Errors.{Result}
use harness_go.Channels.Common
use harness_go.Channels.Common.{BaseChannel}
use harness_go.Channels.LastValue
use harness_go.Channels.LastValue.{LastValue}
use harness_go.Channels.AnyValue
use harness_go.Channels.AnyValue.{AnyValue}
use harness_go.Channels.EphemeralValue
use harness_go.Channels.EphemeralValue.{EphemeralValue}
use harness_go.Channels.UntrackedValue
use harness_go.Channels.UntrackedValue.{UntrackedValue}
use harness_go.Channels.Topic
use harness_go.Channels.Topic.{Topic}
use harness_go.Channels.Barrier
use harness_go.Channels.Barrier.{NamedBarrierValue}
use harness_go.Channels.BarrierAfterFinish
use harness_go.Channels.BarrierAfterFinish.{NamedBarrierValueAfterFinish}
use harness_go.Channels.LastValueAfterFinish
use harness_go.Channels.LastValueAfterFinish.{LastValueAfterFinish}
use harness_go.Channels.Aggregate
use harness_go.Channels.Aggregate.{BinaryOperatorAggregate}

pub data Plain : Type 0 where
  last : LastValue → Plain
  any : AnyValue → Plain
  ephemeral : EphemeralValue → Plain
  untracked : UntrackedValue → Plain
  topic : Topic → Plain
  barrier : NamedBarrierValue → Plain
  barrier_finish : NamedBarrierValueAfterFinish → Plain
  last_finish : LastValueAfterFinish → Plain
  aggregate : BinaryOperatorAggregate → Plain

-- A read is a step of the channel, since one type clears its value.
unfoldable pub get : Plain → Plain × Result Value
unfolding LastValue.get AnyValue.get EphemeralValue.get UntrackedValue.get Topic.get Barrier.get
    BarrierAfterFinish.get LastValueAfterFinish.get Aggregate.get
get (last c) = (last c, LastValue.get c)
get (any c) = (any c, AnyValue.get c)
get (ephemeral c) = let (c', r) = EphemeralValue.get c in (ephemeral c', r)
get (untracked c) = (untracked c, UntrackedValue.get c)
get (topic c) = (topic c, Topic.get c)
get (barrier c) = (barrier c, Barrier.get c)
get (barrier_finish c) = (barrier_finish c, BarrierAfterFinish.get c)
get (last_finish c) = (last_finish c, LastValueAfterFinish.get c)
get (aggregate c) = (aggregate c, Aggregate.get c)

unfoldable pub is_available : Plain → Bool
unfolding LastValue.is_available AnyValue.is_available EphemeralValue.is_available
    UntrackedValue.is_available Topic.is_available Barrier.is_available
    BarrierAfterFinish.is_available LastValueAfterFinish.is_available Aggregate.is_available
is_available (last c) = LastValue.is_available c
is_available (any c) = AnyValue.is_available c
is_available (ephemeral c) = EphemeralValue.is_available c
is_available (untracked c) = UntrackedValue.is_available c
is_available (topic c) = Topic.is_available c
is_available (barrier c) = Barrier.is_available c
is_available (barrier_finish c) = BarrierAfterFinish.is_available c
is_available (last_finish c) = LastValueAfterFinish.is_available c
is_available (aggregate c) = Aggregate.is_available c

unfoldable pub update : Plain → List Value → Plain × Result Bool
unfolding LastValue.update AnyValue.update EphemeralValue.update UntrackedValue.update Topic.update
    Barrier.update BarrierAfterFinish.update LastValueAfterFinish.update Aggregate.update
update (last c) vs = let (c', r) = LastValue.update c vs in (last c', r)
update (any c) vs = let (c', r) = AnyValue.update c vs in (any c', r)
update (ephemeral c) vs = let (c', r) = EphemeralValue.update c vs in (ephemeral c', r)
update (untracked c) vs = let (c', r) = UntrackedValue.update c vs in (untracked c', r)
update (topic c) vs = let (c', r) = Topic.update c vs in (topic c', r)
update (barrier c) vs = let (c', r) = Barrier.update c vs in (barrier c', r)
update (barrier_finish c) vs =
    let (c', r) = BarrierAfterFinish.update c vs in (barrier_finish c', r)
update (last_finish c) vs = let (c', r) = LastValueAfterFinish.update c vs in (last_finish c', r)
update (aggregate c) vs = let (c', r) = Aggregate.update c vs in (aggregate c', r)

unfoldable pub copy : Plain → Plain
unfolding LastValue.copy AnyValue.copy EphemeralValue.copy UntrackedValue.copy Topic.copy
    Barrier.copy BarrierAfterFinish.copy LastValueAfterFinish.copy Aggregate.copy
copy (last c) = last (LastValue.copy c)
copy (any c) = any (AnyValue.copy c)
copy (ephemeral c) = ephemeral (EphemeralValue.copy c)
copy (untracked c) = untracked (UntrackedValue.copy c)
copy (topic c) = topic (Topic.copy c)
copy (barrier c) = barrier (Barrier.copy c)
copy (barrier_finish c) = barrier_finish (BarrierAfterFinish.copy c)
copy (last_finish c) = last_finish (LastValueAfterFinish.copy c)
copy (aggregate c) = aggregate (Aggregate.copy c)

unfoldable pub checkpoint : Plain → Value
unfolding LastValue.checkpoint AnyValue.checkpoint EphemeralValue.checkpoint
    UntrackedValue.checkpoint Topic.checkpoint Barrier.checkpoint BarrierAfterFinish.checkpoint
    LastValueAfterFinish.checkpoint Aggregate.checkpoint
checkpoint (last c) = LastValue.checkpoint c
checkpoint (any c) = AnyValue.checkpoint c
checkpoint (ephemeral c) = EphemeralValue.checkpoint c
checkpoint (untracked c) = UntrackedValue.checkpoint c
checkpoint (topic c) = Topic.checkpoint c
checkpoint (barrier c) = Barrier.checkpoint c
checkpoint (barrier_finish c) = BarrierAfterFinish.checkpoint c
checkpoint (last_finish c) = LastValueAfterFinish.checkpoint c
checkpoint (aggregate c) = Aggregate.checkpoint c

unfoldable pub from_checkpoint : Plain → Value → Plain
unfolding LastValue.from_checkpoint AnyValue.from_checkpoint EphemeralValue.from_checkpoint
    UntrackedValue.from_checkpoint Topic.from_checkpoint Barrier.from_checkpoint
    BarrierAfterFinish.from_checkpoint LastValueAfterFinish.from_checkpoint
    Aggregate.from_checkpoint
from_checkpoint (last c) cp = last (LastValue.from_checkpoint c cp)
from_checkpoint (any c) cp = any (AnyValue.from_checkpoint c cp)
from_checkpoint (ephemeral c) cp = ephemeral (EphemeralValue.from_checkpoint c cp)
from_checkpoint (untracked c) cp = untracked (UntrackedValue.from_checkpoint c cp)
from_checkpoint (topic c) cp = topic (Topic.from_checkpoint c cp)
from_checkpoint (barrier c) cp = barrier (Barrier.from_checkpoint c cp)
from_checkpoint (barrier_finish c) cp = barrier_finish (BarrierAfterFinish.from_checkpoint c cp)
from_checkpoint (last_finish c) cp = last_finish (LastValueAfterFinish.from_checkpoint c cp)
from_checkpoint (aggregate c) cp = aggregate (Aggregate.from_checkpoint c cp)

unfoldable pub consume : Plain → Plain × Bool
unfolding Barrier.consume BarrierAfterFinish.consume LastValueAfterFinish.consume
consume (last c) = (last c, Common.consume)
consume (any c) = (any c, Common.consume)
consume (ephemeral c) = (ephemeral c, Common.consume)
consume (untracked c) = (untracked c, Common.consume)
consume (topic c) = (topic c, Common.consume)
consume (barrier c) = let (c', b) = Barrier.consume c in (barrier c', b)
consume (barrier_finish c) = let (c', b) = BarrierAfterFinish.consume c in (barrier_finish c', b)
consume (last_finish c) = let (c', b) = LastValueAfterFinish.consume c in (last_finish c', b)
consume (aggregate c) = (aggregate c, Common.consume)

unfoldable pub finish : Plain → Plain × Bool
unfolding Barrier.finish BarrierAfterFinish.finish LastValueAfterFinish.finish
finish (last c) = (last c, Common.finish)
finish (any c) = (any c, Common.finish)
finish (ephemeral c) = (ephemeral c, Common.finish)
finish (untracked c) = (untracked c, Common.finish)
finish (topic c) = (topic c, Common.finish)
finish (barrier c) = let (c', b) = Barrier.finish c in (barrier c', b)
finish (barrier_finish c) = let (c', b) = BarrierAfterFinish.finish c in (barrier_finish c', b)
finish (last_finish c) = let (c', b) = LastValueAfterFinish.finish c in (last_finish c', b)
finish (aggregate c) = (aggregate c, Common.finish)

-- the embedded struct
unfoldable pub base : Plain → BaseChannel
base (last c) = c.base
base (any c) = c.base
base (ephemeral c) = c.base
base (untracked c) = c.base
base (topic c) = c.base
base (barrier c) = c.base
base (barrier_finish c) = c.base
base (last_finish c) = c.base
base (aggregate c) = c.base

unfoldable pub with_base : Plain → BaseChannel → Plain
with_base (last c) b = last (record c { base = b })
with_base (any c) b = any (record c { base = b })
with_base (ephemeral c) b = ephemeral (record c { base = b })
with_base (untracked c) b = untracked (record c { base = b })
with_base (topic c) b = topic (record c { base = b })
with_base (barrier c) b = barrier (record c { base = b })
with_base (barrier_finish c) b = barrier_finish (record c { base = b })
with_base (last_finish c) b = last_finish (record c { base = b })
with_base (aggregate c) b = aggregate (record c { base = b })
