-- ===== src/Channels/Channel.antt =====
-- The interface `Channel` of graphengine/channels/base.go, and the struct `ReducerChannel` of
-- graphengine/channels/reducer.go, which embeds another channel and a reducer function: a channel
-- is kept as the plain channel inside and the reducers round it, the outermost first.
pub mod Reduce
use harness_go.Base.{ℕ, String, Bool, false, List, [], ◌∷◌}
use harness_go.Value.{Value}
use harness_go.Errors.{Result, ok, err}
use harness_go.Channels.Common.{set_key, set_version, get_version}
use harness_go.Channels.Plain
use harness_go.Channels.Plain.{Plain}

abbrev pub Reducer : Type 0
Reducer = Value → Value → Value

pub record Channel : Type 0 where
  pub reducers : List Reducer
  pub plain : Plain

abbrev pub of_plain : Plain → Channel
of_plain p = record { reducers = []; plain = p }

-- NewReducerChannel
unfoldable pub new_reducer_channel : Channel → Reducer → Channel
new_reducer_channel c f = record c { reducers = f ∷ c.reducers }

unfoldable pub get : Channel → Channel × Result Value
unfolding Plain.get
get c = let (p, r) = Plain.get c.plain in (record c { plain = p }, r)

unfoldable pub is_available : Channel → Bool
unfolding Plain.is_available
is_available c = Plain.is_available c.plain

-- the loop of ReducerChannel.Update over the values after the first
unfoldable pub combine : Reducer → Value → List Value → Value
combine f acc [] = acc
combine f acc (v ∷ vs) = combine f (f acc v) vs

-- the first value, joined to the current one if the read gave one
abbrev pub seed : Reducer → Result Value → Value → Value
seed f (ok current) v = f current v
seed f (err e) v = v

-- Update, at the channel that the given reducers wrap round a plain one
unfoldable pub update_through : List Reducer → Plain → List Value → Plain × Result Bool
unfolding Plain.update Plain.get combine
update_through [] p vs = Plain.update p vs
update_through (f ∷ fs) p [] = (p, ok false)
update_through (f ∷ fs) p (v ∷ vs) =
    let (p', current) = Plain.get p in update_through fs p' (combine f (seed f current v) vs ∷ [])

unfoldable pub update : Channel → List Value → Channel × Result Bool
unfolding update_through
update c vs = let (p, r) = update_through c.reducers c.plain vs in (record c { plain = p }, r)

unfoldable pub copy : Channel → Channel
unfolding Plain.copy
copy c = record c { plain = Plain.copy c.plain }

unfoldable pub checkpoint : Channel → Value
unfolding Plain.checkpoint
checkpoint c = Plain.checkpoint c.plain

unfoldable pub from_checkpoint : Channel → Value → Channel
unfolding Plain.from_checkpoint
from_checkpoint c cp = record c { plain = Plain.from_checkpoint c.plain cp }

unfoldable pub consume : Channel → Channel × Bool
unfolding Plain.consume
consume c = let (p, b) = Plain.consume c.plain in (record c { plain = p }, b)

unfoldable pub finish : Channel → Channel × Bool
unfolding Plain.finish
finish c = let (p, b) = Plain.finish c.plain in (record c { plain = p }, b)

unfoldable pub key : Channel → String
unfolding Plain.base
key c = (Plain.base c.plain).key

unfoldable pub with_key : Channel → String → Channel
unfolding Plain.with_base Plain.base set_key
with_key c k = record c { plain = Plain.with_base c.plain (set_key (Plain.base c.plain) k) }

unfoldable pub version : Channel → ℕ
unfolding Plain.base get_version
version c = get_version (Plain.base c.plain)

-- `ch.(interface{ SetVersion(int) })`: the method is the embedded struct's, and a ReducerChannel,
-- which embeds the interface, has none.
unfoldable pub try_set_version : Channel → ℕ → Channel
unfolding Plain.with_base Plain.base set_version
try_set_version c v = elim c.reducers [
  | [] ↦ record c { plain = Plain.with_base c.plain (set_version (Plain.base c.plain) v) }
  | f ∷ fs ↦ c
]
