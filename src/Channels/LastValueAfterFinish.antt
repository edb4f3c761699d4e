-- ===== src/Channels/LastValueAfterFinish.antt =====
-- graphengine/channels/barrier.go: the struct `LastValueAfterFinish`.
use harness_go.Base.{Bool, true, false, not, ◌&&◌, List, [], ◌∷◌, if◌then◌else◌}
use harness_go.Value.{Value, missing, is_missing}
use harness_go.Errors.{Result, ok, err, empty_channel, invalid_update}
use harness_go.Channels.Common.{BaseChannel, new_base}

pub record LastValueAfterFinish : Type 0 where
  pub base : BaseChannel
  pub value : Value
  pub finished : Bool

unfoldable pub new_last_value_after_finish : Value → LastValueAfterFinish
new_last_value_after_finish typ = record { base = new_base typ; value = missing; finished = false }

unfoldable pub get : LastValueAfterFinish → Result Value
get c =
    if not c.finished
    then err empty_channel
    else if is_missing c.value
    then err empty_channel
    else ok c.value

unfoldable pub is_available : LastValueAfterFinish → Bool
is_available c = c.finished && not (is_missing c.value)

unfoldable pub update : LastValueAfterFinish → List Value → LastValueAfterFinish × Result Bool
update c [] = (c, ok false)
update c (v ∷ []) = (record c { value = v }, ok true)
update c (v ∷ w ∷ vs) = (
  c,
  err (
      invalid_update
        ("Can receive only one value per step. Use a reducer to handle multiple values." ∷ [])),
)

unfoldable pub copy : LastValueAfterFinish → LastValueAfterFinish
unfolding new_last_value_after_finish
copy c =
    let n = new_last_value_after_finish c.base.typ in
    record n { base = record (n.base) { key = c.base.key }; value = c.value; finished = c.finished }

unfoldable pub checkpoint : LastValueAfterFinish → Value
checkpoint c = c.value

unfoldable pub from_checkpoint : LastValueAfterFinish → Value → LastValueAfterFinish
unfolding new_last_value_after_finish
from_checkpoint c cp =
    let n = new_last_value_after_finish c.base.typ in
    let n' = record n { base = record (n.base) { key = c.base.key } } in
    if is_missing cp then n' else record n' { value = cp }

unfoldable pub finish : LastValueAfterFinish → LastValueAfterFinish × Bool
finish c = if not c.finished then (record c { finished = true }, true) else (c, false)

unfoldable pub consume : LastValueAfterFinish → LastValueAfterFinish × Bool
consume c = (c, false)
