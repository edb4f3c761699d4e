-- ===== src/Channels/UntrackedValue.antt =====
-- graphengine/channels/untracked.go
use harness_go.Base.{Bool, true, false, not, List, [], ◌∷◌, last?, get_or, if◌then◌else◌}
use harness_go.Value.{Value, missing, is_missing}
use harness_go.Errors.{Result, ok, err, empty_channel}
use harness_go.Channels.Common.{BaseChannel, new_base}

pub record UntrackedValue : Type 0 where
  pub base : BaseChannel
  pub value : Value

unfoldable pub new_untracked_value : Value → UntrackedValue
new_untracked_value typ = record { base = new_base typ; value = missing }

unfoldable pub get : UntrackedValue → Result Value
get c = if is_missing c.value then err empty_channel else ok c.value

unfoldable pub is_available : UntrackedValue → Bool
is_available c = not (is_missing c.value)

unfoldable pub update : UntrackedValue → List Value → UntrackedValue × Result Bool
update c [] = (c, ok false)
update c (v ∷ vs) = (record c { value = get_or (last? (v ∷ vs)) v }, ok true)

-- Neither the value nor the key is copied.
unfoldable pub copy : UntrackedValue → UntrackedValue
unfolding new_untracked_value
copy c = new_untracked_value c.base.typ

unfoldable pub checkpoint : UntrackedValue → Value
checkpoint c = missing

unfoldable pub from_checkpoint : UntrackedValue → Value → UntrackedValue
unfolding new_untracked_value
from_checkpoint c cp = new_untracked_value c.base.typ
