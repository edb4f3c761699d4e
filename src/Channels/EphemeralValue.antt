-- ===== src/Channels/EphemeralValue.antt =====
-- graphengine/channels/ephemeral_value.go
use harness_go.Base.{Bool, true, false, not, List, [], ◌∷◌, last?, get_or, if◌then◌else◌}
use harness_go.Value.{Value, nil, missing, is_missing}
use harness_go.Errors.{Result, ok, err, empty_channel}
use harness_go.Channels.Common.{BaseChannel, new_base}

pub record EphemeralValue : Type 0 where
  pub base : BaseChannel
  pub value : Value
  pub guard : Bool

unfoldable pub new_ephemeral_value : Value → Bool → EphemeralValue
new_ephemeral_value typ guard = record { base = new_base typ; value = missing; guard = guard }

-- A read clears the value.
unfoldable pub get : EphemeralValue → EphemeralValue × Result Value
get c =
    if is_missing c.value
    then (c, if c.guard then err empty_channel else ok nil)
    else (record c { value = missing }, ok c.value)

unfoldable pub is_available : EphemeralValue → Bool
is_available c = not (is_missing c.value)

unfoldable pub update : EphemeralValue → List Value → EphemeralValue × Result Bool
update c [] = (c, ok false)
update c (v ∷ vs) = (record c { value = get_or (last? (v ∷ vs)) v }, ok true)

unfoldable pub copy : EphemeralValue → EphemeralValue
unfolding new_ephemeral_value
copy c =
    let n = new_ephemeral_value c.base.typ c.guard in
    record n { base = record (n.base) { key = c.base.key }; value = c.value }

unfoldable pub checkpoint : EphemeralValue → Value
checkpoint c = c.value

unfoldable pub from_checkpoint : EphemeralValue → Value → EphemeralValue
unfolding new_ephemeral_value
from_checkpoint c cp =
    let n = new_ephemeral_value c.base.typ c.guard in
    let n' = record n { base = record (n.base) { key = c.base.key } } in
    if is_missing cp then n' else record n' { value = cp }
