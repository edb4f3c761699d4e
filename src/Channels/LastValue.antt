-- ===== src/Channels/LastValue.antt =====
-- graphengine/channels/last_value.go
use harness_go.Base.{Bool, true, false, not, List, [], ◌∷◌, if◌then◌else◌}
use harness_go.Value.{Value, missing, is_missing}
use harness_go.Errors.{Result, ok, err, empty_channel, invalid_update}
use harness_go.Channels.Common.{BaseChannel, new_base}

pub record LastValue : Type 0 where
  pub base : BaseChannel
  pub value : Value

unfoldable pub new_last_value : Value → LastValue
new_last_value typ = record { base = new_base typ; value = missing }

unfoldable pub get : LastValue → Result Value
get c = if is_missing c.value then err empty_channel else ok c.value

unfoldable pub is_available : LastValue → Bool
is_available c = not (is_missing c.value)

-- The channel as it is left, and what the call returns.
unfoldable pub update : LastValue → List Value → LastValue × Result Bool
update c [] = (c, ok false)
update c (v ∷ []) = (record c { value = v }, ok true)
update c (v ∷ w ∷ vs) = (
  c,
  err (
      invalid_update (
        "At key" ∷ c.base.key
        ∷ "Can receive only one value per step. Use a reducer to handle multiple values." ∷ [])),
)

unfoldable pub copy : LastValue → LastValue
unfolding new_last_value
copy c =
    let n = new_last_value c.base.typ in
    record n { base = record (n.base) { key = c.base.key }; value = c.value }

unfoldable pub checkpoint : LastValue → Value
checkpoint c = c.value

unfoldable pub from_checkpoint : LastValue → Value → LastValue
unfolding new_last_value
from_checkpoint c cp =
    let n = new_last_value c.base.typ in
    let n' = record n { base = record (n.base) { key = c.base.key } } in
    if is_missing cp then n' else record n' { value = cp }
