-- ===== src/Channels/AnyValue.antt =====
-- graphengine/channels/any_value.go
use harness_go.Base.{Bool, true, false, not, List, [], ◌∷◌, last?, get_or, if◌then◌else◌}
use harness_go.Value.{Value, missing, is_missing}
use harness_go.Errors.{Result, ok, err, empty_channel}
use harness_go.Channels.Common.{BaseChannel, new_base}

pub record AnyValue : Type 0 where
  pub base : BaseChannel
  pub value : Value

unfoldable pub new_any_value : Value → AnyValue
new_any_value typ = record { base = new_base typ; value = missing }

unfoldable pub get : AnyValue → Result Value
get c = if is_missing c.value then err empty_channel else ok c.value

unfoldable pub is_available : AnyValue → Bool
is_available c = not (is_missing c.value)

unfoldable pub update : AnyValue → List Value → AnyValue × Result Bool
update c [] = (c, ok false)
update c (v ∷ vs) = (record c { value = get_or (last? (v ∷ vs)) v }, ok true)

unfoldable pub copy : AnyValue → AnyValue
unfolding new_any_value
copy c =
    let n = new_any_value c.base.typ in
    record n { base = record (n.base) { key = c.base.key }; value = c.value }

unfoldable pub checkpoint : AnyValue → Value
checkpoint c = c.value

unfoldable pub from_checkpoint : AnyValue → Value → AnyValue
unfolding new_any_value
from_checkpoint c cp =
    let n = new_any_value c.base.typ in
    let n' = record n { base = record (n.base) { key = c.base.key } } in
    if is_missing cp then n' else record n' { value = cp }
