-- ===== src/Channels/Topic.antt =====
-- graphengine/channels/topic.go
pub mod Batches
use harness_go.Base.{
  Bool, true, false, Option, none, some, List, [], ◌∷◌, ◌++◌, ltb, length, if◌then◌else◌,
}
use harness_go.Value.{Value, list, of_items, as_list, is_missing}
use harness_go.Errors.{Result, ok, err, empty_channel}
use harness_go.Channels.Common.{BaseChannel, new_base}

pub record Topic : Type 0 where
  pub base : BaseChannel
  pub values : List Value
  pub accumulate : Bool

unfoldable pub new_topic : Value → Bool → Topic
new_topic typ accumulate = record { base = new_base typ; values = []; accumulate = accumulate }

unfoldable pub is_available : Topic → Bool
is_available c = ltb 0 (length c.values)

unfoldable pub get : Topic → Result Value
get c = if ltb 0 (length c.values) then ok (list (of_items c.values)) else err empty_channel

-- the loop body of `flatten`
abbrev pub spread : Option (List Value) → Value → List Value
spread none v = v ∷ []
spread (some vs) v = vs

unfoldable pub flatten : List Value → List Value
flatten [] = []
flatten (v ∷ vs) = spread (as_list v) v ++ flatten vs

unfoldable pub update : Topic → List Value → Topic × Result Bool
unfolding flatten
update c vs =
    let kept = if c.accumulate then c.values else [] in
    let cleared = if c.accumulate then false else ltb 0 (length c.values) in
    let flat = flatten vs in
    if ltb 0 (length flat)
    then (record c { values = kept ++ flat }, ok true)
    else (record c { values = kept }, ok cleared)

unfoldable pub copy : Topic → Topic
unfolding new_topic
copy c =
    let n = new_topic c.base.typ c.accumulate in
    record n { base = record (n.base) { key = c.base.key }; values = c.values }

unfoldable pub checkpoint : Topic → Value
checkpoint c = list (of_items c.values)

-- what the type assertion on a checkpoint gives
abbrev restore_values : Option (List Value) → Topic → Topic
restore_values none n = n
restore_values (some vs) n = record n { values = vs }

unfoldable pub from_checkpoint : Topic → Value → Topic
unfolding new_topic
from_checkpoint c cp =
    let n = new_topic c.base.typ c.accumulate in
    let n' = record n { base = record (n.base) { key = c.base.key } } in
    if is_missing cp then n' else restore_values (as_list cp) n'
