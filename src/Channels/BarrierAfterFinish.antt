-- ===== src/Channels/BarrierAfterFinish.antt =====
-- graphengine/channels/barrier.go: the struct `NamedBarrierValueAfterFinish`. Its checkpoint is a
-- map with the two entries "seen" and "finished".
use harness_go.Base.{
  String, Bool, true, false, not, ◌&&◌, ◌||◌, Option, none, some, List, [], ◌∷◌, Dict, insert_all,
  lookup, get_or, nat_beq, ltb, length, if◌then◌else◌,
}
use harness_go.Value.{
  Value, nil, missing, bool, flags, dict, of_fields, as_dict, as_flags, as_bool, is_missing, is_nil,
}
use harness_go.Errors.{Result, ok, err, empty_channel}
use harness_go.Channels.Common.{BaseChannel, new_base}
use harness_go.Channels.Barrier.{name_set, names_match_seen, receive}

pub record NamedBarrierValueAfterFinish : Type 0 where
  pub base : BaseChannel
  pub names : Dict Bool
  pub seen : Dict Bool
  pub finished : Bool

unfoldable pub new_named_barrier_value_after_finish :
    Value → List String → NamedBarrierValueAfterFinish
unfolding name_set
new_named_barrier_value_after_finish typ wait_for = record {
  base = new_base typ;
  names = name_set wait_for [];
  seen = [];
  finished = false;
}

unfoldable pub get : NamedBarrierValueAfterFinish → Result Value
unfolding names_match_seen
get c =
    if not c.finished || not (names_match_seen c.names c.seen) then err empty_channel else ok nil

unfoldable pub is_available : NamedBarrierValueAfterFinish → Bool
unfolding names_match_seen
is_available c = c.finished && names_match_seen c.names c.seen

unfoldable pub update :
    NamedBarrierValueAfterFinish → List Value → NamedBarrierValueAfterFinish × Result Bool
unfolding receive
update c [] = (c, ok false)
update c (v ∷ vs) =
    let (seen, r) = receive c.names (v ∷ vs) c.seen false in (record c { seen = seen }, r)

unfoldable pub copy : NamedBarrierValueAfterFinish → NamedBarrierValueAfterFinish
unfolding new_named_barrier_value_after_finish insert_all
copy c =
    let n = new_named_barrier_value_after_finish c.base.typ [] in
    record n {
      base = record (n.base) { key = c.base.key };
      names = insert_all c.names [];
      seen = insert_all c.seen [];
      finished = c.finished;
    }

unfoldable pub checkpoint : NamedBarrierValueAfterFinish → Value
checkpoint c =
    if nat_beq (length c.seen) 0 && not c.finished
    then missing
    else dict (of_fields (("seen", flags c.seen) ∷ ("finished", bool c.finished) ∷ []))

-- `cp["seen"].(map[string]bool)`
abbrev restore_seen :
    Option (Dict Bool) → NamedBarrierValueAfterFinish → NamedBarrierValueAfterFinish
restore_seen none n = n
restore_seen (some seen) n = record n { seen = insert_all seen [] }

-- `cp["finished"].(bool)`
abbrev restore_finished : Option Bool → NamedBarrierValueAfterFinish → NamedBarrierValueAfterFinish
restore_finished none n = n
restore_finished (some b) n = record n { finished = b }

abbrev restore : Option (Dict Value) → NamedBarrierValueAfterFinish → NamedBarrierValueAfterFinish
restore none n = n
restore (some cp) n =
    restore_finished (as_bool (get_or (lookup "finished" cp) nil))
      (restore_seen (as_flags (get_or (lookup "seen" cp) nil)) n)

unfoldable pub from_checkpoint : NamedBarrierValueAfterFinish → Value → NamedBarrierValueAfterFinish
unfolding new_named_barrier_value_after_finish insert_all lookup
from_checkpoint c cp =
    let n = new_named_barrier_value_after_finish c.base.typ [] in
    let n' = record n {
      base = record (n.base) { key = c.base.key };
      names = insert_all c.names [];
    } in
    if not (is_nil cp) && not (is_missing cp) then restore (as_dict cp) n' else n'

unfoldable pub finish : NamedBarrierValueAfterFinish → NamedBarrierValueAfterFinish × Bool
unfolding names_match_seen
finish c =
    if not c.finished && names_match_seen c.names c.seen
    then (record c { finished = true }, true)
    else (c, false)

unfoldable pub consume : NamedBarrierValueAfterFinish → NamedBarrierValueAfterFinish × Bool
unfolding names_match_seen
consume c =
    if c.finished && names_match_seen c.names c.seen && ltb 0 (length c.seen)
    then (record c { finished = false; seen = [] }, true)
    else (c, false)
