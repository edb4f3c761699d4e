-- ===== src/Channels/Barrier.antt =====
-- graphengine/channels/barrier.go: the struct `NamedBarrierValue`, and what it shares in text with
-- `NamedBarrierValueAfterFinish`. A `map[string]bool` that is used as a set is a `Dict Bool`.
pub mod Sets
pub mod Rounds
use harness_go.Base.{
  String, Bool, true, false, not, ◌&&◌, Option, none, some, List, [], ◌∷◌, Dict, lookup, insert,
  insert_all, keys, is_some, get_or, nat_beq, ltb, length, if◌then◌else◌,
}
use harness_go.Value.{Value, nil, missing, flags, as_str, as_flags, is_missing, is_nil}
use harness_go.Errors.{Result, ok, err, empty_channel, invalid_update}
use harness_go.Channels.Common.{BaseChannel, new_base}

pub record NamedBarrierValue : Type 0 where
  pub base : BaseChannel
  pub names : Dict Bool
  pub seen : Dict Bool

-- the loop over `waitFor`
unfoldable pub name_set : List String → Dict Bool → Dict Bool
name_set [] m = m
name_set (name ∷ rest) m = name_set rest (insert name true m)

unfoldable pub new_named_barrier_value : Value → List String → NamedBarrierValue
unfolding name_set
new_named_barrier_value typ wait_for = record {
  base = new_base typ;
  names = name_set wait_for [];
  seen = [];
}

-- `m[name]` of a map of flags
unfoldable pub flag : Dict Bool → String → Bool
flag m name = get_or (lookup name m) false

unfoldable pub all_seen : Dict Bool → Dict Bool → Bool
unfolding flag
all_seen [] seen = true
all_seen ((name, _) ∷ rest) seen = flag seen name && all_seen rest seen

unfoldable pub names_match_seen : Dict Bool → Dict Bool → Bool
unfolding all_seen
names_match_seen names seen = nat_beq (length names) (length seen) && all_seen names seen

-- One round of the loop of Update; `rest` is the loop over the values that follow.
unfoldable pub receive_name :
    Dict Bool
    → Option String
    → (Dict Bool → Bool → Dict Bool × Result Bool)
    → Dict Bool
    → Bool
    → Dict Bool × Result Bool
unfolding flag
receive_name names none rest seen updated =
    (seen, err (invalid_update ("value must be a string" ∷ [])))
receive_name names (some name) rest seen updated =
    if is_some (lookup name names)
    then (if flag seen name then rest seen updated else rest (insert name true seen) true)
    else (seen, err (invalid_update ("value not in expected names" ∷ name ∷ keys names)))

-- The loop of Update: what was seen before a fault stays seen.
unfoldable pub receive : Dict Bool → List Value → Dict Bool → Bool → Dict Bool × Result Bool
unfolding receive_name
receive names [] seen updated = (seen, ok updated)
receive names (v ∷ vs) seen updated =
    receive_name names (as_str v) (λ s u. receive names vs s u) seen updated

unfoldable pub get : NamedBarrierValue → Result Value
unfolding names_match_seen
get c = if not (names_match_seen c.names c.seen) then err empty_channel else ok nil

unfoldable pub is_available : NamedBarrierValue → Bool
unfolding names_match_seen
is_available c = names_match_seen c.names c.seen

unfoldable pub update : NamedBarrierValue → List Value → NamedBarrierValue × Result Bool
unfolding receive
update c [] = (c, ok false)
update c (v ∷ vs) =
    let (seen, r) = receive c.names (v ∷ vs) c.seen false in (record c { seen = seen }, r)

unfoldable pub copy : NamedBarrierValue → NamedBarrierValue
unfolding new_named_barrier_value insert_all
copy c =
    let n = new_named_barrier_value c.base.typ [] in
    record n {
      base = record (n.base) { key = c.base.key };
      names = insert_all c.names [];
      seen = insert_all c.seen [];
    }

unfoldable pub checkpoint : NamedBarrierValue → Value
unfolding insert_all
checkpoint c = if nat_beq (length c.seen) 0 then missing else flags (insert_all c.seen [])

-- what the type assertion on a checkpoint gives
abbrev restore_seen : Option (Dict Bool) → NamedBarrierValue → NamedBarrierValue
restore_seen none n = n
restore_seen (some cp) n = record n { seen = insert_all cp [] }

unfoldable pub from_checkpoint : NamedBarrierValue → Value → NamedBarrierValue
unfolding new_named_barrier_value insert_all
from_checkpoint c cp =
    let n = new_named_barrier_value c.base.typ [] in
    let n' = record n {
      base = record (n.base) { key = c.base.key };
      names = insert_all c.names [];
    } in
    if not (is_nil cp) && not (is_missing cp) then restore_seen (as_flags cp) n' else n'

unfoldable pub finish : NamedBarrierValue → NamedBarrierValue × Bool
finish c = if ltb 0 (length c.seen) then (record c { seen = [] }, true) else (c, false)

unfoldable pub consume : NamedBarrierValue → NamedBarrierValue × Bool
unfolding names_match_seen
consume c =
    if names_match_seen c.names c.seen && ltb 0 (length c.seen)
    then (record c { seen = [] }, true)
    else (c, false)
