-- ===== src/Channels/Registry.antt =====
-- graphengine/channels/base.go: the struct `Registry`. Its map is in the order in which a `range`
-- loop visits it.
pub mod Laws
use harness_go.Base.{
  ℕ, String, Bool, Option, none, some, List, [], ◌∷◌, Dict, lookup, insert, remove, keys, length,
  if◌then◌else◌,
}
use harness_go.Value.{Value, is_missing}
use harness_go.Errors.{Err, channel_not_found, plain, wrap, is_empty_channel_error, Result, ok, err}
use harness_go.Channels.Channel
use harness_go.Channels.Channel.{Channel}

abbrev pub Registry : Type 0
Registry = Dict Channel

abbrev pub new_registry : Registry
new_registry = []

unfoldable pub register : Registry → String → Channel → Registry
unfolding insert
register r name c = insert name c r

unfoldable pub get : Registry → String → Option Channel
unfolding lookup
get r name = lookup name r

unfoldable pub unregister : Registry → String → Registry
unfolding remove
unregister r name = remove name r

unfoldable pub len : Registry → ℕ
len r = length r

unfoldable pub names : Registry → List String
unfolding keys
names r = keys r

unfoldable pub create_checkpoint : Registry → Dict Value
unfolding Channel.checkpoint
create_checkpoint [] = []
create_checkpoint ((name, c) ∷ r) =
    let rest = create_checkpoint r in
    if is_missing (Channel.checkpoint c) then rest else (name, Channel.checkpoint c) ∷ rest

-- the body of the loop of RestoreFromCheckpoint, at the outcome of its lookup
abbrev restore_one :
    Option Channel
    → String
    → Value
    → (Registry → Registry × Option Err)
    → Registry
    → Registry × Option Err
restore_one none name cp rest r =
    (r, some (plain ("channel" ∷ name ∷ "not found in registry" ∷ [])))
restore_one (some c) name cp rest r = rest (insert name (Channel.from_checkpoint c cp) r)

unfoldable pub restore_from_checkpoint : Dict Value → Registry → Registry × Option Err
unfolding lookup insert Channel.from_checkpoint
restore_from_checkpoint [] r = (r, none)
restore_from_checkpoint ((name, cp) ∷ cps) r =
    restore_one (lookup name r) name cp (λ r'. restore_from_checkpoint cps r') r

-- The body of the loop of UpdateChannels. A channel that refuses its values keeps what it took.
abbrev update_one :
    String
    → Channel × Result Bool
    → (Registry → Registry × Option Err)
    → Registry
    → Registry × Option Err
update_one name (c, ok b) rest r = rest (insert name c r)
update_one name (c, err e) rest r =
    (insert name c r, some (wrap ("failed to update channel" ∷ name ∷ []) e))

abbrev update_found :
    Option Channel
    → String
    → List Value
    → (Registry → Registry × Option Err)
    → Registry
    → Registry × Option Err
update_found none name vs rest r = (r, some (channel_not_found name))
update_found (some c) name vs rest r = update_one name (Channel.update c vs) rest r

unfoldable pub update_channels : Dict (List Value) → Registry → Registry × Option Err
unfolding lookup insert Channel.update
update_channels [] r = (r, none)
update_channels ((name, vs) ∷ writes) r =
    update_found (lookup name r) name vs (λ r'. update_channels writes r') r

-- the outcome of the loop of GetValues with one more channel in front
abbrev with_channel :
    String → Channel → Registry × Result (Dict Value) → Registry × Result (Dict Value)
with_channel name c (r, res) = ((name, c) ∷ r, res)

abbrev with_value :
    String → Channel → Value → Registry × Result (Dict Value) → Registry × Result (Dict Value)
with_value name c v (r, ok vs) = ((name, c) ∷ r, ok ((name, v) ∷ vs))
with_value name c v (r, err e) = ((name, c) ∷ r, err e)

-- One round of GetValues: a channel that is empty is passed over, another error ends the loop.
abbrev get_one :
    String
    → Channel × Result Value
    → Registry × Result (Dict Value)
    → Registry
    → Registry × Result (Dict Value)
get_one name (c, ok v) rest unread = with_value name c v rest
get_one name (c, err e) rest unread =
    if is_empty_channel_error e
    then with_channel name c rest
    else ((name, c) ∷ unread, err (wrap ("failed to get value from channel" ∷ name ∷ []) e))

-- GetValues. The reads of ephemeral channels clear them.
unfoldable pub get_values : Registry → Registry × Result (Dict Value)
unfolding Channel.get
get_values [] = ([], ok [])
get_values ((name, c) ∷ r) = get_one name (Channel.get c) (get_values r) r
