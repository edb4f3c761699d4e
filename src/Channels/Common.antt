-- ===== src/Channels/Common.antt =====
-- graphengine/channels/base.go: the struct `BaseChannel`, which the channel types embed.
use harness_go.Base.{ℕ, String, Bool, false}
use harness_go.Value.{Value}

pub record BaseChannel : Type 0 where
  pub key : String
  pub typ : Value
  pub version : ℕ

abbrev pub new_base : Value → BaseChannel
new_base typ = record { key = ""; typ = typ; version = 0 }

pub get_key : BaseChannel → String
get_key c = c.key

unfoldable pub set_key : BaseChannel → String → BaseChannel
set_key c key = record c { key = key }

-- Consume and Finish of the embedded struct
abbrev pub consume : Bool
consume = false

abbrev pub finish : Bool
finish = false

unfoldable pub get_version : BaseChannel → ℕ
get_version c = c.version

unfoldable pub set_version : BaseChannel → ℕ → BaseChannel
set_version c v = record c { version = v }
