-- ===== src/Plugins/Packet.antt =====
-- The network packets that the plugins exchange with a device: a type and named values.
use harbour_sailfishconnect.Base.{String, Bool, List, ℤ}
use harbour_sailfishconnect.Base.Dict.{Dict}

pub data Value : Type 0 where
  text : String → Value
  flag : Bool → Value
  number : ℤ → Value
  texts : List String → Value

-- What QVariant makes of a value of another type than the one that is asked for.
pub record Conversions : Type 0 where
  pub to_text : Value → String
  pub to_flag : Value → Bool
  pub to_number : Value → ℤ

pub record NetworkPacket : Type 0 where
  pub kind : String
  pub body : Dict String Value
