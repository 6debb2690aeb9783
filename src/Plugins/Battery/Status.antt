-- ===== src/Plugins/Battery/Status.antt =====
-- What plugins/batteryreport/batteryreportplugin.cpp reports, and when.
use harbour_sailfishconnect.Base.{
  String, true, false, ◌≡◌, refl, ◌⊎◌, inr, Option, none, some, List, [], ◌∷◌, ◌==◌, string_eq, ℤ,
  arith,
}
use harbour_sailfishconnect.Plugins.Packet.{NetworkPacket}
use harbour_sailfishconnect.Plugins.Battery.{
  BatteryInfo, Answers, send_status, Reporting, charging_state_changed, refresh,
  on_service_owner_changed, on_battery_level, on_charger_state, on_battery_status, receive_packet,
  connected,
}

-- What happens to the plugin. A change of the owner carries the answers that a refresh would get.
pub data Event : Type 0 where
  level_ind : ℤ → Event
  charger_ind : String → Event
  status_ind : String → Event
  owner_changed : String → String → Answers → Event
  received : NetworkPacket → Event
  device_connected : Event

abbrev pub handle : Event → BatteryInfo → Reporting
handle (level_ind n) b = on_battery_level n b
handle (charger_ind s) b = on_charger_state s b
handle (status_ind s) b = on_battery_status s b
handle (owner_changed name new a) b = on_service_owner_changed name new a b
handle (received np) b = receive_packet np b
handle device_connected b = connected b

-- Whatever happens, the packets sent are none, or the one report of the state the plugin is left
-- in: a report is never out of date.
pub reports_current :
    (e : Event) (b : BatteryInfo)
    → ((handle e b).0 ≡ []) ⊎ ((handle e b).0 ≡ send_status (handle e b).1)
unfolding on_battery_level on_charger_state on_battery_status on_service_owner_changed refresh
    receive_packet connected charging_state_changed
reports_current (level_ind n) b = inr refl
reports_current (charger_ind s) b = inr refl
reports_current (status_ind s) b = inr refl
reports_current (owner_changed name new a) b = ground arith
reports_current (received np) b = ground arith
reports_current device_connected b = inr refl

module _ (Given : ℤ → Type 0) where
  abbrev pub GivenAnswer : Option ℤ → Type 0
  GivenAnswer none = Unit
  GivenAnswer (some n) = Given n

  abbrev pub GivenEvent : Event → Type 0
  GivenEvent (level_ind n) = Given n
  GivenEvent (charger_ind s) = Unit
  GivenEvent (status_ind s) = Unit
  GivenEvent (owner_changed name new a) = GivenAnswer a.battery_level
  GivenEvent (received np) = Unit
  GivenEvent device_connected = Unit

  -- When the plugin reports at all, the service has an owner and has given the charge.
  abbrev pub Inv : BatteryInfo → Type 0
  Inv b = b.is_valid ≡ true → ((b.name_owner == "") ≡ false) × Given b.current_charge

  abbrev pub run : List Event → BatteryInfo → BatteryInfo
  run [] b = b
  run (e ∷ es) b = run es (handle e b).1
