-- ===== src/Plugins/Battery.antt =====
-- plugins/batteryreport/batteryreportplugin.cpp: MceBatteryInfo and BatteryReportPlugin, which are
-- one state here. The answers of the MCE service over D-Bus are arguments, `none` for an error.
pub mod Status
use harbour_sailfishconnect.Base.{
  ℕ, String, Bool, true, false, ◌&&◌, not, Option, none, some, List, [], ◌∷◌, if◌then◌else◌, ◌==◌,
  string_eq, get_or, is_some, ℤ, pos, minus_one,
}
use harbour_sailfishconnect.Base.Dict.{Dict, lookup}
use harbour_sailfishconnect.Plugins.Packet.{Value, text, flag, number, NetworkPacket}

pub record BatteryInfo : Type 0 where
  pub current_charge : ℤ
  pub is_charging : Bool
  pub low_charge : Bool
  pub is_valid : Bool
  pub name_owner : String

-- The answers to get_battery_level, get_charger_state and get_battery_status.
pub record Answers : Type 0 where
  pub battery_level : Option ℤ
  pub charger_state : Option String
  pub battery_status : Option String

unfoldable pub initial_info : BatteryInfo
initial_info = record {
  current_charge = minus_one;
  is_charging = false;
  low_charge = false;
  is_valid = false;
  name_owner = "";
}

unfoldable pub update_is_charging : String → BatteryInfo → BatteryInfo
update_is_charging value b = record b { is_charging = value == "on" }

unfoldable pub update_low_charge : String → BatteryInfo → BatteryInfo
update_low_charge value b = record b { low_charge = value == "low" }

unfoldable pub take_level : Option ℤ → BatteryInfo → BatteryInfo
take_level none b = b
take_level (some n) b = record b { current_charge = n }

unfoldable pub take_charger : Option String → BatteryInfo → BatteryInfo
unfolding update_is_charging
take_charger none b = b
take_charger (some value) b = update_is_charging value b

unfoldable pub take_status : Option String → BatteryInfo → BatteryInfo
unfolding update_low_charge
take_status none b = b
take_status (some value) b = update_low_charge value b

-- ThresholdBatteryLow is 1 and ThresholdNone 0.
unfoldable pub send_status : BatteryInfo → List NetworkPacket
send_status b =
    if b.is_valid
    then record {
      kind = "kdeconnect.battery";
      body =
          ("currentCharge", number b.current_charge)
          ∷ ("isCharging", flag b.is_charging)
          ∷ ("thresholdEvent", number (if b.low_charge then pos 1 else pos 0))
          ∷ [];
    }
      ∷ []
    else []

-- The result of a handler: the packets it sends, and the state after it.
abbrev pub Reporting : Type 0
Reporting = List NetworkPacket × BatteryInfo

-- emit chargingStateChanged(), which is connected to sendStatus().
unfoldable pub charging_state_changed : BatteryInfo → Reporting
charging_state_changed b = (send_status b, b)

unfoldable pub refresh : Answers → BatteryInfo → Reporting
unfolding take_level take_charger take_status charging_state_changed
refresh a b =
    if b.name_owner == ""
    then ([], b)
    else charging_state_changed
        (record (take_status a.battery_status
          (take_charger a.charger_state (take_level a.battery_level b))) {
            is_valid =
                is_some a.battery_level && is_some a.charger_state && is_some a.battery_status;
          })

unfoldable pub on_service_owner_changed : String → String → Answers → BatteryInfo → Reporting
unfolding refresh charging_state_changed
on_service_owner_changed service_name new a b =
    let c = record b { name_owner = new } in
    if service_name == "com.nokia.mce"
    then if new == "" then charging_state_changed (record c { is_valid = false }) else refresh a c
    else ([], b)

-- The slots of battery_level_ind, charger_state_ind and battery_status_ind.
unfoldable pub on_battery_level : ℤ → BatteryInfo → Reporting
unfolding charging_state_changed
on_battery_level value b = charging_state_changed (record b { current_charge = value })

unfoldable pub on_charger_state : String → BatteryInfo → Reporting
unfolding charging_state_changed update_is_charging
on_charger_state value b = charging_state_changed (update_is_charging value b)

unfoldable pub on_battery_status : String → BatteryInfo → Reporting
unfolding charging_state_changed update_low_charge
on_battery_status value b = charging_state_changed (update_low_charge value b)

-- np.get<bool>("request"), false when it is missing.
unfoldable pub requests : Option Value → Bool
requests (some (flag b)) = b
requests _ = false

unfoldable pub receive_packet : NetworkPacket → BatteryInfo → Reporting
unfolding requests send_status
receive_packet np b = if requests (lookup "request" np.body) then (send_status b, b) else ([], b)

unfoldable pub connected : BatteryInfo → Reporting
unfolding send_status
connected b = (send_status b, b)

-- The constructor: get_name_owner is the answer to GetNameOwner. The signal of the first refresh()
-- is emitted before sendStatus() is connected to it, so nothing is sent.
unfoldable pub start : Option String → Answers → BatteryInfo
unfolding initial_info refresh
start none a = initial_info
start (some owner) a = (refresh a (record initial_info { name_owner = owner })).1
