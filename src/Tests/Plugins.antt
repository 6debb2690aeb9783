-- ===== src/Tests/Plugins.antt =====
-- Two calls, a battery and a clipboard.
use harbour_sailfishconnect.Base.{
  ◌≡◌, refl, ◌⊎◌, String, false, some, List, [], ◌∷◌, string_eq, ℤ, pos, ltb_ℤ,
}
use harbour_sailfishconnect.Base.Dict.{Dict, lookup}
use harbour_sailfishconnect.Plugins.Telephony.{
  TelephonyCall, TelephonyPlugin, on_properties_changed, on_call_added, on_call_removed,
}
use harbour_sailfishconnect.Plugins.Telephony.Reports.{
  report_all, report_alone, of_path, calls_of, reports_independent, removed_call_silent,
  next_call_unreported,
}
use harbour_sailfishconnect.Plugins.Battery.{Answers, send_status, start}
use harbour_sailfishconnect.Plugins.Battery.Status.{level_ind, handle, reports_current}
use harbour_sailfishconnect.Plugins.Packet.{Conversions}
use harbour_sailfishconnect.Plugins.Clipboard.Newest.{
  Program, Packet, HoldsNewest, Shown, of_device, deliver_all, newest_wins,
}

abbrev no_name : String → String
no_name number = ""

abbrev call : String → String → TelephonyCall
call path state = record { path = path; properties = ("State", state) ∷ [] }

abbrev phone : TelephonyPlugin
phone = record {
  modems = [];
  voice_call_managers = [];
  objects = (0, call "/a" "incoming") ∷ [];
  next_object = 1;
  calls = ("/a", 0) ∷ [];
  send_call_state = ("/a", "ringing") ∷ [];
}

abbrev changes : List TelephonyCall
changes = call "/a" "incoming" ∷ call "/b" "dealing" ∷ call "/a" "disconnected" ∷ []

reports_independent_example :
    of_path no_name "/a" (report_all no_name changes phone)
    ≡ report_alone no_name (lookup "/a" phone.send_call_state) (calls_of no_name "/a" changes)
reports_independent_example = reports_independent no_name "/a" changes phone

call_there : lookup "/a" phone.calls ≡ some 0
unfolding lookup
call_there = refl

ended_call_quiet :
    on_properties_changed no_name 0 "State" "active" (on_call_removed no_name "/a" phone)
    ≡ ([], on_call_removed no_name "/a" phone)
ended_call_quiet = removed_call_silent no_name "/a" 0 "State" "active" phone call_there

was_ringing : lookup "/a" phone.send_call_state ≡ some "ringing"
unfolding lookup
was_ringing = refl

abbrev ringing : Dict String String
ringing = ("State", "incoming") ∷ []

is_incoming : lookup "State" ringing ≡ some "incoming"
unfolding lookup
is_incoming = refl

next_call_unreported_example :
    (on_call_added no_name "/a" ringing (on_call_removed no_name "/a" phone)).0 ≡ []
next_call_unreported_example =
    next_call_unreported no_name "/a" ringing phone was_ringing is_incoming

abbrev answers : Answers
answers = record {
  battery_level = some (pos 80);
  charger_state = some "on";
  battery_status = some "ok";
}

report_sent :
    ((handle (level_ind (pos 7)) (start (some ":1.5") answers)).0 ≡ [])
    ⊎ ((handle (level_ind (pos 7)) (start (some ":1.5") answers)).0
        ≡ send_status (handle (level_ind (pos 7)) (start (some ":1.5") answers)).1)
report_sent = reports_current (level_ind (pos 7)) (start (some ":1.5") answers)

-- The charge that the service gave is not negative here.
abbrev Charge : ℤ → Type 0
Charge n = ltb_ℤ n (pos 0) ≡ false

abbrev conversions : Conversions
conversions = record { to_text = λ v. ""; to_flag = λ v. false; to_number = λ v. pos 0 }

abbrev program : Program
program = record {
  plugin_of = λ device. record { current_content = "old"; update_timestamp = pos 5 };
  clipboard = "old";
}

abbrev sent : List Packet
sent = ("phone", "b", pos 8) ∷ ("tablet", "a", pos 7) ∷ ("phone", "c", pos 6) ∷ []

newest_wins_example :
    ((device : String)
      → HoldsNewest
          ((deliver_all conversions (pos 9) sent program).plugin_of device)
          (program.plugin_of device)
          (of_device device sent))
    × Shown conversions (pos 9) "old" (deliver_all conversions (pos 9) sent program)
newest_wins_example = newest_wins conversions (pos 9) sent program
