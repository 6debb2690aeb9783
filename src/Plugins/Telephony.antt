-- ===== src/Plugins/Telephony.antt =====
-- plugins/telephony/telephonyplugin.cpp. A TelephonyCall is an object of its own: `objects` maps a
-- pointer to it, `calls` a path to the pointer. Each operation returns the packets that it sends.
-- deleteLater() deletes at the end of the turn of the event loop, so before the next signal.
pub mod Reports
use harbour_sailfishconnect.Base.{
  ℕ, suc, String, Bool, true, false, ◌||◌, Option, none, some, List, [], ◌∷◌, ◌++◌, if◌then◌else◌,
  ◌==◌, string_eq, nat_eq, get_or, is_some, contains,
}
use harbour_sailfishconnect.Base.Dict.{Dict, lookup, insert, erase}
use harbour_sailfishconnect.Plugins.Packet.{Value, text, flag, NetworkPacket}

-- TelephonyCall: m_obj->path() and m_properties, texts as far as the plugin reads them.
pub record TelephonyCall : Type 0 where
  pub path : String
  pub properties : Dict String String

-- state() and lineIdentification(); a missing property is the empty text.
unfoldable pub state : TelephonyCall → String
state c = get_or (lookup "State" c.properties) ""

unfoldable pub line_identification : TelephonyCall → String
line_identification c = get_or (lookup "LineIdentification" c.properties) ""

pub record TelephonyPlugin : Type 0 where
  pub modems : List String
  pub voice_call_managers : List String
  pub objects : Dict ℕ TelephonyCall
  pub next_object : ℕ
  pub calls : Dict String ℕ
  pub send_call_state : Dict String String

-- The result of an operation: the packets it sends, and the plugin after it.
abbrev pub Sending : Type 0
Sending = List NetworkPacket × TelephonyPlugin

-- look_up_name is ContactsManager::instance().lookUpName, a query of the phone's contacts.
module _ (look_up_name : String → String) where
  unfoldable pub telephony_packet : String → TelephonyCall → NetworkPacket
  unfolding line_identification
  telephony_packet event call = record {
    kind = "kdeconnect.telephony";
    body =
        ("event", text event)
        ∷ ("phoneNumber", text (line_identification call))
        ∷ ("contactName", text (look_up_name (line_identification call)))
        ∷ [];
  }

  unfoldable pub cancel_packet : String → TelephonyCall → NetworkPacket
  unfolding line_identification
  cancel_packet event call = record {
    kind = "kdeconnect.telephony";
    body =
        ("event", text event)
        ∷ ("phoneNumber", text (line_identification call))
        ∷ ("contactName", text (look_up_name (line_identification call)))
        ∷ ("isCancel", flag true)
        ∷ [];
  }

  unfoldable pub send_telephony_packet : String → TelephonyCall → TelephonyPlugin → Sending
  unfolding telephony_packet
  send_telephony_packet event call p =
      if get_or (lookup call.path p.send_call_state) "" == event then ([], p) else (
        telephony_packet event call ∷ [],
        record p { send_call_state = insert call.path event p.send_call_state },
      )

  unfoldable pub send_cancel_telephony_packet : TelephonyCall → TelephonyPlugin → Sending
  unfolding cancel_packet
  send_cancel_telephony_packet call p =
      let last_state = get_or (lookup call.path p.send_call_state) "talking" in
      (
        cancel_packet last_state call ∷ [],
        record p { send_call_state = erase call.path p.send_call_state },
      )

  unfoldable pub on_call_state_changed : TelephonyCall → TelephonyPlugin → Sending
  unfolding state send_telephony_packet send_cancel_telephony_packet
  on_call_state_changed call p =
      if state call == "incoming"
      then send_telephony_packet "ringing" call p
      else if state call == "active" || state call == "dealing" || state call == "alerting"
      then send_telephony_packet "talking" call p
      else if state call == "disconnected"
      then send_cancel_telephony_packet call p
      else ([], p)

  -- TelephonyCall::onPropertiesChanged; only the state's change is signalled to the plugin.
  unfoldable pub changed_object : ℕ → TelephonyCall → String → String → TelephonyPlugin → Sending
  unfolding on_call_state_changed
  changed_object object call property value p =
      let call' = record call { properties = insert property value call.properties } in
      let p' = record p { objects = insert object call' p.objects } in
      if property == "State" then on_call_state_changed call' p' else ([], p')

  -- A signal for an object that was deleted reaches nothing.
  unfoldable pub on_properties_changed : ℕ → String → String → TelephonyPlugin → Sending
  unfolding changed_object
  on_properties_changed object property value p = elim (lookup object p.objects) [
    | none ↦ ([], p)
    | some call ↦ changed_object object call property value p
  ]

  unfoldable pub on_call_added : String → Dict String String → TelephonyPlugin → Sending
  unfolding on_call_state_changed
  on_call_added path properties p =
      let tc : TelephonyCall = record { path = path; properties = properties } in
      let object = p.next_object in
      let (packets, q) =
        on_call_state_changed tc
          (record p { objects = insert object tc p.objects; next_object = suc object }) in
      (packets, record q { calls = insert path object q.calls })

  unfoldable pub on_call_removed : String → TelephonyPlugin → TelephonyPlugin
  on_call_removed path p = elim (lookup path p.calls) [
    | none ↦ p
    | some object ↦ record p { calls = erase path p.calls; objects = erase object p.objects }
  ]

  unfoldable pub add_calls : List (String × Dict String String) → TelephonyPlugin → Sending
  unfolding on_call_added
  add_calls [] p = ([], p)
  add_calls ((path, properties) ∷ calls) p =
      let (first, q) = on_call_added path properties p in
      let (rest, r) = add_calls calls q in (first ++ rest, r)

  unfoldable pub insert_name : List String → String → List String
  insert_name names name = if contains names name then names else name ∷ names

  unfoldable pub remove_name : List String → String → List String
  remove_name [] name = []
  remove_name (x ∷ names) name =
      let rest = remove_name names name in if x == name then rest else x ∷ rest

  -- get_calls is the answer to GetCalls; `none` is an error, which is only logged.
  unfoldable pub on_modem_added :
      String → Option (List (String × Dict String String)) → TelephonyPlugin → Sending
  unfolding add_calls insert_name
  on_modem_added path get_calls p =
      let (packets, q) = add_calls (get_or get_calls []) p in
      (
        packets,
        record q {
          modems = insert_name q.modems path;
          voice_call_managers = insert_name q.voice_call_managers path;
        },
      )

  -- `none` is the call of deleteLater() on a null pointer.
  unfoldable pub on_modem_removed : String → TelephonyPlugin → Option TelephonyPlugin
  unfolding remove_name
  on_modem_removed path p =
      if contains p.voice_call_managers path
      then some (record p {
        modems = remove_name p.modems path;
        voice_call_managers = remove_name p.voice_call_managers path;
      })
      else none
