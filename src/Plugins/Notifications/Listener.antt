-- ===== src/Plugins/Notifications/Listener.antt =====
-- onNotify() and loadApplications() of plugins/sf_sendnotifications/notificationslistener.cpp. The
-- signal of the configuration for the list that onNotify() stores arrives later, as a call of
-- load_applications of its own.
use harbour_sailfishconnect.Base.{
  String, ◌<>◌, Bool, true, false, not, ◌&&◌, none, some, List, [], ◌∷◌, ◌++◌, if◌then◌else◌, ◌==◌,
  string_eq, eqb, get_or, is_some, ℤ, pos, minus_one, ltb_ℤ, eqb_ℤ,
}
use harbour_sailfishconnect.Base.Dict.{Dict, lookup, insert, values}
use harbour_sailfishconnect.Plugins.Packet.{text, flag, NetworkPacket}
use harbour_sailfishconnect.Plugins.Notifications.{
  Bytes, Streams, Platform, Notify, Notification, NotifyingApplication, Config,
  NotificationsListener,
}
use harbour_sailfishconnect.Plugins.Notifications.Icons.{
  Icon, no_source, buffer, fault, icon_source,
}

unfoldable pub load_list :
    List NotifyingApplication → Dict String NotifyingApplication → Dict String NotifyingApplication
load_list [] d = d
load_list (a ∷ list) d = load_list list (if is_some (lookup a.name d) then d else insert a.name a d)

-- operator<< and operator>> of notifyingapplication.cpp.
unfoldable pub write_application : Streams → NotifyingApplication → Bytes → Bytes
write_application ds app out =
    out
    ++ (ds.encode_text app.name
        ++ (ds.encode_text app.icon
            ++ (ds.encode_flag app.active ++ ds.encode_text app.blacklist_expression)))

unfoldable pub read_application : Streams → Bytes → NotifyingApplication × Bytes
read_application ds in0 =
    let (name, in1) = ds.decode_text in0 in
    let (icon, in2) = ds.decode_text in1 in
    let (active, in3) = ds.decode_flag in2 in
    let (pattern, in4) = ds.decode_text in3 in
    (record { name = name; icon = icon; active = active; blacklist_expression = pattern }, in4)

-- The items of the configuration's list.
unfoldable pub read_list : Streams → List Bytes → List NotifyingApplication
unfolding read_application
read_list ds [] = []
read_list ds (stored ∷ list) = (read_application ds stored).0 ∷ read_list ds list

unfoldable pub write_list : Streams → List NotifyingApplication → List Bytes
unfolding write_application
write_list ds [] = []
write_list ds (app ∷ apps) = write_application ds app [] ∷ write_list ds apps

unfoldable pub load_applications : Streams → NotificationsListener → NotificationsListener
unfolding load_list read_list
load_applications ds l = record l {
  applications = load_list (read_list ds l.config.applications) [];
}

-- A new application is added, with the list of all in the configuration.
unfoldable pub add_application :
    Streams → NotifyingApplication → NotificationsListener → NotificationsListener
unfolding write_list
add_application ds app l =
    let apps = insert app.name app l.applications in
    record {
      config = record l.config { applications = write_list ds (values apps) };
      applications = apps;
    }

unfoldable pub new_application : String → String → NotifyingApplication
new_application app_name app_icon = record {
  name = app_name;
  icon = app_icon;
  active = true;
  blacklist_expression = "";
}

-- The application of a call, and the listener that knows it.
unfoldable pub find_application :
    Streams → String → String → NotificationsListener → NotifyingApplication × NotificationsListener
unfolding add_application new_application
find_application ds app_name app_icon l = elim (lookup app_name l.applications) [
  | some app ↦ (app, l)
  | none ↦
      (new_application app_name app_icon, add_application ds (new_application app_name app_icon) l)
]

-- What a call leads to: a packet that is sent, none, or a fault.
pub data Outcome : Type 0 where
  sent : Notification → Outcome
  dropped failed : Outcome

module _ (V Image : Type 0) (qt : Platform V Image) where
  abbrev pub hint_text : String → Notify V → String
  hint_text key n = elim (lookup key n.hints) [ none ↦ "" | some v ↦ qt.to_text v ]

  abbrev pub hint_flag : String → Notify V → Bool
  hint_flag key n = elim (lookup key n.hints) [ none ↦ false | some v ↦ qt.to_bool v ]

  unfoldable pub urgency_of : Notify V → ℤ
  urgency_of n = elim (lookup "urgency" n.hints) [
    | none ↦ minus_one
    | some v ↦ get_or (qt.to_int v) minus_one
  ]

  unfoldable pub ticker_of : Config → Notify V → String
  ticker_of c n =
      if not (n.body == "") && get_or c.general_include_body true
      then n.summary <> ": " <> n.body
      else n.summary

  unfoldable pub is_blacklisted : NotifyingApplication → String → Bool
  is_blacklisted app ticker =
      qt.regex_valid app.blacklist_expression
      && not (app.blacklist_expression == "")
      && qt.regex_matches app.blacklist_expression ticker

  unfoldable pub notification_packet : Notify V → String → NetworkPacket
  notification_packet n ticker = record {
    kind = "kdeconnect.notification";
    body =
        ("id", text (qt.number n.replaces_id))
        ∷ ("appName", text n.app_name)
        ∷ ("ticker", text ticker)
        ∷ ("isClearable", flag (eqb_ℤ n.timeout minus_one))
        ∷ ("title", text n.summary)
        ∷ ("text", text n.body)
        ∷ ("requestAnswer", flag false)
        ∷ ("silent", flag false)
        ∷ [];
  }

  unfoldable pub with_icon : NetworkPacket → Icon → Outcome
  with_icon np no_source = sent (record { packet = np; payload = none })
  with_icon np (buffer bytes) = sent (record { packet = np; payload = some bytes })
  with_icon np fault = failed

  unfoldable pub send_notification : Config → Notify V → String → Outcome
  unfolding notification_packet with_icon icon_source
  send_notification c n ticker =
      if get_or c.general_synchronize_icons true && eqb n.replaces_id 0
      then with_icon (notification_packet n ticker) (icon_source V Image qt n)
      else with_icon (notification_packet n ticker) no_source

  -- onNotify() from the application on.
  unfoldable pub notify_application : Config → NotifyingApplication → Notify V → Outcome
  unfolding urgency_of ticker_of is_blacklisted send_notification
  notify_application c app n =
      if not app.active
      then dropped
      else if ltb_ℤ (pos 0) n.timeout && get_or c.general_persistent false
      then dropped
      else if ltb_ℤ minus_one (urgency_of n)
          && ltb_ℤ (urgency_of n) (get_or c.general_urgency (pos 0))
      then dropped
      else if n.summary == ""
      then dropped
      else if is_blacklisted app (ticker_of c n)
      then dropped
      else if hint_flag "x-nemo-hidden" n
      then dropped
      else send_notification c n (ticker_of c n)

  unfoldable pub on_notify : Notify V → NotificationsListener → Outcome × NotificationsListener
  unfolding find_application notify_application
  on_notify n l =
      let (app, k) = find_application qt.streams n.app_name n.app_icon l in
      if hint_text "x-nemo-owner" n == "harbour-sailfishconnect"
      then (dropped, l)
      else (notify_application k.config app n, k)
