-- ===== src/Plugins/Telephony/Reports.antt =====
-- What a device is told of the calls by plugins/telephony/telephonyplugin.cpp.
use harbour_sailfishconnect.Base.{
  ℕ, String, Bool, true, false, ◌||◌, Option, none, some, List, [], ◌∷◌, if◌then◌else◌, ◌==◌,
  string_eq, nat_eq, get_or, ◌≡◌, refl, arith, ◌∙◌,
}
use harbour_sailfishconnect.Base.Dict.{Dict, lookup, lookup-insert, lookup-erase, lookup-erase_self}
use harbour_sailfishconnect.Plugins.Packet.{NetworkPacket}
use harbour_sailfishconnect.Plugins.Telephony.{
  TelephonyCall, TelephonyPlugin, Sending, state, telephony_packet, cancel_packet,
  send_telephony_packet, send_cancel_telephony_packet, on_call_state_changed, on_properties_changed,
  on_call_added, on_call_removed,
}

-- What a call's state asks for: an event to report, the end of the report, or nothing.
pub data Change : Type 0 where
  begins : String → Change
  ends stays : Change

abbrev pub change_of : String → Change
change_of s =
    if s == "incoming"
    then begins "ringing"
    else if s == "active" || s == "dealing" || s == "alerting"
    then begins "talking"
    else if s == "disconnected"
    then ends
    else stays

module _ (look_up_name : String → String) where
  -- One call for itself, given the event that was reported last for it, if any.
  abbrev pub report_event :
      Option String → String → TelephonyCall → List NetworkPacket × Option String
  report_event last event call =
      if get_or last "" == event
      then ([], last)
      else (telephony_packet look_up_name event call ∷ [], some event)

  abbrev pub report_change :
      Option String → Change → TelephonyCall → List NetworkPacket × Option String
  report_change last (begins event) call = report_event last event call
  report_change last ends call =
      (cancel_packet look_up_name (get_or last "talking") call ∷ [], none)
  report_change last stays call = ([], last)

  abbrev pub report : Option String → TelephonyCall → List NetworkPacket × Option String
  report last call = report_change last (change_of (state call)) call

  abbrev pub report_alone : Option String → List TelephonyCall → List (List NetworkPacket)
  report_alone last [] = []
  report_alone last (c ∷ cs) = (report last c).0 ∷ report_alone (report last c).1 cs

  -- The plugin on interleaved changes, each with the packets that it sends.
  abbrev pub report_all : List TelephonyCall → TelephonyPlugin → List (String × List NetworkPacket)
  report_all [] p = []
  report_all (c ∷ cs) p =
      (c.path, (on_call_state_changed look_up_name c p).0)
      ∷ report_all cs (on_call_state_changed look_up_name c p).1

  abbrev pub of_path : String → List (String × List NetworkPacket) → List (List NetworkPacket)
  of_path path [] = []
  of_path path ((q, out) ∷ outs) =
      let rest = of_path path outs in if path == q then out ∷ rest else rest

  abbrev pub calls_of : String → List TelephonyCall → List TelephonyCall
  calls_of path [] = []
  calls_of path (c ∷ cs) = let rest = calls_of path cs in if path == c.path then c ∷ rest else rest

  -- An operation at a change of the call sends what is asked for, and changes what is told of
  -- this call only.
  abbrev Agrees :
      String
      → TelephonyCall
      → TelephonyPlugin
      → Sending
      → List NetworkPacket × Option String
      → Type 0
  Agrees path c p sending asked =
      (sending.0 ≡ asked.0)
      × (lookup path sending.1.send_call_state
          ≡ (if path == c.path then asked.1 else lookup path p.send_call_state))

  send-Agrees :
      (path event : String) (c : TelephonyCall) (p : TelephonyPlugin)
      → Agrees path c p
          (send_telephony_packet look_up_name event c p)
          (report_event (lookup c.path p.send_call_state) event c)
  unfolding send_telephony_packet
  send-Agrees path event c p =
      ground
        (arith, lookup-insert path c.path event p.send_call_state, string_eq.beq_iff path c.path)

  cancel-Agrees :
      (path : String) (c : TelephonyCall) (p : TelephonyPlugin)
      → Agrees path c p
          (send_cancel_telephony_packet look_up_name c p)
          (report_change (lookup c.path p.send_call_state) ends c)
  unfolding send_cancel_telephony_packet
  cancel-Agrees path c p = (refl, lookup-erase path c.path p.send_call_state)

  stay-Agrees :
      (path : String) (c : TelephonyCall) (p : TelephonyPlugin)
      → Agrees path c p ([], p) (report_change (lookup c.path p.send_call_state) stays c)
  stay-Agrees path c p = ground (arith, string_eq.beq_iff path c.path)

  if-Agrees :
      (path : String) (c : TelephonyCall) (p : TelephonyPlugin) (b : Bool) (x y : Sending)
      (u v : Change)
      → Agrees path c p x (report_change (lookup c.path p.send_call_state) u c)
      → Agrees path c p y (report_change (lookup c.path p.send_call_state) v c)
      → Agrees path c p
          (if b then x else y)
          (report_change (lookup c.path p.send_call_state) (if b then u else v) c)
  if-Agrees path c p true x y u v h k = h
  if-Agrees path c p false x y u v h k = k

  step-Agrees :
      (path : String) (c : TelephonyCall) (p : TelephonyPlugin)
      → Agrees path c p
          (on_call_state_changed look_up_name c p)
          (report (lookup c.path p.send_call_state) c)
  unfolding on_call_state_changed
  step-Agrees path c p =
      if-Agrees path c p (state c == "incoming") _ _ _ _ (send-Agrees path "ringing" c p) (
        if-Agrees path c p (state c == "active" || state c == "dealing" || state c == "alerting") _
          _ _ _ (send-Agrees path "talking" c p)
          (if-Agrees path c p (state c == "disconnected") _ _ _ _ (cancel-Agrees path c p)
            (stay-Agrees path c p)))

  -- Each call is reported for itself. However the changes of several calls interleave, the packets
  -- sent at the changes of one call are those that its own changes ask for, from what was
  -- reported last for it: an event once as long as it does not change, and at the end a
  -- cancellation of the last event.
  pub reports_independent :
      (path : String) (cs : List TelephonyCall) (p : TelephonyPlugin)
      → of_path path (report_all cs p)
        ≡ report_alone (lookup path p.send_call_state) (calls_of path cs)
  reports_independent path [] p = refl
  reports_independent path (c ∷ cs) p = ground (
    arith,
    step-Agrees path c p,
    string_eq.beq_iff path c.path,
    reports_independent path cs (on_call_state_changed look_up_name c p).1,
  )

  -- A call that was removed says nothing more: a signal of its object is lost.
  pub removed_call_silent :
      (path : String) (object : ℕ) (property value : String) (p : TelephonyPlugin)
      → lookup path p.calls ≡ some object
      → on_properties_changed look_up_name object property value
          (on_call_removed look_up_name path p)
        ≡ ([], on_call_removed look_up_name path p)
  unfolding on_properties_changed on_call_removed
  removed_call_silent path object property value p h =
      ground (arith, lookup-erase_self object p.objects)

  told_ringing :
      (c : TelephonyCall) (p : TelephonyPlugin)
      → lookup c.path p.send_call_state ≡ some "ringing"
      → state c ≡ "incoming"
      → (on_call_state_changed look_up_name c p).0 ≡ []
  told_ringing c p told h = (step-Agrees c.path c p).0 ∙ rw (h, told) refl

  told_after_removal :
      (path : String) (p : TelephonyPlugin)
      → (on_call_removed look_up_name path p).send_call_state ≡ p.send_call_state
  unfolding on_call_removed
  told_after_removal path p = ground arith

  incoming :
      (path : String) (properties : Dict String String)
      → lookup "State" properties ≡ some "incoming"
      → state (record { path = path; properties = properties }) ≡ "incoming"
  unfolding state
  incoming path properties h = rw h

  -- What was reported of a call outlives the call: when one that rang is removed without having
  -- been disconnected, the next incoming call of the same path is not reported.
  pub next_call_unreported :
      (path : String) (properties : Dict String String) (p : TelephonyPlugin)
      → lookup path p.send_call_state ≡ some "ringing"
      → lookup "State" properties ≡ some "incoming"
      → (on_call_added look_up_name path properties (on_call_removed look_up_name path p)).0 ≡ []
  unfolding on_call_added
  next_call_unreported path properties p told h =
      told_ringing (record { path = path; properties = properties }) _
        (rw (told_after_removal path p) told) (incoming path properties h)
