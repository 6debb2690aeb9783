-- ===== src/Plugins/Notifications/Imageless.antt =====
-- Why images do not come over the D-Bus to plugins/sf_sendnotifications/notificationslistener.cpp.
use harbour_sailfishconnect.Base.{
  ℕ, String, Bool, true, false, not, none, some, List, [], ◌∷◌, if◌then◌else◌, ◌==◌, string_eq, ℤ,
  pos, ◌≡◌, ◌≢◌, refl, subst, inl, inr, Option-cases, if_elim, ◌&&◌, get_or, eqb, ltb_ℤ, minus_one,
}
use harbour_sailfishconnect.Base.Dict.{Dict, lookup, insert, insert-cases}
use harbour_sailfishconnect.Plugins.Packet.{NetworkPacket}
use harbour_sailfishconnect.Plugins.Notifications.{
  Platform, Notify, Config, NotifyingApplication, NotificationsListener,
}
use harbour_sailfishconnect.Plugins.Notifications.Icons.{
  Icon, no_source, buffer, fault, icon_for_image_data, icon_for_icon_name, icon_source,
}
use harbour_sailfishconnect.Plugins.Notifications.Listener.{
  Outcome, dropped, failed, with_icon, send_notification, notify_application, on_notify, hint_text,
  hint_flag, urgency_of, ticker_of, is_blacklisted, find_application,
}
use harbour_sailfishconnect.Plugins.Notifications.Messages.{
  Basic, Value, Values, basic, array, structure, entry, variant, nil, cons, Variants, from_basic,
  from_content, handle_notify_call,
}
use harbour_sailfishconnect.Plugins.Notifications.Decoded.{
  Call, message, hints_of, notify_of, decodes,
}

module _ {V : Type 0} (Image : Type 0) (qt : Platform V Image) (qv : Variants V) where
  -- A variant of a basic value is no D-Bus argument, so that no image can be read from it.
  pub record NoImages : Type 0 where
    pub invalid : qt.image_argument qv.invalid ≡ none
    pub from_int : (n : ℤ) → qt.image_argument (qv.from_int n) ≡ none
    pub from_uint : (n : ℕ) → qt.image_argument (qv.from_uint n) ≡ none
    pub from_long_long : (n : ℤ) → qt.image_argument (qv.from_long_long n) ≡ none
    pub from_unsigned_long_long : (n : ℕ) → qt.image_argument (qv.from_unsigned_long_long n) ≡ none
    pub from_double : (d : ℕ) → qt.image_argument (qv.from_double d) ≡ none
    pub from_text : (s : String) → qt.image_argument (qv.from_text s) ≡ none

  module _ (laws : NoImages) where
    from_basic-imageless : (b : Basic) → qt.image_argument (from_basic qv b) ≡ none
    unfolding from_basic
    from_basic-imageless (Basic.boolean b) = laws.from_uint _
    from_basic-imageless (Basic.int16 n) = laws.from_int _
    from_basic-imageless (Basic.int32 n) = laws.from_int _
    from_basic-imageless (Basic.int64 n) = laws.from_long_long _
    from_basic-imageless (Basic.uint16 n) = laws.from_int _
    from_basic-imageless (Basic.uint32 n) = laws.from_uint _
    from_basic-imageless (Basic.uint64 n) = laws.from_unsigned_long_long _
    from_basic-imageless (Basic.byte n) = laws.from_int _
    from_basic-imageless (Basic.double d) = laws.from_double _
    from_basic-imageless (Basic.string s) = laws.from_text _
    from_basic-imageless (Basic.object_path s) = laws.invalid
    from_basic-imageless (Basic.signature s) = laws.invalid
    from_basic-imageless (Basic.unix_fd n) = laws.invalid

    from_content-imageless : (items : Values) → qt.image_argument (from_content qv items) ≡ none
    unfolding from_content
    from_content-imageless nil = laws.invalid
    from_content-imageless (cons (basic b) rest) = from_basic-imageless b
    from_content-imageless (cons (array items) rest) = laws.invalid
    from_content-imageless (cons (structure items) rest) = laws.invalid
    from_content-imageless (cons (entry items) rest) = laws.invalid
    from_content-imageless (cons (variant items) rest) = laws.invalid

    -- None of the hints holds an image.
    abbrev Imageless : Dict String V → Type 0
    Imageless hints =
        (key : String) (v : V) → lookup key hints ≡ some v → qt.image_argument v ≡ none

    hints_of-Imageless :
        (hints : List (String × Value)) (map : Dict String V)
        → Imageless map
        → Imageless (hints_of qv hints map)
    hints_of-Imageless [] map h = h
    hints_of-Imageless ((key, v) ∷ hints) map h =
        hints_of-Imageless hints (insert key (from_content qv (cons v nil)) map) (λ k w e.
          elim (insert-cases k key (from_content qv (cons v nil)) w map e) [
            | inl (_, same) ↦
                subst (λ x. qt.image_argument x ≡ none) same (from_content-imageless (cons v nil))
            | inr (_, there) ↦ h k w there
          ])

    icon_for_image_data-safe :
        (v : V) → qt.image_argument v ≡ none → icon_for_image_data V Image qt v ≡ no_source
    unfolding icon_for_image_data
    icon_for_image_data-safe v e = rw (icon_for_image_data, e) refl

    hint-safe :
        (key : String) (hints : Dict String V) (f : V → Icon) (d : Icon)
        → ((v : V) → lookup key hints ≡ some v → f v ≢ fault)
        → d ≢ fault
        → (elim (lookup key hints) [ none ↦ d | some v ↦ f v ]) ≢ fault
    hint-safe key hints f d h k = elim (Option-cases (lookup key hints)) [
      | inl e ↦ rw e k
      | inr (v, e) ↦ rw e (h v e)
    ]

    nothing-safe : no_source ≢ fault
    nothing-safe e = cc

    name-safe : (name : String) → icon_for_icon_name V Image qt name ≢ fault
    unfolding icon_for_icon_name
    name-safe name e = cc

    icon_source-safe : (n : Notify V) → Imageless n.hints → icon_source V Image qt n ≢ fault
    unfolding icon_source
    icon_source-safe n h =
        let image : V → Icon = λ v. icon_for_image_data V Image qt v in
        let named : V → Icon = λ v. icon_for_icon_name V Image qt (qt.to_text v) in
        let data_safe : (key : String) (v : V) → lookup key n.hints ≡ some v → image v ≢ fault =
          λ key v e. rw (icon_for_image_data-safe v (h key v e)) nothing-safe in
        hint-safe "image-data" n.hints image _ (data_safe "image-data") (
          hint-safe "image_data" n.hints image _ (data_safe "image_data") (
            hint-safe "image-path" n.hints named _ (λ v e. name-safe _)
              (hint-safe "image_path" n.hints named _ (λ v e. name-safe _)
                (if_elim (λ (i : Icon). i ≢ fault) (not (n.app_icon == "")) (λ t. name-safe _)
                  (λ f.
                    hint-safe "icon_data" n.hints image _ (data_safe "icon_data") (
                      hint-safe "x-nemo-icon" n.hints named _ (λ v e. name-safe _)
                        nothing-safe))))))

    with_icon-safe :
        (np : NetworkPacket) (i : Icon) → i ≢ fault → with_icon V Image qt np i ≢ failed
    unfolding with_icon
    with_icon-safe np no_source h e = cc
    with_icon-safe np (buffer b) h e = cc
    with_icon-safe np fault h e = h refl

    send-safe :
        (c : Config) (n : Notify V) (ticker : String)
        → Imageless n.hints
        → send_notification V Image qt c n ticker ≢ failed
    unfolding send_notification
    send-safe c n ticker h =
        if_elim (λ (o : Outcome). o ≢ failed)
          (get_or c.general_synchronize_icons true && eqb n.replaces_id 0)
          (λ t. with_icon-safe _ _ (icon_source-safe n h)) (λ f. with_icon-safe _ _ nothing-safe)

    -- Each test of notify_application drops the notification or goes on.
    passes : (b : Bool) (o : Outcome) → o ≢ failed → (if b then dropped else o) ≢ failed
    passes true o h e = cc
    passes false o h e = h e

    application-safe :
        (c : Config) (app : NotifyingApplication) (n : Notify V)
        → Imageless n.hints
        → notify_application V Image qt c app n ≢ failed
    unfolding notify_application
    application-safe c app n h =
        let ticker = ticker_of V Image qt c n in
        let urgency = urgency_of V Image qt n in
        passes (not app.active) _ (
          passes (ltb_ℤ (pos 0) n.timeout && get_or c.general_persistent false) _ (
            passes (ltb_ℤ minus_one urgency && ltb_ℤ urgency (get_or c.general_urgency (pos 0))) _ (
              passes (n.summary == "") _ (
                passes (is_blacklisted V Image qt app ticker) _
                  (passes (hint_flag V Image qt "x-nemo-hidden" n) _ (send-safe c n ticker h))))))

    notify-safe :
        (n : Notify V) (l : NotificationsListener)
        → Imageless n.hints
        → (on_notify V Image qt n l).0 ≢ failed
    unfolding on_notify
    notify-safe n l h =
        let (app, k) = find_application qt.streams n.app_name n.app_icon l in
        let out : dropped ≢ failed = λ e. cc in
        if_elim (λ (r : Outcome × NotificationsListener). r.0 ≢ failed)
          (hint_text V Image qt "x-nemo-owner" n == "harbour-sailfishconnect") (λ t. out)
          (λ f. application-safe k.config app n h)

    -- The listener uses no null pointer for an image that comes over the D-Bus, given that variants
    -- of basic values are no D-Bus arguments: whatever the configuration and the values of the
    -- hints are, the message of a call of Notify is read, and the call is sent or dropped.
    pub decoded_call_safe :
        (c : Call) (l : NotificationsListener)
        → (n : Notify V) × (handle_notify_call qv true (message c) ≡ some (some n))
          × ((on_notify V Image qt n l).0 ≢ failed)
    unfolding lookup
    decoded_call_safe c l = (
      notify_of qv c,
      decodes qv c,
      notify-safe (notify_of qv c) l (hints_of-Imageless c.hints [] (λ k v e. cc)),
    )
