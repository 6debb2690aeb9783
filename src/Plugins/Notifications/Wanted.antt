-- ===== src/Plugins/Notifications/Wanted.antt =====
-- Which notifications plugins/sf_sendnotifications/notificationslistener.cpp sends.
use harbour_sailfishconnect.Base.{
  ℕ, suc, String, Bool, true, false, ◌||◌, ◌≡◌, refl, sym, ◌∙◌, ◌↔◌, none, some, if◌then◌else◌,
  string_eq, get_or, arith,
}
use harbour_sailfishconnect.Base.Dict.{lookup}
use harbour_sailfishconnect.Plugins.Notifications.{
  Platform, ImageArgument, Notify, NotifyingApplication, Config, NotificationsListener,
}
use harbour_sailfishconnect.Plugins.Notifications.Icons.{
  icon_source, icon_for_image_data, icon_for_image_argument, image_to_png_buffer,
}
use harbour_sailfishconnect.Plugins.Notifications.Reasons.{unwanted, is_own, HasReason, tested_iff}
use harbour_sailfishconnect.Plugins.Notifications.Listener.{
  find_application, Outcome, sent, dropped, failed, ticker_of, notification_packet, with_icon,
  send_notification, notify_application, on_notify,
}

dropped_if :
    (own unwanted : Bool) (l k : NotificationsListener) (o s : Outcome)
    → o ≡ (if unwanted then dropped else s)
    → (s ≡ dropped → true ≡ false)
    → ((if◌then◌else◌ {A = Outcome × NotificationsListener} own (dropped, l) (o, k)).0 ≡ dropped)
      ↔ ((own || unwanted) ≡ true)
dropped_if true unwanted l k o s e h = (λ _. refl, λ _. refl)
dropped_if false true l k o s e h = (λ _. refl, λ _. e)
dropped_if false false l k o s e h = (λ d. sym (h (sym e ∙ d)), λ f. cc)

module _ (V Image : Type 0) (qt : Platform V Image) where
  not_dropped :
      (c : Config) (n : Notify V) (ticker : String)
      → send_notification V Image qt c n ticker ≡ dropped
      → true ≡ false
  unfolding send_notification with_icon
  not_dropped c n ticker h = ground arith

  unwanted_lem :
      (c : Config) (app : NotifyingApplication) (n : Notify V)
      → notify_application V Image qt c app n ≡ (
          if unwanted V Image qt c app n
          then dropped
          else send_notification V Image qt c n (ticker_of V Image qt c n))
  unfolding notify_application
  unwanted_lem c app n = ground arith

  dropped_if_tests :
      (n : Notify V) (l : NotificationsListener)
      → ((on_notify V Image qt n l).0 ≡ dropped) ↔ (
          (is_own V Image qt n
            || unwanted V Image qt
                (find_application qt.streams n.app_name n.app_icon l).1.config
                (find_application qt.streams n.app_name n.app_icon l).0
                n)
          ≡ true)
  unfolding on_notify
  dropped_if_tests n l =
      let (app, k) = find_application qt.streams n.app_name n.app_icon l in
      let ticker = ticker_of V Image qt k.config n in
      dropped_if (is_own V Image qt n) (unwanted V Image qt k.config app n) l k
        (notify_application V Image qt k.config app n)
        (send_notification V Image qt k.config n ticker) (unwanted_lem k.config app n)
        (not_dropped k.config n ticker)

  -- A call of Notify sends nothing, and does not fail, exactly when there is a reason not to pass
  -- the notification on: it is one of the program's own, its application is not active, it passes
  -- while only lasting ones are wanted, it has an urgency that is not enough, it has no summary, its
  -- shown text matches the valid expression of the blacklist, which is not empty, or it is hidden.
  pub dropped_iff_unwanted :
      (n : Notify V) (l : NotificationsListener)
      → ((on_notify V Image qt n l).0 ≡ dropped)
        ↔ HasReason V Image qt
            (find_application qt.streams n.app_name n.app_icon l).1.config
            (find_application qt.streams n.app_name n.app_icon l).0
            n
  dropped_iff_unwanted n l =
      let (app, k) = find_application qt.streams n.app_name n.app_icon l in
      let tests = dropped_if_tests n l in
      let reasons = tested_iff V Image qt k.config app n in
      (λ d. reasons.0 (tests.0 d), λ u. tests.1 (reasons.1 u))

  -- A notification that replaces an earlier one is sent without an icon whenever it is wanted.
  pub replacing_without_icon :
      (c : Config) (app : NotifyingApplication) (n : Notify V) (i : ℕ)
      → n.replaces_id ≡ suc i
      → unwanted V Image qt c app n ≡ false
      → notify_application V Image qt c app n
        ≡ sent (record {
          packet = notification_packet V Image qt n (ticker_of V Image qt c n);
          payload = none;
        })
  unfolding send_notification with_icon
  replacing_without_icon c app n i h w = ground (arith, unwanted_lem c app n)

  -- The first notification that is wanted and carries an image of 8 bits a sample that can be read
  -- makes the program use a null pointer, when icons are to be sent, which is the default.
  pub image_data_faults :
      (c : Config) (app : NotifyingApplication) (n : Notify V) (v : V) (a : ImageArgument)
      → n.replaces_id ≡ 0
      → get_or c.general_synchronize_icons true ≡ true
      → unwanted V Image qt c app n ≡ false
      → lookup "image-data" n.hints ≡ some v
      → qt.image_argument v ≡ some a
      → a.bits_per_sample ≡ 8
      → qt.is_null (qt.decode a) ≡ false
      → notify_application V Image qt c app n ≡ failed
  unfolding send_notification with_icon icon_source icon_for_image_data icon_for_image_argument
      image_to_png_buffer
  image_data_faults c app n v a h s w hv ha hb hn = ground (arith, unwanted_lem c app n)
