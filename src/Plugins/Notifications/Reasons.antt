-- ===== src/Plugins/Notifications/Reasons.antt =====
-- Why a notification is not passed on by plugins/sf_sendnotifications/notificationslistener.cpp.
use harbour_sailfishconnect.Base.{
  ◌≢◌, ℤ, ◌⊎◌, String, Bool, true, false, not, ◌&&◌, ◌||◌, ◌≡◌, some, ◌==◌, string_eq, get_or, pos,
  minus_one, ltb_ℤ, ◌↔◌,
}
use harbour_sailfishconnect.Base.Dict.{lookup}
use harbour_sailfishconnect.Plugins.Notifications.{Platform, Notify, NotifyingApplication, Config}
use harbour_sailfishconnect.Plugins.Notifications.Listener.{
  hint_text, hint_flag, urgency_of, ticker_of, is_blacklisted,
}
use harbour_sailfishconnect.Plugins.Notifications.Conditions.{
  or_iff, text_is, flag_is, urgency_is, lasting_is, not_is, blacklist_is, Shown,
}

module _ (V Image : Type 0) (qt : Platform V Image) where
  -- The tests that onNotify() makes.
  abbrev pub unwanted : Config → NotifyingApplication → Notify V → Bool
  unwanted c app n =
      not app.active
      || ((ltb_ℤ (pos 0) n.timeout && get_or c.general_persistent false)
          || ((ltb_ℤ minus_one (urgency_of V Image qt n)
                && ltb_ℤ (urgency_of V Image qt n) (get_or c.general_urgency (pos 0)))
              || (n.summary == ""
                  || (is_blacklisted V Image qt app (ticker_of V Image qt c n)
                      || hint_flag V Image qt "x-nemo-hidden" n))))

  abbrev pub is_own : Notify V → Bool
  is_own n = hint_text V Image qt "x-nemo-owner" n == "harbour-sailfishconnect"

  -- Why a notification of an application is not passed on: it is the program's own, the application
  -- is not active, it passes while only lasting ones are wanted, it has an urgency that is not
  -- enough, it has no summary, the shown text is blacklisted, or it is hidden.
  abbrev pub HasReason : Config → NotifyingApplication → Notify V → Type 0
  HasReason c app n =
      ((v : V) × (lookup "x-nemo-owner" n.hints ≡ some v)
        × (qt.to_text v ≡ "harbour-sailfishconnect"))
      ⊎ (app.active ≡ false)
      ⊎ ((ltb_ℤ (pos 0) n.timeout ≡ true) × (c.general_persistent ≡ some true))
      ⊎ ((v : V) × (i : ℤ) × (lookup "urgency" n.hints ≡ some v)
          × (qt.to_int v ≡ some i)
          × (ltb_ℤ minus_one i ≡ true)
          × (ltb_ℤ i (get_or c.general_urgency (pos 0)) ≡ true))
      ⊎ (n.summary ≡ "")
      ⊎ ((shown : String) × Shown n.summary n.body c.general_include_body shown
          × (qt.regex_valid app.blacklist_expression ≡ true)
          × (app.blacklist_expression ≢ "")
          × (qt.regex_matches app.blacklist_expression shown ≡ true))
      ⊎ ((v : V) × (lookup "x-nemo-hidden" n.hints ≡ some v) × (qt.to_bool v ≡ true))

  pub tested_iff :
      (c : Config) (app : NotifyingApplication) (n : Notify V)
      → ((is_own n || unwanted c app n) ≡ true) ↔ HasReason c app n
  unfolding urgency_of is_blacklisted ticker_of
  tested_iff c app n =
      or_iff (is_own n) (unwanted c app n)
        (text_is qt.to_text "harbour-sailfishconnect" (lookup "x-nemo-owner" n.hints) (λ e. cc))
        (or_iff (not app.active) _ (not_is app.active) (
          or_iff (ltb_ℤ (pos 0) n.timeout && get_or c.general_persistent false) _
            (lasting_is (ltb_ℤ (pos 0) n.timeout) c.general_persistent)
            (or_iff
              (ltb_ℤ minus_one (urgency_of V Image qt n)
                && ltb_ℤ (urgency_of V Image qt n) (get_or c.general_urgency (pos 0)))
              _ (urgency_is qt.to_int (get_or c.general_urgency (pos 0)) (lookup "urgency" n.hints))
              (or_iff (n.summary == "") _ (string_eq.beq_iff n.summary "") (
                or_iff (is_blacklisted V Image qt app (ticker_of V Image qt c n)) _
                  (blacklist_is (qt.regex_valid app.blacklist_expression) app.blacklist_expression
                    n.summary n.body c.general_include_body
                    (qt.regex_matches app.blacklist_expression))
                  (flag_is qt.to_bool (lookup "x-nemo-hidden" n.hints)))))))
