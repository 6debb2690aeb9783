-- ===== src/Tests/Notificator.antt =====
-- The notification of a job that ends.
use harbour_sailfishconnect.Base.{
  ℕ, ◌≡◌, ◌≢◌, refl, none, [], ◌∷◌, All, if◌then◌else◌, eqb, nat_eq, pos, arith,
}
use harbour_sailfishconnect.Base.Dict.{lookup, insert}
use harbour_sailfishconnect.App.Jobs.{JobInfo, finished, new_info, other}
use harbour_sailfishconnect.App.Notificator.{
  Notification, Desktop, Notifications, next_notification, job_changed,
}
use harbour_sailfishconnect.App.Notificator.Identity.{
  Changed, unchanged, changes, Numbered, same_notification,
}

abbrev blank : Notification
blank = record {
  body = "";
  summary = "";
  preview_body = "";
  preview_summary = "";
  item_count = pos 1;
  replaces_id = 0;
  shown_progress = none;
  remote_action = none;
}

abbrev publish : Notification → Notification
publish n = if eqb n.replaces_id 0 then record n { replaces_id = 7 } else n

keeps : (n : Notification) → n.replaces_id ≢ 0 → (publish n).replaces_id ≡ n.replaces_id
keeps n h = ground arith

abbrev desktop : Desktop
desktop = record {
  blank = blank;
  translate = λ s. s;
  from_device = λ f d. f;
  device_name = λ d. none;
  file_name = λ u. u.path;
  narrow = λ n. n;
  publish = publish;
  publish_keeps = keeps;
}

abbrev shown : Notifications
shown = (3, record blank { replaces_id = 7 }) ∷ []

abbrev ended : JobInfo
ended = record (new_info 3 40 other) { state = finished }

abbrev last_shown : Notification
last_shown = next_notification desktop finished ended (record blank { replaces_id = 7 })

abbrev after_end : Notifications
after_end = insert 3 (publish last_shown) shown

shown_number : Numbered desktop 3 7 shown
unfolding lookup
shown_number = (record blank { replaces_id = 7 }, refl, refl)

one_change : Changed desktop shown ((3, last_shown) ∷ []) after_end
unfolding lookup job_changed new_info
one_change = changes ended last_shown unchanged refl

same_notification_example :
    Numbered desktop 3 7 after_end
    × All (λ (o : ℕ × Notification). o.0 ≡ 3 → o.1.replaces_id ≡ 7) ((3, last_shown) ∷ [])
same_notification_example = same_notification desktop 3 7 (λ h. cc) shown_number one_change
