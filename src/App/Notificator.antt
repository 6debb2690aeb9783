-- ===== src/App/Notificator.antt =====
-- app/src/helper/jobsnotificator.cpp. The notifications of the desktop, the translations and the
-- devices are not the program's own, so they are a parameter. A Notification object is changed in
-- place, so it is stored again after each operation.
pub mod Identity
use harbour_sailfishconnect.Base.{
  ℕ, ◌+◌, ◌-◌, String, Bool, true, false, Option, none, some, ◌≡◌, ◌≢◌, if◌then◌else◌, ◌==◌,
  string_eq, nat_eq, ℤ, pos, ltb_ℤ,
}
use harbour_sailfishconnect.Base.Dict.{Dict, lookup, insert}
use harbour_sailfishconnect.App.Jobs.{
  JobInfo, State, running, canceled, finished, Url, Progress, progress,
}

pub record Notification : Type 0 where
  pub body : String
  pub summary : String
  pub preview_body : String
  pub preview_summary : String
  pub item_count : ℤ
  pub replaces_id : ℕ
  -- the hint x-nemo-progress
  pub shown_progress : Option Progress
  -- the device whose page the action opens
  pub remote_action : Option String

-- `publish` is the notification after publish(): the server gives a new one its number, and one
-- that has a number keeps it. `narrow` is the conversion of a qint64 to int.
pub record Desktop : Type 0 where
  pub blank : Notification
  pub translate : String → String
  pub from_device : String → String → String
  pub device_name : String → Option String
  pub file_name : Url → String
  pub narrow : ℤ → ℤ
  pub publish : Notification → Notification
  pub publish_keeps :
      (n : Notification) → n.replaces_id ≢ 0 → (publish n).replaces_id ≡ n.replaces_id

-- m_jobs, by the pointers of the JobInfos.
abbrev pub Notifications : Type 0
Notifications = Dict ℕ Notification

module _ (qt : Desktop) where
  unfoldable pub is_upload : JobInfo → Bool
  is_upload i = i.target.scheme == "remote"

  unfoldable pub file_text : JobInfo → String
  file_text i = elim (qt.device_name i.device_id) [
    | none ↦ qt.file_name i.target
    | some name ↦ qt.from_device (qt.file_name i.target) name
  ]

  -- While the job runs: the same object, with the progress.
  unfoldable pub running_notification : JobInfo → Notification → Notification
  unfolding progress
  running_notification i n =
      let m = record n { shown_progress = some (progress i) } in
      if ltb_ℤ (pos 1) i.total_files
      then record m { body = i.title; item_count = qt.narrow i.total_files }
      else m

  -- After its end: a new object with the number of the old one.
  unfoldable pub replacement : JobInfo → Notification → Notification
  replacement i n =
      let m = record qt.blank { body = qt.file_name i.target; replaces_id = n.replaces_id } in
      if ltb_ℤ (pos 1) i.total_files then record m { item_count = qt.narrow i.total_files } else m

  unfoldable pub end_text : JobInfo → String
  unfolding file_text
  end_text i = if ltb_ℤ (pos 1) i.total_files then i.title else file_text i

  unfoldable pub end_summary : JobInfo → String
  unfolding is_upload
  end_summary i =
      if i.error_string == ""
      then if is_upload i
        then qt.translate "Upload succeeded"
        else qt.translate "Download succeeded"
      else if is_upload i
      then qt.translate "Upload failed"
      else qt.translate "Download failed"

  unfoldable pub finished_notification : JobInfo → Notification → Notification
  unfolding end_text end_summary
  finished_notification i m =
      let text = if i.error_string == "" then end_text i else i.error_string in
      record m {
        summary = end_summary i;
        preview_body = text;
        preview_summary = end_summary i;
        body = text;
      }

  unfoldable pub canceled_notification : JobInfo → Notification → Notification
  unfolding end_text is_upload
  canceled_notification i m = record m {
    summary =
        if is_upload i then qt.translate "Upload aborted" else qt.translate "Download aborted";
    body = end_text i;
  }

  unfoldable pub next_notification : State → JobInfo → Notification → Notification
  unfolding running_notification replacement finished_notification canceled_notification
  next_notification running i n = running_notification i n
  next_notification finished i n = finished_notification i (replacement i n)
  next_notification canceled i n = canceled_notification i (replacement i n)

  -- The notification that is published, and the notifications after it; `none` is the failed
  -- assertion on a JobInfo that has none.
  unfoldable pub job_changed : JobInfo → Notifications → Option (Notification × Notifications)
  unfolding next_notification
  job_changed i jobs = elim (lookup i.self jobs) [
    | none ↦ none
    | some n ↦ some (
      next_notification i.state i n,
      insert i.self (qt.publish (next_notification i.state i n)) jobs,
    )
  ]

  unfoldable pub first_notification : JobInfo → Notification
  unfolding is_upload file_text progress
  first_notification i =
      let m = record qt.blank {
        body = file_text i;
        item_count = qt.narrow i.processed_files;
        shown_progress = some (progress i);
        remote_action = elim (qt.device_name i.device_id) [
          | none ↦ none
          | some name ↦ some i.device_id
        ];
      } in
      if is_upload i then record m { summary = qt.translate "Uploading ..." } else record m {
        preview_summary = qt.translate "Download started";
        preview_body = file_text i;
        summary = qt.translate "Downloading ...";
      }

  unfoldable pub add_job : JobInfo → Notifications → Notification × Notifications
  unfolding first_notification
  add_job i jobs = (first_notification i, insert i.self (qt.publish (first_notification i)) jobs)
