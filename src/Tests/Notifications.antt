-- ===== src/Tests/Notifications.antt =====
-- A notification with an image, on a platform that has all images.
use harbour_sailfishconnect.Base.{
  ℕ, ◌≡◌, refl, ◌↔◌, String, true, false, none, some, [], ◌∷◌, string_eq, ◌==◌, minus_one,
}
use harbour_sailfishconnect.Base.Dict.{lookup}
use harbour_sailfishconnect.Plugins.Notifications.{
  ImageArgument, Platform, NotifyingApplication, Config, NotificationsListener, Notify,
}
use harbour_sailfishconnect.Plugins.Notifications.Listener.{
  find_application, load_applications, sent, dropped, failed, notification_packet, ticker_of,
  notify_application, on_notify, is_blacklisted, urgency_of,
}
use harbour_sailfishconnect.Plugins.Notifications.Wanted.{
  dropped_iff_unwanted, replacing_without_icon, image_data_faults,
}
use harbour_sailfishconnect.Plugins.Notifications.Reasons.{unwanted, is_own, HasReason}
use harbour_sailfishconnect.Tests.Streams.{streams, streams-Decodes}
use harbour_sailfishconnect.Plugins.Notifications.Applications.{new_application_kept}

abbrev image : ImageArgument
image = record {
  width = 1;
  height = 1;
  row_stride = 4;
  bits_per_sample = 8;
  channels = 4;
  has_alpha = true;
  image_data = 0 ∷ 0 ∷ 0 ∷ 0 ∷ [];
}

-- Variants that are texts and images that are always there.
abbrev platform : Platform String ℕ
platform = record {
  to_text = λ v. v;
  to_int = λ v. none;
  to_bool = λ v. v == "true";
  image_argument = λ v. some image;
  decode = λ a. 1;
  load_image = λ p. 1;
  from_theme = λ n. 1;
  is_null = λ i. false;
  save_png = λ i. some [];
  read_file = λ p. none;
  is_png_name = λ p. false;
  has_slash = λ n. false;
  url_scheme = λ n. "file";
  url_path = λ n. n;
  regex_valid = λ p. true;
  regex_matches = λ p t. false;
  number = λ n. "";
  streams = streams;
}

abbrev config : Config
config = record {
  general_persistent = none;
  general_urgency = none;
  general_include_body = none;
  general_synchronize_icons = none;
  applications = [];
}

abbrev listener : NotificationsListener
listener = record { config = config; applications = [] }

abbrev application : NotifyingApplication
application = record { name = "mail"; icon = ""; active = true; blacklist_expression = "" }

abbrev notify : ℕ → Notify String
notify id = record {
  app_name = "mail";
  replaces_id = id;
  app_icon = "";
  summary = "News";
  body = "";
  actions = [];
  hints = ("image-data", "") ∷ [];
  timeout = minus_one;
}

dropped_iff_unwanted_example :
    ((on_notify String ℕ platform (notify 0) listener).0 ≡ dropped)
    ↔ HasReason String ℕ platform
        (find_application streams "mail" "" listener).1.config
        (find_application streams "mail" "" listener).0
        (notify 0)
dropped_iff_unwanted_example = dropped_iff_unwanted String ℕ platform (notify 0) listener

wanted : (id : ℕ) → unwanted String ℕ platform config application (notify id) ≡ false
unfolding urgency_of is_blacklisted ticker_of lookup
wanted id = refl

replaced_iconless :
    notify_application String ℕ platform config application (notify 4)
    ≡ sent (record {
      packet =
          notification_packet String ℕ platform
            (notify 4)
            (ticker_of String ℕ platform config (notify 4));
      payload = none;
    })
replaced_iconless =
    replacing_without_icon String ℕ platform config application (notify 4) 3 refl (wanted 4)

has_image : lookup "image-data" (notify 0).hints ≡ some ""
unfolding lookup
has_image = refl

image_faults_once : notify_application String ℕ platform config application (notify 0) ≡ failed
image_faults_once =
    image_data_faults String ℕ platform config application (notify 0) "" image refl refl (wanted 0)
      has_image refl refl refl

not_known : lookup "mail" listener.applications ≡ none
unfolding lookup
not_known = refl

not_own : is_own String ℕ platform (notify 0) ≡ false
unfolding lookup
not_own = refl

new_application_kept_example :
    (load_applications streams (on_notify String ℕ platform (notify 0) listener).1
      ≡ (on_notify String ℕ platform (notify 0) listener).1)
    × (lookup "mail" (on_notify String ℕ platform (notify 0) listener).1.applications
        ≡ some application)
new_application_kept_example =
    new_application_kept String ℕ platform streams-Decodes (notify 0) listener tt not_known not_own
