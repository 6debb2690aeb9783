-- ===== src/Tests/Messages.antt =====
-- A call of Notify with a text, a number and an image among its hints, on a platform that reads an
-- image from each D-Bus argument.
use harbour_sailfishconnect.Base.{
  ℕ, String, Bool, true, false, ◌≡◌, ◌≢◌, refl, Option, none, some, [], ◌∷◌, minus_one, string_eq,
  ◌==◌,
}
use harbour_sailfishconnect.Plugins.Notifications.{
  ImageArgument, Platform, NotificationsListener, Notify,
}
use harbour_sailfishconnect.Plugins.Notifications.Listener.{on_notify, failed}
use harbour_sailfishconnect.Plugins.Notifications.Messages.{
  string, byte, basic, array, structure, nil, cons, Variants, handle_notify_call,
}
use harbour_sailfishconnect.Plugins.Notifications.Decoded.{Call, message}
use harbour_sailfishconnect.Tests.Streams.{streams}
use harbour_sailfishconnect.Plugins.Notifications.Imageless.{NoImages, decoded_call_safe}

-- A D-Bus argument, or a value that is given by a text.
abbrev Variant : Type 0
Variant = Bool × String

abbrev variants : Variants Variant
variants = record {
  invalid = (false, "");
  from_int = λ n. (false, "int");
  from_uint = λ n. (false, "uint");
  from_long_long = λ n. (false, "qlonglong");
  from_unsigned_long_long = λ n. (false, "qulonglong");
  from_double = λ d. (false, "double");
  from_text = λ s. (false, s);
}

abbrev image_of : Variant → Option ImageArgument
image_of (false, s) = none
image_of (true, s) = some (record {
  width = 1;
  height = 1;
  row_stride = 4;
  bits_per_sample = 8;
  channels = 4;
  has_alpha = true;
  image_data = 0 ∷ 0 ∷ 0 ∷ 0 ∷ [];
})

abbrev platform : Platform Variant ℕ
platform = record {
  to_text = λ v. v.1;
  to_int = λ v. none;
  to_bool = λ v. v.1 == "true";
  image_argument = image_of;
  decode = λ a. 1;
  load_image = λ p. 1;
  from_theme = λ n. 1;
  is_null = λ i. false;
  save_png = λ i. some [];
  read_file = λ p. none;
  is_png_name = λ p. false;
  has_slash = λ n. false;
  url_scheme = λ n. "file";
  url_path = λ n. n;
  regex_valid = λ p. true;
  regex_matches = λ p t. false;
  number = λ n. "";
  streams = streams;
}

abbrev laws : NoImages ℕ platform variants
laws = record {
  invalid = refl;
  from_int = λ n. refl;
  from_uint = λ n. refl;
  from_long_long = λ n. refl;
  from_unsigned_long_long = λ n. refl;
  from_double = λ d. refl;
  from_text = λ s. refl;
}

abbrev call : Call
call = record {
  app_name = "Mail";
  replaces_id = 0;
  app_icon = "icon";
  summary = "Hello";
  body = "World";
  actions = "default" ∷ "" ∷ [];
  hints =
      ("urgency", basic (byte 1))
      ∷ ("image-data", structure (cons (array nil) nil))
      ∷ ("category", basic (string "mail"))
      ∷ [];
  timeout = minus_one;
}

abbrev listener : NotificationsListener
listener = record {
  config = record {
    general_persistent = none;
    general_urgency = none;
    general_include_body = none;
    general_synchronize_icons = none;
    applications = [];
  };
  applications = [];
}

decoded_call_safe_example :
    (n : Notify Variant) × (handle_notify_call variants true (message call) ≡ some (some n))
    × ((on_notify Variant ℕ platform n listener).0 ≢ failed)
decoded_call_safe_example = decoded_call_safe ℕ platform variants laws call listener
