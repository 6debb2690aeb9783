-- ===== src/Plugins/Notifications.antt =====
-- plugins/sf_sendnotifications/notificationslistener.cpp, as it is built with SAILFISHOS. What the
-- listener uses of Qt (variants, images, files, regular expressions) is a Platform.
pub mod Icons
pub mod Listener
pub mod Conditions
pub mod Reasons
pub mod Wanted
pub mod Applications
pub mod Messages
pub mod Decoded
pub mod Imageless
use harbour_sailfishconnect.Base.{ℕ, String, Bool, Option, List, ℤ}
use harbour_sailfishconnect.Base.Dict.{Dict}
use harbour_sailfishconnect.Plugins.Packet.{NetworkPacket}

abbrev pub Bytes : Type 0
Bytes = List ℕ

-- The structure that parseImageDataArgument() reads from a QDBusArgument.
pub record ImageArgument : Type 0 where
  pub width : ℕ
  pub height : ℕ
  pub row_stride : ℕ
  pub bits_per_sample : ℕ
  pub channels : ℕ
  pub has_alpha : Bool
  pub image_data : Bytes

-- QDataStream: what is written for a value, and the value and the rest that are read.
pub record Streams : Type 0 where
  pub encode_text : String → Bytes
  pub encode_flag : Bool → Bytes
  pub decode_text : Bytes → String × Bytes
  pub decode_flag : Bytes → Bool × Bytes

-- V is QVariant and Image is QImage.
pub record Platform (V Image : Type 0) : Type 0 where
  pub to_text : V → String
  pub to_int : V → Option ℤ
  pub to_bool : V → Bool
  pub image_argument : V → Option ImageArgument
  pub decode : ImageArgument → Image
  pub load_image : String → Image
  pub from_theme : String → Image
  pub is_null : Image → Bool
  pub save_png : Image → Option Bytes
  pub read_file : String → Option Bytes
  pub is_png_name : String → Bool
  pub has_slash : String → Bool
  pub url_scheme : String → String
  pub url_path : String → String
  pub regex_valid : String → Bool
  pub regex_matches : String → String → Bool
  pub number : ℕ → String
  pub streams : Streams

-- The blacklist expression is given by its pattern.
pub record NotifyingApplication : Type 0 where
  pub name : String
  pub icon : String
  pub active : Bool
  pub blacklist_expression : String

-- The keys of the plugin's configuration that the listener reads; `none` is a key not set. A list
-- of the configuration stores its items as they are streamed.
pub record Config : Type 0 where
  pub general_persistent : Option Bool
  pub general_urgency : Option ℤ
  pub general_include_body : Option Bool
  pub general_synchronize_icons : Option Bool
  pub applications : List Bytes

pub record NotificationsListener : Type 0 where
  pub config : Config
  pub applications : Dict String NotifyingApplication

-- A packet, and the payload that is sent with it.
pub record Notification : Type 0 where
  pub packet : NetworkPacket
  pub payload : Option Bytes

-- The arguments of the signal Notify. onNotify() does not use the actions.
pub record Notify (V : Type 0) : Type 0 where
  pub app_name : String
  pub replaces_id : ℕ
  pub app_icon : String
  pub summary : String
  pub body : String
  pub actions : List String
  pub hints : Dict String V
  pub timeout : ℤ
