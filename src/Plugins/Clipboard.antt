-- ===== src/Plugins/Clipboard.antt =====
-- plugins/sf_clipboard/clipboardplugin.cpp. Each device has a plugin of its own; the system's
-- clipboard, a text, is one for all, so an operation takes it and gives it back. The clock's
-- reading, in milliseconds, is an argument.
pub mod Newest
use harbour_sailfishconnect.Base.{
  String, Bool, true, false, Option, none, some, List, [], ◌∷◌, if◌then◌else◌, ◌==◌, string_eq, ℤ,
  pos, ltb_ℤ,
}
use harbour_sailfishconnect.Base.Dict.{Dict, lookup}
use harbour_sailfishconnect.Plugins.Packet.{Value, text, number, Conversions, NetworkPacket}

pub record ClipboardPlugin : Type 0 where
  pub current_content : String
  pub update_timestamp : ℤ

-- np.get<QString> and np.get<qint64>, with the default of the type for a missing value.
unfoldable pub get_text : Conversions → Option Value → String
get_text qv none = ""
get_text qv (some (text s)) = s
get_text qv (some v) = qv.to_text v

unfoldable pub get_number : Conversions → Option Value → ℤ
get_number qv none = pos 0
get_number qv (some (number n)) = n
get_number qv (some v) = qv.to_number v

-- The plugin that took a text, and the clipboard with it.
unfoldable pub store : String → ℤ → ClipboardPlugin × String
store content timestamp =
    (record { current_content = content; update_timestamp = timestamp }, content)

unfoldable pub receive_packet :
    Conversions → ℤ → NetworkPacket → ClipboardPlugin → String → ClipboardPlugin × String
unfolding get_text get_number store
receive_packet qv now np p clipboard =
    let content = get_text qv (lookup "content" np.body) in
    let timestamp = get_number qv (lookup "timestamp" np.body) in
    if np.kind == "kdeconnect.clipboard"
    then store content now
    else if np.kind == "kdeconnect.clipboard.connect"
    then if ltb_ℤ p.update_timestamp timestamp then store content timestamp else (p, clipboard)
    else (p, clipboard)

-- The clipboard is only read.
unfoldable pub push_clipboard : ℤ → String → NetworkPacket × ClipboardPlugin
push_clipboard now clipboard = (
  record { kind = "kdeconnect.clipboard"; body = ("content", text clipboard) ∷ [] },
  record { update_timestamp = now; current_content = clipboard },
)
