-- ===== src/Plugins/Mpris.antt =====
-- plugins/sf_mprisremote/mprisremoteplugin.h and mprisremoteplugin.cpp: the players of a device and
-- what is sent to control them. The clock's reading, in milliseconds, is an argument. Times and
-- positions are in a range where the sums do not overflow 64 bits.
pub mod Receive
pub mod Players
pub mod Pictures
pub mod Support
use harbour_sailfishconnect.Base.{
  ℕ, String, Bool, true, false, not, ◌&&◌, ◌||◌, Option, none, some, List, [], ◌∷◌, ◌++◌, map,
  contains, if◌then◌else◌, ◌==◌, string_eq, ℤ, pos, minus_one, is_nonneg, ◌+ℤ◌, ◌-ℤ◌,
}
use harbour_sailfishconnect.Base.Dict.{Dict, keys, lookup, insert, erase, has_key}
use harbour_sailfishconnect.Plugins.Packet.{Value, text, flag, number, texts, NetworkPacket}
use harbour_sailfishconnect.Plugins.AlbumArt.{
  Qt, Source, Action, request_album_art, AlbumArtCache, Run, image_url, start_fetching,
  end_fetching,
}

-- What Qt does with a value of another type than the program asks for, with the hosts of urls,
-- given by their encoded texts, and with the case of letters.
pub record Platform : Type 0 where
  pub text_from : Value → String
  pub flag_from : Value → Bool
  pub number_from : Value → ℤ
  pub texts_from : Value → List String
  pub host : String → String
  pub set_host : String → String → String
  pub url_text : String → String
  pub to_lower : String → String

pub record MprisPlayer : Type 0 where
  pub name : String
  pub is_spotify : Bool
  pub is_playing : Bool
  pub play_allowed : Bool
  pub pause_allowed : Bool
  pub go_next_allowed : Bool
  pub go_previous_allowed : Bool
  pub can_seek : Bool
  pub volume : ℤ
  pub length : ℤ
  pub last_position : ℤ
  pub last_position_time : ℤ
  pub title : String
  pub artist : String
  pub album : String
  pub local_album_art : String
  pub remote_album_art_url : String

-- What an operation of a player sends, how often it emits propertiesChanged, and the player then.
pub record PlayerRun : Type 0 where
  pub packets : List NetworkPacket
  pub changes : ℕ
  pub player : MprisPlayer

unfoldable pub new_player : Platform → String → MprisPlayer
new_player pf name = record {
  name = name;
  is_spotify = pf.to_lower name == "spotify";
  is_playing = false;
  play_allowed = false;
  pause_allowed = false;
  go_next_allowed = false;
  go_previous_allowed = false;
  can_seek = false;
  volume = minus_one;
  length = minus_one;
  last_position = minus_one;
  last_position_time = minus_one;
  title = "";
  artist = "";
  album = "";
  local_album_art = "";
  remote_album_art_url = "";
}

unfoldable pub position : ℤ → MprisPlayer → ℤ
position now p =
    if p.is_playing && is_nonneg p.last_position
    then p.last_position +ℤ now -ℤ p.last_position_time
    else p.last_position

unfoldable pub has_position : MprisPlayer → Bool
has_position p = is_nonneg p.last_position

unfoldable pub seek_allowed : MprisPlayer → Bool
seek_allowed p = p.can_seek && is_nonneg p.length && is_nonneg p.last_position && not p.is_spotify

unfoldable pub set_volume_allowed : MprisPlayer → Bool
set_volume_allowed p = not p.is_spotify

-- The two sendCommand(), for a text and for a number.
unfoldable pub send_command : String → String → Value → NetworkPacket
send_command player method value = record {
  kind = "kdeconnect.mpris.request";
  body = insert method value (("player", text player) ∷ []);
}

unfoldable pub send_action : Bool → String → MprisPlayer → PlayerRun
unfolding send_command
send_action allowed action p =
    if allowed
    then record {
      packets = send_command p.name "action" (text action) ∷ [];
      changes = 0;
      player = p;
    }
    else record { packets = []; changes = 0; player = p }

unfoldable pub set_volume : ℤ → MprisPlayer → PlayerRun
unfolding set_volume_allowed send_command
set_volume value p =
    if set_volume_allowed p
    then record {
      packets = send_command p.name "setVolume" (number value) ∷ [];
      changes = 1;
      player = record p { volume = value };
    }
    else record { packets = []; changes = 0; player = p }

unfoldable pub set_position : ℤ → ℤ → MprisPlayer → PlayerRun
unfolding seek_allowed send_command
set_position now value p =
    if seek_allowed p
    then record {
      packets = send_command p.name "SetPosition" (number value) ∷ [];
      changes = 1;
      player = record p { last_position = value; last_position_time = now };
    }
    else record { packets = []; changes = 0; player = p }

unfoldable pub play_pause : MprisPlayer → PlayerRun
unfolding send_action
play_pause p = send_action (p.pause_allowed || p.play_allowed) "PlayPause" p

unfoldable pub play : MprisPlayer → PlayerRun
unfolding send_action
play p = send_action p.play_allowed "Play" p

unfoldable pub pause : MprisPlayer → PlayerRun
unfolding send_action
pause p = send_action p.pause_allowed "Pause" p

unfoldable pub stop : MprisPlayer → PlayerRun
unfolding send_action
stop p = send_action true "Stop" p

unfoldable pub previous : MprisPlayer → PlayerRun
unfolding send_action
previous p = send_action p.go_previous_allowed "Previous" p

unfoldable pub next : MprisPlayer → PlayerRun
unfolding send_action
next p = send_action p.go_next_allowed "Next" p

unfoldable pub seek : ℤ → MprisPlayer → PlayerRun
unfolding seek_allowed send_command
seek value p =
    if seek_allowed p
    then record {
      packets = send_command p.name "seek" (number value) ∷ [];
      changes = 0;
      player = p;
    }
    else record { packets = []; changes = 0; player = p }

-- np.get<T>(key, fallback)
module _ (pf : Platform) where
  unfoldable pub get_text : Option Value → String → String
  get_text none fallback = fallback
  get_text (some (text s)) fallback = s
  get_text (some v) fallback = pf.text_from v

  unfoldable pub get_flag : Option Value → Bool → Bool
  get_flag none fallback = fallback
  get_flag (some (flag b)) fallback = b
  get_flag (some v) fallback = pf.flag_from v

  unfoldable pub get_number : Option Value → ℤ → ℤ
  get_number none fallback = fallback
  get_number (some (number n)) fallback = n
  get_number (some v) fallback = pf.number_from v

  unfoldable pub get_texts : Option Value → List String
  get_texts none = []
  get_texts (some (texts ts)) = ts
  get_texts (some v) = pf.texts_from v
