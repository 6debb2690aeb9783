-- ===== src/Tests/Mpris.antt =====
-- A device with two players, of which one is new.
use harbour_sailfishconnect.Base.{
  ℕ, String, true, false, not, ◌&&◌, none, some, List, [], ◌∷◌, ◌++◌, map, contains, if◌then◌else◌,
  ◌==◌, string_eq, ◌≡◌, refl, pos, is_some, get_or,
}
use harbour_sailfishconnect.Base.Dict.{lookup, has_key}
use harbour_sailfishconnect.Plugins.Packet.{NetworkPacket, text}
use harbour_sailfishconnect.Plugins.AlbumArt.{
  payload, Result, transferred, starts_transfer, empty_cache, cache_file_for, cache_file_name_for,
  is_available, step,
}
use harbour_sailfishconnect.Plugins.AlbumArt.Provider.{cached, request_cached}
use harbour_sailfishconnect.Plugins.Mpris.{Platform, MprisPlayer, new_player, get_text, get_flag}
use harbour_sailfishconnect.Plugins.Mpris.Receive.{
  MprisRemotePlugin, PluginRun, player_added, player_removed, request_player_status, receive_packet,
}
use harbour_sailfishconnect.Plugins.Mpris.Players.{list_packet, players_listed}
use harbour_sailfishconnect.Plugins.Mpris.Support.{receive_packet_fails}
use harbour_sailfishconnect.Plugins.Mpris.Pictures.{
  art_packet, picture_packet, asking_packet, picture_arrives,
}
use harbour_sailfishconnect.Tests.AlbumArt.{qt}

abbrev pub platform : Platform
platform = record {
  text_from = λ v. "";
  flag_from = λ v. false;
  number_from = λ v. pos 0;
  texts_from = λ v. [];
  host = λ u. "";
  set_host = λ u h. u;
  url_text = λ u. u;
  to_lower = λ s. s;
}

abbrev vlc : MprisPlayer
vlc = new_player platform "vlc"

abbrev pub plugin : MprisRemotePlugin
plugin = record {
  players = ("mpv", new_player platform "mpv") ∷ ("vlc", vlc) ∷ [];
  support_album_art_payload = false;
  cache = empty_cache "phone" "/c";
}

players_listed_example :
    (added removed : List String) × (r : PluginRun) × (receive_packet platform qt
        (pos 9)
        true
        (list_packet ("vlc" ∷ "spotify" ∷ "vlc" ∷ []))
        none
        (pos 0)
        plugin
      ≡ some r)
    × (r.packets ≡ map request_player_status added)
    × (r.signals ≡ map player_added added ++ map player_removed removed)
    × ((name : String)
        → contains added name
          ≡ (contains ("vlc" ∷ "spotify" ∷ "vlc" ∷ []) name && not (has_key name plugin.players)))
    × ((name : String)
        → contains removed name
          ≡ (has_key name plugin.players && not (contains ("vlc" ∷ "spotify" ∷ "vlc" ∷ []) name)))
    × ((name : String)
        → lookup name r.plugin.players ≡ (
            if contains ("vlc" ∷ "spotify" ∷ "vlc" ∷ []) name
            then some (get_or (lookup name plugin.players) (new_player platform name))
            else none))
players_listed_example =
    players_listed platform ("vlc" ∷ "spotify" ∷ "vlc" ∷ []) plugin qt (pos 9) true none (pos 0)

-- The address of a picture, but no word of pictures that can be transferred.
abbrev bare_packet : NetworkPacket
bare_packet = record {
  kind = "kdeconnect.mpris";
  body = ("player", text "vlc") ∷ ("albumArtUrl", text "file:///a") ∷ [];
}

receive_packet_fails_example :
    is_some (receive_packet platform qt (pos 9) true bare_packet none (pos 0) plugin)
    ≡ not (
        not (get_flag platform (lookup "transferringAlbumArt" bare_packet.body) false)
        && has_key "player" bare_packet.body
        && has_key (get_text platform (lookup "player" bare_packet.body) "") plugin.players
        && not (
            get_flag platform
              (lookup "supportAlbumArtPayload" bare_packet.body)
              plugin.support_album_art_payload)
        && not (get_text platform (lookup "albumArtUrl" bare_packet.body) "" == ""))
receive_packet_fails_example =
    receive_packet_fails platform qt (pos 9) true bare_packet none (pos 0) plugin

no_end : is_some (receive_packet platform qt (pos 9) true bare_packet none (pos 0) plugin) ≡ false
unfolding get_flag get_text lookup
no_end = receive_packet_fails platform qt (pos 9) true bare_packet none (pos 0) plugin

abbrev fine : Result
fine = record { error = 0; error_string = ""; reply = none; processed = 5 }

picture_arrives_example :
    (r s : PluginRun) × (t : ℕ) × (receive_packet platform qt
        (pos 9)
        true
        (art_packet "vlc" "file:///a")
        none
        (pos 5)
        plugin
      ≡ some r)
    × (r.packets ≡ asking_packet "vlc" "file:///a" ∷ [])
    × (receive_packet platform qt
          (pos 9)
          true
          (picture_packet "file:///a")
          (some (payload 3))
          (pos 5)
          r.plugin
        ≡ some s)
    × (s.actions
        ≡ starts_transfer t (payload 3) (cache_file_for qt "file:///a" plugin.cache) (pos 5) ∷ [])
    × (is_available qt "file:///a" (step qt (transferred true t fine) s.plugin.cache) ≡ true)
    × (request_cached qt
          (cache_file_name_for qt "file:///a")
          (step qt (transferred true t fine) s.plugin.cache)
        ≡ cached (some (cache_file_for qt "file:///a" plugin.cache)))
unfolding empty_cache new_player lookup cache_file_name_for
    harbour_sailfishconnect.Plugins.AlbumArt.hash_for
picture_arrives_example =
    picture_arrives platform qt plugin vlc "vlc" "file:///a" refl refl refl refl refl refl refl
      (pos 9) true (payload 3) (pos 5) fine refl refl refl
