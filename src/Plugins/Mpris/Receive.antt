-- ===== src/Plugins/Mpris/Receive.antt =====
-- How plugins/sf_mprisremote/mprisremoteplugin.cpp takes packets. Signals and packets are in the
-- order of their emission. A QSet is a list without repetitions; its order is not specified.
use harbour_sailfishconnect.Base.{
  String, Bool, true, false, not, ◌&&◌, Option, none, some, List, [], ◌∷◌, ◌++◌, map, contains,
  if◌then◌else◌, ◌==◌, ◌>>=◌, string_eq, nat_eq, ℤ,
}
use harbour_sailfishconnect.Base.Dict.{Dict, keys, lookup, insert, erase, has_key}
use harbour_sailfishconnect.Plugins.Packet.{text, flag, NetworkPacket}
use harbour_sailfishconnect.Plugins.AlbumArt.{
  Qt, Source, Action, request_album_art, AlbumArtCache, image_url, start_fetching, end_fetching,
}
use harbour_sailfishconnect.Plugins.Mpris.{
  Platform, MprisPlayer, new_player, get_text, get_flag, get_number, get_texts,
}

pub data Signal : Type 0 where
  player_added player_removed : String → Signal

pub record MprisRemotePlugin : Type 0 where
  pub players : Dict String MprisPlayer
  pub support_album_art_payload : Bool
  pub cache : AlbumArtCache

-- What the plugin sends and emits, what its cache does, and the plugin then.
pub record PluginRun : Type 0 where
  pub packets : List NetworkPacket
  pub signals : List Signal
  pub actions : List Action
  pub plugin : MprisRemotePlugin

unfoldable pub nothing : MprisRemotePlugin → PluginRun
nothing m = record { packets = []; signals = []; actions = []; plugin = m }

unfoldable pub request_player_list : NetworkPacket
request_player_list = record {
  kind = "kdeconnect.mpris.request";
  body = ("requestPlayerList", flag true) ∷ [];
}

unfoldable pub request_player_status : String → NetworkPacket
request_player_status player = record {
  kind = "kdeconnect.mpris.request";
  body =
      ("player", text player)
      ∷ ("requestNowPlaying", flag true)
      ∷ ("requestVolume", flag true)
      ∷ [];
}

-- askForAlbumArt(), the slot of the cache's signal.
unfoldable pub ask_for_album_art : String → String → MprisRemotePlugin → List NetworkPacket
ask_for_album_art url player_name m =
    if not m.support_album_art_payload
    then []
    else if url == ""
    then []
    else elim (lookup player_name m.players) [
      | none ↦ []
      | some p ↦
          if p.remote_album_art_url == url
          then record {
            kind = "kdeconnect.mpris.request";
            body = ("player", text p.name) ∷ ("albumArtUrl", text url) ∷ [];
          }
            ∷ []
          else []
    ]

unfoldable pub answer_actions : List Action → MprisRemotePlugin → List NetworkPacket
unfolding ask_for_album_art
answer_actions [] m = []
answer_actions (request_album_art url player ∷ rest) m =
    ask_for_album_art url player m ++ answer_actions rest m
answer_actions (_ ∷ rest) m = answer_actions rest m

unfoldable pub to_set : List String → List String
to_set [] = []
to_set (x ∷ xs) = let rest = to_set xs in if contains rest x then rest else x ∷ rest

-- QSet::subtract
unfoldable pub subtract : List String → List String → List String
subtract [] ys = []
subtract (x ∷ xs) ys = let rest = subtract xs ys in if contains ys x then rest else x ∷ rest

module _ (pf : Platform) where
  unfoldable pub add_players : List String → Dict String MprisPlayer → Dict String MprisPlayer
  unfolding new_player
  add_players [] players = players
  add_players (name ∷ names) players = add_players names (insert name (new_player pf name) players)

  unfoldable pub remove_players : List String → Dict String MprisPlayer → Dict String MprisPlayer
  remove_players [] players = players
  remove_players (name ∷ names) players = remove_players names (erase name players)

  -- The part of receivePacket() for a list of players.
  unfoldable pub update_players : List String → MprisRemotePlugin → PluginRun
  unfolding to_set subtract add_players remove_players request_player_status
  update_players names m =
      let new = to_set names in
      let old = keys m.players in
      let added = subtract new old in
      let removed = subtract old new in
      record {
        packets = map request_player_status added;
        signals = map player_added added ++ map player_removed removed;
        actions = [];
        plugin = record m { players = remove_players removed (add_players added m.players) };
      }

  -- receivePacket() of a player, with the cache or a null pointer. The reading of a picture's
  -- address through a null pointer is `none`.
  unfoldable pub receive_album_art :
      Qt → String → Option AlbumArtCache → MprisPlayer → Option MprisPlayer
  unfolding image_url
  receive_album_art qt remote cache p =
      let url = qt.parse remote in
      let is_web = pf.host url == "open.spotify.com" in
      let album_art_url = if is_web then pf.set_host url "i.scdn.co" else url in
      let address = if is_web then pf.url_text album_art_url else remote in
      if remote == "" then some p else elim cache [
        | none ↦ none
        | some c ↦ some (record p {
          remote_album_art_url = address;
          local_album_art = image_url qt album_art_url c;
        })
      ]

  unfoldable pub receive_properties : NetworkPacket → MprisPlayer → MprisPlayer
  unfolding get_text get_flag get_number
  receive_properties np p = record p {
    title = get_text pf (lookup "title" np.body) p.title;
    artist = get_text pf (lookup "artist" np.body) p.artist;
    album = get_text pf (lookup "album" np.body) p.album;
    length = get_number pf (lookup "length" np.body) p.length;
    is_playing = get_flag pf (lookup "isPlaying" np.body) p.is_playing;
    play_allowed = get_flag pf (lookup "canPlay" np.body) p.play_allowed;
    pause_allowed = get_flag pf (lookup "canPause" np.body) p.pause_allowed;
    go_next_allowed = get_flag pf (lookup "canGoNext" np.body) p.go_next_allowed;
    go_previous_allowed = get_flag pf (lookup "canGoPrevious" np.body) p.go_previous_allowed;
    can_seek = get_flag pf (lookup "canSeek" np.body) p.can_seek;
  }

  unfoldable pub receive_position : ℤ → NetworkPacket → MprisPlayer → MprisPlayer
  unfolding get_number
  receive_position now np p =
      if has_key "pos" np.body && not p.is_spotify
      then record p {
        last_position = get_number pf (lookup "pos" np.body) p.last_position;
        last_position_time = now;
      }
      else p

  unfoldable pub player_receives :
      Qt → ℤ → NetworkPacket → Option AlbumArtCache → MprisPlayer → Option MprisPlayer
  unfolding receive_properties receive_album_art receive_position get_text
  player_receives qt now np cache p = do
    q ←
        receive_album_art qt (get_text pf (lookup "albumArtUrl" np.body) "") cache
          (receive_properties np p)
    some (receive_position now np q)

  -- What receivePacket() does after a player has taken the packet.
  unfoldable pub fetch_album_art : Qt → Bool → MprisPlayer → MprisRemotePlugin → PluginRun
  unfolding start_fetching answer_actions
  fetch_album_art qt opens p m =
      let r = (start_fetching qt opens p.remote_album_art_url p.name m.cache).1 in
      if m.support_album_art_payload
      then record {
        packets = answer_actions r.actions m;
        signals = [];
        actions = r.actions;
        plugin = record m { cache = r.cache };
      }
      else nothing m

  -- The part of receivePacket() for the properties of a player.
  unfoldable pub update_player :
      Qt → ℤ → Bool → NetworkPacket → MprisRemotePlugin → Option PluginRun
  unfolding player_receives fetch_album_art get_text
  update_player qt now opens np m =
      let name = get_text pf (lookup "player" np.body) "" in
      let cache = if m.support_album_art_payload then some m.cache else none in
      if has_key "player" np.body
      then elim (lookup name m.players) [
        | none ↦ some (nothing m)
        | some p ↦ do
          q ← player_receives qt now np cache p
          some (fetch_album_art qt opens q (record m { players = insert name q m.players }))
      ]
      else some (nothing m)

  unfoldable pub end_art :
      Qt → Bool → NetworkPacket → Option Source → ℤ → MprisRemotePlugin → PluginRun
  unfolding end_fetching get_text
  end_art qt opens np payload size m =
      let url = qt.parse (get_text pf (lookup "albumArtUrl" np.body) "") in
      let r = end_fetching qt opens url payload size m.cache in
      record {
        packets = [];
        signals = [];
        actions = r.actions;
        plugin = record m { cache = r.cache };
      }

  unfoldable pub update_list : NetworkPacket → PluginRun → PluginRun
  unfolding update_players get_texts
  update_list np r =
      let s = update_players (get_texts pf (lookup "playerList" np.body)) r.plugin in
      if has_key "playerList" np.body
      then record {
        packets = r.packets ++ s.packets;
        signals = r.signals ++ s.signals;
        actions = r.actions;
        plugin = s.plugin;
      }
      else r

  unfoldable pub update_support : NetworkPacket → MprisRemotePlugin → MprisRemotePlugin
  unfolding get_flag
  update_support np m = record m {
    support_album_art_payload =
        get_flag pf (lookup "supportAlbumArtPayload" np.body) m.support_album_art_payload;
  }

  unfoldable pub receive_packet :
      Qt → ℤ → Bool → NetworkPacket → Option Source → ℤ → MprisRemotePlugin → Option PluginRun
  unfolding update_support update_player update_list end_art get_flag
  receive_packet qt now opens np payload size m =
      if get_flag pf (lookup "transferringAlbumArt" np.body) false
      then some (end_art qt opens np payload size m)
      else do r ← update_player qt now opens np (update_support np m); some (update_list np r)
