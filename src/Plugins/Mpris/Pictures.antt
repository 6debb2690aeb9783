-- ===== src/Plugins/Mpris/Pictures.antt =====
-- How plugins/sf_mprisremote/mprisremoteplugin.cpp and albumartcache.cpp get a player's picture.
use harbour_sailfishconnect.Base.{
  ℕ, suc, String, Bool, true, false, Option, none, some, [], ◌∷◌, ◌==◌, ◌>>=◌, string_eq, nat_eq,
  ◌++◌, beq_refl, ℤ, is_some, ◌≡◌, refl, sym, ap, subst, ◌∙◌,
}
use harbour_sailfishconnect.Base.Dict.{lookup, insert, lookup-insert_self}
use harbour_sailfishconnect.Plugins.Packet.{text, flag, NetworkPacket}
use harbour_sailfishconnect.Plugins.AlbumArt.{
  Qt, Source, AlbumArtCache, Job, Result, transferred, step, is_available, request_album_art,
  starts_transfer, end_fetching, got_data, set_job, start_fetching, hash_for, image_url, add_job,
  new_job, cache_file_for, cache_file_name_for,
}
use harbour_sailfishconnect.Plugins.AlbumArt.Provider.{cached, request_cached}
use harbour_sailfishconnect.Plugins.AlbumArt.Served.{provides}
use harbour_sailfishconnect.Plugins.AlbumArt.Status.{Answers}
use harbour_sailfishconnect.Plugins.AlbumArt.Waiting.{Waits, shows}
use harbour_sailfishconnect.Plugins.Mpris.{Platform, MprisPlayer, get_text, get_flag, get_number}
use harbour_sailfishconnect.Plugins.Mpris.Receive.{
  MprisRemotePlugin, PluginRun, receive_album_art, receive_properties, receive_position,
  ask_for_album_art, answer_actions, player_receives, fetch_album_art, update_player,
  update_support, update_list, end_art, receive_packet,
}

-- What the device sends: a player's new picture, and then the picture itself; and what the plugin
-- sends in between.
abbrev pub art_packet : String → String → NetworkPacket
art_packet name url = record {
  kind = "kdeconnect.mpris";
  body =
      ("player", text name)
      ∷ ("albumArtUrl", text url)
      ∷ ("supportAlbumArtPayload", flag true)
      ∷ [];
}

abbrev pub picture_packet : String → NetworkPacket
picture_packet url = record {
  kind = "kdeconnect.mpris";
  body = ("transferringAlbumArt", flag true) ∷ ("albumArtUrl", text url) ∷ [];
}

abbrev pub asking_packet : String → String → NetworkPacket
asking_packet name url = record {
  kind = "kdeconnect.mpris.request";
  body = ("player", text name) ∷ ("albumArtUrl", text url) ∷ [];
}

module _ (pf : Platform) (qt : Qt) (m : MprisRemotePlugin) (p : MprisPlayer) (name url : String)
    (known : lookup name m.players ≡ some p) (named : p.name ≡ name) (given : (url == "") ≡ false)
    (own_host : (pf.host (qt.parse url) == "open.spotify.com") ≡ false)
    (local : qt.is_local_file (qt.parse url) ≡ true)
    (missing : lookup (hash_for qt (qt.parse url)) m.cache.disk_cache ≡ none)
    (unfetched : lookup (hash_for qt (qt.parse url)) m.cache.fetching ≡ none) where
  abbrev shown : MprisPlayer
  shown = record p {
    remote_album_art_url = url;
    local_album_art = image_url qt (qt.parse url) m.cache;
  }

  abbrev asked : MprisRemotePlugin
  asked = record m {
    players = insert name shown m.players;
    support_album_art_payload = true;
    cache = add_job qt (qt.parse url) m.cache;
  }

  player_shows :
      (now : ℤ) → player_receives pf qt now (art_packet name url) (some m.cache) p ≡ some shown
  unfolding player_receives receive_properties receive_album_art receive_position get_text get_flag
      get_number lookup
  player_shows now = rw (given, own_host) refl

  starts_local :
      (opens : Bool) (player : String)
      → start_fetching qt opens url player m.cache ≡ (
        some m.cache.next,
        record {
          actions = request_album_art url player ∷ [];
          cache = add_job qt (qt.parse url) m.cache;
        },
      )
  unfolding start_fetching
  starts_local opens player = rw (start_fetching, given, missing, unfetched, local) refl

  abbrev fetching_plugin : MprisRemotePlugin
  fetching_plugin = record m {
    players = insert name shown m.players;
    support_album_art_payload = true;
  }

  asks_device : ask_for_album_art url p.name fetching_plugin ≡ asking_packet name url ∷ []
  unfolding ask_for_album_art
  asks_device =
      let there : lookup p.name (insert name shown m.players) ≡ some shown =
        ap (λ n. lookup n (insert name shown m.players)) named
        ∙ lookup-insert_self name shown m.players in
      rw (given, there, beq_refl url) (ap (λ n. asking_packet n url ∷ []) named)

  fetches :
      (opens : Bool)
      → (fetch_album_art pf qt opens shown fetching_plugin).packets ≡ asking_packet name url ∷ []
  unfolding fetch_album_art answer_actions
  fetches opens = rw (starts_local opens p.name) (ap (λ l. l ++ []) asks_device)

  fetched_plugin :
      (opens : Bool) → (fetch_album_art pf qt opens shown fetching_plugin).plugin ≡ asked
  unfolding fetch_album_art
  fetched_plugin opens = rw (starts_local opens p.name) refl

  updates :
      (now : ℤ) (opens : Bool)
      → update_player pf qt now opens
          (art_packet name url)
          (update_support pf (art_packet name url) m)
        ≡ some (fetch_album_art pf qt opens shown fetching_plugin)
  unfolding update_player update_support get_flag get_text lookup
  updates now opens = rw (update_player, known, player_shows now) refl

  asks :
      (now : ℤ) (opens : Bool) (payload : Option Source) (size : ℤ)
      → (r : PluginRun) × (receive_packet pf qt now opens (art_packet name url) payload size m
          ≡ some r)
        × (r.packets ≡ asking_packet name url ∷ [])
        × (r.plugin ≡ asked)
  unfolding receive_packet update_list get_flag lookup
  asks now opens payload size = (
    fetch_album_art pf qt opens shown fetching_plugin,
    ap (λ o. o >>= (λ r. some (update_list pf (art_packet name url) r))) (updates now opens),
    fetches opens,
    fetched_plugin opens,
  )

  -- The job for the picture, when it has got the payload, and the cache with it.
  abbrev loading_job : Job
  loading_job = record (new_job qt (qt.parse url) (cache_file_for qt (qt.parse url) m.cache)) {
    file_transfer = some (suc m.cache.next);
  }

  abbrev loading_cache : AlbumArtCache
  loading_cache = record (add_job qt (qt.parse url) m.cache) {
    jobs = insert m.cache.next loading_job (add_job qt (qt.parse url) m.cache).jobs;
    pending = insert (suc m.cache.next) m.cache.next m.cache.pending;
    next = suc (suc m.cache.next);
  }

  ends :
      (picture : Source) (size : ℤ)
      → end_fetching qt true (qt.parse url) (some picture) size (add_job qt (qt.parse url) m.cache)
        ≡ record {
          actions =
              starts_transfer
                (suc m.cache.next)
                picture
                (cache_file_for qt (qt.parse url) m.cache)
                size
              ∷ [];
          cache = loading_cache;
        }
  unfolding end_fetching got_data add_job set_job new_job
  ends picture size =
      let job = new_job qt (qt.parse url) (cache_file_for qt (qt.parse url) m.cache) in
      let fetched = lookup-insert_self (hash_for qt (qt.parse url)) m.cache.next m.cache.fetching in
      let stored = lookup-insert_self m.cache.next job m.cache.jobs in
      rw (end_fetching, fetched, stored) refl

  loads :
      (now : ℤ) (picture : Source) (size : ℤ)
      → receive_packet pf qt now true (picture_packet url) (some picture) size asked
        ≡ some (record {
          packets = [];
          signals = [];
          actions =
              starts_transfer
                (suc m.cache.next)
                picture
                (cache_file_for qt (qt.parse url) m.cache)
                size
              ∷ [];
          plugin = record asked { cache = loading_cache };
        })
  unfolding receive_packet end_art get_flag get_text lookup
  loads now picture size = rw (receive_packet, end_art, ends picture size) refl

  loading-Waits :
      Waits loading_cache m.cache.next (suc m.cache.next) 0 (hash_for qt (qt.parse url)) loading_job
  unfolding add_job set_job new_job
  loading-Waits = record {
    is_stored = lookup-insert_self m.cache.next _ _;
    is_pending = lookup-insert_self (suc m.cache.next) m.cache.next m.cache.pending;
    is_current_transfer = refl;
    is_last = refl;
    has_hash = refl;
    has_counted = refl;
    is_absent = missing;
  }

  -- A picture that a device offers gets here. The plugin knows the player, under its name, and has
  -- neither the picture, which is a local file of the device and not Spotify's, nor a job for it.
  -- When the device names the picture's address, the plugin asks for it once, and does not else.
  -- When the device sends the picture then, and the file for it can be opened, one transfer starts,
  -- of the payload into the picture's cache file. When that transfer ends without an error, the
  -- picture is available, and QML gets that file under the name in the player's address, as the
  -- base name of the cache file's name is the hash.
  pub picture_arrives :
      (now : ℤ) (opens : Bool) (picture : Source) (size : ℤ) (result : Result)
      → result.error ≡ 0
      → result.reply ≡ none
      → qt.base_name (cache_file_name_for qt (qt.parse url)) ≡ hash_for qt (qt.parse url)
      → (r s : PluginRun) × (t : ℕ) × (receive_packet pf qt now opens
            (art_packet name url)
            none
            size
            m
          ≡ some r)
        × (r.packets ≡ asking_packet name url ∷ [])
        × (receive_packet pf qt now true (picture_packet url) (some picture) size r.plugin ≡ some s)
        × (s.actions
            ≡ starts_transfer t picture (cache_file_for qt (qt.parse url) m.cache) size ∷ [])
        × (is_available qt (qt.parse url) (step qt (transferred true t result) s.plugin.cache)
            ≡ true)
        × (request_cached qt
              (cache_file_name_for qt (qt.parse url))
              (step qt (transferred true t result) s.plugin.cache)
            ≡ cached (some (cache_file_for qt (qt.parse url) m.cache)))
  unfolding is_available add_job set_job
  picture_arrives now opens picture size result ok direct law =
      let (r, received, sent, after) = asks now opens none size in
      let answers : Answers result.reply = subst Answers (sym direct) tt in
      (
        r,
        _,
        suc m.cache.next,
        received,
        sent,
        ap (receive_packet pf qt now true (picture_packet url) (some picture) size) after
            ∙ loads now picture size,
        refl,
        ap is_some (
            shows qt loading_cache m.cache.next (suc m.cache.next) 0 (hash_for qt (qt.parse url))
              loading_job result loading-Waits ok answers),
        provides qt (qt.parse url) loading_cache m.cache.next (suc m.cache.next) 0 loading_job
            result loading-Waits ok answers law,
      )
