-- ===== src/Plugins/Mpris/Support.antt =====
-- When plugins/sf_mprisremote/mprisremoteplugin.cpp reads through a null pointer.
use harbour_sailfishconnect.Base.{
  Bool, true, false, not, ◌&&◌, Option, none, some, if◌then◌else◌, ◌==◌, ◌>>=◌, string_eq, nat_eq,
  ℤ, is_some, ◌≡◌, refl, ◌∙◌, Bool-cases, Option-cases, inl, inr, if_elim,
}
use harbour_sailfishconnect.Base.Dict.{lookup, has_key}
use harbour_sailfishconnect.Plugins.Packet.{NetworkPacket}
use harbour_sailfishconnect.Plugins.AlbumArt.{Qt, Source, AlbumArtCache}
use harbour_sailfishconnect.Plugins.Mpris.{Platform, MprisPlayer, get_text, get_flag}
use harbour_sailfishconnect.Plugins.Mpris.Receive.{
  MprisRemotePlugin, PluginRun, receive_album_art, player_receives, update_player, update_support,
  receive_packet,
}

goes_on : {A B : Type 0} (o : Option A) (f : A → B) → is_some (o >>= (λ a. some (f a))) ≡ is_some o
goes_on none f = refl
goes_on (some a) f = refl

module _ (pf : Platform) (qt : Qt) where
  player_fails :
      (now : ℤ) (np : NetworkPacket) (cache : Option AlbumArtCache) (p : MprisPlayer)
      → is_some (player_receives pf qt now np cache p)
        ≡ not (not (is_some cache) && not (get_text pf (lookup "albumArtUrl" np.body) "" == ""))
  unfolding player_receives receive_album_art
  player_fails now np none p =
      let remote = get_text pf (lookup "albumArtUrl" np.body) "" in
      goes_on _ _
      ∙ if_elim (λ (o : Option MprisPlayer). is_some o ≡ not (not (remote == ""))) (remote == "")
          (λ t. rw t refl) (λ n. rw n refl)
  player_fails now np (some c) p =
      let remote = get_text pf (lookup "albumArtUrl" np.body) "" in
      goes_on _ _
      ∙ if_elim (λ (o : Option MprisPlayer). is_some o ≡ true) (remote == "") (λ t. refl)
          (λ n. refl)

  update_fails :
      (now : ℤ) (opens : Bool) (np : NetworkPacket) (m : MprisRemotePlugin)
      → is_some (update_player pf qt now opens np m)
        ≡ not (
            has_key "player" np.body
            && has_key (get_text pf (lookup "player" np.body) "") m.players
            && not m.support_album_art_payload
            && not (get_text pf (lookup "albumArtUrl" np.body) "" == ""))
  unfolding update_player
  update_fails now opens np m =
      let name = get_text pf (lookup "player" np.body) "" in
      let remote = get_text pf (lookup "albumArtUrl" np.body) "" in
      let supported = m.support_album_art_payload in
      let cache = if supported then some m.cache else none in
      if_elim
        (λ (o : Option PluginRun).
          is_some o
          ≡ not (
              has_key "player" np.body
              && has_key name m.players
              && not supported
              && not (remote == "")))
        (has_key "player" np.body)
        (λ t. elim (Option-cases (lookup name m.players)) [
          | inl e ↦ rw (t, e) refl
          | inr (p, e) ↦
              rw (t, e)
                (goes_on _ _
                  ∙ player_fails now np cache p
                  ∙ elim (Bool-cases supported) [ inl y ↦ rw y refl | inr n ↦ rw n refl ])
        ])
        (λ n. rw n refl)

  -- A packet runs into the null pointer exactly when it does not transfer a picture, names a known
  -- player and an address of a picture that is not empty, and pictures cannot be transferred,
  -- which it says itself or, if it does not mention it, was so before.
  pub receive_packet_fails :
      (now : ℤ) (opens : Bool) (np : NetworkPacket) (payload : Option Source) (size : ℤ)
      (m : MprisRemotePlugin)
      → is_some (receive_packet pf qt now opens np payload size m)
        ≡ not (
            not (get_flag pf (lookup "transferringAlbumArt" np.body) false)
            && has_key "player" np.body
            && has_key (get_text pf (lookup "player" np.body) "") m.players
            && not
                (get_flag pf (lookup "supportAlbumArtPayload" np.body) m.support_album_art_payload)
            && not (get_text pf (lookup "albumArtUrl" np.body) "" == ""))
  unfolding receive_packet update_support
  receive_packet_fails now opens np payload size m =
      let transferring = get_flag pf (lookup "transferringAlbumArt" np.body) false in
      elim (Bool-cases transferring) [
        | inl t ↦ rw t refl
        | inr f ↦ rw f (goes_on _ _ ∙ update_fails now opens np (update_support pf np m))
      ]
