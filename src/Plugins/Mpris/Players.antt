-- ===== src/Plugins/Mpris/Players.antt =====
-- The players that plugins/sf_mprisremote/mprisremoteplugin.cpp knows of.
use harbour_sailfishconnect.Base.{
  String, Bool, not, ◌&&◌, Option, none, some, List, [], ◌∷◌, ◌++◌, map, contains, if◌then◌else◌,
  string_eq, ℤ, get_or, ◌≡◌, refl, arith, Option-cases, inl, inr,
}
use harbour_sailfishconnect.Base.Dict.{
  Dict, keys, lookup, insert, erase, has_key, lookup-insert, lookup-erase,
}
use harbour_sailfishconnect.Plugins.Packet.{texts, NetworkPacket}
use harbour_sailfishconnect.Plugins.AlbumArt.{Qt, Source}
use harbour_sailfishconnect.Plugins.Mpris.{Platform, MprisPlayer, new_player, get_flag, get_texts}
use harbour_sailfishconnect.Plugins.Mpris.Receive.{
  MprisRemotePlugin, PluginRun, player_added, player_removed, request_player_status, nothing,
  to_set, subtract, add_players, remove_players, update_players, update_list, update_player,
  update_support, receive_packet,
}

-- The packet with which a device says which players it has.
abbrev pub list_packet : List String → NetworkPacket
list_packet names = record { kind = "kdeconnect.mpris"; body = ("playerList", texts names) ∷ [] }

to_set-contains : (name : String) (xs : List String) → contains (to_set xs) name ≡ contains xs name
unfolding to_set
to_set-contains name [] = refl
to_set-contains name (x ∷ xs) =
    ground (arith, to_set-contains name xs, to_set-contains x xs, string_eq.beq_iff x name)

subtract-contains :
    (name : String) (xs ys : List String)
    → contains (subtract xs ys) name ≡ (contains xs name && not (contains ys name))
unfolding subtract
subtract-contains name [] ys = refl
subtract-contains name (x ∷ xs) ys =
    ground (arith, subtract-contains name xs ys, string_eq.beq_iff x name)

keys-contains :
    {V : Type 0} (name : String) (d : Dict String V) → contains (keys d) name ≡ has_key name d
unfolding keys lookup
keys-contains name [] = refl
keys-contains name ((k, v) ∷ d) =
    ground (arith, keys-contains name d, string_eq.beq_iff k name, string_eq.beq_iff name k)

lookup-remove_players :
    (pf : Platform) (name : String) (names : List String) (d : Dict String MprisPlayer)
    → lookup name (remove_players pf names d)
      ≡ (if contains names name then none else lookup name d)
unfolding remove_players
lookup-remove_players pf name [] d = refl
lookup-remove_players pf name (x ∷ xs) d = ground (
  arith,
  lookup-remove_players pf name xs (erase x d),
  lookup-erase name x d,
  string_eq.beq_iff x name,
  string_eq.beq_iff name x,
)

lookup-add_players :
    (pf : Platform) (name : String) (names : List String) (d : Dict String MprisPlayer)
    → lookup name (add_players pf names d)
      ≡ (if contains names name then some (new_player pf name) else lookup name d)
unfolding add_players
lookup-add_players pf name [] d = refl
lookup-add_players pf name (x ∷ xs) d = ground (
  arith,
  lookup-add_players pf name xs (insert x (new_player pf x) d),
  lookup-insert name x (new_player pf x) d,
  string_eq.beq_iff x name,
  string_eq.beq_iff name x,
)

module _ (pf : Platform) (names : List String) (m : MprisRemotePlugin) where
  abbrev added : List String
  added = subtract (to_set names) (keys m.players)

  abbrev removed : List String
  removed = subtract (keys m.players) (to_set names)

  added-contains :
      (name : String) → contains added name ≡ (contains names name && not (has_key name m.players))
  added-contains name = ground (
    arith,
    subtract-contains name (to_set names) (keys m.players),
    to_set-contains name names,
    keys-contains name m.players,
  )

  removed-contains :
      (name : String)
      → contains removed name ≡ (has_key name m.players && not (contains names name))
  removed-contains name = ground (
    arith,
    subtract-contains name (keys m.players) (to_set names),
    to_set-contains name names,
    keys-contains name m.players,
  )

  players_after :
      (name : String)
      → lookup name (remove_players pf removed (add_players pf added m.players)) ≡ (
          if contains names name
          then some (get_or (lookup name m.players) (new_player pf name))
          else none)
  players_after name = elim (Option-cases (lookup name m.players)) [
    | inl e ↦ ground (
      arith,
      lookup-remove_players pf name removed (add_players pf added m.players),
      lookup-add_players pf name added m.players,
      added-contains name,
      removed-contains name,
      e,
    )
    | inr (p, e) ↦ ground (
      arith,
      lookup-remove_players pf name removed (add_players pf added m.players),
      lookup-add_players pf name added m.players,
      added-contains name,
      removed-contains name,
      e,
    )
  ]

  -- When a device lists its players, in any order and with repetitions, the plugin knows these
  -- afterwards and no other: those that it knew are unchanged, the others are new. It asks for the
  -- status of each new one, and says first which ones were added and then which were removed,
  -- these being the listed ones that it did not know and the known ones that are not listed.
  pub players_listed :
      (qt : Qt) (now : ℤ) (opens : Bool) (payload : Option Source) (size : ℤ)
      → (added removed : List String) × (r : PluginRun) × (receive_packet pf qt now opens
            (list_packet names)
            payload
            size
            m
          ≡ some r)
        × (r.packets ≡ map request_player_status added)
        × (r.signals ≡ map player_added added ++ map player_removed removed)
        × ((name : String)
            → contains added name ≡ (contains names name && not (has_key name m.players)))
        × ((name : String)
            → contains removed name ≡ (has_key name m.players && not (contains names name)))
        × ((name : String)
            → lookup name r.plugin.players ≡ (
                if contains names name
                then some (get_or (lookup name m.players) (new_player pf name))
                else none))
  unfolding receive_packet update_support update_player update_list update_players nothing get_flag
      get_texts lookup
  players_listed qt now opens payload size =
      (added, removed, _, refl, refl, refl, added-contains, removed-contains, players_after)
