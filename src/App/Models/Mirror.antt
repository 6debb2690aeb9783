-- ===== src/App/Models/Mirror.antt =====
-- The players' model in app/src/models/mprisplayersmodel.cpp, connected to the signals of the plugin
-- in plugins/sf_mprisremote/mprisremoteplugin.cpp.
use harbour_sailfishconnect.Base.{
  String, Bool, true, false, not, ◌&&◌, ◌||◌, Option, none, some, List, [], ◌∷◌, ◌++◌, map,
  contains, if◌then◌else◌, ◌==◌, string_eq, pos, is_some, get_or, ◌≡◌, refl, sym, ap, ◌∙◌, arith,
  subst,
}
use harbour_sailfishconnect.Base.Dict.{lookup, has_key}
use harbour_sailfishconnect.Plugins.AlbumArt.{Qt}
use harbour_sailfishconnect.Plugins.Mpris.{Platform, new_player}
use harbour_sailfishconnect.Plugins.Mpris.Receive.{
  Signal, player_added, player_removed, MprisRemotePlugin, PluginRun, receive_packet,
}
use harbour_sailfishconnect.Plugins.Mpris.Players.{list_packet, players_listed}
use harbour_sailfishconnect.App.Models.Players.{
  Order, Notice, came, went, is_there, Sorted, notify_all, players-Sorted,
}

-- A signal of the plugin, as the slot of the model that it reaches.
abbrev pub notices : List Signal → List Notice
notices [] = []
notices (player_added name ∷ signals) = came name ∷ notices signals
notices (player_removed name ∷ signals) = went name ∷ notices signals

notices-append : (xs ys : List Signal) → notices (xs ++ ys) ≡ notices xs ++ notices ys
notices-append [] ys = refl
notices-append (player_added name ∷ xs) ys = ap (λ l. came name ∷ l) (notices-append xs ys)
notices-append (player_removed name ∷ xs) ys = ap (λ l. went name ∷ l) (notices-append xs ys)

is_there-append :
    (name : String) (xs ys : List Notice) (before : Bool)
    → is_there name (xs ++ ys) before ≡ is_there name ys (is_there name xs before)
is_there-append name [] ys before = refl
is_there-append name (came other ∷ xs) ys before = is_there-append name xs ys _
is_there-append name (went other ∷ xs) ys before = is_there-append name xs ys _

is_there-added :
    (name : String) (added : List String) (before : Bool)
    → is_there name (notices (map player_added added)) before ≡ (contains added name || before)
is_there-added name [] before = refl
is_there-added name (x ∷ added) before =
    is_there-added name added (if x == name then true else before) ∙ ground arith

is_there-removed :
    (name : String) (removed : List String) (before : Bool)
    → is_there name (notices (map player_removed removed)) before
      ≡ (not (contains removed name) && before)
is_there-removed name [] before = refl
is_there-removed name (x ∷ removed) before =
    is_there-removed name removed (if x == name then false else before) ∙ ground arith

after_signals :
    (name : String) (added removed : List String) (before : Bool)
    → is_there name (notices (map player_added added ++ map player_removed removed)) before
      ≡ (not (contains removed name) && (contains added name || before))
after_signals name added removed before =
    ap (λ ns. is_there name ns before)
      (notices-append (map player_added added) (map player_removed removed))
    ∙ is_there-append name (notices (map player_added added)) _ before
    ∙ is_there-removed name removed _
    ∙ ap (λ b. not (contains removed name) && b) (is_there-added name added before)

-- A name is in the table afterwards exactly when it was added, or was there and not removed.
known_after :
    {V : Type 0} (v : V) {new : Option V} {is_added is_removed before : Bool} (listed known : Bool)
    → is_added ≡ (listed && not known)
    → is_removed ≡ (known && not listed)
    → before ≡ known
    → new ≡ (if listed then some v else none)
    → (not is_removed && (is_added || before)) ≡ is_some new
known_after v true true a r b n = ground (arith, a, r, b, n)
known_after v true false a r b n = ground (arith, a, r, b, n)
known_after v false true a r b n = ground (arith, a, r, b, n)
known_after v false false a r b n = ground (arith, a, r, b, n)

module _ (pf : Platform) (qt : Qt) (less : String → String → Bool) (order : Order less) where
  abbrev taken :
      MprisRemotePlugin → List String → Option PluginRun → MprisRemotePlugin × List String
  taken m l none = (m, l)
  taken m l (some r) = (r.plugin, notify_all less order (notices r.signals) l)

  -- A list of players that comes, and what the plugin's signals make of the model.
  abbrev pub heard : List String → MprisRemotePlugin × List String → MprisRemotePlugin × List String
  heard names (m, l) =
      taken m l (receive_packet pf qt (pos 0) true (list_packet names) none (pos 0) m)

  abbrev pub heard_all :
      List (List String) → MprisRemotePlugin × List String → MprisRemotePlugin × List String
  heard_all [] state = state
  heard_all (names ∷ more) state = heard_all more (heard names state)

  -- The model's list is sorted and has the plugin's players.
  pub record Mirrors (state : MprisRemotePlugin × List String) : Type 0 where
    pub is_sorted : Sorted less order state.1
    pub has_players : (name : String) → contains state.1 name ≡ has_key name state.0.players

  heard-Mirrors :
      (names : List String) (state : MprisRemotePlugin × List String)
      → Mirrors state
      → Mirrors (heard names state)
  heard-Mirrors names (m, l) h =
      let (added, removed, r, got, packets, signals, is_added, is_removed, players) =
        players_listed pf names m qt (pos 0) true none (pos 0) in
      let (sorted, there) = players-Sorted less order (notices r.signals) l h.is_sorted in
      subst (λ o. Mirrors (taken m l o)) (sym got)
        (record {
          is_sorted = sorted;
          has_players = λ name.
              there name
              ∙ ap (λ ss. is_there name (notices ss) (contains l name)) signals
              ∙ after_signals name added removed (contains l name)
              ∙ known_after (get_or (lookup name m.players) (new_player pf name))
                  (contains names name) (has_key name m.players) (is_added name) (is_removed name)
                  (h.has_players name) (players name);
        })

  -- The model mirrors the plugin. Starting with a model that is sorted and has the plugin's players,
  -- and with a strict total order of names, after any lists of players that the device sends, the
  -- model is sorted without repetitions and has exactly the players of the plugin.
  pub model-Mirrors :
      (lists : List (List String)) (state : MprisRemotePlugin × List String)
      → Mirrors state
      → Mirrors (heard_all lists state)
  model-Mirrors [] state h = h
  model-Mirrors (names ∷ more) state h =
      model-Mirrors more (heard names state) (heard-Mirrors names state h)
