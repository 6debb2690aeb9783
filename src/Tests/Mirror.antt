-- ===== src/Tests/Mirror.antt =====
-- A plugin that knows two players, and a model that shows them.
use harbour_sailfishconnect.Base.{String, List, [], ◌∷◌, ◌≡◌, refl, arith, string_eq, contains}
use harbour_sailfishconnect.Base.Dict.{lookup, has_key}
use harbour_sailfishconnect.App.Models.Mirror.{Mirrors, heard_all, model-Mirrors}
use harbour_sailfishconnect.Tests.AlbumArt.{qt}
use harbour_sailfishconnect.Tests.Mpris.{platform, plugin}
use harbour_sailfishconnect.Tests.App.{less, less-Order}

same_players : (name : String) → contains ("mpv" ∷ "vlc" ∷ []) name ≡ has_key name plugin.players
unfolding lookup
same_players name = ground (
  arith,
  string_eq.beq_iff "mpv" name,
  string_eq.beq_iff name "mpv",
  string_eq.beq_iff "vlc" name,
  string_eq.beq_iff name "vlc",
)

plugin-Mirrors : Mirrors platform qt less less-Order (plugin, "mpv" ∷ "vlc" ∷ [])
plugin-Mirrors = record { is_sorted = ((refl, tt), (tt, tt)); has_players = same_players }

abbrev lists : List (List String)
lists = ("vlc" ∷ "spotify" ∷ []) ∷ ("spotify" ∷ []) ∷ []

model-Mirrors_example :
    Mirrors platform qt less less-Order
      (heard_all platform qt less less-Order lists (plugin, "mpv" ∷ "vlc" ∷ []))
model-Mirrors_example =
    model-Mirrors platform qt less less-Order lists (plugin, "mpv" ∷ "vlc" ∷ []) plugin-Mirrors
