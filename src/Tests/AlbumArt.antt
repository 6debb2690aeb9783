-- ===== src/Tests/AlbumArt.antt =====
-- A cache of pictures with files in its directory, a web address and answers of its server.
use harbour_sailfishconnect.Base.{
  ℕ, String, true, false, none, some, List, [], ◌∷◌, All, not, is_some, leb, ◌≡◌, refl, ◌==◌,
  string_eq, arith, pos,
}
use harbour_sailfishconnect.Base.Dict.{lookup, insert}
use harbour_sailfishconnect.Plugins.AlbumArt.{
  Qt, payload, AlbumArtCache, Event, start, data_came, transferred, empty_cache, new_cache, load,
  add_size, hash_for, start_fetching, is_available, step,
}
use harbour_sailfishconnect.Plugins.AlbumArt.Invariant.{WellFormed}
use harbour_sailfishconnect.Plugins.AlbumArt.Steps.{Described}
use harbour_sailfishconnect.Plugins.AlbumArt.Reached.{run, listed, reached-WellFormed, restart_lem}
use harbour_sailfishconnect.Plugins.AlbumArt.Status.{Change, status}
use harbour_sailfishconnect.Plugins.AlbumArt.Changes.{Begun, Delivered, status-Change}
use harbour_sailfishconnect.Plugins.AlbumArt.Redirects.{answers, served, redirects_followed}

abbrev pub qt : Qt
qt = record {
  parse = λ s. s;
  is_local_file = λ s. s == "file:///a";
  url_file_name = λ s. "";
  md5_hex = λ s. s;
  suffix = λ s. "";
  file_name = λ s. s;
  base_name = λ s. s;
}

abbrev directory : List (String × ℕ)
directory = ("old", 7) ∷ ("failed", 0) ∷ []

-- A web picture, a local one whose payload comes, and one that fails.
abbrev events : List Event
events =
    start true "http://a" "player"
    ∷ start true "file:///a" "player"
    ∷ transferred true 1 served
    ∷ data_came true "file:///a" (some (payload 3)) (pos 5)
    ∷ transferred true 3 (record { error = 1; error_string = "gone"; reply = none; processed = 2 })
    ∷ []

events-Described : All Described events
events-Described = (tt, (tt, (λ e. ground (arith, e), (tt, (λ _. refl, tt)))))

reached-WellFormed_example : WellFormed (run qt events (new_cache qt "phone" "/c" directory))
reached-WellFormed_example = reached-WellFormed qt "phone" "/c" directory events events-Described

abbrev last_event : Event
last_event = transferred true 1 served

status-Change_example :
    let c = run qt (start true "http://a" "player" ∷ []) (new_cache qt "phone" "/c" directory) in
    Change
      (Begun qt "http://a" last_event)
      (Delivered qt "http://a" last_event c)
      (status "http://a" c)
      (status "http://a" (step qt last_event c))
status-Change_example =
    status-Change qt "http://a" "phone" "/c" directory (start true "http://a" "player" ∷ [])
      last_event (tt, tt) (λ e. ground (arith, e))

restart_lem_example :
    is_some (start_fetching qt true "failed" "player" (new_cache qt "phone" "/c" directory)).0
    ≡ not (listed qt (hash_for qt "failed") directory)
restart_lem_example = restart_lem qt true "failed" "player" "phone" "/c" directory refl

-- The failed one is not fetched again.
failed_stays :
    is_some (start_fetching qt true "failed" "player" (new_cache qt "phone" "/c" directory)).0
    ≡ false
unfolding hash_for
failed_stays = restart_lem qt true "failed" "player" "phone" "/c" directory refl

abbrev begun : AlbumArtCache
begun = new_cache qt "phone" "/c" directory

redirects_followed_example :
    is_available qt "http://a"
      (run qt (start true "http://a" "player" ∷ answers 1 ("http://b" ∷ "http://c" ∷ [])) begun)
    ≡ leb 2 10
unfolding new_cache load empty_cache add_size hash_for lookup insert
redirects_followed_example =
    redirects_followed qt "http://a" "player" ("http://b" ∷ "http://c" ∷ []) begun
      (reached-WellFormed qt "phone" "/c" directory [] tt) refl refl refl refl (refl, (refl, tt))
