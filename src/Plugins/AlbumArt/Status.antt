-- ===== src/Plugins/AlbumArt/Status.antt =====
-- What a client sees of the cache in plugins/sf_mprisremote/albumartcache.cpp: for each picture,
-- if it is absent, fetched or available.
use harbour_sailfishconnect.Base.{
  ℕ, String, some, none, ◌≡◌, string_eq, nat_eq, Option, Bool, if◌then◌else◌,
}
use harbour_sailfishconnect.Base.Dict.{has_key}
use harbour_sailfishconnect.Plugins.AlbumArt.{AlbumArtCache, Result}

pub data Status : Type 0 where
  absent fetched available : Status

abbrev pub status_of : Bool → Bool → Status
status_of is_cached is_fetched =
    if is_cached then available else if is_fetched then fetched else absent

abbrev pub status : String → AlbumArtCache → Status
status h c = status_of (has_key h c.disk_cache) (has_key h c.fetching)

-- How the status of a picture changes in one step. `Begun` tells if the step asks for the picture,
-- and `Delivered` if it is the end of a transfer without an error.
pub data Change (Begun Delivered : Type 0) : Status → Status → Type 0 where
  stays : (s : Status) → Change Begun Delivered s s
  begins : Begun → Change Begun Delivered absent fetched
  arrives : Delivered → Change Begun Delivered fetched available
  gives_up : Change Begun Delivered fetched absent

pub after :
    {Begun : Type 0} {a b c : Status} → Change Begun ⊥ a b → Change ⊥ ⊥ b c → Change Begun ⊥ a c
after (stays s) (stays _) = stays s
after (stays s) gives_up = gives_up
after (stays s) (begins x) = elim x [ ]
after (stays s) (arrives x) = elim x [ ]
after (begins b) (stays _) = begins b
after (begins b) gives_up = stays absent
after (begins b) (arrives x) = elim x [ ]
after gives_up (stays _) = gives_up
after gives_up (begins x) = elim x [ ]
after (arrives x) d = elim x [ ]

pub weaken : {Begun Delivered : Type 0} {a b : Status} → Change ⊥ ⊥ a b → Change Begun Delivered a b
weaken (stays s) = stays s
weaken gives_up = gives_up
weaken (begins x) = elim x [ ]
weaken (arrives x) = elim x [ ]

pub between :
    {Begun Delivered : Type 0} {a b : Status} (x y : Status)
    → a ≡ x
    → b ≡ y
    → Change Begun Delivered x y
    → Change Begun Delivered a b
between x y e f change = rw (e, f) change

-- A transfer delivers a picture: it has no error, and is not a network reply, or one with the
-- status 200 that is no redirection.
abbrev pub Answers : Option (String × ℕ) → Type 0
Answers none = Unit
Answers (some (location, code)) = (location ≡ "") × (code ≡ 200)

abbrev pub Delivers : Result → Type 0
Delivers result = (result.error ≡ 0) × Answers result.reply

pub map_arrival :
    {Begun Delivered Other : Type 0} {a b : Status}
    → (Delivered → Other)
    → Change Begun Delivered a b
    → Change Begun Other a b
map_arrival f (stays s) = stays s
map_arrival f (begins x) = begins x
map_arrival f (arrives x) = arrives (f x)
map_arrival f gives_up = gives_up
