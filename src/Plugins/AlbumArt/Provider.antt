-- ===== src/Plugins/AlbumArt/Provider.antt =====
-- AlbumArtProvider and the responses of plugins/sf_mprisremote/albumartcache.cpp: how QML gets a
-- picture that it asks for by its `image:` address.
use harbour_sailfishconnect.Base.{
  ℕ, suc, String, ◌<>◌, Option, none, some, List, [], ◌∷◌, if◌then◌else◌, ◌==◌, string_eq, nat_eq,
}
use harbour_sailfishconnect.Base.Dict.{Dict, lookup, has_key}
use harbour_sailfishconnect.Plugins.AlbumArt.{Qt, AlbumArtCache}

-- An image is the file that it is read from, or no image.
abbrev pub Image : Type 0
Image = Option String

-- AlbumArtImageResponse: it waits for a job's signal, and tells QML that it is ready.
pub record ImageResponse : Type 0 where
  pub url : String
  pub error_string : String
  pub image : Image
  pub told_finished : ℕ

pub data Response : Type 0 where
  waits_for : ℕ → ImageResponse → Response
  cached : Image → Response

unfoldable pub new_response : String → ImageResponse
new_response url = record { url = url; error_string = ""; image = none; told_finished = 0 }

unfoldable pub response_finished : String → String → ImageResponse → ImageResponse
response_finished cache_file error r =
    let failed = record r { error_string = error; told_finished = suc r.told_finished } in
    if error == "" then record failed { image = some cache_file } else failed

unfoldable pub job_destroyed : ImageResponse → ImageResponse
job_destroyed r = record r { error_string = "job destroyed"; told_finished = suc r.told_finished }

-- The daemon's devices, each with the cache of its plugin, if that is loaded.
abbrev pub Devices : Type 0
Devices = Dict String (Option AlbumArtCache)

-- getCacheFile()
unfoldable pub cache_file : String → AlbumArtCache → Image
cache_file name c = some (c.cache_dir <> ("/" <> name))

unfoldable pub request_cached : Qt → String → AlbumArtCache → Response
unfolding cache_file new_response
request_cached qt name c =
    let hash = qt.base_name name in
    elim (lookup hash c.fetching) [
      | none ↦ if has_key hash c.disk_cache then cached (cache_file name c) else cached none
      | some p ↦ elim (lookup p c.jobs) [
        | none ↦ cached none
        | some job ↦ waits_for p (new_response job.url)
      ]
    ]

-- The identity, split at the slashes.
unfoldable pub request_image : Qt → List String → Devices → Response
unfolding request_cached
request_image qt (device_id ∷ name ∷ []) devices = elim (lookup device_id devices) [
  | none ↦ cached none
  | some none ↦ cached none
  | some (some c) ↦ request_cached qt name c
]
request_image qt _ devices = cached none
