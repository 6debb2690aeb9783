-- ===== src/Plugins/AlbumArt.antt =====
-- plugins/sf_mprisremote/albumartcache.cpp: DownloadAlbumArtJob and AlbumArtCache. The jobs are
-- objects, given by their pointers. The signal `finished` of a job is connected directly to the
-- cache, so that the cache's slot runs inside the job's operation. A CopyJob is a number, and
-- `pending` holds those whose result is to come, each with the job that listens to it.
pub mod Jobs
pub mod Ends
pub mod Invariant
pub mod Steps
pub mod Reached
pub mod Status
pub mod Changes
pub mod Waiting
pub mod Redirects
pub mod Provider
pub mod Served
use harbour_sailfishconnect.Base.{
  ℕ, suc, ◌+◌, String, ◌<>◌, Bool, true, false, Option, none, some, List, [], ◌∷◌, if◌then◌else◌,
  ◌==◌, string_eq, nat_eq, eqb, ltb, is_some, ◌||◌, ℤ, minus_one,
}
use harbour_sailfishconnect.Base.Dict.{Dict, lookup, insert, erase, has_key}

-- What Qt does: QUrl, given by its encoded text, QFileInfo and QCryptographicHash.
pub record Qt : Type 0 where
  pub parse : String → String
  pub is_local_file : String → Bool
  pub url_file_name : String → String
  pub md5_hex : String → String
  pub suffix : String → String
  pub file_name : String → String
  pub base_name : String → String

pub record Job : Type 0 where
  pub url : String
  pub hash : String
  pub file_path : String
  -- `none` before the first assignment, as the constructor leaves it.
  pub file_size : Option ℕ
  pub file_transfer : Option ℕ
  pub redirect_count : ℕ

-- Where the data come from: the reply to a request for an url, or the payload of a packet.
pub data Source : Type 0 where
  reply : String → Source
  payload : ℕ → Source

-- What the operations do outside of the cache's state: the signals of the cache and of a job, a
-- started CopyJob, and a file that is opened to be written and closed.
pub data Action : Type 0 where
  request_album_art : String → String → Action
  finished : String → String → Action
  starts_transfer : ℕ → Source → String → ℤ → Action
  truncates : String → Action

-- The cache with the jobs of its device. The sizes are of files on one disk, under 2^63 bytes.
pub record AlbumArtCache : Type 0 where
  pub device_id : String
  pub cache_dir : String
  pub fetching : Dict String ℕ
  pub disk_cache : Dict String String
  pub disk_cache_size : Option ℕ
  pub jobs : Dict ℕ Job
  pub pending : Dict ℕ ℕ
  pub next : ℕ

pub record Run : Type 0 where
  pub actions : List Action
  pub cache : AlbumArtCache

-- A result of a CopyJob. `reply` holds, when the source was a network reply, the target of a
-- redirection and the status code.
pub record Result : Type 0 where
  pub error : ℕ
  pub error_string : String
  pub reply : Option (String × ℕ)
  pub processed : ℕ

-- What happens to a cache: QML or a packet asks for an url, a payload comes, a transfer ends.
pub data Event : Type 0 where
  start : Bool → String → String → Event
  data_came : Bool → String → Option Source → ℤ → Event
  transferred : Bool → ℕ → Result → Event

unfoldable pub add_size : Option ℕ → Option ℕ → Option ℕ
add_size (some a) (some b) = some (a + b)
add_size _ _ = none

-- Does the slot get the result of the job's own transfer?
unfoldable pub is_current : ℕ → Option ℕ → Bool
is_current t none = false
is_current t (some u) = eqb t u

unfoldable pub set_job : ℕ → Job → AlbumArtCache → AlbumArtCache
set_job p j c = record c { jobs = insert p j c.jobs }

-- The members before the constructor's body.
unfoldable pub empty_cache : String → String → AlbumArtCache
empty_cache device_id cache_dir = record {
  device_id = device_id;
  cache_dir = cache_dir;
  fetching = [];
  disk_cache = [];
  disk_cache_size = some 0;
  jobs = [];
  pending = [];
  next = 0;
}

module _ (qt : Qt) where
  unfoldable pub hash_for : String → String
  hash_for url = qt.md5_hex url

  unfoldable pub cache_file_name_for : String → String
  unfolding hash_for
  cache_file_name_for url =
      let file_ext = qt.suffix (qt.url_file_name url) in
      if file_ext == "" then hash_for url else hash_for url <> ("." <> file_ext)

  unfoldable pub cache_file_for : String → AlbumArtCache → String
  unfolding hash_for
  cache_file_for url c =
      let file_ext = qt.suffix (qt.url_file_name url) in
      if file_ext == ""
      then c.cache_dir <> ("/" <> hash_for url)
      else c.cache_dir <> ("/" <> (hash_for url <> ("." <> file_ext)))

  unfoldable pub image_url : String → AlbumArtCache → String
  image_url url c = "image://albumart/" <> (c.device_id <> ("/" <> cache_file_name_for url))

  -- The constructor, given the files in the cache's directory with their sizes.
  unfoldable pub load : List (String × ℕ) → AlbumArtCache → AlbumArtCache
  unfolding add_size
  load [] c = c
  load ((name, size) ∷ files) c = load files (record c {
    disk_cache = insert (qt.base_name name) (qt.file_name name) c.disk_cache;
    disk_cache_size = add_size c.disk_cache_size (some size);
  })

  unfoldable pub new_cache : String → String → List (String × ℕ) → AlbumArtCache
  unfolding load empty_cache
  new_cache device_id cache_dir files = load files (empty_cache device_id cache_dir)

  unfoldable pub new_job : String → String → Job
  unfolding hash_for
  new_job url file_path = record {
    url = url;
    hash = hash_for url;
    file_path = file_path;
    file_size = none;
    file_transfer = none;
    redirect_count = 0;
  }

  -- The slot of the cache for the end of a job.
  unfoldable pub cache_finished : Job → String → AlbumArtCache → AlbumArtCache
  unfolding add_size
  cache_finished job error c =
      let d = record c { fetching = erase job.hash c.fetching } in
      if error == ""
      then record d {
        disk_cache = insert job.hash (qt.file_name job.file_path) d.disk_cache;
        disk_cache_size = add_size d.disk_cache_size job.file_size;
      }
      else d

  -- The signal of a job: the cache's slot runs at once.
  unfoldable pub emit_finished : Job → String → AlbumArtCache → Run
  unfolding cache_finished
  emit_finished job error c = record {
    actions = finished job.file_path error ∷ [];
    cache = cache_finished job error c;
  }

  -- gotData() of the job at `p`. `opens` tells if the file can be opened.
  unfoldable pub got_data : Bool → ℕ → Job → Option Source → ℤ → AlbumArtCache → Bool × Run
  unfolding emit_finished set_job
  got_data opens p job source size c =
      if is_some job.file_transfer
      then (false, record { actions = []; cache = c })
      else elim source [
        | none ↦ (false, emit_finished job "Empty payload" c)
        | some s ↦
            if opens
            then (
              true,
              record {
                actions = starts_transfer c.next s job.file_path size ∷ [];
                cache = record (set_job p (record job { file_transfer = some c.next }) c) {
                  pending = insert c.next p c.pending;
                  next = suc c.next;
                };
              },
            )
            else (false, emit_finished job "Failed to create cache file" c)
      ]

  unfoldable pub failed : Job → String → AlbumArtCache → Run
  unfolding emit_finished
  failed job error c =
      let r = emit_finished job error c in
      record r { actions = truncates job.file_path ∷ r.actions }

  unfoldable pub succeed : ℕ → Job → ℕ → AlbumArtCache → Run
  unfolding emit_finished set_job
  succeed p job processed c =
      let done = record job { file_size = some processed } in
      emit_finished done "" (set_job p done c)

  -- A redirection is followed at most ten times.
  unfoldable pub redirect : Bool → ℕ → Job → String → AlbumArtCache → Run
  unfolding failed got_data set_job
  redirect opens p job location c =
      let counted = record job { redirect_count = job.redirect_count + 1 } in
      if ltb 10 counted.redirect_count
      then failed counted "too many redirects" (set_job p counted c)
      else (let again = record counted { file_transfer = none } in
          (got_data opens p again (some (reply (qt.parse location))) minus_one
            (set_job p again c)).1)

  -- What fetchFinished() does after a transfer without an error. A network reply can be a
  -- redirection or another failure.
  unfoldable pub transfer_done : Bool → ℕ → Job → Option (String × ℕ) → ℕ → AlbumArtCache → Run
  unfolding failed succeed redirect
  transfer_done opens p job none processed c = succeed p job processed c
  transfer_done opens p job (some (location, status)) processed c =
      if location == ""
      then (if eqb status 200
          then succeed p job processed c
          else failed job "status code was not 200" c)
      else redirect opens p job location c

  -- fetchFinished() of the job at `p`, for the transfer `t`. The cast to CopyJob succeeds, as the
  -- transfers of a job are all CopyJobs.
  unfoldable pub fetch_finished : Bool → ℕ → Job → ℕ → Result → AlbumArtCache → Run
  unfolding is_current failed transfer_done
  fetch_finished opens p job t result c =
      if is_current t job.file_transfer
      then (if eqb result.error 0
          then transfer_done opens p job result.reply result.processed c
          else failed job result.error_string c)
      else record { actions = []; cache = c }

  -- The job that startFetching() makes, in the cache's table.
  unfoldable pub add_job : String → AlbumArtCache → AlbumArtCache
  unfolding new_job cache_file_for set_job hash_for
  add_job url c = record (set_job c.next (new_job url (cache_file_for url c)) c) {
    fetching = insert (hash_for url) c.next c.fetching;
    next = suc c.next;
  }

  unfoldable pub start_fetching : Bool → String → String → AlbumArtCache → Option ℕ × Run
  unfolding add_job got_data new_job hash_for cache_file_for
  start_fetching opens original_url player_name c =
      let url = qt.parse original_url in
      if original_url == ""
      then (none, record { actions = []; cache = c })
      else if has_key (hash_for url) c.disk_cache || has_key (hash_for url) c.fetching
      then (none, record { actions = []; cache = c })
      else if qt.is_local_file url
      then (
        some c.next,
        record { actions = request_album_art original_url player_name ∷ []; cache = add_job url c },
      )
      else (
        some c.next,
        (got_data opens c.next (new_job url (cache_file_for url c)) (some (reply url)) minus_one
            (add_job url c)).1,
      )

  unfoldable pub end_fetching : Bool → String → Option Source → ℤ → AlbumArtCache → Run
  unfolding got_data hash_for
  end_fetching opens url source size c = elim (lookup (hash_for url) c.fetching) [
    | none ↦ record { actions = []; cache = c }
    | some p ↦ elim (lookup p c.jobs) [
      | none ↦ record { actions = []; cache = c }
      | some job ↦ (got_data opens p job source size c).1
    ]
  ]

  unfoldable pub is_available : String → AlbumArtCache → Bool
  unfolding hash_for
  is_available url c = has_key (hash_for url) c.disk_cache

  -- The event loop delivers the result of a CopyJob once, to the job that listens to it.
  unfoldable pub transfer_result : Bool → ℕ → Result → AlbumArtCache → Run
  unfolding fetch_finished
  transfer_result opens t result c = elim (lookup t c.pending) [
    | none ↦ record { actions = []; cache = c }
    | some p ↦ elim (lookup p c.jobs) [
      | none ↦ record { actions = []; cache = c }
      | some job ↦ fetch_finished opens p job t result (record c { pending = erase t c.pending })
    ]
  ]

  unfoldable pub step : Event → AlbumArtCache → AlbumArtCache
  unfolding start_fetching end_fetching transfer_result
  step (start opens url player) c = (start_fetching opens url player c).1.cache
  step (data_came opens url source size) c = (end_fetching opens url source size c).cache
  step (transferred opens t result) c = (transfer_result opens t result c).cache
