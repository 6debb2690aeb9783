-- ===== src/Plugins/AlbumArt/Reached.antt =====
-- The states that the cache of plugins/sf_mprisremote/albumartcache.cpp gets into, from its
-- constructor on.
use harbour_sailfishconnect.Base.{
  ℕ, String, true, some, none, List, [], ◌∷◌, All, ◌≡◌, refl, ap, ◌∙◌, is_some, string_eq, nat_eq,
  arith, Option, Bool, ◌==◌, if_elim, ◌||◌, not, false, subst,
}
use harbour_sailfishconnect.Base.Dict.{lookup, insert, has_key, lookup-insert}
use harbour_sailfishconnect.Plugins.AlbumArt.{
  Qt, AlbumArtCache, Run, Event, add_size, load, empty_cache, new_cache, step, hash_for,
  start_fetching,
}
use harbour_sailfishconnect.Plugins.AlbumArt.Steps.{Described, step-WellFormed}
use harbour_sailfishconnect.Plugins.AlbumArt.Jobs.{Tables}
use harbour_sailfishconnect.Plugins.AlbumArt.Invariant.{WellFormed, sum_sized}

module _ (qt : Qt) where
  abbrev pub run : List Event → AlbumArtCache → AlbumArtCache
  run [] c = c
  run (e ∷ es) c = run es (step qt e c)

  run-WellFormed :
      (events : List Event) (c : AlbumArtCache)
      → WellFormed c
      → All Described events
      → WellFormed (run events c)
  run-WellFormed [] c wf d = wf
  run-WellFormed (e ∷ es) c wf (d, ds) =
      run-WellFormed es (step qt e c) (step-WellFormed qt c wf e d) ds

  empty-Tables : Tables [] [] [] 0
  unfolding lookup
  empty-Tables = record {
    fetching_job = λ h q e. cc;
    pending_job = λ t q e. cc;
    job_old = λ q job e. cc;
    transfer_old = λ t q e. cc;
    job_redirects = λ q job e. cc;
  }

  load-WellFormed :
      (files : List (String × ℕ)) (c : AlbumArtCache)
      → Tables c.jobs c.fetching c.pending c.next
      → c.fetching ≡ []
      → is_some c.disk_cache_size ≡ true
      → WellFormed (load qt files c)
  unfolding load add_size lookup
  load-WellFormed [] c tables f s = record {
    tables = tables;
    exclusive = λ h q e. let clash : none ≡ some q = subst (λ d. lookup h d ≡ some q) f e in cc;
    sized = s;
  }
  load-WellFormed ((name, size) ∷ files) c tables f s =
      load-WellFormed files _ tables f (sum_sized c.disk_cache_size (some size) s refl)

  new_cache-WellFormed :
      (device_id cache_dir : String) (files : List (String × ℕ))
      → WellFormed (new_cache qt device_id cache_dir files)
  unfolding new_cache empty_cache lookup
  new_cache-WellFormed device_id cache_dir files = load-WellFormed files _ empty-Tables refl refl

  -- Whatever files the directory has at first, and whatever happens then, in any order, as long as
  -- a CopyJob that fails says with what error: the tables of the cache fit together. No picture is
  -- both fetched and in the disk cache, the result of a transfer comes to the job that started it
  -- and that is still being fetched, no job counts more than eleven redirections, and the size of
  -- the disk cache is never computed from a size that was not set.
  pub reached-WellFormed :
      (device_id cache_dir : String) (files : List (String × ℕ)) (events : List Event)
      → All Described events
      → WellFormed (run events (new_cache qt device_id cache_dir files))
  reached-WellFormed device_id cache_dir files events described =
      run-WellFormed events (new_cache qt device_id cache_dir files)
        (new_cache-WellFormed device_id cache_dir files) described

  -- Is there a file whose name up to the first dot is this one?
  abbrev pub listed : String → List (String × ℕ) → Bool
  listed h [] = false
  listed h ((name, size) ∷ files) = (qt.base_name name == h) || listed h files

  load_available :
      (h : String) (files : List (String × ℕ)) (c : AlbumArtCache)
      → has_key h (load qt files c).disk_cache ≡ (listed h files || has_key h c.disk_cache)
  unfolding load
  load_available h [] c = refl
  load_available h ((name, size) ∷ files) c =
      let d : AlbumArtCache = record c {
        disk_cache = insert (qt.base_name name) (qt.file_name name) c.disk_cache;
        disk_cache_size = add_size c.disk_cache_size (some size);
      } in
      ground (
        arith,
        load_available h files d,
        lookup-insert h (qt.base_name name) (qt.file_name name) c.disk_cache,
        string_eq.beq_iff h (qt.base_name name),
        string_eq.beq_iff (qt.base_name name) h,
      )

  load_fetching :
      (files : List (String × ℕ)) (c : AlbumArtCache) → (load qt files c).fetching ≡ c.fetching
  unfolding load
  load_fetching [] c = refl
  load_fetching ((name, size) ∷ files) c = load_fetching files _

  starts_job :
      (opens : Bool) (url player : String) (c : AlbumArtCache)
      → (url == "") ≡ false
      → is_some (start_fetching qt opens url player c).0
        ≡ not (
            has_key (hash_for qt (qt.parse url)) c.disk_cache
            || has_key (hash_for qt (qt.parse url)) c.fetching)
  unfolding start_fetching
  starts_job opens url player c h =
      let known =
        has_key (hash_for qt (qt.parse url)) c.disk_cache
        || has_key (hash_for qt (qt.parse url)) c.fetching in
      let starts : Option ℕ × Run → Type 0 = λ r. is_some r.0 ≡ not known in
      if_elim starts (url == "") (λ t. ground (arith, t, h))
        (λ _.
          if_elim starts known (λ t. rw t refl)
            (λ n.
              if_elim starts (qt.is_local_file (qt.parse url)) (λ _. rw n refl) (λ _. rw n refl)))

  -- After a restart, an address that is not empty makes a job exactly when no file in the cache's
  -- directory has the hash of the address as its base name, whatever the sizes of the files are.
  pub restart_lem :
      (opens : Bool) (url player device_id cache_dir : String) (files : List (String × ℕ))
      → (url == "") ≡ false
      → is_some (start_fetching qt opens url player (new_cache qt device_id cache_dir files)).0
        ≡ not (listed (hash_for qt (qt.parse url)) files)
  unfolding new_cache empty_cache lookup
  restart_lem opens url player device_id cache_dir files h =
      let k = hash_for qt (qt.parse url) in
      let c = empty_cache device_id cache_dir in
      let fetching = ap (has_key k) (load_fetching files c) in
      let available = load_available k files c in
      starts_job opens url player (load qt files c) h ∙ ground arith
