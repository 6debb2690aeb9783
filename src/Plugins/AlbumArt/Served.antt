-- ===== src/Plugins/AlbumArt/Served.antt =====
-- How the provider of plugins/sf_mprisremote/albumartcache.cpp finds a picture that has come.
use harbour_sailfishconnect.Base.{
  ℕ, String, true, some, none, ◌≡◌, refl, ap, subst, ◌∙◌, ◌==◌, string_eq, nat_eq, Bool-cases, inl,
  inr,
}
use harbour_sailfishconnect.Base.Dict.{lookup, insert, erase, lookup-insert_self, lookup-erase_self}
use harbour_sailfishconnect.Plugins.AlbumArt.{
  Qt, Job, AlbumArtCache, Result, transferred, step, hash_for, cache_file_for, cache_file_name_for,
  succeed, emit_finished, cache_finished, set_job,
}
use harbour_sailfishconnect.Plugins.AlbumArt.Status.{Answers}
use harbour_sailfishconnect.Plugins.AlbumArt.Waiting.{Waits, delivers}
use harbour_sailfishconnect.Plugins.AlbumArt.Provider.{cached, cache_file, request_cached}

module _ (qt : Qt) where
  -- The file that the provider opens is the one that the job has written.
  same_file :
      (url : String) (c : AlbumArtCache)
      → cache_file (cache_file_name_for qt url) c ≡ some (cache_file_for qt url c)
  unfolding cache_file cache_file_name_for cache_file_for
  same_file url c =
      let file_ext = qt.suffix (qt.url_file_name url) in
      elim (Bool-cases (file_ext == "")) [ inl t ↦ rw t refl | inr f ↦ rw f refl ]

  found :
      (url : String) (c : AlbumArtCache)
      → qt.base_name (cache_file_name_for qt url) ≡ hash_for qt url
      → lookup (hash_for qt url) c.fetching ≡ none
      → (name : String) → lookup (hash_for qt url) c.disk_cache ≡ some name
      → request_cached qt (cache_file_name_for qt url) c ≡ cached (some (cache_file_for qt url c))
  unfolding request_cached
  found url c law absent name there =
      rw (request_cached, law, absent) (rw (law, there) (ap cached (same_file url c)))

  -- After the result of its transfer, the picture is found under the name in its address.
  pub provides :
      (url : String) (c : AlbumArtCache) (p t k : ℕ) (job : Job) (result : Result)
      → Waits c p t k (hash_for qt url) job
      → result.error ≡ 0
      → Answers result.reply
      → qt.base_name (cache_file_name_for qt url) ≡ hash_for qt url
      → request_cached qt (cache_file_name_for qt url) (step qt (transferred true t result) c)
        ≡ cached (some (cache_file_for qt url c))
  unfolding succeed emit_finished cache_finished set_job cache_file_for
  provides url c p t k job result w ok answers law =
      let same = w.has_hash in
      ap (request_cached qt (cache_file_name_for qt url))
        (delivers qt c p t k (hash_for qt url) job result w ok answers)
      ∙ found url
          (succeed qt p job result.processed (record c { pending = erase t c.pending })).cache law
          (subst (λ h. lookup h (erase job.hash c.fetching) ≡ none) same
            (lookup-erase_self job.hash c.fetching))
          (qt.file_name job.file_path)
          (subst
            (λ h.
              lookup h (insert job.hash (qt.file_name job.file_path) c.disk_cache)
              ≡ some (qt.file_name job.file_path))
            same (lookup-insert_self job.hash _ c.disk_cache))
