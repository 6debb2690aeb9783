-- ===== src/Plugins/AlbumArt/Waiting.antt =====
-- A job of plugins/sf_mprisremote/albumartcache.cpp that waits for its transfer.
use harbour_sailfishconnect.Base.{
  ℕ, suc, String, true, some, none, ◌≡◌, refl, ap, ◌∙◌, string_eq, nat_eq, arith, Option, ◌==◌, eqb,
  eqb_iff, subst,
}
use harbour_sailfishconnect.Base.Dict.{lookup, insert, erase, lookup-insert_self}
use harbour_sailfishconnect.Plugins.AlbumArt.{
  Qt, Job, AlbumArtCache, Result, transferred, is_current, set_job, cache_finished, emit_finished,
  succeed, transfer_done, fetch_finished, transfer_result, step,
}
use harbour_sailfishconnect.Plugins.AlbumArt.Status.{Answers}

-- The job at p waits for the transfer t, the last that was started, and has counted k redirections.
pub record Waits (c : AlbumArtCache) (p t k : ℕ) (h : String) (job : Job) : Type 0 where
  pub is_stored : lookup p c.jobs ≡ some job
  pub is_pending : lookup t c.pending ≡ some p
  pub is_current_transfer : job.file_transfer ≡ some t
  pub is_last : c.next ≡ suc t
  pub has_hash : job.hash ≡ h
  pub has_counted : job.redirect_count ≡ k
  pub is_absent : lookup h c.disk_cache ≡ none

module _ (qt : Qt) where
  -- What the step for a result of the transfer does.
  pub waited :
      (c : AlbumArtCache) (p t k : ℕ) (h : String) (job : Job) (result : Result)
      → Waits c p t k h job
      → result.error ≡ 0
      → transfer_result qt true t result c
        ≡ transfer_done qt true p job result.reply result.processed
            (record c { pending = erase t c.pending })
  unfolding transfer_result fetch_finished is_current
  waited c p t k h job result w ok =
      let own : eqb t t ≡ true = ground arith in
      let fine : eqb result.error 0 ≡ true = ground (arith, ok) in
      rw (transfer_result, w.is_pending)
        (rw w.is_stored (rw w.is_current_transfer (rw (own, fine))))

  succeeds :
      (p : ℕ) (job : Job) (answer : Option (String × ℕ)) (processed : ℕ) (c : AlbumArtCache)
      → Answers answer
      → transfer_done qt true p job answer processed c ≡ succeed qt p job processed c
  unfolding transfer_done
  succeeds p job none processed c a = refl
  succeeds p job (some (location, code)) processed c (empty, fine) =
      let here : (location == "") ≡ true = (string_eq.beq_iff location "").1 empty in
      let ok : eqb code 200 ≡ true = (eqb_iff code 200).1 fine in rw (here, ok) refl

  -- A result that delivers the picture is the job's success.
  pub delivers :
      (c : AlbumArtCache) (p t k : ℕ) (h : String) (job : Job) (result : Result)
      → Waits c p t k h job
      → result.error ≡ 0
      → Answers result.reply
      → step qt (transferred true t result) c
        ≡ (succeed qt p job result.processed (record c { pending = erase t c.pending })).cache
  unfolding step
  delivers c p t k h job result w ok answers =
      ap (λ r. r.cache)
        (waited c p t k h job result w ok
          ∙ succeeds p job result.reply result.processed (record c { pending = erase t c.pending })
              answers)

  -- After a result without an error that is no redirection, the picture is in the disk cache.
  pub shows :
      (c : AlbumArtCache) (p t k : ℕ) (h : String) (job : Job) (result : Result)
      → Waits c p t k h job
      → result.error ≡ 0
      → Answers result.reply
      → lookup h (step qt (transferred true t result) c).disk_cache
        ≡ some (qt.file_name job.file_path)
  unfolding step succeed emit_finished cache_finished set_job
  shows c p t k h job result w ok answers =
      ap (λ r. lookup h r.cache.disk_cache)
        (waited c p t k h job result w ok
          ∙ succeeds p job result.reply result.processed (record c { pending = erase t c.pending })
              answers)
      ∙ subst
          (λ k.
            lookup k (insert job.hash (qt.file_name job.file_path) c.disk_cache)
            ≡ some (qt.file_name job.file_path))
          w.has_hash (lookup-insert_self job.hash _ _)
