-- ===== src/Plugins/AlbumArt/Invariant.antt =====
-- What holds of an AlbumArtCache in plugins/sf_mprisremote/albumartcache.cpp at all times.
use harbour_sailfishconnect.Base.{
  ℕ, suc, String, Bool, true, false, Option, none, some, ◌==◌, string_eq, nat_eq, ◌≡◌, refl, ◌∙◌,
  arith, if_elim, is_some, ℤ,
}
use harbour_sailfishconnect.Base.Dict.{
  Dict, lookup, insert, erase, erase-cases, lookup-insert_other,
}
use harbour_sailfishconnect.Plugins.AlbumArt.{
  Qt, Job, Source, AlbumArtCache, Run, add_size, set_job, cache_finished, emit_finished, got_data,
  failed,
}
use harbour_sailfishconnect.Plugins.AlbumArt.Ends.{finish_unchanged-Tables}
use harbour_sailfishconnect.Plugins.AlbumArt.Jobs.{
  Fetches, Tables, Idle, no_transfer-Idle, transfer-Tables,
}

-- The tables fit together, no url is both fetched and in the disk cache, and the size of the disk
-- cache was never computed from a size that was not set.
pub record WellFormed (c : AlbumArtCache) : Type 0 where
  pub tables : Tables c.jobs c.fetching c.pending c.next
  pub exclusive : (h : String) (p : ℕ) → lookup h c.fetching ≡ some p → lookup h c.disk_cache ≡ none
  pub sized : is_some c.disk_cache_size ≡ true

pub sum_sized :
    (a b : Option ℕ) → is_some a ≡ true → is_some b ≡ true → is_some (add_size a b) ≡ true
unfolding add_size
sum_sized none b h k = ground arith
sum_sized (some x) none h k = ground arith
sum_sized (some x) (some y) h k = refl

exclusive_after :
    (k : String) (v : String) (fetching : Dict String ℕ) (disk_cache : Dict String String)
    → ((h : String) (p : ℕ) → lookup h fetching ≡ some p → lookup h disk_cache ≡ none)
    → (h : String) (p : ℕ) → lookup h (erase k fetching) ≡ some p
    → lookup h (insert k v disk_cache) ≡ none
exclusive_after k v fetching disk_cache exclusive h p e =
    let (different, there) = erase-cases h k p fetching e in
    lookup-insert_other h k v disk_cache different ∙ exclusive h p there

-- The tables of the cache after a job's end do not depend on how it ended.
pub finished_if :
    (qt : Qt) (job : Job) (error : String) (c : AlbumArtCache)
    → Tables c.jobs (erase job.hash c.fetching) c.pending c.next
    → ((h : String) (p : ℕ) → lookup h c.fetching ≡ some p → lookup h c.disk_cache ≡ none)
    → is_some c.disk_cache_size ≡ true
    → ((error == "") ≡ true → is_some job.file_size ≡ true)
    → WellFormed (cache_finished qt job error c)
unfolding cache_finished
finished_if qt job error c tables exclusive sized size =
    if_elim WellFormed (error == "")
      (λ t. record {
        tables = tables;
        exclusive = exclusive_after job.hash _ c.fetching c.disk_cache exclusive;
        sized = sum_sized c.disk_cache_size job.file_size sized (size t);
      })
      (λ f. record {
        tables = tables;
        exclusive = λ h p e. exclusive h p (erase-cases h job.hash p c.fetching e).1;
        sized = sized;
      })

module _ (qt : Qt) (c : AlbumArtCache) (wf : WellFormed c) (p : ℕ) (job : Job)
    (f : Fetches c.jobs c.fetching p job) where
  ended-WellFormed :
      (error : String)
      → (error == "") ≡ false
      → Idle c.pending p
      → WellFormed (cache_finished qt job error c)
  ended-WellFormed error text idle =
      finished_if qt job error c (finish_unchanged-Tables wf.tables p job f idle) wf.exclusive
        wf.sized (λ t. ground (arith, t, text))

  pub failed-WellFormed :
      (error : String)
      → (error == "") ≡ false
      → Idle c.pending p
      → WellFormed (failed qt job error c).cache
  unfolding failed emit_finished
  failed-WellFormed error text idle = ended-WellFormed error text idle

  started-WellFormed :
      Idle c.pending p
      → WellFormed (record (set_job p (record job { file_transfer = some c.next }) c) {
        pending = insert c.next p c.pending;
        next = suc c.next;
      })
  unfolding set_job
  started-WellFormed idle = record {
    tables =
        transfer-Tables wf.tables p job (record job { file_transfer = some c.next }) f idle refl
          f.redirects refl;
    exclusive = wf.exclusive;
    sized = wf.sized;
  }

  free : is_some job.file_transfer ≡ false → Idle c.pending p
  free n = no_transfer-Idle wf.tables p job f.is_stored (ground arith)

  -- To take a payload keeps the cache well-formed, in whatever state the job is.
  pub got_data-WellFormed :
      (opens : Bool) (source : Option Source) (size : ℤ)
      → WellFormed (got_data qt opens p job source size c).1.cache
  unfolding got_data emit_finished
  got_data-WellFormed opens none size =
      if_elim (λ (r : Bool × Run). WellFormed r.1.cache) (is_some job.file_transfer) (λ t. wf)
        (λ n. ended-WellFormed "Empty payload" refl (free n))
  got_data-WellFormed opens (some s) size =
      if_elim (λ (r : Bool × Run). WellFormed r.1.cache) (is_some job.file_transfer) (λ t. wf)
        (λ n.
          if_elim (λ (r : Bool × Run). WellFormed r.1.cache) opens
            (λ t. started-WellFormed (free n))
            (λ e. ended-WellFormed "Failed to create cache file" refl (free n)))
