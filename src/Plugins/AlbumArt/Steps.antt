-- ===== src/Plugins/AlbumArt/Steps.antt =====
-- What the steps of plugins/sf_mprisremote/albumartcache.cpp keep.
use harbour_sailfishconnect.Base.{
  ℕ, ◌≤◌, ◌+◌, String, Bool, true, false, Option, none, some, ◌==◌, string_eq, nat_eq, ◌≡◌, refl,
  sym, ap, subst, ◌∙◌, inl, inr, arith, Option-cases, if_elim, is_some, eqb, ltb, ◌||◌, ℤ,
  minus_one,
}
use harbour_sailfishconnect.Base.Dict.{lookup, insert, erase, has_key, insert-cases}
use harbour_sailfishconnect.Plugins.AlbumArt.{
  Qt, Job, Source, reply, AlbumArtCache, Run, Result, Event, start, data_came, transferred,
  is_current, set_job, hash_for, new_job, cache_file_for, cache_finished, emit_finished, failed,
  succeed, redirect, transfer_done, fetch_finished, add_job, start_fetching, end_fetching,
  transfer_result, step,
}
use harbour_sailfishconnect.Plugins.AlbumArt.Ends.{finish_stored-Tables, add-Tables}
use harbour_sailfishconnect.Plugins.AlbumArt.Jobs.{
  Fetches, Tables, Idle, erase_pending-Tables, erase_pending-Idle, store-Tables,
}
use harbour_sailfishconnect.Plugins.AlbumArt.Invariant.{
  WellFormed, finished_if, failed-WellFormed, got_data-WellFormed,
}

module _ (qt : Qt) (c : AlbumArtCache) (wf : WellFormed c) (p : ℕ) (job : Job)
    (f : Fetches c.jobs c.fetching p job) (idle : Idle c.pending p) where
  stored-WellFormed :
      (new : Job) → new.hash ≡ job.hash → new.redirect_count ≤ 10 → WellFormed (set_job p new c)
  unfolding set_job
  stored-WellFormed new same bound = record {
    tables = (store-Tables wf.tables p job new f idle same bound).0;
    exclusive = wf.exclusive;
    sized = wf.sized;
  }

  stored_finished :
      (new : Job) (error : String)
      → new.hash ≡ job.hash
      → new.redirect_count ≤ 11
      → ((error == "") ≡ true → is_some new.file_size ≡ true)
      → WellFormed (cache_finished qt new error (set_job p new c))
  unfolding set_job
  stored_finished new error same bound size =
      finished_if qt new error (set_job p new c)
        (subst (λ h. Tables (insert p new c.jobs) (erase h c.fetching) c.pending c.next) (sym same)
          (finish_stored-Tables wf.tables p job f idle new bound))
        wf.exclusive wf.sized size

  succeed-WellFormed : (processed : ℕ) → WellFormed (succeed qt p job processed c).cache
  unfolding succeed emit_finished
  succeed-WellFormed processed =
      stored_finished (record job { file_size = some processed }) "" refl
        (omega (arith, f.redirects)) (λ t. refl)

  redirect-WellFormed :
      (opens : Bool) (location : String) → WellFormed (redirect qt opens p job location c).cache
  unfolding redirect failed emit_finished set_job
  redirect-WellFormed opens location =
      let counted = record job { redirect_count = job.redirect_count + 1 } in
      let again = record counted { file_transfer = none } in
      if_elim (λ (r : Run). WellFormed r.cache) (ltb 10 counted.redirect_count)
        (λ t.
          stored_finished counted "too many redirects" refl (omega (arith, f.redirects))
            (λ e. ground (arith, e)))
        (λ n.
          let bound : job.redirect_count + 1 ≤ 10 = ground (arith, n) in
          got_data-WellFormed qt (set_job p again c) (stored-WellFormed again refl bound) p again
            (store-Tables wf.tables p job again f idle refl bound).1 opens
            (some (reply (qt.parse location))) minus_one)

-- A CopyJob that ends with an error says what the error is.
abbrev pub Described : Event → Type 0
Described (transferred opens t result) =
    eqb result.error 0 ≡ false → (result.error_string == "") ≡ false
Described _ = Unit

module _ (qt : Qt) (c : AlbumArtCache) (wf : WellFormed c) (p : ℕ) (job : Job)
    (f : Fetches c.jobs c.fetching p job) (idle : Idle c.pending p) where
  transfer_done-WellFormed :
      (opens : Bool) (answer : Option (String × ℕ)) (processed : ℕ)
      → WellFormed (transfer_done qt opens p job answer processed c).cache
  unfolding transfer_done
  transfer_done-WellFormed opens none processed = succeed-WellFormed qt c wf p job f idle processed
  transfer_done-WellFormed opens (some (location, status)) processed =
      if_elim (λ (r : Run). WellFormed r.cache) (location == "")
        (λ t.
          if_elim (λ (r : Run). WellFormed r.cache) (eqb status 200)
            (λ ok. succeed-WellFormed qt c wf p job f idle processed)
            (λ bad. failed-WellFormed qt c wf p job f "status code was not 200" refl idle))
        (λ n. redirect-WellFormed qt c wf p job f idle opens location)

  fetch_finished-WellFormed :
      (opens : Bool) (t : ℕ) (result : Result)
      → Described (transferred opens t result)
      → WellFormed (fetch_finished qt opens p job t result c).cache
  unfolding fetch_finished
  fetch_finished-WellFormed opens t result d =
      if_elim (λ (r : Run). WellFormed r.cache) (is_current t job.file_transfer)
        (λ own.
          if_elim (λ (r : Run). WellFormed r.cache) (eqb result.error 0)
            (λ ok. transfer_done-WellFormed opens result.reply result.processed)
            (λ bad. failed-WellFormed qt c wf p job f result.error_string (d bad) idle))
        (λ other. wf)

pub neither :
    {A B : Type 0} (a : Option A) (b : Option B)
    → is_some a || is_some b ≡ false
    → (b ≡ none) × (a ≡ none)
neither none none h = (refl, refl)
neither none (some b) h = ground arith
neither (some a) b h = ground arith

module _ (qt : Qt) (c : AlbumArtCache) (wf : WellFormed c) where
  add_job-WellFormed :
      (url : String)
      → lookup (hash_for qt url) c.fetching ≡ none
      → lookup (hash_for qt url) c.disk_cache ≡ none
      → WellFormed (add_job qt url c)
        × Fetches
            (add_job qt url c).jobs
            (add_job qt url c).fetching
            c.next
            (new_job qt url (cache_file_for qt url c))
  unfolding add_job set_job new_job
  add_job-WellFormed url unfetched absent =
      let new = new_job qt url (cache_file_for qt url c) in
      let (tables, f) = add-Tables wf.tables new unfetched refl in
      (
        record {
          tables = tables;
          exclusive = λ h p e. elim (insert-cases h (hash_for qt url) c.next p c.fetching e) [
            | inl (same, _) ↦ ap (λ k. lookup k c.disk_cache) same ∙ absent
            | inr (_, there) ↦ wf.exclusive h p there
          ];
          sized = wf.sized;
        },
        f,
      )

  start_fetching-WellFormed :
      (opens : Bool) (url player : String)
      → WellFormed (start_fetching qt opens url player c).1.cache
  unfolding start_fetching
  start_fetching-WellFormed opens original player =
      let url = qt.parse original in
      let kept : Option ℕ × Run → Type 0 = λ r. WellFormed r.1.cache in
      if_elim kept (original == "") (λ t. wf)
        (λ given.
          if_elim kept
            (has_key (hash_for qt url) c.disk_cache || has_key (hash_for qt url) c.fetching)
            (λ t. wf)
            (λ n.
              let (unfetched, absent) = neither _ _ n in
              let (added, f) = add_job-WellFormed url unfetched absent in
              if_elim kept (qt.is_local_file url) (λ t. added)
                (λ remote.
                  got_data-WellFormed qt (add_job qt url c) added c.next
                    (new_job qt url (cache_file_for qt url c)) f opens (some (reply url))
                    minus_one)))

  end_fetching-WellFormed :
      (opens : Bool) (url : String) (source : Option Source) (size : ℤ)
      → WellFormed (end_fetching qt opens url source size c).cache
  unfolding end_fetching
  end_fetching-WellFormed opens url source size =
      elim (Option-cases (lookup (hash_for qt url) c.fetching)) [
        | inl e ↦ rw (end_fetching, e) wf
        | inr (p, e) ↦
            let (job, hash, f) = wf.tables.fetching_job (hash_for qt url) p e in
            rw (end_fetching, e)
              (rw f.is_stored (got_data-WellFormed qt c wf p job f opens source size))
      ]

  transfer_result-WellFormed :
      (opens : Bool) (t : ℕ) (result : Result)
      → Described (transferred opens t result)
      → WellFormed (transfer_result qt opens t result c).cache
  unfolding transfer_result
  transfer_result-WellFormed opens t result d = elim (Option-cases (lookup t c.pending)) [
    | inl e ↦ rw (transfer_result, e) wf
    | inr (p, e) ↦
        let (job, transfer, f) = wf.tables.pending_job t p e in
        let rest : WellFormed (record c { pending = erase t c.pending }) = record {
          tables = erase_pending-Tables wf.tables t;
          exclusive = wf.exclusive;
          sized = wf.sized;
        } in
        rw (transfer_result, e)
          (rw f.is_stored (
            fetch_finished-WellFormed qt (record c { pending = erase t c.pending }) rest p job f
              (erase_pending-Idle wf.tables t p e) opens t result d))
  ]

  -- Each event keeps the cache well-formed.
  pub step-WellFormed : (e : Event) → Described e → WellFormed (step qt e c)
  unfolding step
  step-WellFormed (start opens url player) d = start_fetching-WellFormed opens url player
  step-WellFormed (data_came opens url source size) d =
      end_fetching-WellFormed opens url source size
  step-WellFormed (transferred opens t result) d = transfer_result-WellFormed opens t result d
