-- ===== src/Plugins/AlbumArt/Changes.antt =====
-- How the steps of plugins/sf_mprisremote/albumartcache.cpp change what a client sees.
use harbour_sailfishconnect.Base.{
  ℕ, String, true, some, none, ◌≡◌, refl, ap, ◌∙◌, inl, inr, is_some, string_eq, nat_eq, arith,
  Option, Bool, ◌==◌, Bool-cases, Option-cases, if_elim, ◌||◌, eqb, eqb_iff, List, All, ltb, ◌+◌, ℤ,
  minus_one,
}
use harbour_sailfishconnect.Base.Dict.{
  lookup, erase, has_key, lookup-insert, lookup-erase, lookup-insert_self,
}
use harbour_sailfishconnect.Plugins.AlbumArt.{
  Qt, Job, Source, reply, AlbumArtCache, Run, Result, Event, start, data_came, transferred,
  is_current, set_job, hash_for, new_job, cache_file_for, cache_finished, emit_finished, got_data,
  failed, succeed, redirect, transfer_done, fetch_finished, add_job, start_fetching, end_fetching,
  transfer_result, step, new_cache,
}
use harbour_sailfishconnect.Plugins.AlbumArt.Reached.{run, reached-WellFormed}
use harbour_sailfishconnect.Plugins.AlbumArt.Invariant.{WellFormed}
use harbour_sailfishconnect.Plugins.AlbumArt.Steps.{Described, neither}
use harbour_sailfishconnect.Plugins.AlbumArt.Status.{
  absent, fetched, available, status, Change, stays, begins, arrives, gives_up, after, weaken,
  between, Answers, Delivers, map_arrival,
}

module _ (qt : Qt) (h : String) where
  abbrev pub Begun : Event → Type 0
  Begun (start opens url player) = h ≡ hash_for qt (qt.parse url)
  Begun _ = ⊥

  -- The transfer is that of the job for this picture.
  abbrev pub OwnTransfer : ℕ → AlbumArtCache → Type 0
  OwnTransfer t c =
      (p : ℕ) × (job : Job) × (lookup t c.pending ≡ some p)
      × (lookup p c.jobs ≡ some job)
      × (h ≡ job.hash)

  abbrev pub Delivered : Event → AlbumArtCache → Type 0
  Delivered (transferred opens t result) c = OwnTransfer t c × Delivers result
  Delivered _ c = ⊥

  finished-Change :
      {Delivered : Type 0} (job : Job) (error : String) (p : ℕ) (c : AlbumArtCache)
      → lookup job.hash c.fetching ≡ some p
      → lookup job.hash c.disk_cache ≡ none
      → (h ≡ job.hash → (error == "") ≡ true → Delivered)
      → Change ⊥ Delivered (status h c) (status h (cache_finished qt job error c))
  unfolding cache_finished
  finished-Change {Delivered} job error p c f a d =
      let inserted = lookup-insert h job.hash (qt.file_name job.file_path) c.disk_cache in
      let erased = lookup-erase h job.hash c.fetching in
      elim (Bool-cases (h == job.hash)) [
        | inl t ↦
            let same : h ≡ job.hash = (string_eq.beq_iff h job.hash).0 t in
            let is_fetched : lookup h c.fetching ≡ some p =
              ap (λ k. lookup k c.fetching) same ∙ f in
            let is_absent : lookup h c.disk_cache ≡ none =
              ap (λ k. lookup k c.disk_cache) same ∙ a in
            let before : status h c ≡ fetched = rw (is_absent, is_fetched) refl in
            if_elim (λ (e : AlbumArtCache). Change ⊥ Delivered (status h c) (status h e))
              (error == "")
              (λ ok. between fetched available before (rw (inserted, t) refl) (arrives (d same ok)))
              (λ bad. between fetched absent before (rw (is_absent, erased, t) refl) gives_up)
        | inr n ↦
            if_elim (λ (e : AlbumArtCache). Change ⊥ Delivered (status h c) (status h e))
              (error == "") (λ ok. rw (inserted, erased, n) (stays _))
              (λ bad. rw (erased, n) (stays _))
      ]

  got_data-Change :
      (opens : Bool) (p : ℕ) (job : Job) (source : Option Source) (size : ℤ) (c : AlbumArtCache)
      → lookup job.hash c.fetching ≡ some p
      → lookup job.hash c.disk_cache ≡ none
      → Change ⊥ ⊥ (status h c) (status h (got_data qt opens p job source size c).1.cache)
  unfolding got_data emit_finished set_job
  got_data-Change opens p job none size c f a =
      if_elim (λ (r : Bool × Run). Change ⊥ ⊥ (status h c) (status h r.1.cache))
        (is_some job.file_transfer) (λ t. stays _)
        (λ n. finished-Change job "Empty payload" p c f a (λ _ e. ground (arith, e)))
  got_data-Change opens p job (some s) size c f a =
      if_elim (λ (r : Bool × Run). Change ⊥ ⊥ (status h c) (status h r.1.cache))
        (is_some job.file_transfer) (λ t. stays _)
        (λ n.
          if_elim (λ (r : Bool × Run). Change ⊥ ⊥ (status h c) (status h r.1.cache)) opens
            (λ t. stays _)
            (λ e.
              finished-Change job "Failed to create cache file" p c f a (λ _ e. ground (arith, e))))

  module _ (p : ℕ) (job : Job) (c : AlbumArtCache) (f : lookup job.hash c.fetching ≡ some p)
      (a : lookup job.hash c.disk_cache ≡ none) where
    redirect-Change :
        (opens : Bool) (location : String)
        → Change ⊥ ⊥ (status h c) (status h (redirect qt opens p job location c).cache)
    unfolding redirect failed emit_finished set_job
    redirect-Change opens location =
        let counted = record job { redirect_count = job.redirect_count + 1 } in
        let again = record counted { file_transfer = none } in
        if_elim (λ (r : Run). Change ⊥ ⊥ (status h c) (status h r.cache))
          (ltb 10 counted.redirect_count)
          (λ t.
            finished-Change counted "too many redirects" p (set_job p counted c) f a
              (λ _ e. ground (arith, e)))
          (λ n.
            got_data-Change opens p again (some (reply (qt.parse location))) minus_one
              (set_job p again c) f a)

    transfer_done-Change :
        (opens : Bool) (answer : Option (String × ℕ)) (processed : ℕ)
        → Change ⊥
            ((h ≡ job.hash) × Answers answer)
            (status h c)
            (status h (transfer_done qt opens p job answer processed c).cache)
    unfolding transfer_done succeed failed emit_finished set_job
    transfer_done-Change opens none processed =
        let done = record job { file_size = some processed } in
        finished-Change done "" p (set_job p done c) f a (λ same e. (same, tt))
    transfer_done-Change opens (some (location, code)) processed =
        let done = record job { file_size = some processed } in
        let Answered : Type 0 = (h ≡ job.hash) × Answers (some (location, code)) in
        if_elim (λ (r : Run). Change ⊥ Answered (status h c) (status h r.cache)) (location == "")
          (λ t.
            if_elim (λ (r : Run). Change ⊥ Answered (status h c) (status h r.cache)) (eqb code 200)
              (λ ok.
                finished-Change done "" p (set_job p done c) f a (λ same e.
                  (same, ((string_eq.beq_iff location "").0 t, (eqb_iff code 200).0 ok))))
              (λ bad.
                finished-Change job "status code was not 200" p c f a (λ _ e. ground (arith, e))))
          (λ n. weaken (redirect-Change opens location))

    fetch_finished-Change :
        (opens : Bool) (t : ℕ) (result : Result)
        → Described (transferred opens t result)
        → Change ⊥
            ((h ≡ job.hash) × Delivers result)
            (status h c)
            (status h (fetch_finished qt opens p job t result c).cache)
    unfolding fetch_finished failed emit_finished
    fetch_finished-Change opens t result d =
        if_elim
          (λ (r : Run). Change ⊥ ((h ≡ job.hash) × Delivers result) (status h c) (status h r.cache))
          (is_current t job.file_transfer)
          (λ own.
            if_elim
              (λ (r : Run).
                Change ⊥ ((h ≡ job.hash) × Delivers result) (status h c) (status h r.cache))
              (eqb result.error 0)
              (λ ok.
                map_arrival (λ (same, x). (same, ((eqb_iff result.error 0).0 ok, x)))
                  (transfer_done-Change opens result.reply result.processed))
              (λ bad.
                finished-Change job result.error_string p c f a (λ e. ground (arith, e, d bad))))
          (λ other. stays _)

  add_job-Change :
      (url : String) (c : AlbumArtCache)
      → lookup (hash_for qt url) c.fetching ≡ none
      → lookup (hash_for qt url) c.disk_cache ≡ none
      → Change (h ≡ hash_for qt url) ⊥ (status h c) (status h (add_job qt url c))
  unfolding add_job set_job
  add_job-Change url c f a =
      let k = hash_for qt url in
      let inserted = lookup-insert h k c.next c.fetching in
      elim (Bool-cases (h == k)) [
        | inl t ↦
            let same : h ≡ k = (string_eq.beq_iff h k).0 t in
            let is_unfetched : lookup h c.fetching ≡ none =
              ap (λ k. lookup k c.fetching) same ∙ f in
            let is_absent : lookup h c.disk_cache ≡ none =
              ap (λ k. lookup k c.disk_cache) same ∙ a in
            between absent fetched (rw (is_absent, is_unfetched) refl)
              (rw (is_absent, inserted, t) refl) (begins same)
        | inr n ↦ rw (inserted, n) (stays _)
      ]

  module _ (c : AlbumArtCache) (wf : WellFormed c) where
    start_fetching-Change :
        (opens : Bool) (url player : String)
        → Change
            (h ≡ hash_for qt (qt.parse url))
            ⊥
            (status h c)
            (status h (start_fetching qt opens url player c).1.cache)
    unfolding start_fetching
    start_fetching-Change opens original player =
        let url = qt.parse original in
        let k = hash_for qt url in
        let kept : Option ℕ × Run → Type 0 =
          λ r. Change (h ≡ k) ⊥ (status h c) (status h r.1.cache) in
        if_elim kept (original == "") (λ t. stays _)
          (λ given.
            if_elim kept (has_key k c.disk_cache || has_key k c.fetching) (λ t. stays _)
              (λ n.
                let (unfetched, missing) = neither _ _ n in
                let begun = add_job-Change url c unfetched missing in
                if_elim kept (qt.is_local_file url) (λ t. begun)
                  (λ remote. after begun (
                    got_data-Change opens c.next (new_job qt url (cache_file_for qt url c))
                      (some (reply url)) minus_one (add_job qt url c)
                      (lookup-insert_self k c.next c.fetching) missing))))

    end_fetching-Change :
        (opens : Bool) (url : String) (source : Option Source) (size : ℤ)
        → Change ⊥ ⊥ (status h c) (status h (end_fetching qt opens url source size c).cache)
    unfolding end_fetching
    end_fetching-Change opens url source size =
        let k = hash_for qt url in
        elim (Option-cases (lookup k c.fetching)) [
          | inl e ↦ rw (end_fetching, e) (stays _)
          | inr (p, e) ↦
              let (job, same, f) = wf.tables.fetching_job k p e in
              rw (end_fetching, e)
                (rw f.is_stored (
                  got_data-Change opens p job source size c f.is_fetching
                    (wf.exclusive job.hash p f.is_fetching)))
        ]

    transfer_result-Change :
        (opens : Bool) (t : ℕ) (result : Result)
        → Described (transferred opens t result)
        → Change ⊥
            (OwnTransfer t c × Delivers result)
            (status h c)
            (status h (transfer_result qt opens t result c).cache)
    unfolding transfer_result
    transfer_result-Change opens t result d = elim (Option-cases (lookup t c.pending)) [
      | inl e ↦ rw (transfer_result, e) (stays _)
      | inr (p, e) ↦
          let (job, current, f) = wf.tables.pending_job t p e in
          map_arrival
            (λ (x : (h ≡ job.hash) × Delivers result). ((p, job, e, f.is_stored, x.0), x.1))
            (rw (transfer_result, e)
              (rw f.is_stored (
                fetch_finished-Change p job (record c { pending = erase t c.pending }) f.is_fetching
                  (wf.exclusive job.hash p f.is_fetching) opens t result d)))
    ]

    step-Change :
        (e : Event)
        → Described e
        → Change (Begun e) (Delivered e c) (status h c) (status h (step qt e c))
    unfolding step
    step-Change (start opens url player) d =
        map_arrival (λ x. elim x [ ]) (start_fetching-Change opens url player)
    step-Change (data_came opens url source size) d =
        weaken (end_fetching-Change opens url source size)
    step-Change (transferred opens t result) d = transfer_result-Change opens t result d

  -- The cache keeps what it has, and gets nothing else. After any events from the constructor on,
  -- in which a CopyJob that fails says with what error, one more such event changes
  -- the status of a picture only in these ways: an absent one is fetched from then on, when the
  -- event asks for it; a fetched one becomes available, when the event is the end of the transfer
  -- of its own job, without an error, and no redirection or failure of a web server; and a fetched
  -- one becomes absent.
  -- An available picture stays available.
  pub status-Change :
      (device_id cache_dir : String) (files : List (String × ℕ)) (events : List Event) (e : Event)
      → All Described events
      → Described e
      → let c = run qt events (new_cache qt device_id cache_dir files) in
        Change (Begun e) (Delivered e c) (status h c) (status h (step qt e c))
  status-Change device_id cache_dir files events e described d =
      let c = run qt events (new_cache qt device_id cache_dir files) in
      step-Change c (reached-WellFormed qt device_id cache_dir files events described) e d
