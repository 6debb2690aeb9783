-- ===== src/Plugins/AlbumArt/Redirects.antt =====
-- How far DownloadAlbumArtJob of plugins/sf_mprisremote/albumartcache.cpp follows redirections.
use harbour_sailfishconnect.Base.{
  ℕ, suc, String, true, false, some, none, List, [], ◌∷◌, All, length, ◌≡◌, refl, ap, ◌∙◌, sym,
  is_some, string_eq, nat_eq, arith, Bool, ◌==◌, ltb, leb, ◌+◌, ◌≤◌, Bool-cases, subst,
  Option-cases, inl, inr,
}
use harbour_sailfishconnect.Base.Dict.{
  lookup, insert, erase, has_key, lookup-erase, lookup-insert_self,
}
use harbour_sailfishconnect.Plugins.AlbumArt.{
  Qt, Job, AlbumArtCache, Result, Event, start, transferred, set_job, hash_for, new_job,
  cache_file_for, cache_finished, emit_finished, got_data, failed, redirect, transfer_done, add_job,
  start_fetching, transfer_result, is_available, step,
}
use harbour_sailfishconnect.Plugins.AlbumArt.Invariant.{WellFormed}
use harbour_sailfishconnect.Plugins.AlbumArt.Steps.{step-WellFormed}
use harbour_sailfishconnect.Plugins.AlbumArt.Reached.{run}
use harbour_sailfishconnect.Plugins.AlbumArt.Waiting.{Waits, waited, shows}

-- The answers of a web server: a redirection, and the picture.
abbrev pub moved : String → Result
moved location = record {
  error = 0;
  error_string = "";
  reply = some (location, 302);
  processed = 0;
}

abbrev pub served : Result
served = record { error = 0; error_string = ""; reply = some ("", 200); processed = 1 }

-- The redirections one after the other and then the picture, from the transfer t on.
abbrev pub answers : ℕ → List String → List Event
answers t [] = transferred true t served ∷ []
answers t (l ∷ ls) = transferred true t (moved l) ∷ answers (suc t) ls

module _ (qt : Qt) where
  no_transfer :
      (opens : Bool) (t : ℕ) (result : Result) (c : AlbumArtCache)
      → lookup t c.pending ≡ none
      → transfer_result qt opens t result c ≡ record { actions = []; cache = c }
  unfolding transfer_result
  no_transfer opens t result c e = rw (transfer_result, e) refl

  -- Results of transfers that were never started change nothing.
  unknown_answers :
      (t : ℕ) (ls : List String) (c : AlbumArtCache)
      → ((u : ℕ) → t ≤ u → lookup u c.pending ≡ none)
      → run qt (answers t ls) c ≡ c
  unfolding step
  unknown_answers t [] c none_at =
      ap (λ r. r.cache) (no_transfer true t served c (none_at t (omega arith)))
  unknown_answers t (l ∷ ls) c none_at =
      ap (λ r. run qt (answers (suc t) ls) r.cache)
        (no_transfer true t (moved l) c (none_at t (omega arith)))
      ∙ unknown_answers (suc t) ls c (λ u h. none_at u (omega (arith, h)))

  -- The job with a redirection more, and its state when it has started the next transfer.
  abbrev counted : Job → Job
  counted job = record job { redirect_count = job.redirect_count + 1 }

  abbrev again : Job → Job
  again job = record job { redirect_count = job.redirect_count + 1; file_transfer = none }

  abbrev next_job : Job → ℕ → Job
  next_job job t = record job { redirect_count = job.redirect_count + 1; file_transfer = some t }

  abbrev followed : ℕ → Job → AlbumArtCache → AlbumArtCache
  followed p job c = record c {
    jobs = insert p (next_job job c.next) (insert p (again job) c.jobs);
    pending = insert c.next p c.pending;
    next = suc c.next;
  }

  redirect-followed :
      (p : ℕ) (job : Job) (location : String) (c : AlbumArtCache)
      → job.redirect_count + 1 ≤ 10
      → (redirect qt true p job location c).cache ≡ followed p job c
  unfolding redirect got_data set_job
  redirect-followed p job location c few =
      let small : ltb 10 (job.redirect_count + 1) ≡ false = ground (arith, few) in rw small refl

  redirect-failed :
      (p : ℕ) (job : Job) (location : String) (c : AlbumArtCache)
      → job.redirect_count ≡ 10
      → (redirect qt true p job location c).cache
        ≡ cache_finished qt (counted job) "too many redirects" (set_job p (counted job) c)
  unfolding redirect failed emit_finished
  redirect-failed p job location c full =
      let large : ltb 10 (job.redirect_count + 1) ≡ true = ground (arith, full) in rw large refl

  -- A redirection is the job's redirect().
  moved_redirects :
      (c : AlbumArtCache) (p t k : ℕ) (h : String) (job : Job) (location : String)
      → Waits c p t k h job
      → (location == "") ≡ false
      → step qt (transferred true t (moved location)) c
        ≡ (redirect qt true p job location (record c { pending = erase t c.pending })).cache
  unfolding step transfer_done
  moved_redirects c p t k h job location w given =
      ap (λ r. r.cache) (waited qt c p t k h job (moved location) w refl) ∙ rw given refl

  next-Waits :
      (c : AlbumArtCache) (p t k : ℕ) (h : String) (job : Job) (location : String)
      → Waits c p t k h job
      → (location == "") ≡ false
      → suc k ≤ 10
      → Waits
          (step qt (transferred true t (moved location)) c)
          p
          (suc t)
          (suc k)
          h
          (next_job job (suc t))
  next-Waits c p t k h job location w given few =
      let d : AlbumArtCache = record c { pending = erase t c.pending } in
      let fits : job.redirect_count + 1 ≤ 10 = omega (arith, w.has_counted, few) in
      let moves =
        moved_redirects c p t k h job location w given ∙ redirect-followed p job location d fits in
      let last : d.next ≡ suc t = w.is_last in
      subst (λ e. Waits e p (suc t) (suc k) h (next_job job (suc t))) (sym moves)
        (record {
          is_stored =
              subst
                (λ n.
                  lookup p (insert p (next_job job n) (insert p (again job) c.jobs))
                  ≡ some (next_job job (suc t)))
                (sym last) (lookup-insert_self p _ _);
          is_pending =
              subst (λ n. lookup (suc t) (insert n p d.pending) ≡ some p) (sym last)
                (lookup-insert_self (suc t) p d.pending);
          is_current_transfer = refl;
          is_last = ap suc last;
          has_hash = w.has_hash;
          has_counted = omega (arith, w.has_counted);
          is_absent = w.is_absent;
        })

  gives_up_after :
      (c : AlbumArtCache) (p t k : ℕ) (h : String) (job : Job) (location : String)
      → Waits c p t k h job
      → (location == "") ≡ false
      → k ≡ 10
      → (lookup h (step qt (transferred true t (moved location)) c).disk_cache ≡ none)
        × ((step qt (transferred true t (moved location)) c).pending ≡ erase t c.pending)
  unfolding cache_finished set_job
  gives_up_after c p t k h job location w given full =
      let d : AlbumArtCache = record c { pending = erase t c.pending } in
      let moves =
        moved_redirects c p t k h job location w given
        ∙ redirect-failed p job location d (w.has_counted ∙ full) in
      (ap (λ e. lookup h e.disk_cache) moves ∙ w.is_absent, ap (λ e. e.pending) moves)

  none_later :
      (c : AlbumArtCache) (t : ℕ)
      → WellFormed c
      → c.next ≡ suc t
      → (u : ℕ) → suc t ≤ u
      → lookup u (erase t c.pending) ≡ none
  none_later c t wf last u later = elim (Option-cases (lookup u c.pending)) [
    | inl e ↦ ground (arith, lookup-erase u t c.pending, e)
    | inr (q, e) ↦
        let clash : ⊥ = omega (arith, wf.tables.transfer_old u q e, last, later) in elim clash [ ]
  ]

  answered :
      (ls : List String) (c : AlbumArtCache) (p t k : ℕ) (h : String) (job : Job)
      → WellFormed c
      → Waits c p t k h job
      → k ≤ 10
      → All (λ l. (l == "") ≡ false) ls
      → has_key h (run qt (answers t ls) c).disk_cache ≡ leb (k + length ls) 10
  answered [] c p t k h job wf w few given =
      let shown = shows qt c p t k h job served w refl (refl, refl) in
      rw shown (ground (arith, few))
  answered (l ∷ ls) c p t k h job wf w few (given, more) = elim (Bool-cases (leb (suc k) 10)) [
    | inl fits ↦
        let next = step qt (transferred true t (moved l)) c in
        let bound : suc k ≤ 10 = ground (arith, fits) in
        answered ls next p (suc t) (suc k) h (next_job job (suc t))
          (step-WellFormed qt c wf (transferred true t (moved l)) (λ e. ground (arith, e)))
          (next-Waits c p t k h job l w given bound) bound more
        ∙ ground arith
    | inr full ↦
        let (missing, rest) = gives_up_after c p t k h job l w given (ground (arith, few, full)) in
        let unknown =
          unknown_answers (suc t) ls (step qt (transferred true t (moved l)) c)
            (λ u later. ap (lookup u) rest ∙ none_later c t wf w.is_last u later) in
        ap (λ d. has_key h d.disk_cache) unknown ∙ ap is_some missing ∙ ground (arith, few, full)
  ]

  -- The job for a web address when it is started, and the cache with it.
  abbrev begun_job : String → AlbumArtCache → Job
  begun_job url c = record (new_job qt url (cache_file_for qt url c)) {
    file_transfer = some (suc c.next);
  }

  abbrev begun_cache : String → AlbumArtCache → AlbumArtCache
  begun_cache url c = record c {
    jobs =
        insert c.next (begun_job url c)
          (insert c.next (new_job qt url (cache_file_for qt url c)) c.jobs);
    fetching = insert (hash_for qt url) c.next c.fetching;
    pending = insert (suc c.next) c.next c.pending;
    next = suc (suc c.next);
  }

  start_begins :
      (url player : String) (c : AlbumArtCache)
      → (url == "") ≡ false
      → qt.is_local_file (qt.parse url) ≡ false
      → lookup (hash_for qt (qt.parse url)) c.disk_cache ≡ none
      → lookup (hash_for qt (qt.parse url)) c.fetching ≡ none
      → step qt (start true url player) c ≡ begun_cache (qt.parse url) c
  unfolding step start_fetching got_data add_job set_job new_job
  start_begins url player c given remote missing unfetched =
      rw (step, start_fetching, given, missing, unfetched, remote) refl

  -- Up to ten redirections are followed. In a well-formed cache that neither has the picture of a
  -- web address nor fetches it, with a cache file that can be opened, the picture is available
  -- after the start, any number of redirections to other addresses and the picture itself, exactly
  -- when there are ten redirections or less.
  pub redirects_followed :
      (url player : String) (locations : List String) (c : AlbumArtCache)
      → WellFormed c
      → (url == "") ≡ false
      → qt.is_local_file (qt.parse url) ≡ false
      → lookup (hash_for qt (qt.parse url)) c.disk_cache ≡ none
      → lookup (hash_for qt (qt.parse url)) c.fetching ≡ none
      → All (λ l. (l == "") ≡ false) locations
      → is_available qt
          (qt.parse url)
          (run qt (start true url player ∷ answers (suc c.next) locations) c)
        ≡ leb (length locations) 10
  unfolding step start_fetching got_data add_job set_job new_job is_available
  redirects_followed url player locations c wf given remote missing unfetched named =
      let h = hash_for qt (qt.parse url) in
      let begun = step qt (start true url player) c in
      let started : begun ≡ begun_cache (qt.parse url) c =
        start_begins url player c given remote missing unfetched in
      let waits : Waits begun c.next (suc c.next) 0 h (begun_job (qt.parse url) c) =
        subst (λ e. Waits e c.next (suc c.next) 0 h (begun_job (qt.parse url) c)) (sym started)
          (record {
            is_stored = lookup-insert_self c.next _ _;
            is_pending = lookup-insert_self (suc c.next) c.next c.pending;
            is_current_transfer = refl;
            is_last = refl;
            has_hash = refl;
            has_counted = refl;
            is_absent = missing;
          }) in
      answered locations begun c.next (suc c.next) 0 h (begun_job (qt.parse url) c)
        (step-WellFormed qt c wf (start true url player) tt) waits (omega arith) named
      ∙ ground arith
