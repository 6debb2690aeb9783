-- ===== src/Plugins/AlbumArt/Ends.antt =====
-- The tables of plugins/sf_mprisremote/albumartcache.cpp when a job ends or a new one begins.
use harbour_sailfishconnect.Base.{
  ℕ, suc, ◌<◌, ◌≤◌, String, false, none, some, ◌==◌, string_eq, nat_eq, ◌≡◌, refl, sym, ap, subst,
  ◌∙◌, inl, inr, arith, Bool-cases,
}
use harbour_sailfishconnect.Base.Dict.{
  Dict, lookup, insert, erase, insert-cases, erase-cases, lookup-insert_self, lookup-insert_other,
  lookup-erase_other,
}
use harbour_sailfishconnect.Plugins.AlbumArt.{Job}
use harbour_sailfishconnect.Plugins.AlbumArt.Jobs.{
  Fetches, Tables, Idle, same_job, other_pointer, stored_old, stored_redirects,
}

module _ {jobs : Dict ℕ Job} {fetching : Dict String ℕ} {pending : Dict ℕ ℕ} {next : ℕ}
    (tables : Tables jobs fetching pending next) where
  -- The job of another hash is another job.
  other_hash :
      (h : String) (p q : ℕ) (job other : Job)
      → lookup p jobs ≡ some job
      → (h == job.hash) ≡ false
      → lookup q jobs ≡ some other
      → other.hash ≡ h
      → (q == p) ≡ false
  other_hash h p q job other there different found hash = elim (Bool-cases (q == p)) [
    | inl t ↦
        let same =
          same_job tables p job other there
            (subst (λ r. lookup r jobs ≡ some other) ((nat_eq.beq_iff q p).0 t) found) in
        let equal : h ≡ job.hash = sym hash ∙ ap (λ j. j.hash) (sym same) in
        ground (arith, string_eq.beq_iff h job.hash)
    | inr f ↦ f
  ]

  module _ (p : ℕ) (job : Job) (f : Fetches jobs fetching p job) (idle : Idle pending p) where
    -- Jobs of other hashes are not touched when the job at p ends, whatever is stored for it.
    still-Fetches :
        {after : Dict ℕ Job} (q : ℕ) (other : Job)
        → ((r : ℕ) → (r == p) ≡ false → lookup r after ≡ lookup r jobs)
        → (q == p) ≡ false
        → Fetches jobs fetching q other
        → Fetches after (erase job.hash fetching) q other
    still-Fetches {after} q other agrees different g = record {
      is_stored = agrees q different ∙ g.is_stored;
      is_fetching = elim (Bool-cases (other.hash == job.hash)) [
        | inl t ↦
            let equal : other.hash ≡ job.hash = (string_eq.beq_iff other.hash job.hash).0 t in
            let fetched = g.is_fetching in
            let current = f.is_fetching in
            let same : q ≡ p = cc in ground (arith, nat_eq.beq_iff q p)
        | inr d ↦ lookup-erase_other other.hash job.hash fetching d ∙ g.is_fetching
      ];
      redirects = g.redirects;
    }

    pub finish-Tables :
        {after : Dict ℕ Job}
        → ((r : ℕ) → (r == p) ≡ false → lookup r after ≡ lookup r jobs)
        → ((q : ℕ) (other : Job) → lookup q after ≡ some other → q < next)
        → ((q : ℕ) (other : Job) → lookup q after ≡ some other → other.redirect_count ≤ 11)
        → Tables after (erase job.hash fetching) pending next
    finish-Tables agrees old bounded = record {
      fetching_job = λ h q e.
          let (different, there) = erase-cases h job.hash q fetching e in
          let (other, hash, g) = tables.fetching_job h q there in
          (
            other,
            hash,
            still-Fetches q other agrees
                (other_hash h p q job other f.is_stored different g.is_stored hash) g,
          );
      pending_job = λ t q e.
          let (other, transfer, g) = tables.pending_job t q e in
          (other, transfer, still-Fetches q other agrees (other_pointer tables t p q idle e) g);
      job_old = old;
      transfer_old = tables.transfer_old;
      job_redirects = bounded;
    }

    pub finish_stored-Tables :
        (new : Job)
        → new.redirect_count ≤ 11
        → Tables (insert p new jobs) (erase job.hash fetching) pending next
    finish_stored-Tables new bound =
        finish-Tables (λ r d. lookup-insert_other r p new jobs d)
          (stored_old tables p job new f.is_stored) (stored_redirects tables p new bound)

    pub finish_unchanged-Tables : Tables jobs (erase job.hash fetching) pending next
    finish_unchanged-Tables = finish-Tables (λ r d. refl) tables.job_old tables.job_redirects

  module _ (new : Job) (absent : lookup new.hash fetching ≡ none) where
    added-Fetches :
        (q : ℕ) (other : Job)
        → Fetches jobs fetching q other
        → Fetches (insert next new jobs) (insert new.hash next fetching) q other
    added-Fetches q other g = record {
      is_stored =
          let old = tables.job_old q other g.is_stored in
          lookup-insert_other q next new jobs (ground (arith, nat_eq.beq_iff q next)) ∙ g.is_stored;
      is_fetching =
          let fetched = g.is_fetching in
          let different : (other.hash == new.hash) ≡ false =
            elim (Bool-cases (other.hash == new.hash)) [
              | inl t ↦
                  let equal : other.hash ≡ new.hash = (string_eq.beq_iff other.hash new.hash).0 t in
                  let clash : some q ≡ none =
                    sym fetched ∙ ap (λ h. lookup h fetching) equal ∙ absent in
                  cc
              | inr d ↦ d
            ] in
          lookup-insert_other other.hash new.hash next fetching different ∙ fetched;
      redirects = g.redirects;
    }

    added_new :
        new.redirect_count ≡ 0
        → Fetches (insert next new jobs) (insert new.hash next fetching) next new
    added_new count = record {
      is_stored = lookup-insert_self next new jobs;
      is_fetching = lookup-insert_self new.hash next fetching;
      redirects = omega (arith, count);
    }

    -- A new job for a hash that no job fetches.
    pub add-Tables :
        new.redirect_count ≡ 0
        → Tables (insert next new jobs) (insert new.hash next fetching) pending (suc next)
          × Fetches (insert next new jobs) (insert new.hash next fetching) next new
    add-Tables count = (
      record {
        fetching_job = λ h q e. elim (insert-cases h new.hash next q fetching e) [
          | inl (same, at) ↦ (
            new,
            sym same,
            subst (λ r. Fetches (insert next new jobs) (insert new.hash next fetching) r new) at
                (added_new count),
          )
          | inr (_, there) ↦
              let (other, hash, g) = tables.fetching_job h q there in
              (other, hash, added-Fetches q other g)
        ];
        pending_job = λ t q e.
            let (other, transfer, g) = tables.pending_job t q e in
            (other, transfer, added-Fetches q other g);
        job_old = λ q other e. elim (insert-cases q next new other jobs e) [
          | inl (same, _) ↦ omega (arith, same)
          | inr (_, old) ↦ omega (arith, tables.job_old q other old)
        ];
        transfer_old = λ t q e. omega (arith, tables.transfer_old t q e);
        job_redirects = λ q other e. elim (insert-cases q next new other jobs e) [
          | inl (_, same) ↦ subst (λ (j : Job). j.redirect_count ≤ 11) same (omega (arith, count))
          | inr (_, old) ↦ tables.job_redirects q other old
        ];
      },
      added_new count,
    )
