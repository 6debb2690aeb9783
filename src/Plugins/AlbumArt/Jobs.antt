-- ===== src/Plugins/AlbumArt/Jobs.antt =====
-- The tables of plugins/sf_mprisremote/albumartcache.cpp: which jobs and transfers belong together.
use harbour_sailfishconnect.Base.{
  ℕ, suc, ◌<◌, ◌≤◌, String, false, none, some, ◌==◌, string_eq, nat_eq, ◌≡◌, ◌≢◌, sym, ap, subst,
  ◌∙◌, inl, inr, arith, Bool-cases, eqb_iff,
}
use harbour_sailfishconnect.Base.Dict.{
  Dict, lookup, insert, erase, insert-cases, erase-cases, lookup-insert_self, lookup-insert_other,
}
use harbour_sailfishconnect.Plugins.AlbumArt.{Job}

-- The job at a pointer is the one that fetches its hash.
pub record Fetches (jobs : Dict ℕ Job) (fetching : Dict String ℕ) (p : ℕ) (job : Job) : Type 0 where
  pub is_stored : lookup p jobs ≡ some job
  pub is_fetching : lookup job.hash fetching ≡ some p
  pub redirects : job.redirect_count ≤ 10

-- What holds of the tables. Each entry of `fetching` is a job for its hash, each transfer whose
-- result is to come is the current one of a job that is being fetched, and new pointers are new.
pub record Tables (jobs : Dict ℕ Job) (fetching : Dict String ℕ) (pending : Dict ℕ ℕ) (next : ℕ)
    : Type 0 where
  pub fetching_job :
      (h : String) (p : ℕ)
      → lookup h fetching ≡ some p
      → (job : Job) × (job.hash ≡ h) × Fetches jobs fetching p job
  pub pending_job :
      (t p : ℕ)
      → lookup t pending ≡ some p
      → (job : Job) × (job.file_transfer ≡ some t) × Fetches jobs fetching p job
  pub job_old : (p : ℕ) (job : Job) → lookup p jobs ≡ some job → p < next
  pub transfer_old : (t p : ℕ) → lookup t pending ≡ some p → t < next
  pub job_redirects : (p : ℕ) (job : Job) → lookup p jobs ≡ some job → job.redirect_count ≤ 11

-- No result is to come for the job at a pointer.
abbrev pub Idle : Dict ℕ ℕ → ℕ → Type 0
Idle pending p = (t : ℕ) → lookup t pending ≢ some p

module _ {jobs : Dict ℕ Job} {fetching : Dict String ℕ} {pending : Dict ℕ ℕ} {next : ℕ}
    (tables : Tables jobs fetching pending next) where
  pub same_job :
      (p : ℕ) (job other : Job)
      → lookup p jobs ≡ some job
      → lookup p jobs ≡ some other
      → job ≡ other
  same_job p job other h k = cc

  pub erase_pending-Tables : (t : ℕ) → Tables jobs fetching (erase t pending) next
  erase_pending-Tables t = record {
    fetching_job = tables.fetching_job;
    pending_job = λ u p h. tables.pending_job u p (erase-cases u t p pending h).1;
    job_old = tables.job_old;
    transfer_old = λ u p h. tables.transfer_old u p (erase-cases u t p pending h).1;
    job_redirects = tables.job_redirects;
  }

  -- A job without a transfer waits for no result.
  pub no_transfer-Idle :
      (p : ℕ) (job : Job) → lookup p jobs ≡ some job → job.file_transfer ≡ none → Idle pending p
  no_transfer-Idle p job h k t e =
      let (other, transfer, f) = tables.pending_job t p e in
      let same = same_job p job other h f.is_stored in cc

  -- After the result of its transfer, a job waits for no other one.
  pub erase_pending-Idle : (t p : ℕ) → lookup t pending ≡ some p → Idle (erase t pending) p
  erase_pending-Idle t p h u e =
      let (different, there) = erase-cases u t p pending e in
      let (job, transfer, f) = tables.pending_job t p h in
      let (other, transfer2, g) = tables.pending_job u p there in
      let same = same_job p job other f.is_stored g.is_stored in ground (arith, eqb_iff u t)

  pub other_pointer : (t p q : ℕ) → Idle pending p → lookup t pending ≡ some q → (q == p) ≡ false
  other_pointer t p q idle e = elim (Bool-cases (q == p)) [
    | inl same ↦ elim (idle t (e ∙ ap some ((nat_eq.beq_iff q p).0 same))) [ ]
    | inr f ↦ f
  ]

  other-Fetches :
      (p q : ℕ) (new other : Job)
      → (q == p) ≡ false
      → Fetches jobs fetching q other
      → Fetches (insert p new jobs) fetching q other
  other-Fetches p q new other different f = record {
    is_stored = lookup-insert_other q p new jobs different ∙ f.is_stored;
    is_fetching = f.is_fetching;
    redirects = f.redirects;
  }

  new-Fetches :
      (p : ℕ) (job new : Job)
      → Fetches jobs fetching p job
      → new.hash ≡ job.hash
      → new.redirect_count ≤ 10
      → Fetches (insert p new jobs) fetching p new
  new-Fetches p job new f same_hash bound = record {
    is_stored = lookup-insert_self p new jobs;
    is_fetching = subst (λ h. lookup h fetching ≡ some p) (sym same_hash) f.is_fetching;
    redirects = bound;
  }

  -- A job that is stored again still fetches its hash.
  stored_fetching :
      (p : ℕ) (job new : Job)
      → Fetches jobs fetching p job
      → new.hash ≡ job.hash
      → new.redirect_count ≤ 10
      → (h : String) (q : ℕ) → lookup h fetching ≡ some q
      → (found : Job) × (found.hash ≡ h) × Fetches (insert p new jobs) fetching q found
  stored_fetching p job new f same_hash bound h q e =
      let (other, hash, g) = tables.fetching_job h q e in
      elim (Bool-cases (q == p)) [
        | inl t ↦
            let same : q ≡ p = (nat_eq.beq_iff q p).0 t in
            (
              new,
              same_hash
                  ∙ ap (λ j. j.hash)
                      (same_job p job other f.is_stored
                        (subst (λ r. lookup r jobs ≡ some other) same g.is_stored))
                  ∙ hash,
              subst (λ r. Fetches (insert p new jobs) fetching r new) (sym same)
                  (new-Fetches p job new f same_hash bound),
            )
        | inr different ↦ (other, hash, other-Fetches p q new other different g)
      ]

  pub stored_old :
      (p : ℕ) (job new : Job)
      → lookup p jobs ≡ some job
      → (q : ℕ) (other : Job) → lookup q (insert p new jobs) ≡ some other
      → q < next
  stored_old p job new there q other e = elim (insert-cases q p new other jobs e) [
    | inl (same, _) ↦ subst (λ r. r < next) (sym same) (tables.job_old p job there)
    | inr (_, old) ↦ tables.job_old q other old
  ]

  pub stored_redirects :
      (p : ℕ) (new : Job)
      → new.redirect_count ≤ 11
      → (q : ℕ) (other : Job) → lookup q (insert p new jobs) ≡ some other
      → other.redirect_count ≤ 11
  stored_redirects p new bound q other e = elim (insert-cases q p new other jobs e) [
    | inl (_, same) ↦ subst (λ (j : Job). j.redirect_count ≤ 11) same bound
    | inr (_, old) ↦ tables.job_redirects q other old
  ]

  -- A job that waits for no result is stored again.
  pub store-Tables :
      (p : ℕ) (job new : Job)
      → Fetches jobs fetching p job
      → Idle pending p
      → new.hash ≡ job.hash
      → new.redirect_count ≤ 10
      → Tables (insert p new jobs) fetching pending next
        × Fetches (insert p new jobs) fetching p new
  store-Tables p job new f idle same_hash bound = (
    record {
      fetching_job = stored_fetching p job new f same_hash bound;
      pending_job = λ t q e.
          let (other, transfer, g) = tables.pending_job t q e in
          (other, transfer, other-Fetches p q new other (other_pointer t p q idle e) g);
      job_old = stored_old p job new f.is_stored;
      transfer_old = tables.transfer_old;
      job_redirects = stored_redirects p new (omega (arith, bound));
    },
    new-Fetches p job new f same_hash bound,
  )

  -- A job that waits for no result starts a transfer, which is its current one then.
  pub transfer-Tables :
      (p : ℕ) (job new : Job)
      → Fetches jobs fetching p job
      → Idle pending p
      → new.hash ≡ job.hash
      → new.redirect_count ≤ 10
      → new.file_transfer ≡ some next
      → Tables (insert p new jobs) fetching (insert next p pending) (suc next)
  transfer-Tables p job new f idle same_hash bound transfer =
      let (stored, g) = store-Tables p job new f idle same_hash bound in
      record {
        fetching_job = stored.fetching_job;
        pending_job = λ t q e. elim (insert-cases t next p q pending e) [
          | inl (same, at) ↦ (
            new,
            transfer ∙ ap some (sym same),
            subst (λ r. Fetches (insert p new jobs) fetching r new) at g,
          )
          | inr (_, old) ↦ stored.pending_job t q old
        ];
        job_old = λ q other e. omega (arith, stored.job_old q other e);
        transfer_old = λ t q e. elim (insert-cases t next p q pending e) [
          | inl (same, _) ↦ omega (arith, same)
          | inr (_, old) ↦ omega (arith, tables.transfer_old t q old)
        ];
        job_redirects = stored.job_redirects;
      }
