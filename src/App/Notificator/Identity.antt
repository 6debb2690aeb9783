-- ===== src/App/Notificator/Identity.antt =====
-- One notification for each job of app/src/helper/jobsnotificator.cpp.
use harbour_sailfishconnect.Base.{
  ℕ, ◌≡◌, ◌≢◌, refl, ◌∙◌, Option, none, some, some-injective, subst, List, [], ◌∷◌, All, ◌==◌,
  nat_eq, arith, Option-cases, Bool-cases, inl, inr, ap, sym,
}
use harbour_sailfishconnect.Base.Dict.{lookup, insert, lookup-insert}
use harbour_sailfishconnect.App.Jobs.{JobInfo, State, running, canceled, finished}
use harbour_sailfishconnect.App.Notificator.{
  Notification, Desktop, Notifications, running_notification, replacement, finished_notification,
  canceled_notification, next_notification, job_changed, add_job, first_notification,
}

none_some : {A : Type 0} (a : A) → ◌≢◌ {A = Option A} none (some a)
none_some a h = cc

module _ (qt : Desktop) where
  next_id :
      (s : State) (i : JobInfo) (n : Notification)
      → (next_notification qt s i n).replaces_id ≡ n.replaces_id
  unfolding next_notification running_notification replacement finished_notification
      canceled_notification
  next_id running i n = ground arith
  next_id canceled i n = ground arith
  next_id finished i n = ground arith

  -- Changes of jobs and new jobs, with all that is published, each with its JobInfo's pointer.
  -- The JobInfo of a new job is a new object.
  pub data Changed (jobs : Notifications) : List (ℕ × Notification) → Notifications → Type 0 where
    unchanged : Changed jobs [] jobs
    changes :
        (i : JobInfo) {outs : List (ℕ × Notification)} (n : Notification)
        {mid after : Notifications}
        → Changed jobs outs mid
        → job_changed qt i mid ≡ some (n, after)
        → Changed jobs ((i.self, n) ∷ outs) after
    adds :
        (i : JobInfo) {outs : List (ℕ × Notification)} {mid : Notifications}
        → Changed jobs outs mid
        → lookup i.self mid ≡ none
        → Changed jobs ((i.self, (add_job qt i mid).0) ∷ outs) (add_job qt i mid).1

  -- The job has a notification with this number.
  abbrev pub Numbered : ℕ → ℕ → Notifications → Type 0
  Numbered p id jobs = (n : Notification) × (lookup p jobs ≡ some n) × (n.replaces_id ≡ id)

  insert-Numbered :
      (p id k : ℕ) (m : Notification) (jobs : Notifications)
      → Numbered p id jobs
      → (p ≡ k → m.replaces_id ≡ id)
      → Numbered p id (insert k m jobs)
  insert-Numbered p id k m jobs (n, found, numbered) h = elim (Bool-cases (p == k)) [
    | inl e ↦ (m, lookup-insert p k m jobs ∙ rw e refl, h ((nat_eq.beq_iff p k).0 e))
    | inr e ↦ (n, lookup-insert p k m jobs ∙ rw e found, numbered)
  ]

  own_id :
      (p id : ℕ) (i : JobInfo) (m : Notification) (jobs : Notifications)
      → Numbered p id jobs
      → lookup i.self jobs ≡ some m
      → i.self ≡ p
      → (next_notification qt i.state i m).replaces_id ≡ id
  own_id p id i m jobs (n, found, numbered) e same =
      let equal : m ≡ n = some-injective m n (sym e ∙ ap (λ k. lookup k jobs) same ∙ found) in
      next_id i.state i m ∙ ap (λ (k : Notification). k.replaces_id) equal ∙ numbered

  changed_some :
      (i : JobInfo) (m : Notification) (jobs : Notifications)
      → lookup i.self jobs ≡ some m
      → job_changed qt i jobs
        ≡ some (
          next_notification qt i.state i m,
          insert i.self (qt.publish (next_notification qt i.state i m)) jobs,
        )
  unfolding job_changed
  changed_some i m jobs e = rw (job_changed, e) refl

  changed_none :
      (i : JobInfo) (jobs : Notifications)
      → lookup i.self jobs ≡ none
      → job_changed qt i jobs ≡ none
  unfolding job_changed
  changed_none i jobs e = rw (job_changed, e) refl

  published-Numbered :
      (p id : ℕ) (i : JobInfo) (m : Notification) (jobs : Notifications)
      → id ≢ 0
      → Numbered p id jobs
      → lookup i.self jobs ≡ some m
      → Numbered p id (insert i.self (qt.publish (next_notification qt i.state i m)) jobs)
  published-Numbered p id i m jobs nz numbered e =
      insert-Numbered p id i.self (qt.publish (next_notification qt i.state i m)) jobs numbered
        (λ same.
          let own = own_id p id i m jobs numbered e (sym same) in
          qt.publish_keeps (next_notification qt i.state i m) (λ zero_id. nz (sym own ∙ zero_id))
          ∙ own)

  change_step :
      (p id : ℕ) (i : JobInfo) (n : Notification) (jobs after : Notifications)
      → id ≢ 0
      → Numbered p id jobs
      → job_changed qt i jobs ≡ some (n, after)
      → Numbered p id after × (i.self ≡ p → n.replaces_id ≡ id)
  change_step p id i n jobs after nz numbered h = elim (Option-cases (lookup i.self jobs)) [
    | inl e ↦ absurd (none_some (n, after) (sym (changed_none i jobs e) ∙ h))
    | inr (m, e) ↦
        subst
          (λ (r : Notification × Notifications).
            Numbered p id r.1 × (i.self ≡ p → r.0.replaces_id ≡ id))
          (some-injective _ _ (sym (changed_some i m jobs e) ∙ h))
          (published-Numbered p id i m jobs nz numbered e, own_id p id i m jobs numbered e)
  ]

  new_other :
      (p id k : ℕ) (jobs : Notifications) → Numbered p id jobs → lookup k jobs ≡ none → k ≢ p
  new_other p id k jobs (n, found, numbered) h same =
      none_some n (sym h ∙ ap (λ j. lookup j jobs) same ∙ found)

  -- A job has one notification. Once it was published with a number, everything that is
  -- published for the job afterwards has the same number, so that it replaces the one before,
  -- whatever happens to it and to other jobs in between.
  pub same_notification :
      (p id : ℕ) {jobs : Notifications} {outs : List (ℕ × Notification)} {after : Notifications}
      → id ≢ 0
      → Numbered p id jobs
      → Changed jobs outs after
      → Numbered p id after × All (λ (o : ℕ × Notification). o.0 ≡ p → o.1.replaces_id ≡ id) outs
  unfolding add_job
  same_notification p id nz start unchanged = (start, tt)
  same_notification p id nz start (changes i n c h) =
      let (numbered, all) = same_notification p id nz start c in
      let (next, own) = change_step p id i n _ _ nz numbered h in (next, (own, all))
  same_notification p id nz start (adds i c h) =
      let (numbered, all) = same_notification p id nz start c in
      (
        insert-Numbered p id i.self (qt.publish (first_notification qt i)) _ numbered
            (λ same. absurd (new_other p id i.self _ numbered h (sym same))),
        (λ same. absurd (new_other p id i.self _ numbered h same), all),
      )
