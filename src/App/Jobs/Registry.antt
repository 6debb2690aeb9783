-- ===== src/App/Jobs/Registry.antt =====
-- Which jobs are listed by app/src/io/jobmanager.cpp.
use harbour_sailfishconnect.Base.{
  ℕ, false, List, [], ◌∷◌, map, if◌then◌else◌, eqb, ◌≡◌, refl, arith,
}
use harbour_sailfishconnect.App.Jobs.{
  JobInfo, JobManager, job_removed, infos_of, remove_one, remove_each, unregister_job,
}

-- A list of pointers without repetition.
abbrev pub Missing : ℕ → List JobInfo → Type 0
Missing p [] = Unit
Missing p (i ∷ is) = (eqb i.self p ≡ false) × Missing p is

abbrev pub Distinct : List JobInfo → Type 0
Distinct [] = Unit
Distinct (i ∷ is) = Missing i.self is × Distinct is

-- The entries of other jobs, in their order.
abbrev pub others : ℕ → List JobInfo → List JobInfo
others job [] = []
others job (i ∷ is) = let rest = others job is in if eqb i.job job then rest else i ∷ rest

infos_of-Missing : (p job : ℕ) (is : List JobInfo) → Missing p is → Missing p (infos_of job is)
unfolding infos_of
infos_of-Missing p job [] m = tt
infos_of-Missing p job (i ∷ is) (m, ms) = ground (arith, infos_of-Missing p job is ms)

remove_each_keeps :
    (i : JobInfo) (is js : List JobInfo)
    → Missing i.self is
    → remove_each is (i ∷ js) ≡ i ∷ remove_each is js
unfolding remove_each remove_one
remove_each_keeps i [] js m = refl
remove_each_keeps i (j ∷ is) js (m, ms) =
    ground (arith, remove_each_keeps i is (remove_one j js) ms)

remove_each-infos_of :
    (job : ℕ) (is : List JobInfo) → Distinct is → remove_each (infos_of job is) is ≡ others job is
unfolding infos_of remove_each remove_one
remove_each-infos_of job [] d = refl
remove_each-infos_of job (i ∷ is) (m, d) = ground (
  arith,
  remove_each-infos_of job is d,
  remove_each_keeps i (infos_of job is) is (infos_of-Missing i.self job is m),
)

-- To unregister a job removes every entry of it, says so of each in the order of the list, and
-- leaves the entries of the other jobs in their order, when the entries are different objects.
pub unregister_job_lem :
    (job : ℕ) (m : JobManager)
    → Distinct m.jobs
    → ((unregister_job job m).1.jobs ≡ others job m.jobs)
      × ((unregister_job job m).0 ≡ map job_removed (infos_of job m.jobs))
unfolding unregister_job
unregister_job_lem job m d = (remove_each-infos_of job m.jobs d, refl)
