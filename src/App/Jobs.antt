-- ===== src/App/Jobs.antt =====
-- app/src/io/jobmanager.h and jobmanager.cpp: JobInfo and JobManager. A job and a JobInfo are
-- objects, given by their pointers. A JobInfo's slots are connected to the signals of its own job
-- only, so that the assertions on their first argument hold.
pub mod Registry
pub mod States
use harbour_sailfishconnect.Base.{
  ℕ, suc, ◌+◌, String, Bool, not, Option, none, some, List, [], ◌∷◌, ◌++◌, map, if◌then◌else◌, ◌==◌,
  string_eq, nat_eq, ltb, eqb, ◌&&◌, ℤ, pos, minus_one, sub_ℕ, is_nonneg, eqb_ℤ,
}

pub record Url : Type 0 where
  pub scheme : String
  pub path : String

-- What the program knows of a KJob: a download with its destination, an upload, or another one.
pub data Kind : Type 0 where
  download : String → String → Kind
  upload : String → Kind
  other : Kind

pub data State : Type 0 where
  running canceled finished : State

pub record JobInfo : Type 0 where
  pub self : ℕ
  pub job : ℕ
  pub state : State
  pub device_id : String
  pub target : Url
  pub error_string : String
  pub total_bytes : ℤ
  pub processed_bytes : ℤ
  pub total_files : ℤ
  pub processed_files : ℤ
  pub title : String
  pub field1 : String × String
  pub field2 : String × String

pub data Signal : Type 0 where
  title_changed target_changed state_changed : Signal
  total_bytes_changed processed_bytes_changed total_files_changed : Signal
  processed_files_changed : Signal

-- The result of a slot: the signals it emits, and the JobInfo after it.
abbrev pub Emitting : Type 0
Emitting = List Signal × JobInfo

-- A qulonglong that is stored in a qint64.
unfoldable pub to_qint64 : ℕ → ℤ
to_qint64 n = if ltb n 9223372036854775808 then pos n else sub_ℕ n 18446744073709551616

unfoldable pub set_target : Url → JobInfo → Emitting
set_target value i =
    if value.scheme == i.target.scheme && value.path == i.target.path
    then ([], i)
    else (target_changed ∷ [], record i { target = value })

unfoldable pub set_device : String → Emitting → Emitting
set_device device_id (signals, i) = (signals, record i { device_id = device_id })

unfoldable pub get_target : Kind → JobInfo → Emitting
unfolding set_target set_device
get_target (download destination device_id) i =
    set_device device_id (set_target (record { scheme = "local"; path = destination }) i)
get_target (upload device_id) i =
    set_device device_id (set_target (record { scheme = "remote"; path = "" }) i)
get_target other i = ([], i)

-- The constructor; nothing is connected yet to the signal of get_target.
unfoldable pub new_info : ℕ → ℕ → Kind → JobInfo
unfolding get_target
new_info self job kind =
    (get_target kind (record {
      self = self;
      job = job;
      state = running;
      device_id = "";
      target = record { scheme = ""; path = "" };
      error_string = "";
      total_bytes = minus_one;
      processed_bytes = pos 0;
      total_files = minus_one;
      processed_files = pos 0;
      title = "";
      field1 = ("", "");
      field2 = ("", "");
    })).1

pub data Progress : Type 0 where
  unknown complete : Progress
  ratio : ℤ → ℤ → Progress

-- progress(): -1.0, 1.0, or the quotient of two numbers.
unfoldable pub progress : JobInfo → Progress
progress i =
    if not (is_nonneg i.total_bytes)
    then unknown
    else if eqb_ℤ i.total_bytes (pos 0)
    then complete
    else ratio i.processed_bytes i.total_bytes

unfoldable pub on_description : String → String × String → String × String → JobInfo → Emitting
on_description title field1 field2 i =
    let j = record i { title = title; field1 = field1; field2 = field2 } in
    if not (title == j.title) then (title_changed ∷ [], record j { title = title }) else ([], j)

-- KJob::Unit; the program does nothing for the other units.
pub data JobUnit : Type 0 where
  bytes files directories items : JobUnit

unfoldable pub on_total_amount : JobUnit → ℕ → JobInfo → Emitting
unfolding to_qint64
on_total_amount bytes n i = (total_bytes_changed ∷ [], record i { total_bytes = to_qint64 n })
on_total_amount files n i = (total_files_changed ∷ [], record i { total_files = to_qint64 n })
on_total_amount directories n i = ([], i)
on_total_amount items n i = ([], i)

unfoldable pub on_processed_amount : JobUnit → ℕ → JobInfo → Emitting
unfolding to_qint64
on_processed_amount bytes n i =
    (processed_bytes_changed ∷ [], record i { processed_bytes = to_qint64 n })
on_processed_amount files n i =
    (processed_files_changed ∷ [], record i { processed_files = to_qint64 n })
on_processed_amount directories n i = ([], i)
on_processed_amount items n i = ([], i)

-- onFinished(): NoError is 0 and KilledJobError 1; `error_number` is the translated "Error %1".
unfoldable pub on_finished : (ℕ → String) → ℕ → String → JobInfo → Emitting
on_finished error_number error error_text i =
    let j = record i { state = if eqb error 1 then canceled else finished } in
    (
      state_changed ∷ [],
      if not (eqb error 0)
          then record j {
            error_string = if error_text == "" then error_number error else error_text;
          }
          else j,
    )

pub record JobManager : Type 0 where
  pub jobs : List JobInfo
  pub next : ℕ

pub data ManagerSignal : Type 0 where
  job_added job_removed : JobInfo → ManagerSignal

unfoldable pub register_job : ℕ → Kind → JobManager → List ManagerSignal × JobManager
unfolding new_info
register_job job kind m =
    let info = new_info m.next job kind in
    (job_added info ∷ [], record { jobs = m.jobs ++ info ∷ []; next = suc m.next })

unfoldable pub infos_of : ℕ → List JobInfo → List JobInfo
infos_of job [] = []
infos_of job (i ∷ is) = let rest = infos_of job is in if eqb i.job job then i ∷ rest else rest

-- QList::removeOne of a pointer.
unfoldable pub remove_one : JobInfo → List JobInfo → List JobInfo
remove_one i [] = []
remove_one i (j ∷ js) = let rest = remove_one i js in if eqb j.self i.self then js else j ∷ rest

unfoldable pub remove_each : List JobInfo → List JobInfo → List JobInfo
unfolding remove_one
remove_each [] js = js
remove_each (i ∷ is) js = remove_each is (remove_one i js)

unfoldable pub unregister_job : ℕ → JobManager → List ManagerSignal × JobManager
unfolding infos_of remove_each
unregister_job job m =
    let to_remove = infos_of job m.jobs in
    (map job_removed to_remove, record m { jobs = remove_each to_remove m.jobs })
