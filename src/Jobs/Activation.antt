-- ===== src/Jobs/Activation.antt =====
-- Activation of jobs for a worker (src/jobs/manager.go, ActivateJobs).
pub mod Rounds
pub mod Bounds
pub mod Leases
use atom_engine.Base.{
  ℕ, ◌+◌, String, Bool, true, false, Option, none, some, List, [], ◌∷◌, ◌++◌, length, leb,
  if◌then◌else◌,
}
use atom_engine.Jobs.{
  Job, JobStore, Error, Result, ok, err, pending, same_status, mark_as_started, get_job, save_job,
  list_jobs_by_type,
}
use atom_engine.Jobs.Manager.{Manager, register_worker}

-- What one round of the loop does: go on, stop with what was activated, or panic on a job that is
-- no longer in the store.
pub data Round : Type 0 where
  next halt : JobStore → List Job → Round
  crash : JobStore → Round

-- A job as the worker gets it, with the end of its lease.
unfoldable pub leased : ℕ → ℕ → String → Job → Job
unfolding mark_as_started
leased now timeout worker_id j = record (mark_as_started now worker_id j) {
  scheduled_at = some (now + timeout);
}

abbrev pub collect : ℕ → JobStore → List Job → Round
collect max_jobs st acc = if leb max_jobs (length acc) then halt st acc else next st acc

-- From the second reading of the job on. A job that cannot be read or saved is skipped.
abbrev pub take_fresh : ℕ → ℕ → String → ℕ → Result (Option Job) → JobStore → List Job → Round
take_fresh now timeout worker_id max_jobs (err x) st acc = next st acc
take_fresh now timeout worker_id max_jobs (ok none) st acc = crash st
take_fresh now timeout worker_id max_jobs (ok (some fresh)) st acc =
    if same_status fresh.status pending
    then elim (save_job (leased now timeout worker_id fresh) st) [
      | err x ↦ next st acc
      | ok st' ↦ collect max_jobs st' (acc ++ leased now timeout worker_id fresh ∷ [])
    ]
    else next st acc

unfoldable pub activate_one : ℕ → ℕ → String → ℕ → Job → JobStore → List Job → Round
activate_one now timeout worker_id max_jobs j st acc =
    if same_status j.status pending
    then take_fresh now timeout worker_id max_jobs (get_job j.id st) st acc
    else next st acc

-- The loop over the jobs that were listed; `none` is the panic.
unfoldable pub activate_loop :
    ℕ → ℕ → String → ℕ → List Job → JobStore → List Job → JobStore × Option (List Job)
activate_loop now timeout worker_id max_jobs [] st acc = (st, some acc)
activate_loop now timeout worker_id max_jobs (j ∷ js) st acc =
    elim (activate_one now timeout worker_id max_jobs j st acc) [
      | next st' acc' ↦ activate_loop now timeout worker_id max_jobs js st' acc'
      | halt st' acc' ↦ (st', some acc')
      | crash st' ↦ (st', none)
    ]

pub data Activated : Type 0 where
  jobs : List Job → Activated
  refused : Error → Activated
  panicked : Activated

abbrev pub outcome : Manager → JobStore × Option (List Job) → Manager × Activated
outcome m (st, none) = (record m { store = st }, panicked)
outcome m (st, some js) = (record m { store = st }, jobs js)

-- The worker is registered first, also when the jobs cannot be listed.
unfoldable pub activate_jobs : ℕ → String → String → ℕ → ℕ → Manager → Manager × Activated
unfolding activate_loop activate_one
activate_jobs now job_type worker_id max_jobs timeout m =
    let m' = record m {
      workers = register_worker now worker_id job_type max_jobs timeout m.workers;
    } in
    elim (list_jobs_by_type job_type (some pending) max_jobs m.store) [
      | err x ↦ (m', refused x)
      | ok js ↦ outcome m' (activate_loop now timeout worker_id max_jobs js m.store [])
    ]
