-- ===== src/Jobs/Cleanup.antt =====
-- The periodic work of the job manager (src/jobs/manager.go, performCleanup and checkWorkerHealth).
pub mod Expiry
use atom_engine.Base.{
  ℕ, ◌-◌, Bool, false, Option, none, some, List, [], ◌∷◌, Dict, ltb, if◌then◌else◌,
}
use atom_engine.Jobs.{Job, JobStore, Result, ok, err, pending, running, save_job, list_jobs_by_type}
use atom_engine.Jobs.Manager.{Manager, WorkerInfo}

-- `job.ScheduledAt != nil && now.After(*job.ScheduledAt)`
abbrev pub lease_over : ℕ → Option ℕ → Bool
lease_over now none = false
lease_over now (some t) = ltb t now

unfoldable pub reset : ℕ → Job → Job
reset now j = record j { status = pending; worker_id = ""; scheduled_at = none; updated_at = now }

-- A job that cannot be saved is skipped.
abbrev pub kept_or : JobStore → Result JobStore → JobStore
kept_or st (ok st') = st'
kept_or st (err e) = st

unfoldable pub cleanup_loop : ℕ → List Job → JobStore → JobStore
unfolding reset
cleanup_loop now [] st = st
cleanup_loop now (j ∷ js) st =
    cleanup_loop now js
      (if lease_over now j.scheduled_at then kept_or st (save_job (reset now j) st) else st)

abbrev pub cleanup_limit : ℕ
cleanup_limit = 1000

unfoldable pub perform_cleanup : ℕ → Manager → Manager
unfolding cleanup_loop
perform_cleanup now m = elim (list_jobs_by_type "" (some running) cleanup_limit m.store) [
  | err e ↦ m
  | ok js ↦ record m { store = cleanup_loop now js m.store }
]

-- Five minutes, in nanoseconds.
abbrev pub inactive_threshold : ℕ
inactive_threshold = 300_000_000_000

-- The loop over the workers. A ping from the future counts as fresh.
unfoldable pub live_workers : ℕ → Dict WorkerInfo → Dict WorkerInfo
live_workers now [] = []
live_workers now ((id, w) ∷ rest) =
    if ltb inactive_threshold (now - w.last_ping)
    then live_workers now rest
    else (id, w) ∷ live_workers now rest

unfoldable pub check_worker_health : ℕ → Manager → Manager
unfolding live_workers
check_worker_health now m = record m { workers = live_workers now m.workers }
