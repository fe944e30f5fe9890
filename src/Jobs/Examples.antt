-- ===== src/Jobs/Examples.antt =====
-- The theorems on jobs at concrete inputs (src/jobs/manager.go).
use Prim.Native.Nat.{max}
use atom_engine.Base.{
  some, none, ℕ, ◌≡◌, ◌≤◌, ◌⊎◌, refl, inl, inr, true, false, List, [], ◌∷◌, lookup, insert, length,
  arith, str_eq, eq_iff, Bool-cases,
}
use atom_engine.Jobs.{
  ok, job_not_running, pending, natural, running, deferred, Job, JobStore, new_job, get_job,
  save_job, list_jobs_by_type, passing,
}
use atom_engine.Jobs.Manager.{
  saved, fail_job, complete_job, find_job, with_job, Manager, WorkerInfo, register_worker,
}
use atom_engine.Jobs.Activation.{activate_jobs, leased, jobs}
use atom_engine.Jobs.Activation.Bounds.{length-activate_jobs}
use atom_engine.Jobs.Activation.Leases.{WellKeyed, Untouched, Leased, activate_jobs_frame}
use atom_engine.Jobs.Calls.{
  Call, step, run, new_job_manager, activates, completes, cleans_up, sets_retries,
}
use atom_engine.Jobs.Cleanup.{perform_cleanup}
use atom_engine.Jobs.Cleanup.Expiry.{lookup-perform_cleanup}
use atom_engine.Jobs.Reports.{IsFailureReported, fail_job-IsFailureReported}
use atom_engine.Jobs.Errors.{answer, step-answer}
use atom_engine.Jobs.Transitions.{AreKeyed, Moved}
use atom_engine.Jobs.Transitions.Steps.{HasStatus, step-Moved, deferred_stays}
use atom_engine.Jobs.Workers.{active_jobs_stay_zero}

abbrev pay_job : Job
unfolding new_job
pay_job = new_job "j1" 10 "pay" "p1" "task"

abbrev ship_job : Job
unfolding new_job
ship_job = new_job "j2" 11 "ship" "p1" "task2"

abbrev job_store : JobStore
job_store = record {
  jobs = ("j1", pay_job) ∷ ("j2", ship_job) ∷ [];
  get_fails = λ id. false;
  save_fails = λ id. false;
  list_fails = false;
}

job_store-WellKeyed : WellKeyed job_store
unfolding lookup pay_job ship_job
job_store-WellKeyed id f = elim (Bool-cases (str_eq "j1" id)) [
  | inl y ↦ rw y λ e. ground (arith, eq_iff "j1" id, e)
  | inr n ↦ rw n (elim (Bool-cases (str_eq "j2" id)) [
    | inl y ↦ rw y λ e. ground (arith, eq_iff "j2" id, e)
    | inr n ↦ rw n λ e. cc
  ])
]

abbrev manager : Manager
manager = record { store = job_store; workers = []; has_component = true; sent = [] }

abbrev paid_jobs : List Job
paid_jobs = leased 20 5 "w" pay_job ∷ []

activation_returns : (activate_jobs 20 "pay" "w" 1 5 manager).1 ≡ jobs paid_jobs
unfolding activate_jobs list_jobs_by_type get_job save_job lookup pay_job
activation_returns = refl

length-activate_jobs_example : length paid_jobs ≤ max 1 1
length-activate_jobs_example =
    length-activate_jobs 20 "pay" "w" 1 5 manager paid_jobs activation_returns

activate_jobs_frame_example :
    Untouched 20 5 "w" "j2" job_store (activate_jobs 20 "pay" "w" 1 5 manager).0.store
    ⊎ Leased 20 5 "w" "j2" job_store (activate_jobs 20 "pay" "w" 1 5 manager).0.store
activate_jobs_frame_example = activate_jobs_frame 20 "pay" "w" 1 5 manager "j2" job_store-WellKeyed

abbrev idle_worker : WorkerInfo
idle_worker = record {
  id = "w";
  job_type = "pay";
  last_ping = 20;
  active_jobs = 0;
  max_jobs = 1;
  timeout = 5;
}

active_jobs_stay_zero_example : idle_worker.active_jobs ≡ 0
unfolding run new_job_manager activate_jobs list_jobs_by_type get_job save_job lookup
    register_worker pay_job insert
active_jobs_stay_zero_example =
    active_jobs_stay_zero job_store ((20, activates "pay" "w" 1 5) ∷ []) "w" idle_worker refl

job_store-AreKeyed : AreKeyed job_store.jobs
unfolding lookup pay_job ship_job
job_store-AreKeyed = (refl, refl, (refl, refl, tt))

abbrev paying : List (ℕ × Call)
paying = (20, activates "pay" "w" 1 5) ∷ []

paid_found :
    lookup "j1" (run paying (new_job_manager job_store)).store.jobs ≡ some (leased 20 5 "w" pay_job)
unfolding run new_job_manager activate_jobs list_jobs_by_type get_job save_job lookup
    register_worker insert pay_job leased
paid_found = refl

step-Moved_example :
    Moved "j1"
      (completes "j1" none)
      running
      (step 30 (completes "j1" none) (run paying (new_job_manager job_store))).store
unfolding leased pay_job
step-Moved_example =
    step-Moved job_store paying 30 (completes "j1" none) "j1" (leased 20 5 "w" pay_job)
      job_store-AreKeyed refl paid_found

abbrev waiting_store : JobStore
unfolding pay_job
waiting_store = record job_store {
  jobs = ("j1", record pay_job { status = deferred; scheduled_at = some 25 }) ∷ [];
}

waiting_store-AreKeyed : AreKeyed waiting_store.jobs
unfolding lookup pay_job waiting_store
waiting_store-AreKeyed = (refl, refl, tt)

abbrev retrying : List (ℕ × Call)
retrying =
    (30, cleans_up) ∷ (40, sets_retries "j1" (natural 3)) ∷ (50, activates "pay" "w" 1 5) ∷ []

deferred_stays_example : HasStatus "j1" deferred (run retrying (new_job_manager waiting_store))
unfolding new_job_manager lookup waiting_store
deferred_stays_example =
    deferred_stays waiting_store retrying "j1" waiting_store-AreKeyed (refl, (refl, (refl, tt)))
      (record pay_job { status = deferred; scheduled_at = some 25 }, refl, refl)

abbrev leased_manager : Manager
leased_manager = record manager {
  store = record job_store { jobs = ("j1", leased 20 5 "w" pay_job) ∷ [] };
}

leased_manager-AreKeyed : AreKeyed leased_manager.store.jobs
unfolding lookup pay_job leased
leased_manager-AreKeyed = (refl, refl, tt)

lookup-perform_cleanup_example :
    lookup "j1" (perform_cleanup 30 leased_manager).store.jobs
    ≡ some (record (leased 20 5 "w" pay_job) {
      status = pending;
      worker_id = "";
      scheduled_at = none;
      updated_at = 30;
    })
unfolding lookup pay_job leased passing
lookup-perform_cleanup_example =
    lookup-perform_cleanup 30 "j1" leased_manager ((λ id. refl), refl) leased_manager-AreKeyed
      (omega arith)

step-answer_example : step 20 (completes "j1" none) manager ≡ manager
unfolding complete_job find_job get_job lookup pay_job answer with_job
step-answer_example = step-answer 20 (completes "j1" none) manager job_not_running refl

fails_well : (fail_job 22 "j1" (natural 2) "boom" 0 leased_manager).1 ≡ ok tt
unfolding fail_job find_job get_job lookup pay_job leased with_job saved save_job
fails_well = refl

fail_job-IsFailureReported_example :
    IsFailureReported 22 "j1"
      (natural 2)
      "boom"
      leased_manager
      (fail_job 22 "j1" (natural 2) "boom" 0 leased_manager).0
fail_job-IsFailureReported_example =
    fail_job-IsFailureReported 22 "j1" (natural 2) "boom" 0 leased_manager refl fails_well
