-- ===== src/Jobs/Workers.antt =====
-- The counters of active jobs (src/jobs/manager.go, registerWorker and updateWorkerActiveJobs).
use atom_engine.Base.{
  ℕ, ◌-◌, ◌≡◌, refl, String, Option, none, some, List, [], ◌∷◌, Dict, lookup, insert, str_eq, ltb,
  Bool-cases, inl, inr, not, arith, All, ◌&&◌,
}
use atom_engine.Jobs.{
  Job, JobStore, Result, ok, err, negative, running, same_status, is_completed, is_positive,
  pending, list_jobs_by_type,
}
use atom_engine.Jobs.Manager.{
  Manager, WorkerInfo, Message, saved, send, release_worker, update_worker_active_jobs,
  register_worker, complete_job, complete_job_with_bpmn_error, fail_job, throw_error,
  update_job_retries, cancel_job, update_job_timeout, throw_job_error, create_job, find_job,
  is_some,
}
use atom_engine.Jobs.Manager.Rules.{with_job-found, saved-found, if-known}
use atom_engine.Jobs.Activation.{activate_jobs, outcome}
use atom_engine.Jobs.Cleanup.{
  live_workers, perform_cleanup, check_worker_health, inactive_threshold, cleanup_limit,
}
use atom_engine.Jobs.Calls.{
  Call, step, run, new_job_manager, creates, activates, completes, completes_with_error, fails,
  throws, sets_retries, cancels, sets_timeout, throws_job_error, cleans_up, checks_workers,
}

-- Every worker in the table counts no active job.
abbrev pub AreIdle : Dict WorkerInfo → Type 0
AreIdle ws = All (λ (e : String × WorkerInfo). (e.1).active_jobs ≡ 0) ws

AreIdle-insert :
    (id : String) (w : WorkerInfo) (ws : Dict WorkerInfo)
    → w.active_jobs ≡ 0
    → AreIdle ws
    → AreIdle (insert id w ws)
unfolding insert
AreIdle-insert id w [] e h = (e, tt)
AreIdle-insert id w ((j, v) ∷ ws) e (h, hs) = elim (Bool-cases (str_eq j id)) [
  | inl y ↦ rw y (e, hs)
  | inr n ↦ rw n (h, AreIdle-insert id w ws e hs)
]

AreIdle-lookup :
    (id : String) (ws : Dict WorkerInfo) (w : WorkerInfo)
    → AreIdle ws
    → lookup id ws ≡ some w
    → w.active_jobs ≡ 0
unfolding lookup
AreIdle-lookup id [] w h = λ e. cc
AreIdle-lookup id ((j, v) ∷ ws) w (h, hs) = elim (Bool-cases (str_eq j id)) [
  | inl y ↦ rw y λ e. ground (arith, e)
  | inr n ↦ rw n (AreIdle-lookup id ws w hs)
]

AreIdle-release :
    (id : String) (ws : Dict WorkerInfo)
    → AreIdle ws
    → AreIdle (update_worker_active_jobs id (negative 0) ws)
unfolding update_worker_active_jobs
AreIdle-release id ws h = go (lookup id ws) refl
  where
    go :
        (o : Option WorkerInfo)
        → lookup id ws ≡ o
        → AreIdle (update_worker_active_jobs id (negative 0) ws)
    go none e = rw (e, update_worker_active_jobs) h
    go (some w) e =
        rw (e, update_worker_active_jobs)
          (AreIdle-insert id _ ws (omega (arith, AreIdle-lookup id ws w h e)) h)

AreIdle-register :
    (now : ℕ) (id t : String) (k d : ℕ) (ws : Dict WorkerInfo)
    → AreIdle ws
    → AreIdle (register_worker now id t k d ws)
unfolding register_worker
AreIdle-register now id t k d ws h = go (lookup id ws) refl
  where
    go : (o : Option WorkerInfo) → lookup id ws ≡ o → AreIdle (register_worker now id t k d ws)
    go none e = rw (e, register_worker) (AreIdle-insert id _ ws refl h)
    go (some w) e = rw (e, register_worker) (AreIdle-insert id _ ws (AreIdle-lookup id ws w h e) h)

AreIdle-live : (now : ℕ) (ws : Dict WorkerInfo) → AreIdle ws → AreIdle (live_workers now ws)
unfolding live_workers
AreIdle-live now [] h = tt
AreIdle-live now ((id, w) ∷ ws) (h, hs) =
    elim (Bool-cases (ltb inactive_threshold (now - w.last_ping))) [
      | inl y ↦ rw y (AreIdle-live now ws hs)
      | inr n ↦ rw n (h, AreIdle-live now ws hs)
    ]

record Idle (m : Manager) : Type 0 where
  idle : AreIdle m.workers

-- The rules for a manager whose workers are as before.
Idle-same : (m m' : Manager) → m'.workers ≡ m.workers → Idle m → Idle m'
Idle-same m m' e h = record { idle = rw e h.idle }

Idle-send : (c : Message) (m : Manager) → Idle m → Idle (send c m)
unfolding send
Idle-send c m h = if-known Idle m.has_component _ _ (λ _. Idle-same m _ refl h) (λ _. h)

Idle-release_worker : (id : String) (m : Manager) → Idle m → Idle (release_worker id m)
unfolding release_worker
Idle-release_worker id m h = record { idle = AreIdle-release id m.workers h.idle }

abbrev After : Manager × Result (Unit {0}) → Type 0
After r = Idle r.0

outcome_workers :
    (m : Manager) (r : JobStore × Option (List Job)) → (outcome m r).0.workers ≡ m.workers
outcome_workers m (st, none) = refl
outcome_workers m (st, some js) = refl

activate_jobs-Idle :
    (now : ℕ) (t w : String) (k d : ℕ) (m : Manager) → Idle m → Idle (activate_jobs now t w k d m).0
unfolding activate_jobs
activate_jobs-Idle now t w k d m h = go (list_jobs_by_type t (some pending) k m.store) refl
  where
    done : AreIdle (register_worker now w t k d m.workers)
    done = AreIdle-register now w t k d m.workers h.idle

    go :
        (o : Result (List Job))
        → list_jobs_by_type t (some pending) k m.store ≡ o
        → Idle (activate_jobs now t w k d m).0
    go (err x) e = rw (e, activate_jobs) (record { idle = done })
    go (ok ls) e = rw (e, activate_jobs) (record { idle = rw (outcome_workers _ _) done })

perform_cleanup-Idle : (now : ℕ) (m : Manager) → Idle m → Idle (perform_cleanup now m)
unfolding perform_cleanup
perform_cleanup-Idle now m h = go (list_jobs_by_type "" (some running) cleanup_limit m.store) refl
  where
    go :
        (o : Result (List Job))
        → list_jobs_by_type "" (some running) cleanup_limit m.store ≡ o
        → Idle (perform_cleanup now m)
    go (err x) e = rw (e, perform_cleanup) h
    go (ok ls) e = rw (e, perform_cleanup) (Idle-same m _ refl h)

-- A saved job leaves the workers as they are.
saves :
    (m : Manager) (r : Result JobStore) (f : Manager → Manager)
    → Idle m
    → ((m' : Manager) → Idle m' → Idle (f m'))
    → Idle (saved m r f).0
saves m r f h k =
    saved-found Idle m r f h λ st _. k (record m { store = st }) (Idle-same m _ refl h)

step-Idle : (now : ℕ) (c : Call) (m : Manager) → Idle m → Idle (step now c m)
unfolding step create_job complete_job complete_job_with_bpmn_error fail_job throw_error
    update_job_retries cancel_job update_job_timeout throw_job_error check_worker_health
step-Idle now (creates j) m h = saves m _ _ h λ m' h'. h'
step-Idle now (completes_with_error id c e) m h =
    with_job-found Idle m _ _ h λ j _. saves m _ _ h λ m' h'. Idle-release_worker _ m' h'
step-Idle now (throws id c e vs) m h =
    with_job-found Idle m _ _ h λ j _. saves m _ _ h λ m' h'. Idle-send _ m' h'
step-Idle now (sets_retries id r) m h = with_job-found Idle m _ _ h λ j _. saves m _ _ h λ m' h'. h'
step-Idle now (throws_job_error id c e vs) m h =
    with_job-found Idle m _ _ h λ j _. saves m _ _ h λ m' h'. Idle-send _ m' h'
step-Idle now checks_workers m h = record { idle = AreIdle-live now m.workers h.idle }
step-Idle now cleans_up m h = perform_cleanup-Idle now m h
step-Idle now (activates t w k d) m h = activate_jobs-Idle now t w k d m h
step-Idle now (completes id vs) m h = with_job-found Idle m (find_job id m.store) _ h λ j _.
    if-known After (not (same_status j.status running)) _ _ (λ _. h)
      λ _. saves m _ _ h λ m' h'. Idle-send _ _ (Idle-release_worker _ m' h')
step-Idle now (fails id r e b) m h = with_job-found Idle m (find_job id m.store) _ h λ j _.
    saves m _ _ h λ m' h'.
      if-known Idle (is_positive r) _ _ (λ _. Idle-release_worker _ m' h')
        λ _. Idle-send _ _ (Idle-release_worker _ m' h')
step-Idle now (cancels id) m h = with_job-found Idle m (find_job id m.store) _ h λ j _.
    if-known After (is_completed j) _ _ (λ _. h)
      λ _. saves m _ _ h λ m' h'.
        if-known Idle (str_eq j.worker_id "") _ _ (λ _. h') λ _. Idle-release_worker _ m' h'
step-Idle now (sets_timeout id d) m h = with_job-found Idle m (find_job id m.store) _ h λ j _.
    if-known After (same_status j.status running && is_some j.scheduled_at) _ _
      (λ _. saves m _ _ h λ m' h'. h') λ _. h

run-Idle : (cs : List (ℕ × Call)) (m : Manager) → Idle m → Idle (run cs m)
unfolding run
run-Idle [] m h = h
run-Idle ((now, c) ∷ cs) m h = run-Idle cs (step now c m) (step-Idle now c m h)

-- After any calls on a new manager every worker in its table counts no active job: activation
-- does not raise the counter, and the other calls only lower it, down to 0.
pub active_jobs_stay_zero :
    (st : JobStore) (cs : List (ℕ × Call)) (id : String) (w : WorkerInfo)
    → lookup id (run cs (new_job_manager st)).workers ≡ some w
    → w.active_jobs ≡ 0
unfolding new_job_manager
active_jobs_stay_zero st cs id w e =
    AreIdle-lookup id (run cs (new_job_manager st)).workers w
      (run-Idle cs (new_job_manager st) (record { idle = tt })).idle e
