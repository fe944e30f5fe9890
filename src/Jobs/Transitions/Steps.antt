-- ===== src/Jobs/Transitions/Steps.antt =====
-- How the status of a job moves with every call of the manager, and over runs of calls
-- (src/jobs/manager.go).
use atom_engine.Base.{
  ℕ, ◌≡◌, subst, String, Bool, true, false, some, List, [], ◌∷◌, lookup, lookup-insert, str_eq,
  arith, All,
}
use atom_engine.Jobs.{Job, JobStore, JobStatus, completed, deferred, save_job}
use atom_engine.Jobs.Manager.{Manager, create_job}
use atom_engine.Jobs.Manager.Rules.{saved-found}
use atom_engine.Jobs.Cleanup.{check_worker_health}
use atom_engine.Jobs.Calls.{
  Call, step, run, new_job_manager, creates, activates, completes, completes_with_error, fails,
  throws, sets_retries, cancels, sets_timeout, throws_job_error, cleans_up, checks_workers,
}
use atom_engine.Jobs.Transitions.{AreKeyed, Moved, Follows, moves}
use atom_engine.Jobs.Transitions.Keys.{AreKeyed-insert}
use atom_engine.Jobs.Transitions.Single.{
  complete_job-Effect, complete_job_with_bpmn_error-Effect, fail_job-Effect, throw_error-Effect,
  update_job_retries-Effect, cancel_job-Effect, update_job_timeout-Effect, throw_job_error-Effect,
  save_job-jobs,
}
use atom_engine.Jobs.Transitions.Batches.{
  Effect-Follows, Follows-same, Moved-same, activate_jobs-Follows, perform_cleanup-Follows,
}

-- The call files a new job under the id.
abbrev pub files : String → Call → Bool
files id (creates j) = str_eq j.id id
files id c = false

-- As `Follows`, for a call that may file a job.
record Keeps (c : Call) (st st' : JobStore) : Type 0 where
  kept : AreKeyed st'.jobs
  step_moved :
      (id : String) (j : Job)
      → files id c ≡ false
      → lookup id st.jobs ≡ some j
      → Moved id c j.status st'

Follows-Keeps : (c : Call) (st st' : JobStore) → Follows c st st' → Keeps c st st'
Follows-Keeps c st st' f = record { kept = f.keyed; step_moved = λ id j _ e. f.moved id j e }

create_job-Keeps :
    (j : Job) (m : Manager)
    → AreKeyed m.store.jobs
    → Keeps (creates j) m.store (create_job j m).0.store
unfolding create_job
create_job-Keeps j m h =
    saved-found (λ m'. Keeps (creates j) m.store m'.store) m (save_job j m.store) _
      (Follows-Keeps (creates j) m.store m.store (Follows-same (creates j) m.store h))
      λ st' s.
        let e = save_job-jobs j m.store st' s in
        record {
          kept = rw e (AreKeyed-insert j m.store.jobs h);
          step_moved = λ id i n f.
              Moved-same id (creates j) i st'
                (rw e (rw (lookup-insert j.id id j m.store.jobs) (rw n f)));
        }

step-Keeps :
    (now : ℕ) (c : Call) (m : Manager)
    → AreKeyed m.store.jobs
    → Keeps c m.store (step now c m).store
unfolding step check_worker_health
step-Keeps now (creates j) m h = create_job-Keeps j m h
step-Keeps now (activates t w k d) m h = Follows-Keeps _ _ _ (activate_jobs-Follows now t w k d m h)
step-Keeps now (completes id vs) m h =
    Follows-Keeps _ _ _ (Effect-Follows _ _ _ h (complete_job-Effect now id vs m h))
step-Keeps now (completes_with_error id c e) m h =
    Follows-Keeps _ _ _
      (Effect-Follows _ _ _ h (complete_job_with_bpmn_error-Effect now id c e m h))
step-Keeps now (fails id r e b) m h =
    Follows-Keeps _ _ _ (Effect-Follows _ _ _ h (fail_job-Effect now id r e b m h))
step-Keeps now (throws id c e vs) m h =
    Follows-Keeps _ _ _ (Effect-Follows _ _ _ h (throw_error-Effect now id c e vs m h))
step-Keeps now (sets_retries id r) m h =
    Follows-Keeps _ _ _ (Effect-Follows _ _ _ h (update_job_retries-Effect now id r m h))
step-Keeps now (cancels id) m h =
    Follows-Keeps _ _ _ (Effect-Follows _ _ _ h (cancel_job-Effect now id m h))
step-Keeps now (sets_timeout id d) m h =
    Follows-Keeps _ _ _ (Effect-Follows _ _ _ h (update_job_timeout-Effect now id d m h))
step-Keeps now (throws_job_error id c e vs) m h =
    Follows-Keeps _ _ _ (Effect-Follows _ _ _ h (throw_job_error-Effect id c e vs m h))
step-Keeps now cleans_up m h = Follows-Keeps _ _ _ (perform_cleanup-Follows now m h)
step-Keeps now checks_workers m h = Follows-Keeps _ _ _ (Follows-same checks_workers m.store h)

run-AreKeyed :
    (cs : List (ℕ × Call)) (m : Manager) → AreKeyed m.store.jobs → AreKeyed (run cs m).store.jobs
unfolding run
run-AreKeyed [] m h = h
run-AreKeyed ((now, c) ∷ cs) m h = run-AreKeyed cs (step now c m) (step-Keeps now c m h).kept

-- After any calls on a manager over a keyed store, the next call keeps every job in the store and
-- moves its status only in the way of that call, as `moves` has it; a call that files a new job
-- under the same id is left aside.
pub step-Moved :
    (st : JobStore) (cs : List (ℕ × Call)) (now : ℕ) (c : Call) (id : String) (j : Job)
    → AreKeyed st.jobs
    → files id c ≡ false
    → lookup id (run cs (new_job_manager st)).store.jobs ≡ some j
    → Moved id c j.status (step now c (run cs (new_job_manager st))).store
unfolding new_job_manager
step-Moved st cs now c id j h n e =
    (step-Keeps now c (run cs (new_job_manager st))
        (run-AreKeyed cs (new_job_manager st) h)).step_moved
      id j n e

-- The job of the id is there with the status.
abbrev pub HasStatus : String → JobStatus → Manager → Type 0
HasStatus id s m = (j : Job) × (lookup id m.store.jobs ≡ some j) × (j.status ≡ s)

-- A status that no call of a run can leave stays.
run-HasStatus :
    (id : String) (s : JobStatus) (q : Call → Bool) (cs : List (ℕ × Call)) (m : Manager)
    → ((c : Call) (t : JobStatus) → q c ≡ false → moves id c s t ≡ true → t ≡ s)
    → ((c : Call) → q c ≡ false → files id c ≡ false)
    → All (λ (e : ℕ × Call). q (e.1) ≡ false) cs
    → AreKeyed m.store.jobs
    → HasStatus id s m
    → HasStatus id s (run cs m)
unfolding run
run-HasStatus id s q [] m f g a h v = v
run-HasStatus id s q ((now, c) ∷ cs) m f g (p, a) h (j, e, t) =
    let k = step-Keeps now c m h in
    let (j', e', w) = k.step_moved id j (g c p) e in
    run-HasStatus id s q cs (step now c m) f g a k.kept
      (j', e', f c j'.status p (subst (λ x. moves id c x j'.status ≡ true) t w))

-- The calls on a job that may write it whatever its status is.
abbrev pub overrides : String → Call → Bool
overrides id (creates j) = str_eq j.id id
overrides id (completes_with_error k _ _) = str_eq k id
overrides id (fails k _ _ _) = str_eq k id
overrides id (throws_job_error k _ _ _) = str_eq k id
overrides id c = false

overrides-files : (id : String) (c : Call) → overrides id c ≡ false → files id c ≡ false
overrides-files id c h = ground (arith, h)

completed_rests :
    (id : String) (c : Call) (t : JobStatus)
    → overrides id c ≡ false
    → moves id c completed t ≡ true
    → t ≡ completed
completed_rests id c t h e = ground (arith, h, e)

-- A completed job stays completed over any calls that are not a new job of its id, a failure or an
-- error reported for it: no activation, cleanup, cancellation or change of retries opens it again.
-- The store must be keyed at the start.
pub completed_stays :
    (st : JobStore) (cs : List (ℕ × Call)) (id : String)
    → AreKeyed st.jobs
    → All (λ (e : ℕ × Call). overrides id e.1 ≡ false) cs
    → HasStatus id completed (new_job_manager st)
    → HasStatus id completed (run cs (new_job_manager st))
unfolding new_job_manager
completed_stays st cs id h a v =
    run-HasStatus id completed (overrides id) cs (new_job_manager st) (completed_rests id)
      (overrides-files id) a h v

-- The calls that can take a job out of `deferred`.
abbrev pub undefers : String → Call → Bool
undefers id (cancels k) = str_eq k id
undefers id c = overrides id c

undefers-files : (id : String) (c : Call) → undefers id c ≡ false → files id c ≡ false
undefers-files id c h = ground (arith, h)

deferred_rests :
    (id : String) (c : Call) (t : JobStatus)
    → undefers id c ≡ false
    → moves id c deferred t ≡ true
    → t ≡ deferred
deferred_rests id c t h e = ground (arith, h, e)

-- A deferred job stays deferred over any calls but a new job of its id, a failure, an error or a
-- cancellation of it: no activation, no cleanup and no change of its retries takes it up again,
-- whatever the time. The store must be keyed at the start.
pub deferred_stays :
    (st : JobStore) (cs : List (ℕ × Call)) (id : String)
    → AreKeyed st.jobs
    → All (λ (e : ℕ × Call). undefers id e.1 ≡ false) cs
    → HasStatus id deferred (new_job_manager st)
    → HasStatus id deferred (run cs (new_job_manager st))
unfolding new_job_manager
deferred_stays st cs id h a v =
    run-HasStatus id deferred (undefers id) cs (new_job_manager st) (deferred_rests id)
      (undefers-files id) a h v
