-- ===== src/Jobs/Errors.antt =====
-- What a call of the job manager leaves when it returns an error (src/jobs/manager.go).
use atom_engine.Base.{ℕ, ◌≡◌, refl, if◌then◌else◌, Bool, true, false, not, ◌&&◌}
use atom_engine.Jobs.{Job, JobStore, Error, Result, ok, err, running, same_status, is_completed}
use atom_engine.Jobs.Manager.{
  Manager, with_job, saved, create_job, complete_job, complete_job_with_bpmn_error, fail_job,
  throw_error, update_job_retries, cancel_job, update_job_timeout, throw_job_error, is_some,
}
use atom_engine.Jobs.Calls.{
  Call, step, creates, activates, completes, completes_with_error, fails, throws, sets_retries,
  cancels, sets_timeout, throws_job_error, cleans_up, checks_workers,
}

-- What a call on one job answers; the other calls return no error of their own.
unfoldable pub answer : ℕ → Call → Manager → Result (Unit {0})
answer now (creates j) m = (create_job j m).1
answer now (activates t w k d) m = ok tt
answer now (completes id vs) m = (complete_job now id vs m).1
answer now (completes_with_error id c e) m = (complete_job_with_bpmn_error now id c e m).1
answer now (fails id r e b) m = (fail_job now id r e b m).1
answer now (throws id c e vs) m = (throw_error now id c e vs m).1
answer now (sets_retries id r) m = (update_job_retries now id r m).1
answer now (cancels id) m = (cancel_job now id m).1
answer now (sets_timeout id d) m = (update_job_timeout now id d m).1
answer now (throws_job_error id c e vs) m = (throw_job_error id c e vs m).1
answer now cleans_up m = ok tt
answer now checks_workers m = ok tt

module _ (m : Manager) (x : Error) where
  -- A call that fails with the error has left the manager alone.
  abbrev IsAtomic : Manager × Result (Unit {0}) → Type 0
  IsAtomic r = r.1 ≡ err x → r.0 ≡ m

  with_job-IsAtomic :
      (r : Result Job) (k : Job → Manager × Result (Unit {0}))
      → ((j : Job) → IsAtomic (k j))
      → IsAtomic (with_job m r k)
  unfolding with_job
  with_job-IsAtomic (err y) k h = λ _. refl
  with_job-IsAtomic (ok j) k h = h j

  saved-IsAtomic : (r : Result JobStore) (k : Manager → Manager) → IsAtomic (saved m r k)
  unfolding saved
  saved-IsAtomic (err y) k = λ _. refl
  saved-IsAtomic (ok st) k = λ e. cc

  if-IsAtomic :
      (b : Bool) (r s : Manager × Result (Unit {0}))
      → IsAtomic r
      → IsAtomic s
      → IsAtomic (if b then r else s)
  if-IsAtomic true r s h k = h
  if-IsAtomic false r s h k = k

-- A call on one job that returns an error changes nothing: no job, no worker, and no message is
-- sent.
pub step-answer :
    (now : ℕ) (c : Call) (m : Manager) (x : Error) → answer now c m ≡ err x → step now c m ≡ m
unfolding answer step create_job complete_job complete_job_with_bpmn_error fail_job throw_error
    update_job_retries cancel_job update_job_timeout throw_job_error
step-answer now (creates j) m x = saved-IsAtomic m x _ _
step-answer now (activates t w k d) m x = λ e. cc
step-answer now (completes id vs) m x = with_job-IsAtomic m x _ _ λ j.
    if-IsAtomic m x (not (same_status j.status running)) _ _ (λ _. refl) (saved-IsAtomic m x _ _)
step-answer now (completes_with_error id c e) m x =
    with_job-IsAtomic m x _ _ λ j. saved-IsAtomic m x _ _
step-answer now (fails id r e b) m x = with_job-IsAtomic m x _ _ λ j. saved-IsAtomic m x _ _
step-answer now (throws id c e vs) m x = with_job-IsAtomic m x _ _ λ j. saved-IsAtomic m x _ _
step-answer now (sets_retries id r) m x = with_job-IsAtomic m x _ _ λ j. saved-IsAtomic m x _ _
step-answer now (cancels id) m x =
    with_job-IsAtomic m x _ _
      λ j. if-IsAtomic m x (is_completed j) _ _ (λ _. refl) (saved-IsAtomic m x _ _)
step-answer now (sets_timeout id d) m x = with_job-IsAtomic m x _ _ λ j.
    if-IsAtomic m x (same_status j.status running && is_some j.scheduled_at) _ _
      (saved-IsAtomic m x _ _) (λ _. refl)
step-answer now (throws_job_error id c e vs) m x =
    with_job-IsAtomic m x _ _ λ j. saved-IsAtomic m x _ _
step-answer now cleans_up m x = λ e. cc
step-answer now checks_workers m x = λ e. cc
