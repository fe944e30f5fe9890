-- ===== src/Jobs/Manager.antt =====
-- The operations of the job manager (src/jobs/manager.go). Each takes the time of the call and the
-- manager, and returns the new manager with its result. The calls on one job run one at a time.
pub mod Rules
use atom_engine.Base.{
  ℕ, suc, ◌+◌, ◌-◌, String, Bool, true, false, not, ◌&&◌, Option, none, some, List, [], ◌∷◌, ◌++◌,
  Dict, lookup, insert, merge, ltb, str_eq, if◌then◌else◌,
}
use Prim.Native.String.{◌++◌ as str_append}
use atom_engine.Token.{Value, text}
use atom_engine.Jobs.{
  Job, JobStore, Count, natural, negative, Result, ok, err, pending, running, failed, canceled,
  deferred, error_thrown, job_not_found, job_not_running, job_already_completed, same_status,
  is_positive, is_completed, can_retry, mark_as_completed, mark_as_error_thrown, get_job, save_job,
}

-- `ActiveJobs` is an `int` that no operation leaves below 0.
pub record WorkerInfo : Type 0 where
  pub id : String
  pub job_type : String
  pub last_ping : ℕ
  pub active_jobs : ℕ
  pub max_jobs : ℕ
  pub timeout : ℕ

pub data CallbackStatus : Type 0 where
  completed_status failed_status error_thrown_status : CallbackStatus

pub record JobCallback : Type 0 where
  pub job_id : String
  pub element_id : String
  pub token_id : String
  pub process_instance_id : String
  pub status : CallbackStatus
  pub variables : Option (Dict Value)
  pub error_message : String
  pub error_code : String
  pub completed_at : ℕ

-- What the manager sends to the process component. `ThrowJobError` writes a message of its own.
pub data Message : Type 0 where
  callback : JobCallback → Message
  bpmn_error : String → String → String → String → String → Dict Value → Message

-- `sent` is what `SendJobCallback` was called with, the oldest first.
pub record Manager : Type 0 where
  pub store : JobStore
  pub workers : Dict WorkerInfo
  pub has_component : Bool
  pub sent : List Message

unfoldable pub send : Message → Manager → Manager
send c m = if m.has_component then record m { sent = m.sent ++ c ∷ [] } else m

-- Go on with the saved store, or stop with the manager as it is.
unfoldable pub saved : Manager → Result JobStore → (Manager → Manager) → Manager × Result (Unit {0})
saved m (err e) k = (m, err e)
saved m (ok st) k = (k (record m { store = st }), ok tt)

-- The test for nil.
abbrev pub job_or_missing : Result (Option Job) → Result Job
job_or_missing (err e) = err e
job_or_missing (ok none) = err job_not_found
job_or_missing (ok (some j)) = ok j

-- `GetJob` and the test.
unfoldable pub find_job : String → JobStore → Result Job
find_job id st = job_or_missing (get_job id st)

-- Run an operation on the job of an id.
unfoldable pub with_job :
    Manager → Result Job → (Job → Manager × Result (Unit {0})) → Manager × Result (Unit {0})
with_job m (err e) k = (m, err e)
with_job m (ok j) k = k j

-- `delta` below zero is subtracted, and the count stops at 0.
abbrev pub shift : ℕ → Count → ℕ
shift n (natural d) = n + d
shift n (negative d) = n - suc d

unfoldable pub update_worker_active_jobs : String → Count → Dict WorkerInfo → Dict WorkerInfo
update_worker_active_jobs worker_id delta workers = elim (lookup worker_id workers) [
  | none ↦ workers
  | some w ↦ insert worker_id (record w { active_jobs = shift w.active_jobs delta }) workers
]

unfoldable pub release_worker : String → Manager → Manager
release_worker worker_id m = record m {
  workers = update_worker_active_jobs worker_id (negative 0) m.workers;
}

abbrev pub registered : String → String → Option WorkerInfo → WorkerInfo
registered worker_id job_type (some w) = w
registered worker_id job_type none = record {
  id = worker_id;
  job_type = job_type;
  last_ping = 0;
  active_jobs = 0;
  max_jobs = 0;
  timeout = 0;
}

unfoldable pub register_worker : ℕ → String → String → ℕ → ℕ → Dict WorkerInfo → Dict WorkerInfo
register_worker now worker_id job_type max_jobs timeout workers =
    insert worker_id
      (record (registered worker_id job_type (lookup worker_id workers)) {
        last_ping = now;
        job_type = job_type;
        max_jobs = max_jobs;
        timeout = timeout;
      })
      workers

unfoldable pub create_job : Job → Manager → Manager × Result (Unit {0})
create_job j m = saved m (save_job j m.store) (λ m'. m')

abbrev pub given : Option (Dict Value) → Dict Value → Dict Value
given none vs = vs
given (some new) vs = merge new vs

unfoldable pub complete_job :
    ℕ → String → Option (Dict Value) → Manager → Manager × Result (Unit {0})
unfolding find_job
complete_job now job_id variables m = with_job m (find_job job_id m.store) λ job.
    if not (same_status job.status running)
    then (m, err job_not_running)
    else let done =
        mark_as_completed now (record job { variables = given variables job.variables }) in
      saved m (save_job done m.store) λ m'.
        send
          (callback (record {
            job_id = job.id;
            element_id = job.element_id;
            token_id = job.token_id;
            process_instance_id = job.process_instance_id;
            status = completed_status;
            variables = variables;
            error_message = "";
            error_code = "";
            completed_at = now;
          }))
          (release_worker job.worker_id m')

-- A job that is not running is logged, and completed all the same.
unfoldable pub complete_job_with_bpmn_error :
    ℕ → String → String → String → Manager → Manager × Result (Unit {0})
unfolding find_job
complete_job_with_bpmn_error now job_id error_code error_message m =
    with_job m (find_job job_id m.store) λ job.
      saved m (save_job (mark_as_error_thrown now error_code error_message job) m.store)
        λ m'. release_worker job.worker_id m'

-- The job as `FailJob` saves it.
unfoldable pub failed_job : ℕ → Count → String → ℕ → Job → Job
failed_job now retries error_message retry_backoff job =
    let job' = record job {
      status = failed;
      error_message = error_message;
      retries = retries;
      completed_at = some now;
      updated_at = now;
    } in
    if can_retry job' && ltb 0 retry_backoff
    then record job' { status = deferred; scheduled_at = some (now + retry_backoff) }
    else job'

unfoldable pub fail_job : ℕ → String → Count → String → ℕ → Manager → Manager × Result (Unit {0})
unfolding find_job failed_job can_retry
fail_job now job_id retries error_message retry_backoff m =
    with_job m (find_job job_id m.store) λ job.
      saved m (save_job (failed_job now retries error_message retry_backoff job) m.store) λ m'.
        if is_positive retries
        then release_worker job.worker_id m'
        else send
            (callback (record {
              job_id = job.id;
              element_id = job.element_id;
              token_id = job.token_id;
              process_instance_id = job.process_instance_id;
              status = failed_status;
              variables = none;
              error_message = error_message;
              error_code = "";
              completed_at = now;
            }))
            (release_worker job.worker_id m')

-- The status stays as it is: the process engine decides after it has looked at boundary events.
unfoldable pub throw_error :
    ℕ → String → String → String → Dict Value → Manager → Manager × Result (Unit {0})
unfolding find_job
throw_error now job_id error_code error_message variables m =
    with_job m (find_job job_id m.store) λ job.
      let vars =
        insert "errorMessage" (text error_message)
          (insert "errorCode" (text error_code) (merge variables job.variables)) in
      let job' = record job {
        variables = vars;
        metadata = insert "errorType" "BPMN_ERROR" (insert "errorCode" error_code job.metadata);
      } in
      saved m (save_job job' m.store) λ m'.
        send
          (callback (record {
            job_id = job.id;
            element_id = job.element_id;
            token_id = job.token_id;
            process_instance_id = "";
            status = error_thrown_status;
            variables = some vars;
            error_message = error_message;
            error_code = error_code;
            completed_at = now;
          }))
          m'

unfoldable pub retried_job : ℕ → Count → Job → Job
retried_job now retries job =
    let job' = record job { retries = retries; updated_at = now } in
    if same_status job.status failed && is_positive retries
    then record job' { status = pending; error_message = ""; completed_at = none }
    else job'

unfoldable pub update_job_retries : ℕ → String → Count → Manager → Manager × Result (Unit {0})
unfolding find_job retried_job
update_job_retries now job_id retries m =
    with_job m (find_job job_id m.store)
      λ job. saved m (save_job (retried_job now retries job) m.store) (λ m'. m')

unfoldable pub cancel_job : ℕ → String → Manager → Manager × Result (Unit {0})
unfolding find_job is_completed
cancel_job now job_id m = with_job m (find_job job_id m.store) λ job.
    if is_completed job
    then (m, err job_already_completed)
    else let job' = record job { status = canceled; updated_at = now; completed_at = some now } in
      saved m (save_job job' m.store)
        λ m'. if str_eq job.worker_id "" then m' else release_worker job.worker_id m'

abbrev pub is_some {ℓ} : {A : Type ℓ} → Option A → Bool
is_some none = false
is_some (some a) = true

unfoldable pub update_job_timeout : ℕ → String → ℕ → Manager → Manager × Result (Unit {0})
unfolding find_job
update_job_timeout now job_id timeout m = with_job m (find_job job_id m.store) λ job.
    if same_status job.status running && is_some job.scheduled_at
    then saved m
        (save_job (record job { scheduled_at = some (now + timeout); updated_at = now }) m.store)
        (λ m'. m')
    else (m, ok tt)

-- The source would panic on a job whose variables are nil; a job of the model has a map.
unfoldable pub throw_job_error :
    String → String → String → Option (Dict Value) → Manager → Manager × Result (Unit {0})
unfolding find_job
throw_job_error job_id error_code error_message variables m =
    with_job m (find_job job_id m.store) λ job.
      let vars =
        insert "__error_message" (text error_message)
          (insert "__error_code" (text error_code) (given variables job.variables)) in
      let job' = record job {
        status = error_thrown;
        error_message =
            str_append "BPMN Error " (str_append error_code (str_append ": " error_message));
        variables = vars;
      } in
      saved m (save_job job' m.store)
        λ m'. send (bpmn_error job_id job.element_id job.token_id error_code error_message vars) m'
